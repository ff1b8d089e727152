-- ===== src/Examples/Timers.antt =====
-- A prescaler with reset bit 0 and synchronisation bit 7, like that of the ATmega168 (src/hwtimer).
use simulavr.Prelude.{◌≡◌, refl, arith, true, some}
use simulavr.Core.Result.{ok}
use simulavr.Timer.Prescaler.{HwPrescaler, is_clock, divides}
use simulavr.Timer.Prescaler.Count.{cycles, is_clock-divides}

abbrev running : HwPrescaler
running = record {
  reset_bit = some 0;
  reset_sync_bit = some 7;
  pre_scale_value = 1000;
  count_enable = true;
}

is_clock-divides_example : is_clock 4 (cycles 100 running).pre_scale_value ≡ ok (divides 64 1100)
is_clock-divides_example =
    is_clock-divides 100 4 running refl (omega arith) (omega arith) (omega arith)
