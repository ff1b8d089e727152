-- ===== src/Examples/Counting.antt =====
-- Runs of a timer with 8 bits and one with 16 bits (src/hwtimer/hwtimer.cpp).
use simulavr.Prelude.{ℕ, ◌≡◌, refl, arith, true, false, inl, inr, [], Bool}
use simulavr.Timer.Unit.{
  BasicTimerUnit, OutputCompare, normal, pcpwm_8bit, com_toggle, WgmType, wgm_code, wgm_use_icr,
}
use simulavr.Timer.Unit.Modes.{wgmfunc_8, wgmfunc_16, change_wgm_8}
use simulavr.Timer.Unit.Counter.{counter, overflows_in}
use simulavr.Timer.Unit.Refine.Ticks.{counts, ticks, counts-counter}
use simulavr.Timer.Unit.Sawtooth.{by_normal, counts-sawtooth}
use simulavr.Timer.Unit.Triangle.{by_pcpwm, counts-triangle}
use simulavr.Timer.Unit.Runaway.{counts-runaway}
use simulavr.Timer.Unit.Noise.{samples, samples-canceled}
use simulavr.Timer.Timer8.{wgm_2c}
use simulavr.Timer.Timer8.Silent.{counts-silent}
use simulavr.Timer.Timer16.{HwTimer16}
use simulavr.Timer.Timer16.Words.{tcnt_written, tcnt_read, tcnt_read-tcnt_written}
use simulavr.Timer.Timer16.Control.{set_tccra_3c, set_tccrb_3c}
use simulavr.Timer.Timer16.Select.{set_tccr-wgm}

abbrev channel : OutputCompare
channel = record {
  compare = 100;
  compare_dbl = 100;
  compare_enable = true;
  com_mode = com_toggle;
  has_line = true;
  has_output = true;
  compare_output_state = false;
  use_alternate = true;
  alternate = false;
}

-- A timer with 8 bits in a mode, at a count.
abbrev timer_at : WgmType → Bool → ℕ → BasicTimerUnit
timer_at mode both v = record {
  cs = 1;
  cycled = true;
  capture_input_state = false;
  icap_nc_counter = 0;
  icap_nc_state = false;
  has_capture = true;
  vtcnt = v;
  vlast_tcnt = 0;
  updown_counting = both;
  count_down = false;
  limit_bottom = 0;
  limit_top = 0xff;
  limit_max = 0xff;
  icap_register = 0;
  has_source = true;
  icap_rising_edge = true;
  icap_noise_canceler = true;
  wgm = mode;
  wgmfunc = wgmfunc_8;
  unit_a = channel;
  unit_b = channel;
  unit_c = channel;
  fired = [];
}

abbrev wide : HwTimer16
wide = record {
  timer = record (timer_at normal false 0) {
    limit_top = 0xffff;
    limit_max = 0xffff;
    wgmfunc = wgmfunc_16;
  };
  access_temp_register = 0;
  at8515_mode = false;
  wgm_raw = 0;
  tccra_val = 0;
  tccrb_val = 0;
}

counts-counter_example :
    counter (counts 300 (timer_at pcpwm_8bit true 200))
    ≡ ticks 300 (counter (timer_at pcpwm_8bit true 200))
counts-counter_example = counts-counter 300 (timer_at pcpwm_8bit true 200)

counts-sawtooth_example :
    ((counts 773 (timer_at normal false 0)).vtcnt ≡ 5)
    × (overflows_in (counts 773 (timer_at normal false 0)).fired ≡ 3)
unfolding counter
counts-sawtooth_example =
    counts-sawtooth {top = 0xff} {w = 1} {k = 0} 3 5 (timer_at normal false 0)
      (record {
        mode = by_normal refl refl refl;
        upwards = refl;
        from_zero = refl;
        width = inl refl;
        reaches = omega arith;
        stands = refl;
        counted = refl;
      })
      (omega arith)

counts-triangle_example :
    ((counts 1320 (timer_at pcpwm_8bit true 0)).vtcnt ≡ 210)
    × (overflows_in (counts 1320 (timer_at pcpwm_8bit true 0)).fired ≡ 3)
unfolding counter
counts-triangle_example =
    counts-triangle {top = 0xff} {k = 0} 2 300 (timer_at pcpwm_8bit true 0)
      (record {
        mode = by_pcpwm refl refl;
        both_ways = refl;
        from_zero = refl;
        to_top = refl;
        width = omega arith;
        within = omega arith;
        direction = refl;
        stands = refl;
        counted = refl;
      })
      (omega arith)

counts-runaway_example : (counts 1000 (timer_at pcpwm_8bit true 255)).vtcnt ≡ 1255
unfolding counter
counts-runaway_example =
    counts-runaway {v = 255} 1000 (timer_at pcpwm_8bit true 255)
      (record {
        mode = by_pcpwm refl refl;
        both_ways = refl;
        upwards = refl;
        from_zero = refl;
        above_zero = omega arith;
        above_top = omega arith;
        stands = refl;
      })
      (omega arith)

samples-canceled_example :
    ((samples 5 true (timer_at normal false 77)).icap_register ≡ 0)
    × ((samples 5 true (timer_at normal false 77)).capture_input_state ≡ false)
    × ((samples 5 true (timer_at normal false 77)).fired ≡ [])
    × ((samples 6 true (timer_at normal false 77)).capture_input_state ≡ true)
    × ((samples 6 true (timer_at normal false 77)).icap_register ≡ 77)
unfolding wgm_use_icr
samples-canceled_example =
    samples-canceled 5 true (timer_at normal false 77)
      (record { source = refl; mode = refl; canceler = refl; seen = refl; state = refl })
      (omega arith)

counts-silent_example :
    ((counts 600 (change_wgm_8 (wgm_2c 7) (timer_at normal false 0))).fired ≡ [])
    × ((counts 600 (change_wgm_8 (wgm_2c 7) (timer_at normal false 0))).unit_a ≡ channel)
    × ((counts 600 (change_wgm_8 (wgm_2c 7) (timer_at normal false 0))).unit_b ≡ channel)
    × ((counts 600 (change_wgm_8 (wgm_2c 7) (timer_at normal false 0))).unit_c ≡ channel)
counts-silent_example = counts-silent 600 7 (timer_at normal false 0) refl (inr refl)

tcnt_read-tcnt_written_example :
    tcnt_read (counts 5) (tcnt_written (counts 3) 0x12 0xff wide) ≡ (0x12, 0xff)
tcnt_read-tcnt_written_example =
    tcnt_read-tcnt_written (counts 3) (counts 5) 0x12 0xff wide (omega arith) (omega arith)

set_tccr-wgm_example :
    (wgm_code (set_tccrb_3c 0x19 (set_tccra_3c 0x83 wide)).timer.wgm ≡ 15)
    × (wgm_code (set_tccra_3c 0x83 (set_tccrb_3c 0x19 wide)).timer.wgm ≡ 15)
set_tccr-wgm_example = set_tccr-wgm 0x83 0x19 wide (omega arith) (omega arith)
