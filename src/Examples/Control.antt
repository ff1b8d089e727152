-- ===== src/Examples/Control.antt =====
-- Flags, the stack, jumps and the watchdog at concrete states.
use simulavr.Prelude.{◌+◌, ◌≡◌, refl, arith}
use simulavr.Prelude.{false, ◌==◌, if◌then◌else◌}
use simulavr.Prelude.Int.{pos}
use simulavr.Core.Device.{Device}
use simulavr.Core.Execute.Jump.{run_rcall, run_ret, relative, call_clocks}
use simulavr.Core.Execute.Jump.Calls.{CanReturn, rcall-CanReturn, ret-CanReturn}
use simulavr.Core.Result.{ok}
use simulavr.Periph.Wado.{Wado, set_wdtcr, cpu_cycle, reset}
use simulavr.Periph.Wado.Silence.{Reachable, here, after, written, reset-Silent}
use simulavr.Examples.{device, device-IsBounded, device-HasRoom}

rcall-CanReturn_example :
    (d' : Device) × (run_rcall (pos 3) device
      ≡ ok (d', pos (if device.flags.tiny10 then 4 else call_clocks device)))
    × (d'.pc ≡ (relative (pos 3) device).pc)
    × CanReturn 4 0x45d 0x460 d'
rcall-CanReturn_example =
    rcall-CanReturn (pos 3) 0x45d device refl device-IsBounded (device-HasRoom 2 (omega arith)) refl
      (omega arith)

-- In a subroutine that was called at the word 4.
abbrev called : Device
called = record device {
  pc = 8;
  cells = λ a. if a == 0x45e then 0 else if a == 0x45f then 5 else 0xaa;
  stack = record device.stack { stack_pointer = 0x45d };
}

called-CanReturn : CanReturn 4 0x45d 0x460 called
called-CanReturn = record {
  size = refl;
  at = record { pointer = refl; stack_end = refl };
  room = omega arith;
  ceiling = omega arith;
  held = record {
    high_byte = refl;
    low_byte = refl;
    in_ram = λ a low high. ground (arith, low, high);
  };
}

ret-CanReturn_example :
    (d' : Device) × (run_ret called ≡ ok (d', pos 4))
    × (d'.pc ≡ 4)
    × (d'.stack.stack_pointer ≡ 0x45d + 2)
    × (d'.cells ≡ called.cells)
ret-CanReturn_example = ret-CanReturn 4 0x45d 0x460 called (omega arith) called-CanReturn

-- A watchdog that is on, and would time out.
abbrev watchdog : Wado
watchdog = record { wdtcr = 0x0f; cnt_wde = 0; time_out_at = 1 }

-- After its reset the watchdog is to be enabled.
abbrev enabled : Wado
enabled = set_wdtcr 0x08 (set_wdtcr 0x18 (reset watchdog))

enabled-Reachable : Reachable (reset watchdog) enabled
enabled-Reachable = after (after here (written 0x18)) (written 0x08)

reset-Silent_example : (cpu_cycle 9_000_000_000 enabled).1 ≡ false
reset-Silent_example = reset-Silent watchdog enabled enabled-Reachable 9_000_000_000
