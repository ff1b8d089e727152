-- ===== src/Timer/Unit/Capture.antt =====
-- Input capture, and the cycle of a timer (src/hwtimer/hwtimer.cpp). The level of the capture source
-- and of the clock pin come from outside.
use simulavr.Prelude.{ℕ, ◌+◌, Bool, not, ◌&&◌, ltb, if◌then◌else◌, xor}
use simulavr.Core.Result.{Result, ok, ◌>>=◌}
use simulavr.Timer.Prescaler.{is_clock, is_clock_ext}
use simulavr.Timer.Unit.{BasicTimerUnit, capture, fire_if, wgm_use_icr}
use simulavr.Timer.Unit.Count.{count_timer}

-- The noise canceler: the unit, and the level that goes on to the edge detector.
unfoldable pub cancel_noise : Bool → BasicTimerUnit → BasicTimerUnit × Bool
cancel_noise level u =
    if xor level u.icap_nc_state
    then (record u { icap_nc_counter = 0; icap_nc_state = level }, u.capture_input_state)
    else if ltb u.icap_nc_counter 4
    then (record u { icap_nc_counter = u.icap_nc_counter + 1 }, u.capture_input_state)
    else (u, level)

-- The edge detector: the edge that is chosen captures the counter and fires the interrupt.
unfoldable pub detect_edge : Bool → BasicTimerUnit → BasicTimerUnit
detect_edge level u =
    let edge = xor level u.capture_input_state && not (xor level u.icap_rising_edge) in
    let v = fire_if (edge && u.has_capture) capture u in
    record v {
      icap_register = if edge then u.vtcnt else u.icap_register;
      capture_input_state = level;
    }

-- `InputCapture`.
unfoldable pub input_capture : Bool → BasicTimerUnit → BasicTimerUnit
unfolding wgm_use_icr cancel_noise detect_edge
input_capture level u =
    if u.has_source && not (wgm_use_icr u.wgm)
    then (if u.icap_noise_canceler
        then (let r = cancel_noise level u in detect_edge (r.1) (r.0))
        else detect_edge level u)
    else u

-- `CpuCycle` with a `PrescalerMultiplexer`, where `pv` is the value of the prescaler.
unfoldable pub cpu_cycle : ℕ → Bool → BasicTimerUnit → Result BasicTimerUnit
unfolding count_timer input_capture is_clock
cpu_cycle pv level u = do
  tick ← is_clock u.cs pv
  ok (input_capture level (if tick then count_timer u else u))

-- `CpuCycle` with a `PrescalerMultiplexerExt`: the saved level of the clock pin, and the unit.
unfoldable pub cpu_cycle_ext :
    ℕ → Bool → Bool → Bool → BasicTimerUnit → Result (Bool × BasicTimerUnit)
unfolding count_timer input_capture is_clock_ext
cpu_cycle_ext pv pin old level u = do
  r ← is_clock_ext u.cs pv pin old
  ok (r.1, input_capture level (if r.0 then count_timer u else u))
