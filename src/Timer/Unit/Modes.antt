-- ===== src/Timer/Unit/Modes.antt =====
-- The choice of the clock and of the waveform generation mode, and the reset (src/hwtimer/hwtimer.cpp).
use simulavr.Prelude.{ℕ, true, false, not, ◌==◌}
use simulavr.Timer.Unit.{
  BasicTimerUnit, OutputCompare, WgmType, normal, pcpwm_8bit, pcpwm_9bit, pcpwm_10bit, ctc_ocra,
  fastpwm_8bit, fastpwm_9bit, fastpwm_10bit, pfcpwm_icr, pfcpwm_ocra, pcpwm_icr, pcpwm_ocra,
  ctc_icr, reserved, fastpwm_icr, fastpwm_ocra, com_noop, WgmFunc, func_noop, func_normal, func_ctc,
  func_fastpwm, func_pcpwm, func_pfcpwm, set_compare_output_mode,
}

-- `SetClockMode`.
unfoldable pub set_clock_mode : ℕ → BasicTimerUnit → BasicTimerUnit
set_clock_mode mode u = record u { cs = mode; cycled = not (mode == 0) }

-- `SetCounter`.
unfoldable pub set_counter : ℕ → BasicTimerUnit → BasicTimerUnit
set_counter val u = record u { vtcnt = val; vlast_tcnt = 0x1_0000 }

-- The reset of one compare unit: its mode is set while the pin still shows the old state.
abbrev pub reset_unit : OutputCompare → OutputCompare
reset_unit o =
    let o' = set_compare_output_mode com_noop (record o { compare_dbl = 0; compare = 0 }) in
    record o' { compare_output_state = false }

-- `BasicTimerUnit::Reset`.
unfoldable pub reset : BasicTimerUnit → BasicTimerUnit
unfolding set_compare_output_mode set_clock_mode
reset u =
    let u' = set_clock_mode 0 (record u {
      vtcnt = 0;
      limit_bottom = 0;
      limit_top = u.limit_max;
      vlast_tcnt = u.limit_max;
      unit_a = reset_unit u.unit_a;
      unit_b = reset_unit u.unit_b;
      unit_c = reset_unit u.unit_c;
    }) in
    record u' {
      updown_counting = false;
      count_down = false;
      wgm = normal;
      icap_rising_edge = false;
      icap_noise_canceler = false;
    }

-- The tables of the constructors of `HWTimer8` and `HWTimer16`.
abbrev pub wgmfunc_8 : WgmType → WgmFunc
wgmfunc_8 normal = func_normal
wgmfunc_8 ctc_ocra = func_ctc
wgmfunc_8 fastpwm_8bit = func_fastpwm
wgmfunc_8 pcpwm_8bit = func_pcpwm
wgmfunc_8 _ = func_noop

abbrev pub wgmfunc_16 : WgmType → WgmFunc
wgmfunc_16 normal = func_normal
wgmfunc_16 ctc_ocra = func_ctc
wgmfunc_16 ctc_icr = func_ctc
wgmfunc_16 fastpwm_8bit = func_fastpwm
wgmfunc_16 fastpwm_9bit = func_fastpwm
wgmfunc_16 fastpwm_10bit = func_fastpwm
wgmfunc_16 fastpwm_ocra = func_fastpwm
wgmfunc_16 fastpwm_icr = func_fastpwm
wgmfunc_16 pcpwm_8bit = func_pcpwm
wgmfunc_16 pcpwm_9bit = func_pcpwm
wgmfunc_16 pcpwm_10bit = func_pcpwm
wgmfunc_16 pcpwm_ocra = func_pcpwm
wgmfunc_16 pcpwm_icr = func_pcpwm
wgmfunc_16 pfcpwm_ocra = func_pfcpwm
wgmfunc_16 pfcpwm_icr = func_pfcpwm
wgmfunc_16 reserved = func_noop

-- The modes of `ChangeWGM`: the counter goes up, or up and down.
abbrev pub up_to : ℕ → BasicTimerUnit → BasicTimerUnit
up_to top u = record u { limit_top = top; updown_counting = false }

abbrev pub updown_to : ℕ → BasicTimerUnit → BasicTimerUnit
updown_to top u = record u { limit_top = top; updown_counting = true; count_down = false }

-- `HWTimer8::ChangeWGM`.
abbrev limits_8 : WgmType → BasicTimerUnit → BasicTimerUnit
limits_8 normal u = up_to u.limit_max u
limits_8 ctc_ocra u = up_to u.unit_a.compare u
limits_8 fastpwm_8bit u = up_to u.limit_max u
limits_8 pcpwm_8bit u = updown_to u.limit_max u
limits_8 _ u = u

unfoldable pub change_wgm_8 : WgmType → BasicTimerUnit → BasicTimerUnit
change_wgm_8 mode u = limits_8 mode (record u { wgm = mode })

-- `HWTimer16::ChangeWGM`.
abbrev limits_16 : WgmType → BasicTimerUnit → BasicTimerUnit
limits_16 normal u = up_to u.limit_max u
limits_16 ctc_ocra u = up_to u.unit_a.compare u
limits_16 ctc_icr u = up_to u.icap_register u
limits_16 fastpwm_8bit u = up_to 0xff u
limits_16 fastpwm_9bit u = up_to 0x1ff u
limits_16 fastpwm_10bit u = up_to 0x3ff u
limits_16 fastpwm_ocra u = up_to u.unit_a.compare u
limits_16 fastpwm_icr u = up_to u.icap_register u
limits_16 pcpwm_8bit u = updown_to 0xff u
limits_16 pcpwm_9bit u = updown_to 0x1ff u
limits_16 pcpwm_10bit u = updown_to 0x3ff u
limits_16 pcpwm_ocra u = updown_to u.unit_a.compare u
limits_16 pfcpwm_ocra u = updown_to u.unit_a.compare u
limits_16 pcpwm_icr u = updown_to u.icap_register u
limits_16 pfcpwm_icr u = updown_to u.icap_register u
limits_16 reserved u = u

unfoldable pub change_wgm_16 : WgmType → BasicTimerUnit → BasicTimerUnit
change_wgm_16 mode u = limits_16 mode (record u { wgm = mode })
