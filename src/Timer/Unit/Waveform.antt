-- ===== src/Timer/Unit/Waveform.antt =====
-- The functions of the waveform generation modes (src/hwtimer/hwtimer.cpp).
use simulavr.Prelude.{ℕ, bit_and, Bool, true, false, not, ◌&&◌, if◌then◌else◌}
use simulavr.Timer.Unit.{
  BasicTimerUnit, WgmType, pcpwm_8bit, pcpwm_9bit, pcpwm_10bit, fastpwm_8bit, fastpwm_9bit,
  fastpwm_10bit, fastpwm_icr, fastpwm_ocra, pcpwm_icr, pcpwm_ocra, pfcpwm_icr, pfcpwm_ocra, is_wgm,
  Event, top_reached, max_reached, bottom_reached, compare_1, compare_2, compare_3, OcrIdx, ocr_a,
  ocr_b, ocr_c, WgmFunc, func_noop, func_normal, func_ctc, func_fastpwm, func_pcpwm, func_pfcpwm,
  overflow, capture, compared, compare_unit, at_unit, fire_if, set_compare_output,
  set_pwm_compare_output, toggles,
}

-- The events of the compare units.
abbrev pub is_compare : Event → Bool
is_compare compare_1 = true
is_compare compare_2 = true
is_compare compare_3 = true
is_compare _ = false

-- A compare match of unit `i`, in a mode without PWM.
unfoldable pub matched : OcrIdx → BasicTimerUnit → BasicTimerUnit
unfolding set_compare_output
matched i u =
    let on = (compare_unit i u).has_line in
    at_unit i (λ o. if on then set_compare_output o else o) (fire_if on (compared i) u)

-- `SetPWMCompareOutput` of unit `i`, if a condition holds.
abbrev pub pwm_output : Bool → OcrIdx → Bool → BasicTimerUnit → BasicTimerUnit
pwm_output on i top_or_down u =
    at_unit i (λ o. if on then set_pwm_compare_output (toggles u.wgm i) top_or_down o else o) u

-- A compare match of unit `i`, in a mode with PWM.
unfoldable pub pwm_matched : Bool → OcrIdx → Bool → BasicTimerUnit → BasicTimerUnit
unfolding set_pwm_compare_output
pwm_matched allowed i top_or_down u =
    let on = (compare_unit i u).has_line && allowed in
    pwm_output on i top_or_down (fire_if on (compared i) u)

-- The interrupts of the modes with OCRA or ICR as top value.
abbrev pub fire_top : WgmType → WgmType → BasicTimerUnit → BasicTimerUnit
fire_top by_ocra by_icr u =
    fire_if (is_wgm by_icr u.wgm && u.has_capture) capture
      (fire_if (is_wgm by_ocra u.wgm && u.unit_a.has_line) (compared ocr_a) u)

-- The compare value of unit A that comes from the double buffer.
abbrev pub masked : WgmType → WgmType → WgmType → WgmType → ℕ → ℕ
masked by_8bit by_9bit by_10bit wgm dbl =
    if is_wgm by_8bit wgm
    then bit_and dbl 0xff
    else if is_wgm by_9bit wgm
    then bit_and dbl 0x1ff
    else if is_wgm by_10bit wgm
    then bit_and dbl 0x3ff
    else dbl

-- The loop that updates the OC registers. With OCRA as top value, unit A gives the top value.
abbrev pub update_ocr : Bool → (ℕ → ℕ) → BasicTimerUnit → BasicTimerUnit
update_ocr by_ocra mask u = record u {
  limit_top = if by_ocra then u.unit_a.compare_dbl else u.limit_top;
  unit_a = record u.unit_a {
    compare = if by_ocra then u.unit_a.compare else mask u.unit_a.compare_dbl;
  };
  unit_b = record u.unit_b { compare = u.unit_b.compare_dbl };
  unit_c = record u.unit_c { compare = u.unit_c.compare_dbl };
}

-- `WGMfunc_normal`.
unfoldable pub wgmfunc_normal : Event → BasicTimerUnit → BasicTimerUnit
unfolding matched
wgmfunc_normal max_reached u = fire_if true overflow u
wgmfunc_normal compare_1 u = matched ocr_a u
wgmfunc_normal compare_2 u = matched ocr_b u
wgmfunc_normal compare_3 u = matched ocr_c u
wgmfunc_normal _ u = u

-- `WGMfunc_ctc`.
unfoldable pub wgmfunc_ctc : Event → BasicTimerUnit → BasicTimerUnit
unfolding matched
wgmfunc_ctc max_reached u = fire_if true overflow u
wgmfunc_ctc top_reached u = record u { vtcnt = u.limit_bottom }
wgmfunc_ctc compare_1 u = matched ocr_a u
wgmfunc_ctc compare_2 u = matched ocr_b u
wgmfunc_ctc compare_3 u = matched ocr_c u
wgmfunc_ctc _ u = u

-- `WGMfunc_fastpwm`.
unfoldable pub wgmfunc_fastpwm : Event → BasicTimerUnit → BasicTimerUnit
unfolding set_pwm_compare_output pwm_matched
wgmfunc_fastpwm top_reached u =
    let u1 = fire_top fastpwm_ocra fastpwm_icr (fire_if true overflow u) in
    let u2 =
      pwm_output true ocr_c true (pwm_output true ocr_b true (pwm_output true ocr_a true u1)) in
    record u2 { vtcnt = u.limit_bottom }
wgmfunc_fastpwm bottom_reached u =
    update_ocr (is_wgm fastpwm_ocra u.wgm) (masked fastpwm_8bit fastpwm_9bit fastpwm_10bit u.wgm) u
wgmfunc_fastpwm compare_1 u = pwm_matched (not (is_wgm fastpwm_ocra u.wgm)) ocr_a false u
wgmfunc_fastpwm compare_2 u = pwm_matched true ocr_b false u
wgmfunc_fastpwm compare_3 u = pwm_matched true ocr_c false u
wgmfunc_fastpwm max_reached u = u

-- `WGMfunc_pcpwm`.
unfoldable pub wgmfunc_pcpwm : Event → BasicTimerUnit → BasicTimerUnit
unfolding set_pwm_compare_output pwm_matched
wgmfunc_pcpwm top_reached u =
    let by_ocra = is_wgm pcpwm_ocra u.wgm in
    pwm_output by_ocra ocr_a false (
      update_ocr by_ocra (masked pcpwm_8bit pcpwm_9bit pcpwm_10bit u.wgm)
        (fire_top pcpwm_ocra pcpwm_icr u))
wgmfunc_pcpwm bottom_reached u = fire_if true overflow u
wgmfunc_pcpwm compare_1 u = pwm_matched (not (is_wgm pcpwm_ocra u.wgm)) ocr_a u.count_down u
wgmfunc_pcpwm compare_2 u = pwm_matched true ocr_b u.count_down u
wgmfunc_pcpwm compare_3 u = pwm_matched true ocr_c u.count_down u
wgmfunc_pcpwm max_reached u = u

-- `WGMfunc_pfcpwm`.
unfoldable pub wgmfunc_pfcpwm : Event → BasicTimerUnit → BasicTimerUnit
unfolding set_pwm_compare_output pwm_matched
wgmfunc_pfcpwm top_reached u =
    pwm_output (is_wgm pfcpwm_ocra u.wgm) ocr_a false (fire_top pfcpwm_ocra pfcpwm_icr u)
wgmfunc_pfcpwm bottom_reached u =
    update_ocr (is_wgm pfcpwm_ocra u.wgm) (λ dbl. dbl) (fire_if true overflow u)
wgmfunc_pfcpwm compare_1 u = pwm_matched (not (is_wgm pfcpwm_ocra u.wgm)) ocr_a u.count_down u
wgmfunc_pfcpwm compare_2 u = pwm_matched true ocr_b u.count_down u
wgmfunc_pfcpwm compare_3 u = pwm_matched true ocr_c u.count_down u
wgmfunc_pfcpwm max_reached u = u

-- A call of a function of the table.
abbrev pub call : WgmFunc → Event → BasicTimerUnit → BasicTimerUnit
call func_noop event u = u
call func_normal event u = wgmfunc_normal event u
call func_ctc event u = wgmfunc_ctc event u
call func_fastpwm event u = wgmfunc_fastpwm event u
call func_pcpwm event u = wgmfunc_pcpwm event u
call func_pfcpwm event u = wgmfunc_pfcpwm event u

-- `HandleEvent`.
unfoldable pub handle_event : Event → BasicTimerUnit → BasicTimerUnit
unfolding wgmfunc_normal wgmfunc_ctc wgmfunc_fastpwm wgmfunc_pcpwm wgmfunc_pfcpwm
handle_event event u = call (u.wgmfunc u.wgm) event u
