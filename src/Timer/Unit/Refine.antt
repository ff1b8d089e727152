-- ===== src/Timer/Unit/Refine.antt =====
-- What an event does to the counter of a timer, for each waveform generation mode of
-- src/hwtimer/hwtimer.cpp.
pub mod Ticks
use simulavr.Prelude.{
  ℕ, zero, suc, ◌+◌, ◌-◌, ◌%◌, bit_and, Bool, true, false, not, ltb, ◌==◌, if◌then◌else◌, ◌≡◌, refl,
  ap, ◌∙◌, arith, List, ◌∷◌,
}
use simulavr.Timer.Unit.{
  BasicTimerUnit, Event, top_reached, max_reached, bottom_reached, compare_1, compare_2, compare_3,
  is_wgm, fastpwm_ocra, pcpwm_ocra, pfcpwm_ocra, WgmFunc, func_noop, func_normal, func_ctc,
  func_fastpwm, func_pcpwm, func_pfcpwm, Line, overflow, capture, compared, OcrIdx, ocr_a, ocr_b,
  ocr_c, compare_unit, at_unit, fire_if, toggles, set_compare_output, set_pwm_compare_output,
  OutputCompare,
}
use simulavr.Timer.Unit.Waveform.{
  handle_event, call, matched, pwm_matched, wgmfunc_normal, wgmfunc_ctc, wgmfunc_fastpwm,
  wgmfunc_pcpwm, wgmfunc_pfcpwm, is_compare,
}
use simulavr.Timer.Unit.Counter.{Counter, counter, notice, notice_if}
use simulavr.Timer.Unit.Count.{event_if}

compare_dbl-set_compare_output :
    (o : OutputCompare) → (set_compare_output o).compare_dbl ≡ o.compare_dbl
unfolding set_compare_output
compare_dbl-set_compare_output o = ground arith

compare_dbl-set_pwm_compare_output :
    (toggle top : Bool) (o : OutputCompare)
    → (set_pwm_compare_output toggle top o).compare_dbl ≡ o.compare_dbl
unfolding set_pwm_compare_output set_compare_output
compare_dbl-set_pwm_compare_output toggle top o = ground arith

matched-counter : (i : OcrIdx) (u : BasicTimerUnit) → counter (matched i u) ≡ counter u
unfolding counter matched
matched-counter ocr_a u = ground (arith, compare_dbl-set_compare_output u.unit_a)
matched-counter ocr_b u = ground arith
matched-counter ocr_c u = ground arith

pwm_matched-counter :
    (allowed : Bool) (i : OcrIdx) (top : Bool) (u : BasicTimerUnit)
    → counter (pwm_matched allowed i top u) ≡ counter u
unfolding counter pwm_matched
pwm_matched-counter allowed ocr_a top u =
    ground (arith, compare_dbl-set_pwm_compare_output (toggles u.wgm ocr_a) top u.unit_a)
pwm_matched-counter allowed ocr_b top u = ground arith
pwm_matched-counter allowed ocr_c top u = ground arith

normal-counter :
    (event : Event) (u : BasicTimerUnit)
    → u.wgmfunc u.wgm ≡ func_normal
    → counter (wgmfunc_normal event u) ≡ notice event (counter u)
unfolding counter notice wgmfunc_normal
normal-counter top_reached u e = ground (arith, e)
normal-counter max_reached u e = ground (arith, e)
normal-counter bottom_reached u e = ground (arith, e)
normal-counter compare_1 u e = ground (arith, e, matched-counter ocr_a u)
normal-counter compare_2 u e = ground (arith, e, matched-counter ocr_b u)
normal-counter compare_3 u e = ground (arith, e, matched-counter ocr_c u)

ctc-counter :
    (event : Event) (u : BasicTimerUnit)
    → u.wgmfunc u.wgm ≡ func_ctc
    → counter (wgmfunc_ctc event u) ≡ notice event (counter u)
unfolding counter notice wgmfunc_ctc
ctc-counter top_reached u e = ground (arith, e)
ctc-counter max_reached u e = ground (arith, e)
ctc-counter bottom_reached u e = ground (arith, e)
ctc-counter compare_1 u e = ground (arith, e, matched-counter ocr_a u)
ctc-counter compare_2 u e = ground (arith, e, matched-counter ocr_b u)
ctc-counter compare_3 u e = ground (arith, e, matched-counter ocr_c u)

fastpwm-counter :
    (event : Event) (u : BasicTimerUnit)
    → u.wgmfunc u.wgm ≡ func_fastpwm
    → counter (wgmfunc_fastpwm event u) ≡ notice event (counter u)
unfolding counter notice wgmfunc_fastpwm
fastpwm-counter top_reached u e =
    ground (arith, e, compare_dbl-set_pwm_compare_output (toggles u.wgm ocr_a) true u.unit_a)
fastpwm-counter max_reached u e = ground (arith, e)
fastpwm-counter bottom_reached u e = ground (arith, e)
fastpwm-counter compare_1 u e =
    ground (arith, e, pwm_matched-counter (not (is_wgm fastpwm_ocra u.wgm)) ocr_a false u)
fastpwm-counter compare_2 u e = ground (arith, e, pwm_matched-counter true ocr_b false u)
fastpwm-counter compare_3 u e = ground (arith, e, pwm_matched-counter true ocr_c false u)

pcpwm-counter :
    (event : Event) (u : BasicTimerUnit)
    → u.wgmfunc u.wgm ≡ func_pcpwm
    → counter (wgmfunc_pcpwm event u) ≡ notice event (counter u)
unfolding counter notice wgmfunc_pcpwm
pcpwm-counter top_reached u e = ground (arith, e)
pcpwm-counter max_reached u e = ground (arith, e)
pcpwm-counter bottom_reached u e = ground (arith, e)
pcpwm-counter compare_1 u e =
    ground (arith, e, pwm_matched-counter (not (is_wgm pcpwm_ocra u.wgm)) ocr_a u.count_down u)
pcpwm-counter compare_2 u e = ground (arith, e, pwm_matched-counter true ocr_b u.count_down u)
pcpwm-counter compare_3 u e = ground (arith, e, pwm_matched-counter true ocr_c u.count_down u)

pfcpwm-counter :
    (event : Event) (u : BasicTimerUnit)
    → u.wgmfunc u.wgm ≡ func_pfcpwm
    → counter (wgmfunc_pfcpwm event u) ≡ notice event (counter u)
unfolding counter notice wgmfunc_pfcpwm
pfcpwm-counter top_reached u e =
    ground (arith, e, compare_dbl-set_pwm_compare_output (toggles u.wgm ocr_a) false u.unit_a)
pfcpwm-counter max_reached u e = ground (arith, e)
pfcpwm-counter bottom_reached u e = ground (arith, e)
pfcpwm-counter compare_1 u e =
    ground (arith, e, pwm_matched-counter (not (is_wgm pfcpwm_ocra u.wgm)) ocr_a u.count_down u)
pfcpwm-counter compare_2 u e = ground (arith, e, pwm_matched-counter true ocr_b u.count_down u)
pfcpwm-counter compare_3 u e = ground (arith, e, pwm_matched-counter true ocr_c u.count_down u)

pub handle_event-counter :
    (event : Event) (u : BasicTimerUnit) → counter (handle_event event u) ≡ notice event (counter u)
unfolding counter notice handle_event
handle_event-counter event u = called (u.wgmfunc u.wgm) refl
  where
    called :
        (f : WgmFunc) → u.wgmfunc u.wgm ≡ f → counter (call f event u) ≡ notice event (counter u)
    called func_noop e = ground (arith, e)
    called func_normal e = normal-counter event u e
    called func_ctc e = ctc-counter event u e
    called func_fastpwm e = fastpwm-counter event u e
    called func_pcpwm e = pcpwm-counter event u e
    called func_pfcpwm e = pfcpwm-counter event u e

pub event_if-counter :
    (b : Bool) (event : Event) (u : BasicTimerUnit)
    → counter (event_if b event u) ≡ notice_if b event (counter u)
unfolding counter event_if notice_if
event_if-counter true event u = handle_event-counter event u
event_if-counter false event u = refl
