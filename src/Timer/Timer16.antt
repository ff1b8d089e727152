-- ===== src/Timer/Timer16.antt =====
-- The timers with a counter of 16 bits: `HWTimer16`, `HWTimer16_1C`, `HWTimer16_2C2`, `HWTimer16_2C3`
-- and `HWTimer16_3C` (src/hwtimer/hwtimer.h, src/hwtimer/hwtimer.cpp). Warnings have no effect here.
pub mod Control
pub mod Words
pub mod Select
use simulavr.Prelude.{ℕ, ◌+◌, bit_and, Bool, not, ◌&&◌, ◌==◌, if◌then◌else◌}
use simulavr.Prelude.Bits.{◌<<<◌, ◌>>>◌}
use simulavr.Timer.Unit.{
  BasicTimerUnit, OutputCompare, ctc_ocra, fastpwm_icr, is_wgm, OcrIdx, compare_unit, at_unit,
  wgm_is_pwm, wgm_use_icr,
}
use simulavr.Timer.Unit.Modes.{set_counter}
use simulavr.Timer.Unit.Modes
use simulavr.Timer.Timer8.{is_ocr_a}

-- `HWTimer16` with the control registers of the classes that derive from it. `at8515_mode` and
-- `wgm_raw` are not used by all of them.
pub record HwTimer16 : Type 0 where
  pub timer : BasicTimerUnit
  pub access_temp_register : ℕ
  pub at8515_mode : Bool
  pub wgm_raw : ℕ
  pub tccra_val : ℕ
  pub tccrb_val : ℕ

-- The word of the high byte that was stored and a low byte.
abbrev pub joined : ℕ → HwTimer16 → ℕ
joined val t = (t.access_temp_register <<< 8) + val

-- `HWTimer16::SetCompareRegister`.
abbrev pub compare_written : OcrIdx → ℕ → BasicTimerUnit → BasicTimerUnit
unfolding wgm_is_pwm
compare_written idx temp u =
    if wgm_is_pwm u.wgm
    then at_unit idx (λ o. record o { compare_dbl = temp }) u
    else (let v = at_unit idx (λ o. record o { compare = temp; compare_dbl = temp }) u in
        record v {
          limit_top = if is_wgm ctc_ocra u.wgm && is_ocr_a idx then temp else u.limit_top;
        })

unfoldable pub set_compare_register : OcrIdx → Bool → ℕ → HwTimer16 → HwTimer16
unfolding wgm_is_pwm
set_compare_register idx high val t =
    if high
    then record t { access_temp_register = val }
    else record t { timer = compare_written idx (joined val t) t.timer }

-- `HWTimer16::GetCompareRegister`.
unfoldable pub get_compare_register : OcrIdx → Bool → HwTimer16 → ℕ
unfolding wgm_is_pwm
get_compare_register idx high t =
    let o = compare_unit idx t.timer in
    let temp = if wgm_is_pwm t.timer.wgm then o.compare_dbl else o.compare in
    if high then bit_and (temp >>> 8) 0xff else bit_and temp 0xff

-- The low byte of ICR.
abbrev pub icr_written : ℕ → BasicTimerUnit → BasicTimerUnit
icr_written temp u = record u {
  icap_register = temp;
  limit_top = if is_wgm fastpwm_icr u.wgm then temp else u.limit_top;
}

-- `HWTimer16::SetComplexRegister`.
unfoldable pub set_complex_register : Bool → Bool → ℕ → HwTimer16 → HwTimer16
unfolding wgm_use_icr set_counter
set_complex_register is_icr high val t =
    if high
    then (if is_icr && not (wgm_use_icr t.timer.wgm)
        then t
        else record t { access_temp_register = val })
    else if is_icr
    then (if wgm_use_icr t.timer.wgm
        then record t { timer = icr_written (joined val t) t.timer }
        else t)
    else record t { timer = set_counter (joined val t) t.timer }

-- `HWTimer16::GetComplexRegister`: the value that is read, and the timer.
unfoldable pub get_complex_register : Bool → Bool → HwTimer16 → ℕ × HwTimer16
get_complex_register is_icr high t =
    if high
    then (t.access_temp_register, t)
    else (let word = if is_icr then t.timer.icap_register else t.timer.vtcnt in
        (bit_and word 0xff, record t { access_temp_register = bit_and (word >>> 8) 0xff }))

-- `HWTimer16::Reset`.
unfoldable pub reset : HwTimer16 → HwTimer16
unfolding Modes.reset
reset t = record t { timer = Modes.reset t.timer; access_temp_register = 0 }

-- `HWTimer16_1C::Reset`, and that of the other classes.
unfoldable pub reset_control : HwTimer16 → HwTimer16
unfolding reset
reset_control t = record (reset t) { wgm_raw = 0; tccra_val = 0; tccrb_val = 0 }
