-- ===== src/Timer/Timer8.antt =====
-- The timers with a counter of 8 bits: `HWTimer8`, `HWTimer8_0C`, `HWTimer8_1C` and `HWTimer8_2C`
-- (src/hwtimer/hwtimer.h, src/hwtimer/hwtimer.cpp).
pub mod Silent
use simulavr.Prelude.{ℕ, ◌+◌, bit_and, Bool, true, false, ◌&&◌, ◌==◌, if◌then◌else◌}
use simulavr.Prelude.Bits.{◌>>>◌, not32}
use simulavr.Timer.Unit.{
  BasicTimerUnit, WgmType, normal, pcpwm_8bit, ctc_ocra, fastpwm_8bit, reserved, pcpwm_ocra,
  fastpwm_ocra, is_wgm, ComType, com_noop, com_toggle, com_clear, com_set, OcrIdx, ocr_a, ocr_b,
  compare_unit, at_unit, wgm_is_pwm, set_compare_output_mode, set_compare_output,
}
use simulavr.Timer.Unit.Modes.{set_clock_mode, set_counter, change_wgm_8}
use simulavr.Timer.Unit.Modes

abbrev pub is_ocr_a : OcrIdx → Bool
is_ocr_a ocr_a = true
is_ocr_a _ = false

-- `HWTimer8::SetCompareRegister`.
unfoldable pub set_compare_register : OcrIdx → ℕ → BasicTimerUnit → BasicTimerUnit
unfolding wgm_is_pwm
set_compare_register idx val u =
    if wgm_is_pwm u.wgm
    then at_unit idx (λ o. record o { compare_dbl = val }) u
    else (let v = at_unit idx (λ o. record o { compare = val; compare_dbl = val }) u in
        record v { limit_top = if is_wgm ctc_ocra u.wgm && is_ocr_a idx then val else u.limit_top })

-- `HWTimer8::GetCompareRegister`.
unfoldable pub get_compare_register : OcrIdx → BasicTimerUnit → ℕ
unfolding wgm_is_pwm
get_compare_register idx u =
    if wgm_is_pwm u.wgm
    then bit_and (compare_unit idx u).compare_dbl 0xff
    else bit_and (compare_unit idx u).compare 0xff

-- `Set_TCNT` and `Get_TCNT`.
unfoldable pub set_tcnt : ℕ → BasicTimerUnit → BasicTimerUnit
unfolding set_counter
set_tcnt val u = set_counter val u

unfoldable pub get_tcnt : BasicTimerUnit → ℕ
get_tcnt u = bit_and u.vtcnt 0xff

-- A number of two bits as a `COMtype`.
unfoldable pub com_of : ℕ → ComType
com_of n =
    if n == 0
    then com_noop
    else if n == 1
    then com_toggle
    else if n == 2
    then com_clear
    else com_set

-- `SetCompareOutputMode` of a unit, and `SetCompareOutput` of one if a bit is set.
abbrev pub output_mode : OcrIdx → ℕ → BasicTimerUnit → BasicTimerUnit
output_mode idx mode u = at_unit idx (set_compare_output_mode (com_of mode)) u

abbrev pub force_output : OcrIdx → ℕ → BasicTimerUnit → BasicTimerUnit
force_output idx bit u = at_unit idx (λ o. if bit == 0 then o else set_compare_output o) u

-- `HWTimer8_0C` and `HWTimer8_1C`, with one control register.
pub record TimerTccr : Type 0 where
  pub timer : BasicTimerUnit
  pub tccr_val : ℕ

-- `HWTimer8_0C::Set_TCCR`.
unfoldable pub set_tccr_0c : ℕ → TimerTccr → TimerTccr
unfolding set_clock_mode
set_tccr_0c val t = record { timer = set_clock_mode (bit_and val 0x7) t.timer; tccr_val = val }

-- The mode for `raw_wgm` in `HWTimer8_1C::Set_TCCR`.
unfoldable pub wgm_1c : ℕ → WgmType
wgm_1c raw =
    if raw == 0
    then normal
    else if raw == 1
    then pcpwm_8bit
    else if raw == 2
    then ctc_ocra
    else fastpwm_8bit

-- `ChangeWGM` for a mode that is not the present one.
abbrev pub change_if_new : WgmType → BasicTimerUnit → BasicTimerUnit
change_if_new mode u = if is_wgm mode u.wgm then u else change_wgm_8 mode u

-- `HWTimer8_1C::Set_TCCR`.
unfoldable pub set_tccr_1c : ℕ → TimerTccr → TimerTccr
unfolding wgm_1c change_wgm_8 set_compare_output_mode set_clock_mode set_compare_output wgm_is_pwm
set_tccr_1c val t =
    let raw_wgm = (bit_and val 0x8 >>> 2) + (bit_and val 0x40 >>> 6) in
    let u1 = change_if_new (wgm_1c raw_wgm) t.timer in
    let u2 = output_mode ocr_a (bit_and (val >>> 4) 0x3) u1 in
    let u3 = set_clock_mode (bit_and val 0x7) u2 in
    record {
      timer = if wgm_is_pwm u3.wgm then u3 else force_output ocr_a (bit_and val 0x80) u3;
      tccr_val = bit_and val 0x7f;
    }

-- `Reset` of both.
unfoldable pub reset_tccr : TimerTccr → TimerTccr
unfolding Modes.reset
reset_tccr t = record { timer = Modes.reset t.timer; tccr_val = 0 }

-- `HWTimer8_2C`.
pub record HwTimer82c : Type 0 where
  pub timer : BasicTimerUnit
  pub wgm_raw : ℕ
  pub tccra_val : ℕ
  pub tccrb_val : ℕ

-- The mode for a raw value in `HWTimer8_2C::Set_WGM`.
unfoldable pub wgm_2c : ℕ → WgmType
wgm_2c raw =
    if raw == 0
    then normal
    else if raw == 1
    then pcpwm_8bit
    else if raw == 2
    then ctc_ocra
    else if raw == 3
    then fastpwm_8bit
    else if raw == 5
    then pcpwm_ocra
    else if raw == 7
    then fastpwm_ocra
    else reserved

-- `HWTimer8_2C::Set_WGM`.
unfoldable pub set_wgm_2c : ℕ → HwTimer82c → HwTimer82c
unfolding wgm_2c change_wgm_8
set_wgm_2c val t =
    if t.wgm_raw == val
    then t
    else record t { timer = change_wgm_8 (wgm_2c (bit_and val 0x7)) t.timer; wgm_raw = val }

-- `HWTimer8_2C::Set_TCCRA`.
unfoldable pub set_tccra_2c : ℕ → HwTimer82c → HwTimer82c
unfolding set_wgm_2c set_compare_output_mode com_of
set_tccra_2c val t =
    let t' = set_wgm_2c (bit_and t.wgm_raw (not32 0x3) + bit_and val 0x3) t in
    record t' {
      timer =
          output_mode ocr_b (bit_and (val >>> 4) 0x3)
            (output_mode ocr_a (bit_and (val >>> 6) 0x3) t'.timer);
      tccra_val = val;
    }

-- `HWTimer8_2C::Set_TCCRB`.
unfoldable pub set_tccrb_2c : ℕ → HwTimer82c → HwTimer82c
unfolding set_wgm_2c set_clock_mode set_compare_output wgm_is_pwm
set_tccrb_2c val t =
    let t' = set_wgm_2c (bit_and t.wgm_raw (not32 0x4) + bit_and (val >>> 1) 0x4) t in
    let u = set_clock_mode (bit_and val 0x7) t'.timer in
    record t' {
      timer =
          if wgm_is_pwm u.wgm
          then u
          else force_output ocr_b (bit_and val 0x40) (force_output ocr_a (bit_and val 0x80) u);
      tccrb_val = bit_and val 0x3f;
    }

-- `HWTimer8_2C::Reset`.
unfoldable pub reset_2c : HwTimer82c → HwTimer82c
unfolding Modes.reset
reset_2c t = record { timer = Modes.reset t.timer; wgm_raw = 0; tccra_val = 0; tccrb_val = 0 }
