-- ===== src/Timer/Timer16/Control.antt =====
-- The control registers of the timers with 16 bits (src/hwtimer/hwtimer.cpp).
use simulavr.Prelude.{ℕ, ◌+◌, bit_and, ◌||◌, ◌==◌, if◌then◌else◌}
use simulavr.Prelude.Bits.{◌>>>◌, not32}
use simulavr.Timer.Unit.{
  BasicTimerUnit, WgmType, normal, pcpwm_8bit, pcpwm_9bit, pcpwm_10bit, ctc_ocra, fastpwm_8bit,
  fastpwm_9bit, fastpwm_10bit, pfcpwm_icr, pfcpwm_ocra, pcpwm_icr, pcpwm_ocra, ctc_icr, reserved,
  fastpwm_icr, fastpwm_ocra, wgm_code, ocr_a, ocr_b, ocr_c, wgm_is_pwm, set_compare_output_mode,
  set_compare_output,
}
use simulavr.Timer.Unit.Modes.{set_clock_mode, change_wgm_16}
use simulavr.Timer.Timer8.{com_of, output_mode, force_output}
use simulavr.Timer.Timer16.{HwTimer16}

-- The conversion of a number below 16 to `WGMtype`.
unfoldable pub wgm_of : ℕ → WgmType
wgm_of n =
    if n == 0
    then normal
    else if n == 1
    then pcpwm_8bit
    else if n == 2
    then pcpwm_9bit
    else if n == 3
    then pcpwm_10bit
    else if n == 4
    then ctc_ocra
    else if n == 5
    then fastpwm_8bit
    else if n == 6
    then fastpwm_9bit
    else if n == 7
    then fastpwm_10bit
    else if n == 8
    then pfcpwm_icr
    else if n == 9
    then pfcpwm_ocra
    else if n == 10
    then pcpwm_icr
    else if n == 11
    then pcpwm_ocra
    else if n == 12
    then ctc_icr
    else if n == 13
    then reserved
    else if n == 14
    then fastpwm_icr
    else fastpwm_ocra

-- The mode for a raw value in `HWTimer16_1C::Set_WGM`, and in `HWTimer16_2C2::Set_WGM` for an
-- AT90S8515.
unfoldable pub wgm_1c : ℕ → WgmType
wgm_1c raw =
    if raw == 0
    then normal
    else if raw == 1 || raw == 5
    then pcpwm_8bit
    else if raw == 2 || raw == 6
    then pcpwm_9bit
    else if raw == 4
    then ctc_ocra
    else pcpwm_10bit

-- `HWTimer16_1C::Set_WGM`.
unfoldable pub set_wgm_1c : ℕ → HwTimer16 → HwTimer16
unfolding wgm_1c change_wgm_16
set_wgm_1c val t =
    if t.wgm_raw == val
    then t
    else record t { timer = change_wgm_16 (wgm_1c (bit_and val 0x7)) t.timer; wgm_raw = val }

-- `HWTimer16_2C2::Set_WGM`.
unfoldable pub set_wgm_2c2 : ℕ → HwTimer16 → HwTimer16
unfolding wgm_of wgm_1c change_wgm_16
set_wgm_2c2 val t =
    let mode = if t.at8515_mode then wgm_1c (bit_and val 0x7) else wgm_of val in
    if t.wgm_raw == val then t else record t { timer = change_wgm_16 mode t.timer; wgm_raw = val }

-- `ChangeWGM` for the number of a mode that is not the present one, in the classes `HWTimer16_2C3`
-- and `HWTimer16_3C`.
unfoldable pub set_wgm_3c : ℕ → BasicTimerUnit → BasicTimerUnit
unfolding wgm_of change_wgm_16
set_wgm_3c temp u = if wgm_code u.wgm == temp then u else change_wgm_16 (wgm_of temp) u

-- The bits of TCCRB for the clock and for the input capture.
abbrev pub clock_and_capture : ℕ → BasicTimerUnit → BasicTimerUnit
clock_and_capture val u = record (set_clock_mode (bit_and val 0x7) u) {
  icap_noise_canceler = bit_and val 0x80 == 0x80;
  icap_rising_edge = bit_and val 0x40 == 0x40;
}

-- `HWTimer16_1C::Set_TCCRA` and `Set_TCCRB`.
unfoldable pub set_tccra_1c : ℕ → HwTimer16 → HwTimer16
unfolding set_wgm_1c set_compare_output_mode com_of
set_tccra_1c val t =
    let t' = set_wgm_1c (bit_and t.wgm_raw (not32 0x3) + bit_and val 0x3) t in
    record t' { timer = output_mode ocr_a (bit_and (val >>> 6) 0x3) t'.timer; tccra_val = val }

unfoldable pub set_tccrb_1c : ℕ → HwTimer16 → HwTimer16
unfolding set_wgm_1c set_clock_mode
set_tccrb_1c val t =
    let t' = set_wgm_1c (bit_and t.wgm_raw (not32 0x4) + bit_and (val >>> 1) 0x4) t in
    record t' { timer = clock_and_capture val t'.timer; tccrb_val = val }

-- The bits of TCCRA for the outputs A and B.
abbrev pub outputs_ab : ℕ → BasicTimerUnit → BasicTimerUnit
outputs_ab val u =
    output_mode ocr_b (bit_and (val >>> 4) 0x3) (output_mode ocr_a (bit_and (val >>> 6) 0x3) u)

-- `HWTimer16_2C2::Set_TCCRA` and `Set_TCCRB`.
unfoldable pub set_tccra_2c2 : ℕ → HwTimer16 → HwTimer16
unfolding set_wgm_2c2 set_compare_output_mode set_compare_output com_of wgm_is_pwm
set_tccra_2c2 val t =
    let t' = set_wgm_2c2 (bit_and t.wgm_raw (not32 0x3) + bit_and val 0x3) t in
    let u = outputs_ab val t'.timer in
    record t' {
      timer =
          if wgm_is_pwm u.wgm || t.at8515_mode
          then u
          else force_output ocr_b (bit_and val 0x04) (force_output ocr_a (bit_and val 0x08) u);
      tccra_val = val;
    }

unfoldable pub set_tccrb_2c2 : ℕ → HwTimer16 → HwTimer16
unfolding set_wgm_2c2 set_clock_mode
set_tccrb_2c2 val t =
    let mask = if t.at8515_mode then 0x4 else 0xc in
    let t' = set_wgm_2c2 (bit_and t.wgm_raw (not32 mask) + bit_and (val >>> 1) mask) t in
    record t' { timer = clock_and_capture val t'.timer; tccrb_val = val }

-- `HWTimer16_2C3::Set_TCCRA`.
unfoldable pub set_tccra_2c3 : ℕ → HwTimer16 → HwTimer16
unfolding set_wgm_3c set_compare_output_mode com_of
set_tccra_2c3 val t =
    let temp = bit_and (wgm_code t.timer.wgm) (not32 0x3) + bit_and val 0x3 in
    record t { timer = outputs_ab val (set_wgm_3c temp t.timer); tccra_val = val }

-- `HWTimer16_3C::Set_TCCRA`.
unfoldable pub set_tccra_3c : ℕ → HwTimer16 → HwTimer16
unfolding set_wgm_3c set_compare_output_mode com_of
set_tccra_3c val t =
    let temp = bit_and (wgm_code t.timer.wgm) (not32 0x3) + bit_and val 0x3 in
    record t {
      timer =
          output_mode ocr_c (bit_and (val >>> 2) 0x3) (outputs_ab val (set_wgm_3c temp t.timer));
      tccra_val = val;
    }

-- `Set_TCCRB` of `HWTimer16_2C3` and of `HWTimer16_3C`.
unfoldable pub set_tccrb_3c : ℕ → HwTimer16 → HwTimer16
unfolding set_wgm_3c set_clock_mode
set_tccrb_3c val t =
    let temp = bit_and (wgm_code t.timer.wgm) (not32 0xc) + bit_and (val >>> 1) 0xc in
    record t { timer = clock_and_capture val (set_wgm_3c temp t.timer); tccrb_val = val }

-- `HWTimer16_2C3::Set_TCCRC`.
unfoldable pub set_tccrc_2c3 : ℕ → HwTimer16 → HwTimer16
unfolding set_compare_output wgm_is_pwm
set_tccrc_2c3 val t = record t {
  timer =
      if wgm_is_pwm t.timer.wgm
      then t.timer
      else force_output ocr_b (bit_and val 0x40) (force_output ocr_a (bit_and val 0x80) t.timer);
}

-- `HWTimer16_3C::Set_TCCRC`.
unfoldable pub set_tccrc_3c : ℕ → HwTimer16 → HwTimer16
unfolding set_tccrc_2c3 set_compare_output wgm_is_pwm
set_tccrc_3c val t =
    let t' = set_tccrc_2c3 val t in
    record t' {
      timer =
          if wgm_is_pwm t.timer.wgm
          then t.timer
          else force_output ocr_c (bit_and val 0x20) t'.timer;
    }
