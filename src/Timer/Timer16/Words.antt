-- ===== src/Timer/Timer16/Words.antt =====
-- The access to words of the timers over their two bytes (src/hwtimer/hwtimer.cpp).
use simulavr.Prelude.{ℕ, ◌+◌, ◌<◌, bit_and, true, false, ◌≡◌, ap, ◌∙◌, arith}
use simulavr.Prelude.Bits.{◌<<<◌, ◌>>>◌, bit_and-low_byte}
use simulavr.Timer.Unit.{BasicTimerUnit, OcrIdx, ocr_a, ocr_b, ocr_c}
use simulavr.Timer.Timer16.{
  HwTimer16, set_compare_register, get_compare_register, set_complex_register, get_complex_register,
}

-- What happens to the timer between the accesses to the two bytes.
abbrev pub meanwhile : (BasicTimerUnit → BasicTimerUnit) → HwTimer16 → HwTimer16
meanwhile f t = record t { timer = f t.timer }

-- A write of both bytes of TCNT, the high byte first.
abbrev pub tcnt_written : (BasicTimerUnit → BasicTimerUnit) → ℕ → ℕ → HwTimer16 → HwTimer16
tcnt_written f high low t =
    set_complex_register false false low (meanwhile f (set_complex_register false true high t))

-- A read of both bytes of TCNT, the low byte first.
abbrev pub tcnt_read : (BasicTimerUnit → BasicTimerUnit) → HwTimer16 → ℕ × ℕ
tcnt_read f t =
    let r = get_complex_register false false t in
    ((get_complex_register false true (meanwhile f (r.1))).0, r.0)

abbrev pub ocr_written : (BasicTimerUnit → BasicTimerUnit) → OcrIdx → ℕ → ℕ → HwTimer16 → HwTimer16
ocr_written f idx high low t =
    set_compare_register idx false low (meanwhile f (set_compare_register idx true high t))

abbrev pub ocr_read : OcrIdx → HwTimer16 → ℕ × ℕ
ocr_read idx t = (get_compare_register idx true t, get_compare_register idx false t)

high_byte : (h l : ℕ) → h < 0x100 → l < 0x100 → bit_and (((h <<< 8) + l) >>> 8) 0xff ≡ h
high_byte h l hs ls = bit_and-low_byte (((h <<< 8) + l) >>> 8) ∙ omega arith

low_byte : (h l : ℕ) → l < 0x100 → bit_and ((h <<< 8) + l) 0xff ≡ l
low_byte h l ls = bit_and-low_byte ((h <<< 8) + l) ∙ omega arith

-- A word of two bytes that is written to TCNT, the high byte first, is read back, the low byte first,
-- whatever the timer does between the two writes and between the two reads: no access is torn.
pub tcnt_read-tcnt_written :
    (f g : BasicTimerUnit → BasicTimerUnit) (h l : ℕ) (t : HwTimer16)
    → h < 0x100
    → l < 0x100
    → tcnt_read g (tcnt_written f h l t) ≡ (h, l)
unfolding set_complex_register get_complex_register
tcnt_read-tcnt_written f g h l t hs ls =
    ap (λ x. (x, bit_and ((h <<< 8) + l) 0xff)) (high_byte h l hs ls)
    ∙ ap (λ y. (h, y)) (low_byte h l ls)

-- A word of two bytes that is written to a compare register, the high byte first, is read back, in
-- each mode, whatever the timer does between the two writes.
pub ocr_read-ocr_written :
    (f : BasicTimerUnit → BasicTimerUnit) (idx : OcrIdx) (h l : ℕ) (t : HwTimer16)
    → h < 0x100
    → l < 0x100
    → ocr_read idx (ocr_written f idx h l t) ≡ (h, l)
unfolding set_compare_register get_compare_register
ocr_read-ocr_written f ocr_a h l t hs ls = ground (arith, high_byte h l hs ls, low_byte h l ls)
ocr_read-ocr_written f ocr_b h l t hs ls = ground (arith, high_byte h l hs ls, low_byte h l ls)
ocr_read-ocr_written f ocr_c h l t hs ls = ground (arith, high_byte h l hs ls, low_byte h l ls)
