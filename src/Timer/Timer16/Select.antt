-- ===== src/Timer/Timer16/Select.antt =====
-- Which mode the control registers of the timers with 16 bits select (src/hwtimer/hwtimer.cpp).
use simulavr.Prelude.{
  ℕ, ◌+◌, ◌*◌, ◌/◌, ◌%◌, ◌<◌, bit_and, ◌≡◌, refl, ◌∙◌, arith, ◌==◌, ==_iff, all_below,
  all_below_sound,
}
use simulavr.Prelude.Bits.{◌>>>◌, not32}
use simulavr.Timer.Unit.{BasicTimerUnit, WgmType, wgm_code}
use simulavr.Timer.Unit.Modes.{change_wgm_16, set_clock_mode}
use simulavr.Timer.Timer16.{HwTimer16}
use simulavr.Timer.Timer16.Control.{wgm_of, set_wgm_3c, set_tccra_3c, set_tccrb_3c}

wgm_code-small : (w : WgmType) → wgm_code w < 16
wgm_code-small w = ground arith

wgm-change_wgm_16 : (mode : WgmType) (u : BasicTimerUnit) → (change_wgm_16 mode u).wgm ≡ mode
unfolding change_wgm_16
wgm-change_wgm_16 mode u = ground arith

wgm_code-wgm_of : (n : ℕ) → n < 16 → wgm_code (wgm_of n) ≡ n
unfolding wgm_of
wgm_code-wgm_of n small = ground arith

-- The bits that are kept, and those that are written.
low_bits : (a : ℕ) → a < 0x100 → bit_and a 0x3 ≡ a % 4
unfolding all_below
low_bits a small = (==_iff _ _).0 (all_below_sound 0x100 (λ a. bit_and a 0x3 == a % 4) a refl small)

high_bits : (b : ℕ) → b < 0x100 → bit_and (b >>> 1) 0xc ≡ b / 8 % 4 * 4
unfolding all_below
high_bits b small =
    (==_iff _ _).0
      (all_below_sound 0x100 (λ b. bit_and (b >>> 1) 0xc == b / 8 % 4 * 4) b refl small)

kept_high : (c : ℕ) → c < 16 → bit_and c (not32 0x3) ≡ c / 4 * 4
unfolding all_below
kept_high c small =
    (==_iff _ _).0 (all_below_sound 16 (λ c. bit_and c (not32 0x3) == c / 4 * 4) c refl small)

kept_low : (c : ℕ) → c < 16 → bit_and c (not32 0xc) ≡ c % 4
unfolding all_below
kept_low c small =
    (==_iff _ _).0 (all_below_sound 16 (λ c. bit_and c (not32 0xc) == c % 4) c refl small)

wgm-set_wgm_3c : (n : ℕ) (u : BasicTimerUnit) → n < 16 → wgm_code (set_wgm_3c n u).wgm ≡ n
unfolding set_wgm_3c
wgm-set_wgm_3c n u small = ground (arith, wgm-change_wgm_16 (wgm_of n) u, wgm_code-wgm_of n small)

wgm-set_tccra_3c :
    (a : ℕ) (t : HwTimer16)
    → a < 0x100
    → wgm_code (set_tccra_3c a t).timer.wgm ≡ wgm_code t.timer.wgm / 4 * 4 + a % 4
unfolding set_tccra_3c
wgm-set_tccra_3c a t small =
    let code = wgm_code t.timer.wgm in
    let known : code < 16 = wgm_code-small t.timer.wgm in
    let number = bit_and code (not32 0x3) + bit_and a 0x3 in
    let same : number ≡ code / 4 * 4 + a % 4 =
      omega (arith, kept_high code known, low_bits a small) in
    wgm-set_wgm_3c number t.timer (omega (arith, same, known)) ∙ same

wgm-set_tccrb_3c :
    (b : ℕ) (t : HwTimer16)
    → b < 0x100
    → wgm_code (set_tccrb_3c b t).timer.wgm ≡ wgm_code t.timer.wgm % 4 + b / 8 % 4 * 4
unfolding set_tccrb_3c set_clock_mode
wgm-set_tccrb_3c b t small =
    let code = wgm_code t.timer.wgm in
    let known : code < 16 = wgm_code-small t.timer.wgm in
    let number = bit_and code (not32 0xc) + bit_and (b >>> 1) 0xc in
    let same : number ≡ code % 4 + b / 8 % 4 * 4 =
      omega (arith, kept_low code known, high_bits b small) in
    wgm-set_wgm_3c number t.timer (omega (arith, same)) ∙ same

-- A write of bytes to TCCRA and then to TCCRB of a timer with 16 bits and three compare units selects
-- the mode with the number that the lowest two bits of the first and bits 3 and 4 of the second make
-- up, and the opposite order selects the same, whatever the mode was before.
pub set_tccr-wgm :
    (a b : ℕ) (t : HwTimer16)
    → a < 0x100
    → b < 0x100
    → (wgm_code (set_tccrb_3c b (set_tccra_3c a t)).timer.wgm ≡ b / 8 % 4 * 4 + a % 4)
      × (wgm_code (set_tccra_3c a (set_tccrb_3c b t)).timer.wgm ≡ b / 8 % 4 * 4 + a % 4)
set_tccr-wgm a b t small small' = (
  omega (arith, wgm-set_tccrb_3c b (set_tccra_3c a t) small', wgm-set_tccra_3c a t small),
  omega (arith, wgm-set_tccra_3c a (set_tccrb_3c b t) small, wgm-set_tccrb_3c b t small'),
)
