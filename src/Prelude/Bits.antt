-- ===== src/Prelude/Bits.antt =====
-- Laws of `&` on numbers, from the digit recursion that the native operation stands for.
use Prim.Native.Nat.{ℕ, zero, suc, ◌+◌, ◌-◌, ◌*◌, ◌/◌, ◌%◌, ◌^◌, ◌≤◌, min}
use Prim.Native.Nat.{bit_and, digits, bit_and-bitwise}
use mathlib.Core.Path.{◌≡◌, refl, ap, ◌∙◌}
use mathlib.Core.Logic.{◌↔◌, ◌⊎◌, inl, inr}
use native.Mathlib.Nat.{le_refl}
use native.Mathlib.Omega.{arith}

-- The digits of `a & b`, lowest last, with at most `n` of them.
abbrev common : ℕ → ℕ → ℕ → ℕ
common n a b = digits (λ y. 0) min n a b

-- One more digit of fuel changes nothing once the fuel has reached `a`.
common-suc : (n a b : ℕ) → a ≤ n → common (suc n) a b ≡ common n a b
common-suc n zero b h = zero_digits n b
  where
    zero_digits : (k c : ℕ) → common (suc k) 0 c ≡ common k 0 c
    zero_digits zero c = refl
    zero_digits (suc k) c = refl
common-suc zero (suc a) b h = absurd (omega arith)
common-suc (suc n) (suc a) b h =
    ap (λ (t : ℕ). t * 2 + min (suc a % 2) (b % 2)) (common-suc n (suc a / 2) (b / 2) (omega arith))

common-add : (k a b : ℕ) → common (k + a) a b ≡ common a a b
common-add zero a b = ap (λ (t : ℕ). common t a b) (omega arith)
common-add (suc k) a b =
    ap (λ (t : ℕ). common t a b) {y = suc (k + a)} (omega arith)
    ∙ common-suc (k + a) a b (omega arith)
    ∙ common-add k a b

-- The equation of the lowest digit.
pub bit_and-halves : (x m : ℕ) → bit_and x m ≡ min (x % 2) (m % 2) + 2 * bit_and (x / 2) (m / 2)
bit_and-halves (suc x) m =
    let half : ℕ = suc x / 2 in
    let fuel : common x half (m / 2) ≡ common half half (m / 2) =
      ap (λ (t : ℕ). common t half (m / 2)) (omega arith) ∙ common-add (x - half) half (m / 2) in
    let digit : ℕ = min (suc x % 2) (m % 2) in
    simp bit_and-bitwise (ap (λ (t : ℕ). t * 2 + digit) fuel ∙ omega arith)
bit_and-halves zero m = simp bit_and-bitwise (omega arith)

-- Nothing passes the mask 0.
masked_out : (bound x : ℕ) → x ≤ bound → bit_and x 0 ≡ 0
masked_out (suc bound) (suc x) small =
    let digit = bit_and-halves (suc x) 0 in
    let rest = masked_out bound (suc x / 2) (omega arith) in omega (arith, digit, rest)
masked_out zero (suc x) small = absurd (omega arith)
masked_out bound zero small = refl

at_most : (bound x m : ℕ) → m ≤ bound → bit_and x m ≤ m
at_most (suc bound) x (suc m) small =
    let digit = bit_and-halves x (suc m) in
    let rest = at_most bound (x / 2) (suc m / 2) (omega arith) in omega (arith, digit, rest)
at_most zero x (suc m) small = absurd (omega arith)
at_most bound x zero small = omega (arith, masked_out x x (le_refl x))

-- A mask bounds what it lets through.
pub bit_and-le : (x m : ℕ) → bit_and x m ≤ m
bit_and-le x m = at_most m x m (le_refl m)

-- `x << k`, `x >> k`, and `~x` on 32 bits.
infixl 75 ◌<<<◌ ◌>>>◌
abbrev pub ◌<<<◌ : ℕ → ℕ → ℕ
x <<< k = x * 2 ^ k

abbrev pub ◌>>>◌ : ℕ → ℕ → ℕ
x >>> k = x / 2 ^ k

abbrev pub not32 : ℕ → ℕ
not32 x = 0xffff_ffff - x

-- A conversion to `unsigned char`, and to `unsigned short`.
abbrev pub u8 : ℕ → ℕ
u8 x = x % 0x100

abbrev pub u16 : ℕ → ℕ
u16 x = x % 0x1_0000

-- A mask that ends in a 1, and in two.
bit_and-odd : (x m : ℕ) → bit_and x (2 * m + 1) ≡ x % 2 + 2 * bit_and (x / 2) m
bit_and-odd x m =
    let halves = bit_and-halves x (2 * m + 1) in
    let half : (2 * m + 1) / 2 ≡ m = omega arith in omega (arith, halves, ap (bit_and (x / 2)) half)

bit_and-quarter : (x m : ℕ) → bit_and x (4 * m + 3) ≡ x % 4 + 4 * bit_and (x / 4) m
bit_and-quarter x m =
    let outer = bit_and-odd x (2 * m + 1) in
    let inner = bit_and-odd (x / 2) m in
    let quarter : x / 2 / 2 ≡ x / 4 = omega arith in
    let same : 2 * (2 * m + 1) + 1 ≡ 4 * m + 3 = omega arith in
    omega (arith, outer, inner, ap (λ y. bit_and y m) quarter, ap (bit_and x) same)

-- The mask of the lowest byte.
pub bit_and-low_byte : (x : ℕ) → bit_and x 0xff ≡ x % 0x100
bit_and-low_byte x = omega (
  arith,
  bit_and-quarter x 0x3f,
  bit_and-quarter (x / 4) 0xf,
  bit_and-quarter (x / 4 / 4) 0x3,
  bit_and-quarter (x / 4 / 4 / 4) 0,
  bit_and-le (x / 4 / 4 / 4 / 4) 0,
)

-- A single bit, by halving.
abbrev pub nth_bit : ℕ → ℕ → ℕ
nth_bit zero x = x % 2
nth_bit (suc i) x = nth_bit i (x / 2)

-- A mask of one bit tests it.
pub power_zero : (i x : ℕ) → (bit_and x (2 ^ i) ≡ 0) ↔ (nth_bit i x ≡ 0)
power_zero zero x =
    let low = bit_and-odd x 0 in
    let rest = bit_and-le (x / 2) 0 in
    (λ e. omega (arith, e, low, rest), λ e. omega (arith, e, low, rest))
power_zero (suc i) x =
    let halves = bit_and-halves x (2 ^ suc i) in
    let half : 2 ^ suc i / 2 ≡ 2 ^ i = omega arith in
    let same = ap (bit_and (x / 2)) half in
    let ih = power_zero i (x / 2) in
    (λ e. ih.0 (omega (arith, e, halves, same)), λ e. omega (arith, ih.1 e, halves, same))

nth_bit-and : (i x m : ℕ) → nth_bit i (bit_and x m) ≡ min (nth_bit i x) (nth_bit i m)
nth_bit-and zero x m = omega (arith, bit_and-halves x m)
nth_bit-and (suc i) x m =
    let half : bit_and x m / 2 ≡ bit_and (x / 2) (m / 2) = omega (arith, bit_and-halves x m) in
    ap (nth_bit i) half ∙ nth_bit-and i (x / 2) (m / 2)

-- A bit that is clear in `x` or in `m` is clear in `x & m`.
pub bit_and-cleared :
    (i x m : ℕ)
    → (bit_and x (2 ^ i) ≡ 0) ⊎ (bit_and m (2 ^ i) ≡ 0)
    → bit_and (bit_and x m) (2 ^ i) ≡ 0
bit_and-cleared i x m (inl e) =
    let low = (power_zero i x).0 e in
    (power_zero i (bit_and x m)).1 (omega (arith, low, nth_bit-and i x m))
bit_and-cleared i x m (inr e) =
    let low = (power_zero i m).0 e in
    (power_zero i (bit_and x m)).1 (omega (arith, low, nth_bit-and i x m))

pub bit_and-zero : (m : ℕ) → bit_and 0 m ≡ 0
bit_and-zero m = simp bit_and-bitwise refl
