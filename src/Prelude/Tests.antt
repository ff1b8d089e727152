-- ===== src/Prelude/Tests.antt =====
-- Boolean tests on the native numbers, the conditional, and checks over small ranges.
use Prim.Native.Nat.{ℕ, zero, suc, ◌+◌, ◌≤◌, ◌<◌, compare, Ordering}
use mathlib.Core.Path.{◌≡◌, refl}
use mathlib.Core.Logic.{◌↔◌, ◌⊎◌, inl, inr}
use mathlib.Core.Bool.{Bool, true, false, ◌&&◌}
use mathlib.Core.Option.{Option, none, some}
use native.Mathlib.Omega.{arith}

abbrev pub ltb : ℕ → ℕ → Bool
ltb a b = elim (compare a b) [ Ordering.lt ↦ true | _ ↦ false ]

abbrev pub leb : ℕ → ℕ → Bool
leb a b = elim (compare a b) [ Ordering.gt ↦ false | _ ↦ true ]

infix 50 ◌==◌
abbrev pub ◌==◌ : ℕ → ℕ → Bool
a == b = elim (compare a b) [ Ordering.eq ↦ true | _ ↦ false ]

infix 1 if◌then◌else◌
abbrev pub if◌then◌else◌ {ℓ} : {A : Type ℓ} → Bool → A → A → A
if true then x else y = x
if false then x else y = y

pub ==_iff : (a b : ℕ) → ((a == b) ≡ true) ↔ (a ≡ b)
==_iff a b = ground arith

pub Bool-cases : (b : Bool) → (b ≡ true) ⊎ (b ≡ false)
Bool-cases true = inl refl
Bool-cases false = inr refl

pub Option-cases {ℓ} : {A : Type ℓ} (o : Option A) → (o ≡ none) ⊎ ((a : A) × (o ≡ some a))
Option-cases none = inl refl
Option-cases (some a) = inr (a, refl)

-- A test of every number below a bound.
unfoldable pub all_below : ℕ → (ℕ → Bool) → Bool
all_below zero check = true
all_below (suc last) check = check last && all_below last check

pub all_below_sound :
    (bound : ℕ) (check : ℕ → Bool) (i : ℕ)
    → all_below bound check ≡ true
    → i < bound
    → check i ≡ true
unfolding all_below
all_below_sound (suc last) check i passed small =
    let below_last = all_below_sound last check i in ground (arith, passed, small, below_last)
all_below_sound zero check i passed small = absurd (omega arith)

-- `a ^ b` of two flags.
abbrev pub xor : Bool → Bool → Bool
xor true true = false
xor true false = true
xor false b = b

-- A number of a range is its first or one of the others.
pub first_or_later {ℓ} :
    {P : Type ℓ} (at n i : ℕ)
    → (at ≡ i → P)
    → (at + 1 ≤ i → i < at + 1 + n → P)
    → at ≤ i
    → i < at + suc n
    → P
first_or_later at n i first later low high = elim (Bool-cases (at == i)) [
  | inl same ↦ first ((==_iff at i).0 same)
  | inr other ↦ later (ground (arith, other, low)) (omega arith)
]
