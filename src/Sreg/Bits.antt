-- ===== src/Sreg/Bits.antt =====
-- The status register as a byte.
use simulavr.Prelude.{ℕ, ◌<◌, ◌≡◌, refl, Bool, true, false, not, ◌&&◌, xor, ◌==◌, ==_iff}
use simulavr.Prelude.{all_below, all_below_sound, arith}
use simulavr.Sreg.{Sreg, to_int, from_int}

to_int-from_int_table : all_below 256 (λ x. to_int (from_int x) == x) ≡ true
unfolding all_below to_int from_int
to_int-from_int_table = refl

-- Every byte that is assigned to the status register is read back.
pub to_int-from_int : (x : ℕ) → x < 256 → to_int (from_int x) ≡ x
to_int-from_int x h = (==_iff _ x).0 (all_below_sound 256 _ x to_int-from_int_table h)

abbrev same_flag : Bool → Bool → Bool
same_flag a b = not (xor a b)

same_flags : Sreg → Sreg → Bool
same_flags a b =
    same_flag a.i b.i
    && same_flag a.t b.t
    && same_flag a.h b.h
    && same_flag a.s b.s
    && same_flag a.v b.v
    && same_flag a.n b.n
    && same_flag a.z b.z
    && same_flag a.c b.c

same_flags_sound : (a b : Sreg) → same_flags a b ≡ true → a ≡ b
unfolding same_flags
same_flags_sound a b h = ground arith

-- A test of both values of a flag.
both : (Bool → Bool) → Bool
both f = f true && f false

both_sound : (f : Bool → Bool) (b : Bool) → both f ≡ true → f b ≡ true
unfolding both
both_sound f true h = ground arith
both_sound f false h = ground arith

abbrev flags : Bool → Bool → Bool → Bool → Bool → Bool → Bool → Bool → Sreg
flags i t h s v n z c = record { i = i; t = t; h = h; s = s; v = v; n = n; z = z; c = c }

kept : Sreg → Bool
unfolding same_flags from_int to_int
kept r = same_flags (from_int (to_int r)) r

kept_table :
    both (λ i. both (λ t. both (λ h.
      both (λ s. both (λ v. both (λ n. both (λ z. both (λ c. kept (flags i t h s v n z c)))))))))
    ≡ true
unfolding both kept
kept_table = refl

kept_all : (r : Sreg) → kept r ≡ true
kept_all r = both_sound _ r.c (
    both_sound _ r.z (
      both_sound _ r.n (
        both_sound _ r.v
          (both_sound _ r.s (both_sound _ r.h (both_sound _ r.t (both_sound _ r.i kept_table)))))))

-- The byte of the status register determines all eight flags.
pub from_int-to_int : (r : Sreg) → from_int (to_int r) ≡ r
unfolding kept
from_int-to_int r = same_flags_sound _ r (kept_all r)
