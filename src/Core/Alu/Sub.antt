-- ===== src/Core/Alu/Sub.antt =====
-- The flags after a subtraction of two bytes and a borrow, as SUB, SBC, CP and CPC set them.
use simulavr.Prelude.{ℕ, ◌+◌, ◌-◌, ◌%◌, ◌≤◌, ◌<◌, ◌≡◌, refl, ◌↔◌, ◌⊎◌, true, arith}
use simulavr.Prelude.Bits.{u8}
use simulavr.Prelude.Int.{pos, negsuc, ◌+ℤ◌, ◌≤ℤ◌, signed8}
use simulavr.Core.Alu.{sub_status, compare_status}
use simulavr.Sreg.{Sreg}

-- The result of `rd - rr - c` as a byte.
abbrev pub difference : ℕ → ℕ → ℕ → ℕ
difference rd rr c = u8 (rd + 512 - rr - c)

-- The flags of a comparison in the terms of an addition: the difference exceeds a bound exactly
-- when the first operand exceeds the second, the borrow and the bound together.
pub record IsDifference (rd rr c : ℕ) (st : Sreg) : Type 0 where
  pub borrow : (st.c ≡ true) ↔ (rd < rr + c)
  pub half_borrow : (st.h ≡ true) ↔ (rd % 16 < rr % 16 + c)
  pub negative : (st.n ≡ true) ↔ (128 ≤ difference rd rr c)
  pub overflow : (st.v ≡ true) ↔ (
      (signed8 rd ≤ℤ signed8 rr +ℤ pos c +ℤ negsuc 128)
      ⊎ (signed8 rr +ℤ pos c +ℤ pos 128 ≤ℤ signed8 rd))
  pub sign : (st.s ≡ true) ↔ (signed8 rd ≤ℤ signed8 rr +ℤ pos c +ℤ negsuc 0)

-- After a subtraction of two bytes and a borrow bit the flags C, H, N, V and S have their documented
-- meaning; in particular S says whether the first signed byte is below the second with the borrow.
pub sub_status-IsDifference :
    (st : Sreg) (rd rr c : ℕ)
    → rd < 256
    → rr < 256
    → c ≤ 1
    → IsDifference rd rr c (sub_status st (difference rd rr c) rd rr)
unfolding sub_status ◌+ℤ◌
sub_status-IsDifference st rd rr c hd hr hc = record {
  borrow = ground arith;
  half_borrow = ground arith;
  negative = ground arith;
  overflow = ground arith;
  sign = ground arith;
}

-- The comparisons have functions of their own in the source, which compute the same flags.
pub compare_status-eq-sub_status :
    (st : Sreg) (res rd rr : ℕ) → compare_status st res rd rr ≡ sub_status st res rd rr
unfolding compare_status sub_status
compare_status-eq-sub_status st res rd rr = refl
