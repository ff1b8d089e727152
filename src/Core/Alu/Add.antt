-- ===== src/Core/Alu/Add.antt =====
-- The flags after an addition of two bytes and a carry, as ADD and ADC set them.
use simulavr.Prelude.{ℕ, ◌+◌, ◌%◌, ◌≤◌, ◌<◌, ◌≡◌, ◌↔◌, ◌⊎◌, true, arith}
use simulavr.Prelude.Bits.{u8}
use simulavr.Prelude.Int.{ℤ, pos, negsuc, ◌+ℤ◌, ◌≤ℤ◌, signed8}
use simulavr.Core.Alu.{add_status}
use simulavr.Sreg.{Sreg}

-- The sum of two bytes that are read as signed, and of the carry.
abbrev pub signed_sum : ℕ → ℕ → ℕ → ℤ
signed_sum rd rr c = signed8 rd +ℤ signed8 rr +ℤ pos c

-- What the manual says of the flags: C and H are the carries out of bits 7 and 3, Z and N are of
-- the result, V is the overflow of the signed sum, and S its sign.
pub record IsSum (rd rr c : ℕ) (st : Sreg) : Type 0 where
  pub carry : (st.c ≡ true) ↔ (256 ≤ rd + rr + c)
  pub half_carry : (st.h ≡ true) ↔ (16 ≤ rd % 16 + rr % 16 + c)
  pub zero_result : (st.z ≡ true) ↔ ((rd + rr + c) % 256 ≡ 0)
  pub negative : (st.n ≡ true) ↔ (128 ≤ (rd + rr + c) % 256)
  pub overflow :
      (st.v ≡ true) ↔ ((signed_sum rd rr c ≤ℤ negsuc 128) ⊎ (pos 128 ≤ℤ signed_sum rd rr c))
  pub sign : (st.s ≡ true) ↔ (signed_sum rd rr c ≤ℤ negsuc 0)

-- After an addition of two bytes and a carry bit every flag has its documented meaning.
pub add_status-IsSum :
    (st : Sreg) (rd rr c : ℕ)
    → rd < 256
    → rr < 256
    → c ≤ 1
    → IsSum rd rr c (add_status st (u8 (rd + rr + c)) rd rr)
unfolding add_status ◌+ℤ◌
add_status-IsSum st rd rr c hd hr hc = record {
  carry = ground arith;
  half_carry = ground arith;
  zero_result = ground arith;
  negative = ground arith;
  overflow = ground arith;
  sign = ground arith;
}
