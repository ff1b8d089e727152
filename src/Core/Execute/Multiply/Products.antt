-- ===== src/Core/Execute/Multiply/Products.antt =====
-- The product that a multiplication leaves in R1:R0.
use simulavr.Prelude.{ℕ, zero, suc, ◌+◌, ◌*◌, ◌/◌, ◌≤◌, ◌<◌, ◌≡◌, refl, ◌↔◌, true, arith, ◌∙◌, ap}
use simulavr.Prelude.{update}
use simulavr.Prelude.Bits.{u8, u16}
use simulavr.Prelude.Int.{ℤ, pos, negsuc, ◌*ℤ◌, ◌≤ℤ◌, signed8, signed16, wrap}
use simulavr.Core.Device.{Device, IsValid}
use simulavr.Core.Execute.Arith.Words.{word}
use simulavr.Core.Execute.Multiply.{run_mul, run_muls, run_mulsu}
use simulavr.Core.Result.{ok}

mul_le : (a b m n : ℕ) → a ≤ m → b ≤ n → a * b ≤ m * n
mul_le zero b m n h k = omega arith
mul_le (suc a) b zero n h k = absurd (omega arith)
mul_le (suc a) b (suc m) n h k = omega (arith, mul_le a b m n (omega arith) k)

signed_wrap : (z : ℤ) → negsuc 32767 ≤ℤ z → z ≤ℤ pos 32767 → signed16 (wrap 65536 z) ≡ z
signed_wrap (pos k) h g = ground arith
signed_wrap (negsuc k) h g = ground arith

-- The product of two integers of 8 bits, the second signed or not, fits 16 bits.
small_product :
    (x y : ℤ)
    → negsuc 127 ≤ℤ x
    → x ≤ℤ pos 127
    → negsuc 127 ≤ℤ y
    → y ≤ℤ pos 255
    → (negsuc 32767 ≤ℤ x *ℤ y) × (x *ℤ y ≤ℤ pos 32767)
unfolding ◌*ℤ◌
small_product (pos a) (pos b) h k m n =
    let bound = mul_le a b 127 255 (omega arith) (omega arith) in (ground arith, ground arith)
small_product (pos a) (negsuc b) h k m n =
    let bound = mul_le a (suc b) 127 128 (omega arith) (omega arith) in (ground arith, ground arith)
small_product (negsuc a) (pos b) h k m n =
    let bound = mul_le (suc a) b 128 255 (omega arith) (omega arith) in (ground arith, ground arith)
small_product (negsuc a) (negsuc b) h k m n =
    let bound = mul_le (suc a) (suc b) 128 128 (omega arith) (omega arith) in
    (ground arith, ground arith)

signed8_bounds : (x : ℕ) → x < 256 → (negsuc 127 ≤ℤ signed8 x) × (signed8 x ≤ℤ pos 127)
signed8_bounds x h = (ground arith, ground arith)

-- R1:R0 after a result of 16 bits.
stored_word :
    (f : ℕ → ℕ) (x : ℕ)
    → update (update f 0 (u8 x)) 1 (u8 (x / 256)) 1 * 256
        + update (update f 0 (u8 x)) 1 (u8 (x / 256)) 0
      ≡ u16 x
stored_word f x = omega arith

wrap_word : (z : ℤ) → u16 (wrap 65536 z) ≡ wrap 65536 z
wrap_word (pos k) = omega arith
wrap_word (negsuc k) = omega arith

-- The word that R1:R0 hold after a signed product, read as signed.
signed_word :
    (f : ℕ → ℕ) (x y : ℤ)
    → negsuc 127 ≤ℤ x
    → x ≤ℤ pos 127
    → negsuc 127 ≤ℤ y
    → y ≤ℤ pos 255
    → signed16 (
        update (update f 0 (u8 (wrap 65536 (x *ℤ y)))) 1 (u8 (wrap 65536 (x *ℤ y) / 256)) 1 * 256
        + update (update f 0 (u8 (wrap 65536 (x *ℤ y)))) 1 (u8 (wrap 65536 (x *ℤ y) / 256)) 0)
      ≡ x *ℤ y
signed_word f x y a b c e =
    let bounds = small_product x y a b c e in
    ap signed16 (stored_word f (wrap 65536 (x *ℤ y)) ∙ wrap_word (x *ℤ y))
    ∙ signed_wrap (x *ℤ y) bounds.0 bounds.1

-- On a valid device, MULS leaves in R1:R0, read as a signed word, the product of two registers that
-- are read as signed, and changes no other register.
pub muls-product :
    (rd rr : ℕ) (d : Device)
    → IsValid d
    → (d' : Device) × (run_muls rd rr d ≡ ok (d', pos 2))
      × (signed16 (word 0 1 d') ≡ signed8 (d.cells rd) *ℤ signed8 (d.cells rr))
      × ((r : ℕ) → 2 ≤ r → d'.cells r ≡ d.cells r)
unfolding run_muls
muls-product rd rr d v =
    let x = signed8_bounds (d.cells rd) (v.bytes rd) in
    let y = signed8_bounds (d.cells rr) (v.bytes rr) in
    (
      _,
      refl,
      signed_word d.cells (signed8 (d.cells rd)) (signed8 (d.cells rr)) x.0 x.1 y.0
          (omega (arith, y.1)),
      λ r h. ground arith,
    )

-- On a valid device, MULSU leaves in R1:R0, read as a signed word, the product of a signed and an
-- unsigned register, and changes no other register.
pub mulsu-product :
    (rd rr : ℕ) (d : Device)
    → IsValid d
    → (d' : Device) × (run_mulsu rd rr d ≡ ok (d', pos 2))
      × (signed16 (word 0 1 d') ≡ signed8 (d.cells rd) *ℤ pos (d.cells rr))
      × ((r : ℕ) → 2 ≤ r → d'.cells r ≡ d.cells r)
unfolding run_mulsu
mulsu-product rd rr d v =
    let x = signed8_bounds (d.cells rd) (v.bytes rd) in
    (
      _,
      refl,
      signed_word d.cells (signed8 (d.cells rd)) (pos (d.cells rr)) x.0 x.1 (omega arith)
          (omega (arith, v.bytes rr)),
      λ r h. ground arith,
    )

-- On a valid device, MUL leaves in R1:R0 the product of two registers; Z says that it is 0 and C
-- that it reaches 32768.
pub mul-product :
    (rd rr : ℕ) (d : Device)
    → IsValid d
    → (d' : Device) × (run_mul rd rr d ≡ ok (d', pos 2))
      × (word 0 1 d' ≡ d.cells rd * d.cells rr)
      × ((d'.status.z ≡ true) ↔ (d.cells rd * d.cells rr ≡ 0))
      × ((d'.status.c ≡ true) ↔ (32768 ≤ d.cells rd * d.cells rr))
unfolding run_mul
mul-product rd rr d v =
    let a = v.bytes rd in
    let b = v.bytes rr in
    let bound = mul_le (d.cells rd) (d.cells rr) 255 255 (omega arith) (omega arith) in
    (_, refl, omega arith, ground arith, ground arith)
