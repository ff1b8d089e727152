-- ===== src/Core/Execute/Logic/Flags.antt =====
-- Single bits of the status register, and the two nibbles of a register.
use simulavr.Prelude.{update_same}
use simulavr.Prelude.{ℕ, ◌+◌, ◌*◌, ◌/◌, ◌%◌, ◌<◌, ◌≡◌, refl, ap, ◌∙◌, arith, bit_and, bit_or}
use simulavr.Prelude.{
  update, Bool, true, false, ◌==◌, if◌then◌else◌, not, ◌&&◌, xor, all_below, all_below_sound,
}
use simulavr.Prelude.Bits.{◌<<<◌, ◌>>>◌, not32}
use simulavr.Prelude.Int.{pos}
use simulavr.Core.Alu.{bit_at, get_sub_carry, sub_status}
use simulavr.Core.Device.{Device, IsValid}
use simulavr.Core.Execute.Arith.{run_neg, neg_status, minus8}
use simulavr.Core.Execute.Logic.{run_bset, run_bclr, run_swap}
use simulavr.Core.Result.{ok}
use simulavr.Sreg.{Sreg, to_int, from_int}

abbrev same_bit : Bool → Bool → Bool
same_bit a b = not (xor a b)

same_bit_sound : (a b : Bool) → same_bit a b ≡ true → a ≡ b
same_bit_sound a b h = ground (arith, h)

to_int_byte : (st : Sreg) → to_int st < 256
unfolding to_int
to_int_byte st = ground arith

set_bits_table :
    all_below 256 (λ x. all_below 8 (λ k. all_below 8 (λ j.
      same_bit
        (bit_at (to_int (from_int (bit_or x (1 <<< k)))) j)
        (if j == k then true else bit_at x j))))
    ≡ true
unfolding all_below to_int from_int
set_bits_table = refl

clear_bits_table :
    all_below 256 (λ x. all_below 8 (λ k. all_below 8 (λ j.
      same_bit
        (bit_at (to_int (from_int (bit_and x (not32 (1 <<< k))))) j)
        (if j == k then false else bit_at x j))))
    ≡ true
unfolding all_below to_int from_int
clear_bits_table = refl

-- BSET sets the flag of its operand in the status register and keeps the seven others.
pub bset-bits :
    (k j : ℕ) (d : Device)
    → k < 8
    → j < 8
    → (d' : Device) × (run_bset k d ≡ ok (d', pos 1))
      × (bit_at (to_int d'.status) j ≡ (if j == k then true else bit_at (to_int d.status) j))
unfolding run_bset
bset-bits k j d hk hj = (
  _,
  refl,
  same_bit_sound _ _ (
      all_below_sound 8 _ j
        (all_below_sound 8 _ k
          (all_below_sound 256 _ (to_int d.status) set_bits_table (to_int_byte d.status)) hk)
        hj),
)

-- BCLR clears the flag of its operand in the status register and keeps the seven others.
pub bclr-bits :
    (k j : ℕ) (d : Device)
    → k < 8
    → j < 8
    → (d' : Device) × (run_bclr k d ≡ ok (d', pos 1))
      × (bit_at (to_int d'.status) j ≡ (if j == k then false else bit_at (to_int d.status) j))
unfolding run_bclr
bclr-bits k j d hk hj = (
  _,
  refl,
  same_bit_sound _ _ (
      all_below_sound 8 _ j
        (all_below_sound 8 _ k
          (all_below_sound 256 _ (to_int d.status) clear_bits_table (to_int_byte d.status)) hk)
        hj),
)

abbrev swapped : ℕ → ℕ
swapped x = bit_or (bit_and (x <<< 4) 0xf0) (bit_and (x >>> 4) 0x0f)

swap_table :
    all_below 256 (λ x. (swapped x == x / 16 + x % 16 * 16) && (swapped (swapped x) == x)) ≡ true
unfolding all_below
swap_table = refl

swap_facts : (x : ℕ) → x < 256 → (swapped x ≡ x / 16 + x % 16 * 16) × (swapped (swapped x) ≡ x)
swap_facts x h =
    let row = all_below_sound 256 _ x swap_table h in (ground (arith, row), ground (arith, row))

-- A cell that is written twice, at last with its old value.
update_back : (f : ℕ → ℕ) (r v a : ℕ) → update (update f r v) r (f r) a ≡ f a
update_back f r v a = grind arith

-- On a valid device, SWAP exchanges the two digits of a register, and a second SWAP restores it.
pub swap-swap :
    (r : ℕ) (d : Device)
    → IsValid d
    → (d1 : Device) × (d2 : Device) × (run_swap r d ≡ ok (d1, pos 1))
      × (d1.cells r ≡ d.cells r / 16 + d.cells r % 16 * 16)
      × (run_swap r d1 ≡ ok (d2, pos 1))
      × ((a : ℕ) → d2.cells a ≡ d.cells a)
unfolding run_swap
swap-swap r d v =
    let facts = swap_facts (d.cells r) (v.bytes r) in
    (
      _,
      _,
      refl,
      update_same d.cells r (swapped (d.cells r)) ∙ facts.0,
      refl,
      λ a.
          ap (λ x. update (update d.cells r (swapped (d.cells r))) r (swapped x) a)
            (update_same d.cells r (swapped (d.cells r)))
          ∙ ap (λ x. update (update d.cells r (swapped (d.cells r))) r x a) facts.1
          ∙ update_back d.cells r (swapped (d.cells r)) a,
    )

half_borrow_table :
    all_below 256 (λ x.
      same_bit
        (bit_or (minus8 0 x 0 >>> 3) (x >>> 3) % 2 == 1)
        (get_sub_carry (minus8 0 x 0) 0 x 3))
    ≡ true
unfolding all_below get_sub_carry
half_borrow_table = refl

half_borrow :
    (x : ℕ)
    → x < 256
    → (bit_or (minus8 0 x 0 >>> 3) (x >>> 3) % 2 == 1) ≡ get_sub_carry (minus8 0 x 0) 0 x 3
half_borrow x h =
    same_bit_sound (bit_or (minus8 0 x 0 >>> 3) (x >>> 3) % 2 == 1)
      (get_sub_carry (minus8 0 x 0) 0 x 3)
      (all_below_sound 256
        (λ y.
          same_bit (bit_or (minus8 0 y 0 >>> 3) (y >>> 3) % 2 == 1)
            (get_sub_carry (minus8 0 y 0) 0 y 3))
        x half_borrow_table h)

sreg_eq :
    (a b : Sreg)
    → a.i ≡ b.i
    → a.t ≡ b.t
    → a.h ≡ b.h
    → a.s ≡ b.s
    → a.v ≡ b.v
    → a.n ≡ b.n
    → a.z ≡ b.z
    → a.c ≡ b.c
    → a ≡ b
sreg_eq a b i t h s v n z c = ground arith

neg_status-eq-sub_status :
    (st : Sreg) (x : ℕ)
    → x < 256
    → neg_status st (minus8 0 x 0) x ≡ sub_status st (minus8 0 x 0) 0 x
unfolding sub_status
neg_status-eq-sub_status st x h =
    sreg_eq _ _ refl refl (half_borrow x h) (ground arith) (ground arith) refl refl (ground arith)

-- On a valid device, NEG leaves 0 less the register, and its flags are those of SUB from 0.
pub neg-eq-sub :
    (r : ℕ) (d : Device)
    → IsValid d
    → (d' : Device) × (run_neg r d ≡ ok (d', pos 1))
      × (d'.cells r ≡ minus8 0 (d.cells r) 0)
      × (d'.status ≡ sub_status d.status (minus8 0 (d.cells r) 0) 0 (d.cells r))
unfolding run_neg
neg-eq-sub r d v =
    (_, refl, update_same d.cells r _, neg_status-eq-sub_status d.status (d.cells r) (v.bytes r))
