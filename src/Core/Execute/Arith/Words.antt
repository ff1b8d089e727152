-- ===== src/Core/Execute/Arith/Words.antt =====
-- Arithmetic on words, by two instructions on their bytes or by one instruction.
use simulavr.Prelude.{update_other}
use simulavr.Prelude.{ℕ, ◌+◌, ◌-◌, ◌*◌, ◌%◌, ◌≤◌, ◌<◌, ◌≡◌, ◌≢◌, refl, ◌↔◌, ◌⊎◌, true, arith}
use simulavr.Prelude.{update, leb, Bool, ◌∙◌}
use simulavr.Prelude.Bits.{u8, u16}
use simulavr.Prelude.Int.{pos, negsuc, ◌+ℤ◌, ◌≤ℤ◌, signed16}
use simulavr.Core.Alu.{add_status, compare_status}
use simulavr.Core.Device.{Device, IsValid}
use simulavr.Core.Execute.Arith.{run_add, run_adc, minus8, keep_zero}
use simulavr.Core.Memory.{get_core_reg}
use simulavr.Core.Result.{ok, ◌>>=◌}
use simulavr.Sreg.{Sreg, bit}

-- The word in two core registers.
abbrev pub word : ℕ → ℕ → Device → ℕ
word low high d = get_core_reg high d * 256 + get_core_reg low d

-- What the flags say of two words after the comparison of both bytes.
pub record IsComparison (a b : ℕ) (st : Sreg) : Type 0 where
  pub below : (st.c ≡ true) ↔ (a < b)
  pub same : (st.z ≡ true) ↔ (a ≡ b)
  pub less : (st.s ≡ true) ↔ (signed16 a ≤ℤ signed16 b +ℤ negsuc 0)
  pub negative : (st.n ≡ true) ↔ (32768 ≤ (a + 65536 - b) % 65536)

abbrev compared : Sreg → ℕ → ℕ → ℕ → ℕ → Sreg
compared st l1 h1 l2 h2 =
    let st' = compare_status st (minus8 l1 l2 0) l1 l2 in
    keep_zero st' (compare_status st' (minus8 h1 h2 (bit st'.c)) h1 h2)

-- What the flags say of the sum of two words.
pub record IsWordSum (a b : ℕ) (st : Sreg) : Type 0 where
  pub carry : (st.c ≡ true) ↔ (65536 ≤ a + b)
  pub negative : (st.n ≡ true) ↔ (32768 ≤ (a + b) % 65536)
  pub overflow :
      (st.v ≡ true)
      ↔ ((signed16 a +ℤ signed16 b ≤ℤ negsuc 32768) ⊎ (pos 32768 ≤ℤ signed16 a +ℤ signed16 b))
  pub sign : (st.s ≡ true) ↔ (signed16 a +ℤ signed16 b ≤ℤ negsuc 0)

low_carry :
    (st : Sreg) (l1 l2 : ℕ)
    → l1 < 256
    → l2 < 256
    → (add_status st (u8 (l1 + l2)) l1 l2).c ≡ leb 256 (l1 + l2)
unfolding add_status
low_carry st l1 l2 a b = ground arith

sum_flags :
    (st : Sreg) (l1 h1 l2 h2 : ℕ)
    → l1 < 256
    → h1 < 256
    → l2 < 256
    → h2 < 256
    → st.c ≡ leb 256 (l1 + l2)
    → IsWordSum (h1 * 256 + l1) (h2 * 256 + l2) (add_status st (u8 (h1 + h2 + bit st.c)) h1 h2)
unfolding add_status ◌+ℤ◌
sum_flags st l1 h1 l2 h2 a b c e carried = record {
  carry = ground arith;
  negative = ground arith;
  overflow = ground arith;
  sign = ground arith;
}

sum_word :
    (l1 h1 l2 h2 : ℕ) (c : Bool)
    → l1 < 256
    → l2 < 256
    → c ≡ leb 256 (l1 + l2)
    → u8 (h1 + h2 + bit c) * 256 + u8 (l1 + l2) ≡ u16 (h1 * 256 + l1 + (h2 * 256 + l2))
sum_word l1 h1 l2 h2 c a b carried = ground arith

pub pair_word :
    (f : ℕ → ℕ) (l h a b : ℕ)
    → h ≢ l
    → update (update f l a) h b h * 256 + update (update f l a) h b l ≡ b * 256 + a
pair_word f l h a b n = ground arith

pair_other : (f : ℕ → ℕ) (l h a b r : ℕ) → r ≢ l → r ≢ h → update (update f l a) h b r ≡ f r
pair_other f l h a b r n m = ground arith

abbrev low_status : ℕ → ℕ → Device → Sreg
low_status l1 l2 d = add_status d.status (u8 (d.cells l1 + d.cells l2)) (d.cells l1) (d.cells l2)

abbrev added : ℕ → ℕ → ℕ → ℕ → Device → Device
added l1 h1 l2 h2 d =
    let high = u8 (d.cells h1 + d.cells h2 + bit (low_status l1 l2 d).c) in
    record d {
      cells = update (update d.cells l1 (u8 (d.cells l1 + d.cells l2))) h1 high;
      status = add_status (low_status l1 l2 d) high (d.cells h1) (d.cells h2);
    }

run_add-run_adc :
    (l1 h1 l2 h2 : ℕ) (d : Device)
    → h1 ≢ l1
    → h2 ≢ l1
    → (run_add l1 l2 d >>= λ p. run_adc h1 h2 p.0) ≡ ok (added l1 h1 l2 h2 d, pos 1)
unfolding run_add run_adc
run_add-run_adc l1 h1 l2 h2 d n m =
    let cells = d.cells in
    let res = u8 (cells l1 + cells l2) in
    rw (update_other cells l1 res h1 n) (rw (update_other cells l1 res h2 m) refl)

-- On a valid device, ADD of the low bytes and then ADC of the high bytes add two words modulo
-- 65536, with the carry, the sign and the signed overflow of the words in C, N, S and V, when the
-- register of the low result is neither of the registers with the high bytes. No other register
-- changes, and no other state but the flags.
pub add-IsWordSum :
    (l1 h1 l2 h2 : ℕ) (d : Device)
    → IsValid d
    → h1 ≢ l1
    → h2 ≢ l1
    → (d' : Device) × ((run_add l1 l2 d >>= λ p. run_adc h1 h2 p.0) ≡ ok (d', pos 1))
      × (word l1 h1 d' ≡ u16 (word l1 h1 d + word l2 h2 d))
      × IsWordSum (word l1 h1 d) (word l2 h2 d) d'.status
      × ((r : ℕ) → r ≢ l1 → r ≢ h1 → d'.cells r ≡ d.cells r)
      × (record d' { cells = d.cells; status = d.status } ≡ d)
add-IsWordSum l1 h1 l2 h2 d v n m =
    let carried = low_carry d.status (d.cells l1) (d.cells l2) (v.bytes l1) (v.bytes l2) in
    (
      added l1 h1 l2 h2 d,
      run_add-run_adc l1 h1 l2 h2 d n m,
      pair_word d.cells l1 h1 _ _ n
          ∙ sum_word (d.cells l1) (d.cells h1) (d.cells l2) (d.cells h2) (low_status l1 l2 d).c
              (v.bytes l1) (v.bytes l2) carried,
      sum_flags (low_status l1 l2 d) (d.cells l1) (d.cells h1) (d.cells l2) (d.cells h2)
          (v.bytes l1) (v.bytes h1) (v.bytes l2) (v.bytes h2) carried,
      λ r a b. pair_other d.cells l1 h1 _ _ r a b,
      refl,
    )
