-- ===== src/Core/Execute/Arith/Immediate.antt =====
-- ADIW and SBIW, which add a small constant to a word and subtract it.
use simulavr.Prelude.{ℕ, ◌+◌, ◌-◌, ◌*◌, ◌/◌, ◌<◌, ◌≡◌, ◌≢◌, refl, arith}
use simulavr.Prelude.{◌∙◌}
use simulavr.Prelude.Bits.{u8, u16}
use simulavr.Prelude.Int.{pos, ◌+ℤ◌}
use simulavr.Core.Device.{Device, IsValid}
use simulavr.Core.Execute.Arith.{run_adiw, run_sbiw, adiw_status, sbiw_status}
use simulavr.Core.Result.{ok}
use simulavr.Sreg.{Sreg}
use simulavr.Core.Execute.Arith.Words.{word, IsComparison, IsWordSum, pair_word}

-- A word and its two bytes.
bytes_of_word : (x : ℕ) → u8 (x / 256) * 256 + u8 x ≡ u16 x
bytes_of_word x = omega arith

adiw_flags :
    (st : Sreg) (l h k : ℕ)
    → l < 256
    → h < 256
    → k < 64
    → IsWordSum (h * 256 + l) k (adiw_status st (u16 (h * 256 + l + k)) h)
unfolding ◌+ℤ◌
adiw_flags st l h k a b c = record {
  carry = ground arith;
  negative = ground arith;
  overflow = ground arith;
  sign = ground arith;
}

sbiw_flags :
    (st : Sreg) (l h k : ℕ)
    → l < 256
    → h < 256
    → k < 64
    → IsComparison (h * 256 + l) k (sbiw_status st (u16 (h * 256 + l + 65536 - k)) h)
unfolding ◌+ℤ◌
sbiw_flags st l h k a b c = record {
  below = ground arith;
  same = ground arith;
  less = ground arith;
  negative = ground arith;
}

-- On a valid device, ADIW adds its constant, which has 6 bits, to a word in two different
-- registers, modulo 65536, with the carry, the sign and the signed overflow of the word in C, N, S
-- and V.
pub adiw-IsWordSum :
    (l h k : ℕ) (d : Device)
    → IsValid d
    → h ≢ l
    → k < 64
    → (d' : Device) × (run_adiw l h k d ≡ ok (d', pos 2))
      × (word l h d' ≡ u16 (word l h d + k))
      × IsWordSum (word l h d) k d'.status
unfolding run_adiw
adiw-IsWordSum l h k d v n small = (
  _,
  refl,
  pair_word d.cells l h _ _ n ∙ bytes_of_word _ ∙ omega arith,
  adiw_flags d.status (d.cells l) (d.cells h) k (v.bytes l) (v.bytes h) small,
)

-- On a valid device, SBIW subtracts its constant, which has 6 bits, from a word modulo 65536, and
-- its flags compare the word with the constant.
pub sbiw-IsComparison :
    (l k : ℕ) (d : Device)
    → IsValid d
    → k < 64
    → (d' : Device) × (run_sbiw l k d ≡ ok (d', pos 2))
      × (word l (l + 1) d' ≡ u16 (word l (l + 1) d + 65536 - k))
      × IsComparison (word l (l + 1) d) k d'.status
unfolding run_sbiw
sbiw-IsComparison l k d v small = (
  _,
  refl,
  pair_word d.cells l (l + 1) _ _ (λ e. omega arith) ∙ bytes_of_word _ ∙ omega arith,
  sbiw_flags d.status (d.cells l) (d.cells (l + 1)) k (v.bytes l) (v.bytes (l + 1)) small,
)
