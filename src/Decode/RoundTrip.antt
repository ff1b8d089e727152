-- ===== src/Decode/RoundTrip.antt =====
-- Decoding loses nothing.
use simulavr.Prelude.{ℕ, ◌<◌, ◌≡◌, ◌⊎◌, inl, inr, true, some, arith}
use simulavr.Decode.Case.{CoreFlags, full}
use simulavr.Decode.Encode.{encode}
use simulavr.Decode.Instruction.{Instruction, avr_op_illegal}
use simulavr.Decode.Limits.{encode-eq-none, lookup_opcode-Weaker}
use simulavr.Decode.Lookup.{lookup_opcode}
use simulavr.Decode.Table.{checked_all}
use simulavr.Decode.Table.Check.{agrees, checked}

agrees_cases :
    (i : Instruction) (opcode : ℕ)
    → agrees (encode i) opcode ≡ true
    → (i ≡ avr_op_illegal) ⊎ (encode i ≡ some opcode)
agrees_cases i opcode h = ground (arith, encode-eq-none i)

full_round_trip :
    (opcode : ℕ)
    → opcode < 65536
    → (lookup_opcode full opcode ≡ avr_op_illegal)
      ⊎ (encode (lookup_opcode full opcode) ≡ some opcode)
unfolding checked
full_round_trip opcode h =
    agrees_cases (lookup_opcode full opcode) opcode (ground (arith, checked_all opcode h))

-- On every core, and for every 16-bit opcode, the decoder gives the illegal instruction or one whose
-- documented encoding is that opcode: class and operands determine the opcode.
pub encode-lookup_opcode :
    (f : CoreFlags) (opcode : ℕ)
    → opcode < 65536
    → (lookup_opcode f opcode ≡ avr_op_illegal) ⊎ (encode (lookup_opcode f opcode) ≡ some opcode)
encode-lookup_opcode f opcode h = elim (lookup_opcode-Weaker f opcode h) [
  | inl illegal ↦ inl illegal
  | inr same ↦ rw same (full_round_trip opcode h)
]
