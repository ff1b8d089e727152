-- ===== src/Decode/Width.antt =====
-- The words of an instruction: `IsInstruction2Words` (src/decoder.h) of the decoded opcode.
use simulavr.Prelude.{ℕ, ◌<◌, ◌≡◌, ◌≢◌, inl, inr, ap, ◌∙◌, arith, true, Bool}
use simulavr.Decode.Case.{CoreFlags, full}
use simulavr.Decode.Encode.{has_two_words}
use simulavr.Decode.Instruction.{avr_op_illegal, is_instruction_2_words}
use simulavr.Decode.Limits.{lookup_opcode-Weaker}
use simulavr.Decode.Lookup.{lookup_opcode}
use simulavr.Decode.Table.{checked_all}
use simulavr.Decode.Table.Check.{checked, same_width}

same_width-eq : (a b : Bool) → same_width a b ≡ true → a ≡ b
same_width-eq a b h = ground (arith, h)

full_width :
    (opcode : ℕ)
    → opcode < 65536
    → is_instruction_2_words (lookup_opcode full opcode) ≡ has_two_words opcode
unfolding checked
full_width opcode h =
    same_width-eq (is_instruction_2_words (lookup_opcode full opcode)) (has_two_words opcode)
      (ground (arith, checked_all opcode h))

-- An opcode that a core decodes to a legal instruction has a second word exactly when its bits are
-- those of LDS, STS, JMP or CALL.
pub is_instruction_2_words-lookup_opcode :
    (f : CoreFlags) (opcode : ℕ)
    → opcode < 65536
    → lookup_opcode f opcode ≢ avr_op_illegal
    → is_instruction_2_words (lookup_opcode f opcode) ≡ has_two_words opcode
is_instruction_2_words-lookup_opcode f opcode h legal = elim (lookup_opcode-Weaker f opcode h) [
  | inl illegal ↦ absurd (legal illegal)
  | inr same ↦ ap is_instruction_2_words same ∙ full_width opcode h
]
