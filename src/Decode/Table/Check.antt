-- ===== src/Decode/Table/Check.antt =====
-- What is checked of an opcode.
use simulavr.Prelude.{ℕ, ◌≡◌, refl, Bool, true, false, not, ◌&&◌, Option, none, some, ◌==◌}
use simulavr.Decode.Case.{full}
use simulavr.Decode.Encode.{encode, has_two_words}
use simulavr.Decode.Instruction.{Instruction, is_instruction_2_words}
use simulavr.Decode.Lookup.{
  lookup_opcode, lookup_rest, lookup_no_operand, lookup_rd_5_rr_5, lookup_rd_5, lookup_rd_4_k_8,
  lookup_rd_5_reg_bit, lookup_k_7_reg_bit, lookup_q_displ_rd_5, lookup_k_22, lookup_sreg_bit,
  lookup_k_6_rd_2, lookup_a_5_reg_bit, lookup_a_6_rd_5, lookup_k_12, lookup_rd_4_rr_4,
  lookup_rd_3_rr_3,
}

abbrev pub agrees : Option ℕ → ℕ → Bool
agrees none opcode = true
agrees (some e) opcode = e == opcode

-- Where a case with a displacement fits, no case behind it does.
abbrev pub is_last : Option Instruction → Option ℕ → Bool
is_last none rest = true
is_last (some i) none = true
is_last (some i) (some e) = false

abbrev pub same_width : Bool → Bool → Bool
same_width true b = b
same_width false b = not b

unfoldable pub checked : ℕ → Bool
checked opcode =
    agrees (encode (lookup_opcode full opcode)) opcode
    && is_last (lookup_q_displ_rd_5 full opcode) (encode (lookup_rest full opcode))
    && same_width (is_instruction_2_words (lookup_opcode full opcode)) (has_two_words opcode)

-- The same with everything unfolded, to be evaluated.
unfoldable pub evaluated : ℕ → Bool
unfolding checked encode lookup_opcode lookup_rest lookup_no_operand lookup_rd_5_rr_5 lookup_rd_5
    lookup_rd_4_k_8 lookup_rd_5_reg_bit lookup_k_7_reg_bit lookup_q_displ_rd_5 lookup_k_22
    lookup_sreg_bit lookup_k_6_rd_2 lookup_a_5_reg_bit lookup_a_6_rd_5 lookup_k_12 lookup_rd_4_rr_4
    lookup_rd_3_rr_3 is_instruction_2_words
evaluated opcode = checked opcode

pub evaluated-eq-checked : (opcode : ℕ) → evaluated opcode ≡ checked opcode
unfolding evaluated
evaluated-eq-checked opcode = refl
