-- ===== src/Decode/Lookup.antt =====
-- `lookup_opcode` (src/decoder.cpp): the instruction that an opcode stands for. Each `switch` of the
-- source is a function; `none` means that it finds no case.
use simulavr.Prelude.{ℕ, bit_and, bit_or, not, ◌&&◌, Option, none, if◌then◌else◌}
use simulavr.Prelude.Bits.{not32}
use simulavr.Decode.Case.{CoreFlags, switch, ◌orelse◌}
use simulavr.Decode.Cases.{
  cases_no_operand, cases_rd_5_rr_5, cases_rd_5, cases_rd_4_k_8, cases_rd_5_reg_bit,
  cases_k_7_reg_bit, cases_q_displ_rd_5, cases_k_22, cases_sreg_bit, cases_k_6_rd_2,
  cases_a_5_reg_bit, cases_a_6_rd_5, cases_k_12, cases_rd_4_rr_4, cases_rd_3_rr_3,
}
use simulavr.Decode.Fields.{
  mask_rd_2, mask_rd_3, mask_rd_4, mask_rd_5, mask_rr_3, mask_rr_4, mask_rr_5,
}
use simulavr.Decode.Fields.{
  mask_const_8, mask_const_6, mask_k_7, mask_k_12, mask_k_22, mask_reg_bit,
}
use simulavr.Decode.Fields.{mask_sreg_bit, mask_q_displ, mask_a_5, mask_a_6}
use simulavr.Decode.Instruction.{Instruction, avr_op_illegal}

-- `opcode & ~mask`.
abbrev pub without : ℕ → ℕ → ℕ
without opcode mask = bit_and opcode (not32 mask)

unfoldable pub lookup_no_operand : CoreFlags → ℕ → Option Instruction
unfolding switch cases_no_operand
lookup_no_operand f opcode = switch f opcode opcode cases_no_operand

unfoldable pub lookup_rd_5_rr_5 : CoreFlags → ℕ → Option Instruction
unfolding switch cases_rd_5_rr_5
lookup_rd_5_rr_5 f opcode =
    switch f (without opcode (bit_or mask_rd_5 mask_rr_5)) opcode cases_rd_5_rr_5

unfoldable pub lookup_rd_5 : CoreFlags → ℕ → Option Instruction
unfolding switch cases_rd_5
lookup_rd_5 f opcode = switch f (without opcode mask_rd_5) opcode cases_rd_5

unfoldable pub lookup_rd_4_k_8 : CoreFlags → ℕ → Option Instruction
unfolding switch cases_rd_4_k_8
lookup_rd_4_k_8 f opcode =
    switch f (without opcode (bit_or mask_rd_4 mask_const_8)) opcode cases_rd_4_k_8

unfoldable pub lookup_rd_5_reg_bit : CoreFlags → ℕ → Option Instruction
unfolding switch cases_rd_5_reg_bit
lookup_rd_5_reg_bit f opcode =
    switch f (without opcode (bit_or mask_rd_5 mask_reg_bit)) opcode cases_rd_5_reg_bit

unfoldable pub lookup_k_7_reg_bit : CoreFlags → ℕ → Option Instruction
unfolding switch cases_k_7_reg_bit
lookup_k_7_reg_bit f opcode =
    switch f (without opcode (bit_or mask_k_7 mask_reg_bit)) opcode cases_k_7_reg_bit

-- Small cores skip this one.
unfoldable pub lookup_q_displ_rd_5 : CoreFlags → ℕ → Option Instruction
unfolding switch cases_q_displ_rd_5
lookup_q_displ_rd_5 f opcode =
    if not f.tiny10 && not f.tiny1x
    then switch f (without opcode (bit_or mask_rd_5 mask_q_displ)) opcode cases_q_displ_rd_5
    else none

unfoldable pub lookup_k_22 : CoreFlags → ℕ → Option Instruction
unfolding switch cases_k_22
lookup_k_22 f opcode = switch f (without opcode mask_k_22) opcode cases_k_22

unfoldable pub lookup_sreg_bit : CoreFlags → ℕ → Option Instruction
unfolding switch cases_sreg_bit
lookup_sreg_bit f opcode = switch f (without opcode mask_sreg_bit) opcode cases_sreg_bit

unfoldable pub lookup_k_6_rd_2 : CoreFlags → ℕ → Option Instruction
unfolding switch cases_k_6_rd_2
lookup_k_6_rd_2 f opcode =
    switch f (without opcode (bit_or mask_const_6 mask_rd_2)) opcode cases_k_6_rd_2

unfoldable pub lookup_a_5_reg_bit : CoreFlags → ℕ → Option Instruction
unfolding switch cases_a_5_reg_bit
lookup_a_5_reg_bit f opcode =
    switch f (without opcode (bit_or mask_a_5 mask_reg_bit)) opcode cases_a_5_reg_bit

unfoldable pub lookup_a_6_rd_5 : CoreFlags → ℕ → Option Instruction
unfolding switch cases_a_6_rd_5
lookup_a_6_rd_5 f opcode =
    switch f (without opcode (bit_or mask_a_6 mask_rd_5)) opcode cases_a_6_rd_5

unfoldable pub lookup_k_12 : CoreFlags → ℕ → Option Instruction
unfolding switch cases_k_12
lookup_k_12 f opcode = switch f (without opcode mask_k_12) opcode cases_k_12

unfoldable pub lookup_rd_4_rr_4 : CoreFlags → ℕ → Option Instruction
unfolding switch cases_rd_4_rr_4
lookup_rd_4_rr_4 f opcode =
    switch f (without opcode (bit_or mask_rd_4 mask_rr_4)) opcode cases_rd_4_rr_4

unfoldable pub lookup_rd_3_rr_3 : CoreFlags → ℕ → Option Instruction
unfolding switch cases_rd_3_rr_3
lookup_rd_3_rr_3 f opcode =
    switch f (without opcode (bit_or mask_rd_3 mask_rr_3)) opcode cases_rd_3_rr_3

-- The cases behind the one on `mask_q_displ`.
unfoldable pub lookup_rest : CoreFlags → ℕ → Instruction
lookup_rest f opcode =
    lookup_k_22 f opcode
    orelse lookup_sreg_bit f opcode
    orelse lookup_k_6_rd_2 f opcode
    orelse lookup_a_5_reg_bit f opcode
    orelse lookup_a_6_rd_5 f opcode
    orelse lookup_k_12 f opcode
    orelse lookup_rd_4_rr_4 f opcode
    orelse lookup_rd_3_rr_3 f opcode
    orelse avr_op_illegal

unfoldable pub lookup_opcode : CoreFlags → ℕ → Instruction
lookup_opcode f opcode =
    lookup_no_operand f opcode
    orelse lookup_rd_5_rr_5 f opcode
    orelse lookup_rd_5 f opcode
    orelse lookup_rd_4_k_8 f opcode
    orelse lookup_rd_5_reg_bit f opcode
    orelse lookup_k_7_reg_bit f opcode
    orelse lookup_q_displ_rd_5 f opcode
    orelse lookup_rest f opcode
