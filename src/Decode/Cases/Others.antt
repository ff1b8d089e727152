-- ===== src/Decode/Cases/Others.antt =====
-- The `case` labels of `lookup_opcode` (src/decoder.cpp), in their order.
use simulavr.Prelude.{List, [], ◌∷◌}
use simulavr.Decode.Case.{
  Case, case, always, if_iw_instructions, if_jmp_instructions, if_movw_instruction,
  if_mul_instructions,
}
use simulavr.Decode.Make.{
  make_adiw, make_andi, make_bclr, make_bld, make_brbc, make_brbs, make_bset, make_bst, make_call,
  make_cbi, make_cpi, make_fmul, make_fmuls, make_fmulsu, make_in, make_jmp, make_ldd_y, make_ldd_z,
  make_ldi, make_movw, make_muls, make_mulsu, make_ori, make_out, make_rcall, make_rjmp, make_sbci,
  make_sbi, make_sbic, make_sbis, make_sbiw, make_sbrc, make_sbrs, make_std_y, make_std_z,
  make_subi,
}

-- Opcodes with a register (Rd) and a constant data (K) as operands.
unfoldable pub cases_rd_4_k_8 : List Case
unfolding make_andi make_cpi make_ldi make_ori make_sbci make_subi
cases_rd_4_k_8 =
    case 0x7000 always make_andi
    ∷ case 0x3000 always make_cpi
    ∷ case 0xe000 always make_ldi
    ∷ case 0x6000 always make_ori
    ∷ case 0x4000 always make_sbci
    ∷ case 0x5000 always make_subi
    ∷ []

-- Opcodes with a register (Rd) and a register bit number (b) as operands.
unfoldable pub cases_rd_5_reg_bit : List Case
unfolding make_bld make_bst make_sbrc make_sbrs
cases_rd_5_reg_bit =
    case 0xf800 always make_bld
    ∷ case 0xfa00 always make_bst
    ∷ case 0xfc00 always make_sbrc
    ∷ case 0xfe00 always make_sbrs
    ∷ []

-- Opcodes with a relative 7-bit address (k) and a register bit number (b) as operands.
unfoldable pub cases_k_7_reg_bit : List Case
unfolding make_brbc make_brbs
cases_k_7_reg_bit = case 0xf400 always make_brbc ∷ case 0xf000 always make_brbs ∷ []

-- Opcodes with a 6-bit address displacement (q) and a register (Rd) as operands.
unfoldable pub cases_q_displ_rd_5 : List Case
unfolding make_ldd_y make_ldd_z make_std_y make_std_z
cases_q_displ_rd_5 =
    case 0x8008 always make_ldd_y
    ∷ case 0x8000 always make_ldd_z
    ∷ case 0x8208 always make_std_y
    ∷ case 0x8200 always make_std_z
    ∷ []

-- Opcodes with an absolute 22-bit address (k) operand.
unfoldable pub cases_k_22 : List Case
unfolding make_call make_jmp
cases_k_22 =
    case 0x940e if_jmp_instructions make_call ∷ case 0x940c if_jmp_instructions make_jmp ∷ []

-- Opcodes with a sreg bit select (s) operand.
unfoldable pub cases_sreg_bit : List Case
unfolding make_bclr make_bset
cases_sreg_bit = case 0x9488 always make_bclr ∷ case 0x9408 always make_bset ∷ []

-- Opcodes with a 6-bit constant (K) and a register (Rd) as operands.
unfoldable pub cases_k_6_rd_2 : List Case
unfolding make_adiw make_sbiw
cases_k_6_rd_2 =
    case 0x9600 if_iw_instructions make_adiw ∷ case 0x9700 if_iw_instructions make_sbiw ∷ []

-- Opcodes with a 5-bit IO Addr (A) and register bit number (b) as operands.
unfoldable pub cases_a_5_reg_bit : List Case
unfolding make_cbi make_sbi make_sbic make_sbis
cases_a_5_reg_bit =
    case 0x9800 always make_cbi
    ∷ case 0x9a00 always make_sbi
    ∷ case 0x9900 always make_sbic
    ∷ case 0x9b00 always make_sbis
    ∷ []

-- Opcodes with a 6-bit IO Addr (A) and register (Rd) as operands.
unfoldable pub cases_a_6_rd_5 : List Case
unfolding make_in make_out
cases_a_6_rd_5 = case 0xb000 always make_in ∷ case 0xb800 always make_out ∷ []

-- Opcodes with a relative 12-bit address (k) operand.
unfoldable pub cases_k_12 : List Case
unfolding make_rcall make_rjmp
cases_k_12 = case 0xd000 always make_rcall ∷ case 0xc000 always make_rjmp ∷ []

-- Opcodes with two 4-bit register (Rd and Rr) operands.
unfoldable pub cases_rd_4_rr_4 : List Case
unfolding make_movw make_muls
cases_rd_4_rr_4 =
    case 0x0100 if_movw_instruction make_movw ∷ case 0x0200 if_mul_instructions make_muls ∷ []

-- Opcodes with two 3-bit register (Rd and Rr) operands.
unfoldable pub cases_rd_3_rr_3 : List Case
unfolding make_mulsu make_fmul make_fmuls make_fmulsu
cases_rd_3_rr_3 =
    case 0x0300 if_mul_instructions make_mulsu
    ∷ case 0x0308 if_mul_instructions make_fmul
    ∷ case 0x0380 if_mul_instructions make_fmuls
    ∷ case 0x0388 if_mul_instructions make_fmulsu
    ∷ []
