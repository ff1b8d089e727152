-- ===== src/Decode/Cases/Registers.antt =====
-- The `case` labels of `lookup_opcode` (src/decoder.cpp), in their order.
use simulavr.Prelude.{List, [], ◌∷◌}
use simulavr.Decode.Case.{
  Case, case, always, if_eijmp_instructions, if_elpm_instructions, if_ijmp_instructions,
  if_lpm_instructions, if_mul_instructions, unless_tiny10, unless_tiny1x,
}
use simulavr.Decode.Make.{
  make_adc, make_add, make_and, make_asr, make_break, make_com, make_cp, make_cpc, make_cpse,
  make_dec, make_eicall, make_eijmp, make_elpm, make_elpm_z, make_elpm_z_incr, make_eor, make_espm,
  make_icall, make_ijmp, make_inc, make_ld_x, make_ld_x_decr, make_ld_x_incr, make_ld_y_decr,
  make_ld_y_incr, make_ld_z_decr, make_ld_z_incr, make_ldd_y, make_ldd_z, make_lds, make_lpm,
  make_lpm_z, make_lpm_z_incr, make_lsr, make_mov, make_mul, make_neg, make_nop, make_or, make_pop,
  make_push, make_ret, make_reti, make_ror, make_sbc, make_sleep, make_spm, make_st_x,
  make_st_x_decr, make_st_x_incr, make_st_y_decr, make_st_y_incr, make_st_z_decr, make_st_z_incr,
  make_std_y, make_std_z, make_sts, make_sub, make_swap, make_wdr,
}

-- Opcodes with no operands.
unfoldable pub cases_no_operand : List Case
unfolding make_eicall make_eijmp make_elpm make_espm make_icall make_ijmp make_lpm make_nop make_ret
    make_reti make_sleep make_spm make_wdr make_break
cases_no_operand =
    case 0x9519 if_eijmp_instructions make_eicall
    ∷ case 0x9419 if_eijmp_instructions make_eijmp
    ∷ case 0x95d8 if_elpm_instructions make_elpm
    ∷ case 0x95f8 if_lpm_instructions make_espm
    ∷ case 0x9509 if_ijmp_instructions make_icall
    ∷ case 0x9409 if_ijmp_instructions make_ijmp
    ∷ case 0x95c8 unless_tiny10 make_lpm
    ∷ case 0x0000 always make_nop
    ∷ case 0x9508 always make_ret
    ∷ case 0x9518 always make_reti
    ∷ case 0x9588 always make_sleep
    ∷ case 0x95e8 if_lpm_instructions make_spm
    ∷ case 0x95a8 always make_wdr
    ∷ case 0x9598 always make_break
    ∷ []

-- Opcodes with two 5-bit register (Rd and Rr) operands.
unfoldable pub cases_rd_5_rr_5 : List Case
unfolding make_adc make_add make_and make_cp make_cpc make_cpse make_eor make_mov make_mul make_or
    make_sbc make_sub
cases_rd_5_rr_5 =
    case 0x1c00 always make_adc
    ∷ case 0x0c00 always make_add
    ∷ case 0x2000 always make_and
    ∷ case 0x1400 always make_cp
    ∷ case 0x0400 always make_cpc
    ∷ case 0x1000 always make_cpse
    ∷ case 0x2400 always make_eor
    ∷ case 0x2c00 always make_mov
    ∷ case 0x9c00 if_mul_instructions make_mul
    ∷ case 0x2800 always make_or
    ∷ case 0x0800 always make_sbc
    ∷ case 0x1800 always make_sub
    ∷ []

-- Opcodes with a single register (Rd) as operand.
unfoldable pub cases_rd_5 : List Case
unfolding make_asr make_com make_dec make_elpm_z make_elpm_z_incr make_inc make_lds make_ld_x
    make_ld_x_decr make_ld_x_incr make_ldd_y make_ld_y_decr make_ld_y_incr make_ldd_z make_ld_z_decr
    make_ld_z_incr make_lpm_z make_lpm_z_incr make_lsr make_neg make_pop make_push make_ror make_sts
    make_st_x make_st_x_decr make_st_x_incr make_std_y make_st_y_decr make_st_y_incr make_std_z
    make_st_z_decr make_st_z_incr make_swap
cases_rd_5 =
    case 0x9405 always make_asr
    ∷ case 0x9400 always make_com
    ∷ case 0x940a always make_dec
    ∷ case 0x9006 if_elpm_instructions make_elpm_z
    ∷ case 0x9007 if_elpm_instructions make_elpm_z_incr
    ∷ case 0x9403 always make_inc
    ∷ case 0x9000 always make_lds
    ∷ case 0x900c unless_tiny1x make_ld_x
    ∷ case 0x900e unless_tiny1x make_ld_x_decr
    ∷ case 0x900d unless_tiny1x make_ld_x_incr
    ∷ case 0x8008 unless_tiny1x make_ldd_y
    ∷ case 0x900a unless_tiny1x make_ld_y_decr
    ∷ case 0x9009 unless_tiny1x make_ld_y_incr
    ∷ case 0x8000 always make_ldd_z
    ∷ case 0x9002 unless_tiny1x make_ld_z_decr
    ∷ case 0x9001 unless_tiny1x make_ld_z_incr
    ∷ case 0x9004 if_lpm_instructions make_lpm_z
    ∷ case 0x9005 if_lpm_instructions make_lpm_z_incr
    ∷ case 0x9406 always make_lsr
    ∷ case 0x9401 always make_neg
    ∷ case 0x900f unless_tiny1x make_pop
    ∷ case 0x920f unless_tiny1x make_push
    ∷ case 0x9407 always make_ror
    ∷ case 0x9200 always make_sts
    ∷ case 0x920c unless_tiny1x make_st_x
    ∷ case 0x920e unless_tiny1x make_st_x_decr
    ∷ case 0x920d unless_tiny1x make_st_x_incr
    ∷ case 0x8208 unless_tiny1x make_std_y
    ∷ case 0x920a unless_tiny1x make_st_y_decr
    ∷ case 0x9209 unless_tiny1x make_st_y_incr
    ∷ case 0x8200 always make_std_z
    ∷ case 0x9202 unless_tiny1x make_st_z_decr
    ∷ case 0x9201 unless_tiny1x make_st_z_incr
    ∷ case 0x9402 always make_swap
    ∷ []
