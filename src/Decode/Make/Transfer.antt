-- ===== src/Decode/Make/Transfer.antt =====
-- The constructors of the instruction classes (src/decoder.cpp): loads, stores, moves and the I/O space.
-- `make_adc` is `avr_op_ADC::avr_op_ADC`.
use simulavr.Prelude.{ℕ, ◌-◌}
use simulavr.Prelude.Bits.{◌<<<◌}
use simulavr.Decode.Fields.{get_a_6, get_k_8, get_q, get_rd_4, get_rd_5, get_rr_4, get_rr_5}
use simulavr.Decode.Instruction.{
  Instruction, avr_op_in, avr_op_out, avr_op_ldd_y, avr_op_ldd_z, avr_op_ldi, avr_op_lds,
  avr_op_ld_x, avr_op_ld_x_decr, avr_op_ld_x_incr, avr_op_ld_y_decr, avr_op_ld_y_incr,
  avr_op_ld_z_incr, avr_op_ld_z_decr, avr_op_lpm_z, avr_op_lpm, avr_op_lpm_z_incr, avr_op_elpm_z,
  avr_op_elpm_z_incr, avr_op_elpm, avr_op_mov, avr_op_movw, avr_op_pop, avr_op_push, avr_op_std_y,
  avr_op_std_z, avr_op_sts, avr_op_st_x, avr_op_st_x_decr, avr_op_st_x_incr, avr_op_st_y_decr,
  avr_op_st_y_incr, avr_op_st_z_decr, avr_op_st_z_incr,
}

unfoldable pub make_in : ℕ → Instruction
unfolding get_a_6 get_rd_5
make_in opcode = avr_op_in (get_rd_5 opcode) (get_a_6 opcode)

unfoldable pub make_out : ℕ → Instruction
unfolding get_a_6 get_rd_5
make_out opcode = avr_op_out (get_a_6 opcode) (get_rd_5 opcode)

unfoldable pub make_ldd_y : ℕ → Instruction
unfolding get_q get_rd_5
make_ldd_y opcode = avr_op_ldd_y (get_rd_5 opcode) (get_q opcode)

unfoldable pub make_ldd_z : ℕ → Instruction
unfolding get_q get_rd_5
make_ldd_z opcode = avr_op_ldd_z (get_rd_5 opcode) (get_q opcode)

unfoldable pub make_ldi : ℕ → Instruction
unfolding get_k_8 get_rd_4
make_ldi opcode = avr_op_ldi (get_rd_4 opcode) (get_k_8 opcode)

unfoldable pub make_lds : ℕ → Instruction
unfolding get_rd_5
make_lds opcode = avr_op_lds (get_rd_5 opcode)

unfoldable pub make_ld_x : ℕ → Instruction
unfolding get_rd_5
make_ld_x opcode = avr_op_ld_x (get_rd_5 opcode)

unfoldable pub make_ld_x_decr : ℕ → Instruction
unfolding get_rd_5
make_ld_x_decr opcode = avr_op_ld_x_decr (get_rd_5 opcode)

unfoldable pub make_ld_x_incr : ℕ → Instruction
unfolding get_rd_5
make_ld_x_incr opcode = avr_op_ld_x_incr (get_rd_5 opcode)

unfoldable pub make_ld_y_decr : ℕ → Instruction
unfolding get_rd_5
make_ld_y_decr opcode = avr_op_ld_y_decr (get_rd_5 opcode)

unfoldable pub make_ld_y_incr : ℕ → Instruction
unfolding get_rd_5
make_ld_y_incr opcode = avr_op_ld_y_incr (get_rd_5 opcode)

unfoldable pub make_ld_z_incr : ℕ → Instruction
unfolding get_rd_5
make_ld_z_incr opcode = avr_op_ld_z_incr (get_rd_5 opcode)

unfoldable pub make_ld_z_decr : ℕ → Instruction
unfolding get_rd_5
make_ld_z_decr opcode = avr_op_ld_z_decr (get_rd_5 opcode)

unfoldable pub make_lpm_z : ℕ → Instruction
unfolding get_rd_5
make_lpm_z opcode = avr_op_lpm_z (get_rd_5 opcode)

unfoldable pub make_lpm : ℕ → Instruction
make_lpm _ = avr_op_lpm

unfoldable pub make_lpm_z_incr : ℕ → Instruction
unfolding get_rd_5
make_lpm_z_incr opcode = avr_op_lpm_z_incr (get_rd_5 opcode)

unfoldable pub make_elpm_z : ℕ → Instruction
unfolding get_rd_5
make_elpm_z opcode = avr_op_elpm_z (get_rd_5 opcode)

unfoldable pub make_elpm_z_incr : ℕ → Instruction
unfolding get_rd_5
make_elpm_z_incr opcode = avr_op_elpm_z_incr (get_rd_5 opcode)

unfoldable pub make_elpm : ℕ → Instruction
make_elpm _ = avr_op_elpm

unfoldable pub make_mov : ℕ → Instruction
unfolding get_rd_5 get_rr_5
make_mov opcode = avr_op_mov (get_rd_5 opcode) (get_rr_5 opcode)

unfoldable pub make_movw : ℕ → Instruction
unfolding get_rd_4 get_rr_4
make_movw opcode = avr_op_movw ((get_rd_4 opcode - 16) <<< 1) ((get_rr_4 opcode - 16) <<< 1)

unfoldable pub make_pop : ℕ → Instruction
unfolding get_rd_5
make_pop opcode = avr_op_pop (get_rd_5 opcode)

unfoldable pub make_push : ℕ → Instruction
unfolding get_rd_5
make_push opcode = avr_op_push (get_rd_5 opcode)

unfoldable pub make_std_y : ℕ → Instruction
unfolding get_q get_rd_5
make_std_y opcode = avr_op_std_y (get_rd_5 opcode) (get_q opcode)

unfoldable pub make_std_z : ℕ → Instruction
unfolding get_q get_rd_5
make_std_z opcode = avr_op_std_z (get_rd_5 opcode) (get_q opcode)

unfoldable pub make_sts : ℕ → Instruction
unfolding get_rd_5
make_sts opcode = avr_op_sts (get_rd_5 opcode)

unfoldable pub make_st_x : ℕ → Instruction
unfolding get_rd_5
make_st_x opcode = avr_op_st_x (get_rd_5 opcode)

unfoldable pub make_st_x_decr : ℕ → Instruction
unfolding get_rd_5
make_st_x_decr opcode = avr_op_st_x_decr (get_rd_5 opcode)

unfoldable pub make_st_x_incr : ℕ → Instruction
unfolding get_rd_5
make_st_x_incr opcode = avr_op_st_x_incr (get_rd_5 opcode)

unfoldable pub make_st_y_decr : ℕ → Instruction
unfolding get_rd_5
make_st_y_decr opcode = avr_op_st_y_decr (get_rd_5 opcode)

unfoldable pub make_st_y_incr : ℕ → Instruction
unfolding get_rd_5
make_st_y_incr opcode = avr_op_st_y_incr (get_rd_5 opcode)

unfoldable pub make_st_z_decr : ℕ → Instruction
unfolding get_rd_5
make_st_z_decr opcode = avr_op_st_z_decr (get_rd_5 opcode)

unfoldable pub make_st_z_incr : ℕ → Instruction
unfolding get_rd_5
make_st_z_incr opcode = avr_op_st_z_incr (get_rd_5 opcode)
