-- ===== src/Decode/Make/Arith.antt =====
-- The constructors of the instruction classes (src/decoder.cpp): arithmetic, logic and comparison.
-- `make_adc` is `avr_op_ADC::avr_op_ADC`.
use simulavr.Prelude.{ℕ, ◌+◌}
use simulavr.Decode.Fields.{
  get_k_6, get_k_8, get_rd_2, get_rd_3, get_rd_4, get_rd_5, get_rr_3, get_rr_4, get_rr_5,
}
use simulavr.Decode.Instruction.{
  Instruction, avr_op_adc, avr_op_add, avr_op_adiw, avr_op_and, avr_op_andi, avr_op_asr, avr_op_com,
  avr_op_cp, avr_op_cpc, avr_op_cpi, avr_op_dec, avr_op_eor, avr_op_fmul, avr_op_fmuls,
  avr_op_fmulsu, avr_op_inc, avr_op_lsr, avr_op_mul, avr_op_muls, avr_op_mulsu, avr_op_neg,
  avr_op_or, avr_op_ori, avr_op_ror, avr_op_sbc, avr_op_sbci, avr_op_sbiw, avr_op_sub, avr_op_subi,
  avr_op_swap,
}

unfoldable pub make_adc : ℕ → Instruction
unfolding get_rd_5 get_rr_5
make_adc opcode = avr_op_adc (get_rd_5 opcode) (get_rr_5 opcode)

unfoldable pub make_add : ℕ → Instruction
unfolding get_rd_5 get_rr_5
make_add opcode = avr_op_add (get_rd_5 opcode) (get_rr_5 opcode)

unfoldable pub make_adiw : ℕ → Instruction
unfolding get_k_6 get_rd_2
make_adiw opcode = avr_op_adiw (get_rd_2 opcode) (get_rd_2 opcode + 1) (get_k_6 opcode)

unfoldable pub make_and : ℕ → Instruction
unfolding get_rd_5 get_rr_5
make_and opcode = avr_op_and (get_rd_5 opcode) (get_rr_5 opcode)

unfoldable pub make_andi : ℕ → Instruction
unfolding get_k_8 get_rd_4
make_andi opcode = avr_op_andi (get_rd_4 opcode) (get_k_8 opcode)

unfoldable pub make_asr : ℕ → Instruction
unfolding get_rd_5
make_asr opcode = avr_op_asr (get_rd_5 opcode)

unfoldable pub make_com : ℕ → Instruction
unfolding get_rd_5
make_com opcode = avr_op_com (get_rd_5 opcode)

unfoldable pub make_cp : ℕ → Instruction
unfolding get_rd_5 get_rr_5
make_cp opcode = avr_op_cp (get_rd_5 opcode) (get_rr_5 opcode)

unfoldable pub make_cpc : ℕ → Instruction
unfolding get_rd_5 get_rr_5
make_cpc opcode = avr_op_cpc (get_rd_5 opcode) (get_rr_5 opcode)

unfoldable pub make_cpi : ℕ → Instruction
unfolding get_k_8 get_rd_4
make_cpi opcode = avr_op_cpi (get_rd_4 opcode) (get_k_8 opcode)

unfoldable pub make_dec : ℕ → Instruction
unfolding get_rd_5
make_dec opcode = avr_op_dec (get_rd_5 opcode)

unfoldable pub make_eor : ℕ → Instruction
unfolding get_rd_5 get_rr_5
make_eor opcode = avr_op_eor (get_rd_5 opcode) (get_rr_5 opcode)

unfoldable pub make_fmul : ℕ → Instruction
unfolding get_rd_3 get_rr_3
make_fmul opcode = avr_op_fmul (get_rd_3 opcode) (get_rr_3 opcode)

unfoldable pub make_fmuls : ℕ → Instruction
unfolding get_rd_3 get_rr_3
make_fmuls opcode = avr_op_fmuls (get_rd_3 opcode) (get_rr_3 opcode)

unfoldable pub make_fmulsu : ℕ → Instruction
unfolding get_rd_3 get_rr_3
make_fmulsu opcode = avr_op_fmulsu (get_rd_3 opcode) (get_rr_3 opcode)

unfoldable pub make_inc : ℕ → Instruction
unfolding get_rd_5
make_inc opcode = avr_op_inc (get_rd_5 opcode)

unfoldable pub make_lsr : ℕ → Instruction
unfolding get_rd_5
make_lsr opcode = avr_op_lsr (get_rd_5 opcode)

unfoldable pub make_mul : ℕ → Instruction
unfolding get_rd_5 get_rr_5
make_mul opcode = avr_op_mul (get_rd_5 opcode) (get_rr_5 opcode)

unfoldable pub make_muls : ℕ → Instruction
unfolding get_rd_4 get_rr_4
make_muls opcode = avr_op_muls (get_rd_4 opcode) (get_rr_4 opcode)

unfoldable pub make_mulsu : ℕ → Instruction
unfolding get_rd_3 get_rr_3
make_mulsu opcode = avr_op_mulsu (get_rd_3 opcode) (get_rr_3 opcode)

unfoldable pub make_neg : ℕ → Instruction
unfolding get_rd_5
make_neg opcode = avr_op_neg (get_rd_5 opcode)

unfoldable pub make_or : ℕ → Instruction
unfolding get_rd_5 get_rr_5
make_or opcode = avr_op_or (get_rd_5 opcode) (get_rr_5 opcode)

unfoldable pub make_ori : ℕ → Instruction
unfolding get_k_8 get_rd_4
make_ori opcode = avr_op_ori (get_rd_4 opcode) (get_k_8 opcode)

unfoldable pub make_ror : ℕ → Instruction
unfolding get_rd_5
make_ror opcode = avr_op_ror (get_rd_5 opcode)

unfoldable pub make_sbc : ℕ → Instruction
unfolding get_rd_5 get_rr_5
make_sbc opcode = avr_op_sbc (get_rd_5 opcode) (get_rr_5 opcode)

unfoldable pub make_sbci : ℕ → Instruction
unfolding get_k_8 get_rd_4
make_sbci opcode = avr_op_sbci (get_rd_4 opcode) (get_k_8 opcode)

unfoldable pub make_sbiw : ℕ → Instruction
unfolding get_k_6 get_rd_2
make_sbiw opcode = avr_op_sbiw (get_rd_2 opcode) (get_k_6 opcode)

unfoldable pub make_sub : ℕ → Instruction
unfolding get_rd_5 get_rr_5
make_sub opcode = avr_op_sub (get_rd_5 opcode) (get_rr_5 opcode)

unfoldable pub make_subi : ℕ → Instruction
unfolding get_k_8 get_rd_4
make_subi opcode = avr_op_subi (get_rd_4 opcode) (get_k_8 opcode)

unfoldable pub make_swap : ℕ → Instruction
unfolding get_rd_5
make_swap opcode = avr_op_swap (get_rd_5 opcode)
