-- ===== src/Decode/Make/Control.antt =====
-- The constructors of the instruction classes (src/decoder.cpp): jumps, calls, skips, single bits and the rest.
-- `make_adc` is `avr_op_ADC::avr_op_ADC`.
use simulavr.Prelude.{ℕ}
use simulavr.Prelude.Bits.{◌<<<◌}
use simulavr.Decode.Fields.{
  get_a_5, get_k_12, get_k_22, get_k_7, get_rd_5, get_reg_bit, get_rr_5, get_sreg_bit,
  n_bit_unsigned_to_signed,
}
use simulavr.Decode.Instruction.{
  Instruction, avr_op_bclr, avr_op_bld, avr_op_brbc, avr_op_brbs, avr_op_bset, avr_op_bst,
  avr_op_call, avr_op_cbi, avr_op_cpse, avr_op_eicall, avr_op_eijmp, avr_op_espm, avr_op_icall,
  avr_op_ijmp, avr_op_jmp, avr_op_nop, avr_op_rcall, avr_op_ret, avr_op_reti, avr_op_rjmp,
  avr_op_sbi, avr_op_sbic, avr_op_sbis, avr_op_sbrc, avr_op_sbrs, avr_op_sleep, avr_op_spm,
  avr_op_wdr, avr_op_break, avr_op_illegal,
}

unfoldable pub make_bclr : ℕ → Instruction
unfolding get_sreg_bit
make_bclr opcode = avr_op_bclr (get_sreg_bit opcode)

unfoldable pub make_bld : ℕ → Instruction
unfolding get_rd_5 get_reg_bit
make_bld opcode = avr_op_bld (get_rd_5 opcode) (get_reg_bit opcode)

unfoldable pub make_brbc : ℕ → Instruction
unfolding get_k_7 get_reg_bit n_bit_unsigned_to_signed
make_brbc opcode =
    avr_op_brbc (1 <<< get_reg_bit opcode) (n_bit_unsigned_to_signed (get_k_7 opcode) 7)

unfoldable pub make_brbs : ℕ → Instruction
unfolding get_k_7 get_reg_bit n_bit_unsigned_to_signed
make_brbs opcode =
    avr_op_brbs (1 <<< get_reg_bit opcode) (n_bit_unsigned_to_signed (get_k_7 opcode) 7)

unfoldable pub make_bset : ℕ → Instruction
unfolding get_sreg_bit
make_bset opcode = avr_op_bset (get_sreg_bit opcode)

unfoldable pub make_bst : ℕ → Instruction
unfolding get_rd_5 get_reg_bit
make_bst opcode = avr_op_bst (get_rd_5 opcode) (get_reg_bit opcode)

unfoldable pub make_call : ℕ → Instruction
unfolding get_k_22
make_call opcode = avr_op_call (get_k_22 opcode)

unfoldable pub make_cbi : ℕ → Instruction
unfolding get_a_5 get_reg_bit
make_cbi opcode = avr_op_cbi (get_a_5 opcode) (get_reg_bit opcode)

unfoldable pub make_cpse : ℕ → Instruction
unfolding get_rd_5 get_rr_5
make_cpse opcode = avr_op_cpse (get_rd_5 opcode) (get_rr_5 opcode)

unfoldable pub make_eicall : ℕ → Instruction
make_eicall _ = avr_op_eicall

unfoldable pub make_eijmp : ℕ → Instruction
make_eijmp _ = avr_op_eijmp

unfoldable pub make_espm : ℕ → Instruction
make_espm _ = avr_op_espm

unfoldable pub make_icall : ℕ → Instruction
make_icall _ = avr_op_icall

unfoldable pub make_ijmp : ℕ → Instruction
make_ijmp _ = avr_op_ijmp

unfoldable pub make_jmp : ℕ → Instruction
unfolding get_k_22
make_jmp opcode = avr_op_jmp (get_k_22 opcode)

unfoldable pub make_nop : ℕ → Instruction
make_nop _ = avr_op_nop

unfoldable pub make_rcall : ℕ → Instruction
unfolding get_k_12 n_bit_unsigned_to_signed
make_rcall opcode = avr_op_rcall (n_bit_unsigned_to_signed (get_k_12 opcode) 12)

unfoldable pub make_ret : ℕ → Instruction
make_ret _ = avr_op_ret

unfoldable pub make_reti : ℕ → Instruction
make_reti _ = avr_op_reti

unfoldable pub make_rjmp : ℕ → Instruction
unfolding get_k_12 n_bit_unsigned_to_signed
make_rjmp opcode = avr_op_rjmp (n_bit_unsigned_to_signed (get_k_12 opcode) 12)

unfoldable pub make_sbi : ℕ → Instruction
unfolding get_a_5 get_reg_bit
make_sbi opcode = avr_op_sbi (get_a_5 opcode) (get_reg_bit opcode)

unfoldable pub make_sbic : ℕ → Instruction
unfolding get_a_5 get_reg_bit
make_sbic opcode = avr_op_sbic (get_a_5 opcode) (get_reg_bit opcode)

unfoldable pub make_sbis : ℕ → Instruction
unfolding get_a_5 get_reg_bit
make_sbis opcode = avr_op_sbis (get_a_5 opcode) (get_reg_bit opcode)

unfoldable pub make_sbrc : ℕ → Instruction
unfolding get_rd_5 get_reg_bit
make_sbrc opcode = avr_op_sbrc (get_rd_5 opcode) (get_reg_bit opcode)

unfoldable pub make_sbrs : ℕ → Instruction
unfolding get_rd_5 get_reg_bit
make_sbrs opcode = avr_op_sbrs (get_rd_5 opcode) (get_reg_bit opcode)

unfoldable pub make_sleep : ℕ → Instruction
make_sleep _ = avr_op_sleep

unfoldable pub make_spm : ℕ → Instruction
make_spm _ = avr_op_spm

unfoldable pub make_wdr : ℕ → Instruction
make_wdr _ = avr_op_wdr

unfoldable pub make_break : ℕ → Instruction
make_break _ = avr_op_break

unfoldable pub make_illegal : ℕ → Instruction
make_illegal _ = avr_op_illegal
