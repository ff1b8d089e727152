-- ===== src/Decode/Instruction.antt =====
-- The classes derived from `DecodedInstruction` (src/decoder.h): one constructor for each class,
-- with the operands that its constructor decodes.
use simulavr.Prelude.{ℕ, ◌+◌, Bool, true, false}
use simulavr.Prelude.Int.{ℤ}

pub data Instruction : Type 0 where
  avr_op_adc : (r1 : ℕ) → (r2 : ℕ) → Instruction
  avr_op_add : (r1 : ℕ) → (r2 : ℕ) → Instruction
  avr_op_adiw : (rl : ℕ) → (rh : ℕ) → (k : ℕ) → Instruction
  avr_op_and : (r1 : ℕ) → (r2 : ℕ) → Instruction
  avr_op_andi : (r1 : ℕ) → (k : ℕ) → Instruction
  avr_op_asr : (r1 : ℕ) → Instruction
  avr_op_bclr : (kbit : ℕ) → Instruction
  avr_op_bld : (r1 : ℕ) → (kbit : ℕ) → Instruction
  avr_op_brbc : (bitmask : ℕ) → (offset : ℤ) → Instruction
  avr_op_brbs : (bitmask : ℕ) → (offset : ℤ) → Instruction
  avr_op_bset : (kbit : ℕ) → Instruction
  avr_op_bst : (r1 : ℕ) → (kbit : ℕ) → Instruction
  avr_op_call : (kh : ℕ) → Instruction
  avr_op_cbi : (ioreg : ℕ) → (kbit : ℕ) → Instruction
  avr_op_com : (r1 : ℕ) → Instruction
  avr_op_cp : (r1 : ℕ) → (r2 : ℕ) → Instruction
  avr_op_cpc : (r1 : ℕ) → (r2 : ℕ) → Instruction
  avr_op_cpi : (r1 : ℕ) → (k : ℕ) → Instruction
  avr_op_cpse : (r1 : ℕ) → (r2 : ℕ) → Instruction
  avr_op_dec : (r1 : ℕ) → Instruction
  avr_op_eicall : Instruction
  avr_op_eijmp : Instruction
  avr_op_elpm_z : (r1 : ℕ) → Instruction
  avr_op_elpm_z_incr : (r1 : ℕ) → Instruction
  avr_op_elpm : Instruction
  avr_op_eor : (r1 : ℕ) → (r2 : ℕ) → Instruction
  avr_op_espm : Instruction
  avr_op_fmul : (rd : ℕ) → (rr : ℕ) → Instruction
  avr_op_fmuls : (rd : ℕ) → (rr : ℕ) → Instruction
  avr_op_fmulsu : (rd : ℕ) → (rr : ℕ) → Instruction
  avr_op_icall : Instruction
  avr_op_ijmp : Instruction
  avr_op_in : (r1 : ℕ) → (ioreg : ℕ) → Instruction
  avr_op_inc : (r1 : ℕ) → Instruction
  avr_op_jmp : (k : ℕ) → Instruction
  avr_op_ldd_y : (rd : ℕ) → (k : ℕ) → Instruction
  avr_op_ldd_z : (rd : ℕ) → (k : ℕ) → Instruction
  avr_op_ldi : (r1 : ℕ) → (k : ℕ) → Instruction
  avr_op_lds : (r1 : ℕ) → Instruction
  avr_op_ld_x : (rd : ℕ) → Instruction
  avr_op_ld_x_decr : (rd : ℕ) → Instruction
  avr_op_ld_x_incr : (rd : ℕ) → Instruction
  avr_op_ld_y_decr : (rd : ℕ) → Instruction
  avr_op_ld_y_incr : (rd : ℕ) → Instruction
  avr_op_ld_z_incr : (rd : ℕ) → Instruction
  avr_op_ld_z_decr : (rd : ℕ) → Instruction
  avr_op_lpm_z : (rd : ℕ) → Instruction
  avr_op_lpm : Instruction
  avr_op_lpm_z_incr : (rd : ℕ) → Instruction
  avr_op_lsr : (rd : ℕ) → Instruction
  avr_op_mov : (r1 : ℕ) → (r2 : ℕ) → Instruction
  avr_op_movw : (rd : ℕ) → (rs : ℕ) → Instruction
  avr_op_mul : (rd : ℕ) → (rr : ℕ) → Instruction
  avr_op_muls : (rd : ℕ) → (rr : ℕ) → Instruction
  avr_op_mulsu : (rd : ℕ) → (rr : ℕ) → Instruction
  avr_op_neg : (rd : ℕ) → Instruction
  avr_op_nop : Instruction
  avr_op_or : (rd : ℕ) → (rr : ℕ) → Instruction
  avr_op_ori : (r1 : ℕ) → (k : ℕ) → Instruction
  avr_op_out : (ioreg : ℕ) → (r1 : ℕ) → Instruction
  avr_op_pop : (r1 : ℕ) → Instruction
  avr_op_push : (r1 : ℕ) → Instruction
  avr_op_rcall : (k : ℤ) → Instruction
  avr_op_ret : Instruction
  avr_op_reti : Instruction
  avr_op_rjmp : (k : ℤ) → Instruction
  avr_op_ror : (r1 : ℕ) → Instruction
  avr_op_sbc : (r1 : ℕ) → (r2 : ℕ) → Instruction
  avr_op_sbci : (r1 : ℕ) → (k : ℕ) → Instruction
  avr_op_sbi : (ioreg : ℕ) → (kbit : ℕ) → Instruction
  avr_op_sbic : (ioreg : ℕ) → (kbit : ℕ) → Instruction
  avr_op_sbis : (ioreg : ℕ) → (kbit : ℕ) → Instruction
  avr_op_sbiw : (r1 : ℕ) → (k : ℕ) → Instruction
  avr_op_sbrc : (r1 : ℕ) → (kbit : ℕ) → Instruction
  avr_op_sbrs : (r1 : ℕ) → (kbit : ℕ) → Instruction
  avr_op_sleep : Instruction
  avr_op_spm : Instruction
  avr_op_std_y : (r1 : ℕ) → (k : ℕ) → Instruction
  avr_op_std_z : (r1 : ℕ) → (k : ℕ) → Instruction
  avr_op_sts : (r1 : ℕ) → Instruction
  avr_op_st_x : (r1 : ℕ) → Instruction
  avr_op_st_x_decr : (r1 : ℕ) → Instruction
  avr_op_st_x_incr : (r1 : ℕ) → Instruction
  avr_op_st_y_decr : (r1 : ℕ) → Instruction
  avr_op_st_y_incr : (r1 : ℕ) → Instruction
  avr_op_st_z_decr : (r1 : ℕ) → Instruction
  avr_op_st_z_incr : (r1 : ℕ) → Instruction
  avr_op_sub : (r1 : ℕ) → (r2 : ℕ) → Instruction
  avr_op_subi : (r1 : ℕ) → (k : ℕ) → Instruction
  avr_op_swap : (r1 : ℕ) → Instruction
  avr_op_wdr : Instruction
  avr_op_break : Instruction
  avr_op_illegal : Instruction

-- `IsInstruction2Words`.
unfoldable pub is_instruction_2_words : Instruction → Bool
is_instruction_2_words (avr_op_call _) = true
is_instruction_2_words (avr_op_jmp _) = true
is_instruction_2_words (avr_op_lds _) = true
is_instruction_2_words (avr_op_sts _) = true
is_instruction_2_words _ = false

-- `GetModifiedR` and `GetModifiedRHi`: -1 as an `unsigned char` where a class has none.
unfoldable pub get_modified_r : Instruction → ℕ
get_modified_r (avr_op_adc r1 _) = r1
get_modified_r (avr_op_add r1 _) = r1
get_modified_r (avr_op_adiw rl _ _) = rl
get_modified_r (avr_op_ldi r1 _) = r1
get_modified_r (avr_op_sbc r1 _) = r1
get_modified_r (avr_op_sbci r1 _) = r1
get_modified_r (avr_op_sbiw r1 _) = r1
get_modified_r (avr_op_sub r1 _) = r1
get_modified_r (avr_op_subi r1 _) = r1
get_modified_r _ = 255

unfoldable pub get_modified_r_hi : Instruction → ℕ
get_modified_r_hi (avr_op_adiw _ rh _) = rh
get_modified_r_hi (avr_op_sbiw r1 _) = r1 + 1
get_modified_r_hi _ = 255
