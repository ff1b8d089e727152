-- ===== src/Core/Execute.antt =====
-- The execution of a decoded instruction: `DecodedInstruction::operator()` (src/decoder.h), which each
-- class of src/decoder.cpp overrides.
pub mod Common
pub mod Arith
pub mod Logic
pub mod Multiply
pub mod Load
pub mod Store
pub mod Jump
use simulavr.Prelude.{ℕ}
use simulavr.Prelude.Int.{ℤ}
use simulavr.Core.Device.{Device}
use simulavr.Core.Execute.Common.{Run}
use simulavr.Decode.Instruction.{
  Instruction, avr_op_adc, avr_op_add, avr_op_adiw, avr_op_and, avr_op_andi, avr_op_asr,
  avr_op_bclr, avr_op_bld, avr_op_brbc, avr_op_brbs, avr_op_bset, avr_op_bst, avr_op_call,
  avr_op_cbi, avr_op_com, avr_op_cp, avr_op_cpc, avr_op_cpi, avr_op_cpse, avr_op_dec, avr_op_eicall,
  avr_op_eijmp, avr_op_elpm_z, avr_op_elpm_z_incr, avr_op_elpm, avr_op_eor, avr_op_espm,
  avr_op_fmul, avr_op_fmuls, avr_op_fmulsu, avr_op_icall, avr_op_ijmp, avr_op_in, avr_op_inc,
  avr_op_jmp, avr_op_ldd_y, avr_op_ldd_z, avr_op_ldi, avr_op_lds, avr_op_ld_x, avr_op_ld_x_decr,
  avr_op_ld_x_incr, avr_op_ld_y_decr, avr_op_ld_y_incr, avr_op_ld_z_incr, avr_op_ld_z_decr,
  avr_op_lpm_z, avr_op_lpm, avr_op_lpm_z_incr, avr_op_lsr, avr_op_mov, avr_op_movw, avr_op_mul,
  avr_op_muls, avr_op_mulsu, avr_op_neg, avr_op_nop, avr_op_or, avr_op_ori, avr_op_out, avr_op_pop,
  avr_op_push, avr_op_rcall, avr_op_ret, avr_op_reti, avr_op_rjmp, avr_op_ror, avr_op_sbc,
  avr_op_sbci, avr_op_sbi, avr_op_sbic, avr_op_sbis, avr_op_sbiw, avr_op_sbrc, avr_op_sbrs,
  avr_op_sleep, avr_op_spm, avr_op_std_y, avr_op_std_z, avr_op_sts, avr_op_st_x, avr_op_st_x_decr,
  avr_op_st_x_incr, avr_op_st_y_decr, avr_op_st_y_incr, avr_op_st_z_decr, avr_op_st_z_incr,
  avr_op_sub, avr_op_subi, avr_op_swap, avr_op_wdr, avr_op_break, avr_op_illegal,
}
use simulavr.Core.Execute.Arith.*
use simulavr.Core.Execute.Logic.*
use simulavr.Core.Execute.Multiply.*
use simulavr.Core.Execute.Load.*
use simulavr.Core.Execute.Store.*
use simulavr.Core.Execute.Jump.*

-- `(*de)()`: the device after the instruction, and the clocks it used.
unfoldable pub execute : Instruction → Device → Run
unfolding run_adc run_add run_adiw run_and run_andi run_asr run_bclr run_bld run_brbc run_brbs
    run_bset run_bst run_call run_cbi run_com run_cp run_cpc run_cpi run_cpse run_dec run_eicall
    run_eijmp run_elpm_z run_elpm_z_incr run_elpm run_eor run_espm run_fmul run_fmuls run_fmulsu
    run_icall run_ijmp run_in run_inc run_jmp run_ldd_y run_ldd_z run_ldi run_lds run_ld_x
    run_ld_x_decr run_ld_x_incr run_ld_y_decr run_ld_y_incr run_ld_z_incr run_ld_z_decr run_lpm_z
    run_lpm run_lpm_z_incr run_lsr run_mov run_movw run_mul run_muls run_mulsu run_neg run_nop
    run_or run_ori run_out run_pop run_push run_rcall run_ret run_reti run_rjmp run_ror run_sbc
    run_sbci run_sbi run_sbic run_sbis run_sbiw run_sbrc run_sbrs run_sleep run_spm run_std_y
    run_std_z run_sts run_st_x run_st_x_decr run_st_x_incr run_st_y_decr run_st_y_incr run_st_z_decr
    run_st_z_incr run_sub run_subi run_swap run_wdr run_break run_illegal
execute (avr_op_adc r1 r2) d = run_adc r1 r2 d
execute (avr_op_add r1 r2) d = run_add r1 r2 d
execute (avr_op_adiw rl rh k) d = run_adiw rl rh k d
execute (avr_op_and r1 r2) d = run_and r1 r2 d
execute (avr_op_andi r1 k) d = run_andi r1 k d
execute (avr_op_asr r1) d = run_asr r1 d
execute (avr_op_bclr kbit) d = run_bclr kbit d
execute (avr_op_bld r1 kbit) d = run_bld r1 kbit d
execute (avr_op_brbc bitmask offset) d = run_brbc bitmask offset d
execute (avr_op_brbs bitmask offset) d = run_brbs bitmask offset d
execute (avr_op_bset kbit) d = run_bset kbit d
execute (avr_op_bst r1 kbit) d = run_bst r1 kbit d
execute (avr_op_call kh) d = run_call kh d
execute (avr_op_cbi ioreg kbit) d = run_cbi ioreg kbit d
execute (avr_op_com r1) d = run_com r1 d
execute (avr_op_cp r1 r2) d = run_cp r1 r2 d
execute (avr_op_cpc r1 r2) d = run_cpc r1 r2 d
execute (avr_op_cpi r1 k) d = run_cpi r1 k d
execute (avr_op_cpse r1 r2) d = run_cpse r1 r2 d
execute (avr_op_dec r1) d = run_dec r1 d
execute avr_op_eicall d = run_eicall d
execute avr_op_eijmp d = run_eijmp d
execute (avr_op_elpm_z r1) d = run_elpm_z r1 d
execute (avr_op_elpm_z_incr r1) d = run_elpm_z_incr r1 d
execute avr_op_elpm d = run_elpm d
execute (avr_op_eor r1 r2) d = run_eor r1 r2 d
execute avr_op_espm d = run_espm d
execute (avr_op_fmul rd rr) d = run_fmul rd rr d
execute (avr_op_fmuls rd rr) d = run_fmuls rd rr d
execute (avr_op_fmulsu rd rr) d = run_fmulsu rd rr d
execute avr_op_icall d = run_icall d
execute avr_op_ijmp d = run_ijmp d
execute (avr_op_in r1 ioreg) d = run_in r1 ioreg d
execute (avr_op_inc r1) d = run_inc r1 d
execute (avr_op_jmp k) d = run_jmp k d
execute (avr_op_ldd_y rd k) d = run_ldd_y rd k d
execute (avr_op_ldd_z rd k) d = run_ldd_z rd k d
execute (avr_op_ldi r1 k) d = run_ldi r1 k d
execute (avr_op_lds r1) d = run_lds r1 d
execute (avr_op_ld_x rd) d = run_ld_x rd d
execute (avr_op_ld_x_decr rd) d = run_ld_x_decr rd d
execute (avr_op_ld_x_incr rd) d = run_ld_x_incr rd d
execute (avr_op_ld_y_decr rd) d = run_ld_y_decr rd d
execute (avr_op_ld_y_incr rd) d = run_ld_y_incr rd d
execute (avr_op_ld_z_incr rd) d = run_ld_z_incr rd d
execute (avr_op_ld_z_decr rd) d = run_ld_z_decr rd d
execute (avr_op_lpm_z rd) d = run_lpm_z rd d
execute avr_op_lpm d = run_lpm d
execute (avr_op_lpm_z_incr rd) d = run_lpm_z_incr rd d
execute (avr_op_lsr rd) d = run_lsr rd d
execute (avr_op_mov r1 r2) d = run_mov r1 r2 d
execute (avr_op_movw rd rs) d = run_movw rd rs d
execute (avr_op_mul rd rr) d = run_mul rd rr d
execute (avr_op_muls rd rr) d = run_muls rd rr d
execute (avr_op_mulsu rd rr) d = run_mulsu rd rr d
execute (avr_op_neg rd) d = run_neg rd d
execute avr_op_nop d = run_nop d
execute (avr_op_or rd rr) d = run_or rd rr d
execute (avr_op_ori r1 k) d = run_ori r1 k d
execute (avr_op_out ioreg r1) d = run_out ioreg r1 d
execute (avr_op_pop r1) d = run_pop r1 d
execute (avr_op_push r1) d = run_push r1 d
execute (avr_op_rcall k) d = run_rcall k d
execute avr_op_ret d = run_ret d
execute avr_op_reti d = run_reti d
execute (avr_op_rjmp k) d = run_rjmp k d
execute (avr_op_ror r1) d = run_ror r1 d
execute (avr_op_sbc r1 r2) d = run_sbc r1 r2 d
execute (avr_op_sbci r1 k) d = run_sbci r1 k d
execute (avr_op_sbi ioreg kbit) d = run_sbi ioreg kbit d
execute (avr_op_sbic ioreg kbit) d = run_sbic ioreg kbit d
execute (avr_op_sbis ioreg kbit) d = run_sbis ioreg kbit d
execute (avr_op_sbiw r1 k) d = run_sbiw r1 k d
execute (avr_op_sbrc r1 kbit) d = run_sbrc r1 kbit d
execute (avr_op_sbrs r1 kbit) d = run_sbrs r1 kbit d
execute avr_op_sleep d = run_sleep d
execute avr_op_spm d = run_spm d
execute (avr_op_std_y r1 k) d = run_std_y r1 k d
execute (avr_op_std_z r1 k) d = run_std_z r1 k d
execute (avr_op_sts r1) d = run_sts r1 d
execute (avr_op_st_x r1) d = run_st_x r1 d
execute (avr_op_st_x_decr r1) d = run_st_x_decr r1 d
execute (avr_op_st_x_incr r1) d = run_st_x_incr r1 d
execute (avr_op_st_y_decr r1) d = run_st_y_decr r1 d
execute (avr_op_st_y_incr r1) d = run_st_y_incr r1 d
execute (avr_op_st_z_decr r1) d = run_st_z_decr r1 d
execute (avr_op_st_z_incr r1) d = run_st_z_incr r1 d
execute (avr_op_sub r1 r2) d = run_sub r1 r2 d
execute (avr_op_subi r1 k) d = run_subi r1 k d
execute (avr_op_swap r1) d = run_swap r1 d
execute avr_op_wdr d = run_wdr d
execute avr_op_break d = run_break d
execute avr_op_illegal d = run_illegal d
