-- ===== src/Core/Execute/Logic.antt =====
-- Logic, shifts, bits and moves between core registers (`operator()` of these classes in
-- src/decoder.cpp).
pub mod Flags
use simulavr.Prelude.{ℕ, ◌+◌, ◌-◌, ◌*◌, ◌/◌, ◌%◌, ◌^◌, bit_and, bit_or, bit_xor, Bool, true, false}
use simulavr.Prelude.{not, xor, ◌==◌, if◌then◌else◌}
use simulavr.Prelude.Bits.{◌<<<◌, ◌>>>◌, not32}
use simulavr.Core.Alu.{bit_at, result_flags}
use simulavr.Core.Device.{Device}
use simulavr.Core.Execute.Common.{Run, clocks, store}
use simulavr.Core.Memory.{get_core_reg, set_core_reg}
use simulavr.Sreg.{Sreg, bit, to_int, from_int}

unfoldable pub run_and : ℕ → ℕ → Device → Run
run_and r1 r2 d =
    let res = bit_and (get_core_reg r1 d) (get_core_reg r2 d) in
    store r1 res (result_flags d.status res false) 1 d

unfoldable pub run_andi : ℕ → ℕ → Device → Run
run_andi r1 k d =
    let res = bit_and (get_core_reg r1 d) k in store r1 res (result_flags d.status res false) 1 d

unfoldable pub run_or : ℕ → ℕ → Device → Run
run_or rd rr d =
    let res = bit_or (get_core_reg rd d) (get_core_reg rr d) in
    store rd res (result_flags d.status res false) 1 d

unfoldable pub run_ori : ℕ → ℕ → Device → Run
run_ori r1 k d =
    let res = bit_or (get_core_reg r1 d) k in store r1 res (result_flags d.status res false) 1 d

unfoldable pub run_eor : ℕ → ℕ → Device → Run
run_eor r1 r2 d =
    let res = bit_xor (get_core_reg r1 d) (get_core_reg r2 d) in
    store r1 res (result_flags d.status res false) 1 d

unfoldable pub run_com : ℕ → Device → Run
run_com r1 d =
    let res = 0xff - get_core_reg r1 d in
    let st = result_flags d.status res false in store r1 res (record st { c = true }) 1 d

-- The flags of a shift to the right, with the bit that is shifted out.
abbrev pub shift_status : Sreg → ℕ → Bool → Sreg
shift_status st res out =
    let st' = result_flags st res (xor (bit_at res 7) out) in record st' { c = out }

unfoldable pub run_asr : ℕ → Device → Run
run_asr r1 d =
    let rd = get_core_reg r1 d in
    let res = (rd >>> 1) + bit_and rd 0x80 in
    store r1 res (shift_status d.status res (bit_at rd 0)) 1 d

unfoldable pub run_lsr : ℕ → Device → Run
run_lsr rd d =
    let val = get_core_reg rd d in
    let res = bit_and (val >>> 1) 0x7f in
    let out = bit_at val 0 in
    let overflow = xor false out in
    let st = d.status in
    let st' = record st {
      c = out;
      n = false;
      v = overflow;
      s = xor false overflow;
      z = res == 0;
    } in
    store rd res st' 1 d

unfoldable pub run_ror : ℕ → Device → Run
run_ror r1 d =
    let rd = get_core_reg r1 d in
    let res = bit_or (rd >>> 1) (bit_and (bit d.status.c <<< 7) 0x80) in
    store r1 res (shift_status d.status res (bit_at rd 0)) 1 d

unfoldable pub run_swap : ℕ → Device → Run
run_swap r1 d =
    let rd = get_core_reg r1 d in
    let res = bit_or (bit_and (rd <<< 4) 0xf0) (bit_and (rd >>> 4) 0x0f) in
    clocks 1 (set_core_reg r1 res d)

unfoldable pub run_bclr : ℕ → Device → Run
unfolding to_int from_int
run_bclr kbit d =
    clocks 1 (record d { status = from_int (bit_and (to_int d.status) (not32 (1 <<< kbit))) })

unfoldable pub run_bset : ℕ → Device → Run
unfolding to_int from_int
run_bset kbit d = clocks 1 (record d { status = from_int (bit_or (to_int d.status) (1 <<< kbit)) })

unfoldable pub run_bld : ℕ → ℕ → Device → Run
run_bld r1 kbit d =
    let rd = get_core_reg r1 d in
    let res = if not d.status.t then bit_and rd (not32 (1 <<< kbit)) else bit_or rd (1 <<< kbit) in
    clocks 1 (set_core_reg r1 res d)

unfoldable pub run_bst : ℕ → ℕ → Device → Run
run_bst r1 kbit d =
    let st = d.status in
    clocks 1
      (record d { status = record st { t = not (bit_and (get_core_reg r1 d) (1 <<< kbit) == 0) } })

unfoldable pub run_ldi : ℕ → ℕ → Device → Run
run_ldi r1 k d = clocks 1 (set_core_reg r1 k d)

unfoldable pub run_mov : ℕ → ℕ → Device → Run
run_mov r1 r2 d = clocks 1 (set_core_reg r1 (get_core_reg r2 d) d)

unfoldable pub run_movw : ℕ → ℕ → Device → Run
run_movw rd rs d =
    let d' = set_core_reg rd (get_core_reg rs d) d in
    clocks 1 (set_core_reg (rd + 1) (get_core_reg (rs + 1) d') d')
