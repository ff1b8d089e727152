-- ===== src/Core/Execute/Arith.antt =====
-- Addition, subtraction and comparison (`operator()` of these classes in src/decoder.cpp). A
-- difference of bytes is taken modulo 256.
pub mod Words
pub mod Immediate
use simulavr.Prelude.{ℕ, ◌+◌, ◌-◌, ◌*◌, ◌/◌, ◌%◌, ◌^◌, bit_or, not, ◌&&◌, xor, ◌==◌}
use simulavr.Prelude.Bits.{◌<<<◌, ◌>>>◌, u8, u16}
use simulavr.Prelude.Int.{pos}
use simulavr.Core.Alu.{bit_at, add_status, sub_status, compare_status}
use simulavr.Core.Device.{Device}
use simulavr.Core.Execute.Common.{Run, clocks, store, set_pair}
use simulavr.Core.Memory.{get_core_reg}
use simulavr.Core.Result.{ok}
use simulavr.Sreg.{Sreg, bit}

-- `rd - rr - c` as a `byte`.
abbrev pub minus8 : ℕ → ℕ → ℕ → ℕ
minus8 rd rr c = u8 (rd + 512 - rr - c)

unfoldable pub run_adc : ℕ → ℕ → Device → Run
unfolding add_status
run_adc r1 r2 d =
    let rd = get_core_reg r1 d in
    let rr = get_core_reg r2 d in
    let res = u8 (rd + rr + bit d.status.c) in store r1 res (add_status d.status res rd rr) 1 d

unfoldable pub run_add : ℕ → ℕ → Device → Run
unfolding add_status
run_add r1 r2 d =
    let rd = get_core_reg r1 d in
    let rr = get_core_reg r2 d in
    let res = u8 (rd + rr) in store r1 res (add_status d.status res rd rr) 1 d

-- The flags of ADIW, from the result and the high byte.
abbrev pub adiw_status : Sreg → ℕ → ℕ → Sreg
adiw_status st res rdh =
    let overflow = not (bit_at rdh 7) && bit_at res 15 in
    let negative = bit_at res 15 in
    record st {
      v = overflow;
      n = negative;
      s = xor negative overflow;
      z = res == 0;
      c = not (bit_at res 15) && bit_at rdh 7;
    }

unfoldable pub run_adiw : ℕ → ℕ → ℕ → Device → Run
run_adiw rl rh k d =
    let rd = (get_core_reg rh d <<< 8) + get_core_reg rl d in
    let res = u16 (rd + k) in
    let st = adiw_status d.status res (get_core_reg rh d) in
    let d' = set_pair rl rh res d in ok (record d' { status = st }, pos 2)

unfoldable pub run_sub : ℕ → ℕ → Device → Run
unfolding sub_status
run_sub r1 r2 d =
    let rd = get_core_reg r1 d in
    let rr = get_core_reg r2 d in
    let res = minus8 rd rr 0 in store r1 res (sub_status d.status res rd rr) 1 d

unfoldable pub run_subi : ℕ → ℕ → Device → Run
unfolding sub_status
run_subi r1 k d =
    let rd = get_core_reg r1 d in
    let res = minus8 rd k 0 in store r1 res (sub_status d.status res rd k) 1 d

-- The flags of SBC, SBCI and CPC: Z is only cleared.
abbrev pub keep_zero : Sreg → Sreg → Sreg
keep_zero old st = record st { z = st.z && old.z }

unfoldable pub run_sbc : ℕ → ℕ → Device → Run
unfolding sub_status
run_sbc r1 r2 d =
    let rd = get_core_reg r1 d in
    let rr = get_core_reg r2 d in
    let res = minus8 rd rr (bit d.status.c) in
    store r1 res (keep_zero d.status (sub_status d.status res rd rr)) 1 d

unfoldable pub run_sbci : ℕ → ℕ → Device → Run
unfolding sub_status
run_sbci r1 k d =
    let rd = get_core_reg r1 d in
    let res = minus8 rd k (bit d.status.c) in
    store r1 res (keep_zero d.status (sub_status d.status res rd k)) 1 d

-- The flags of SBIW.
abbrev pub sbiw_status : Sreg → ℕ → ℕ → Sreg
sbiw_status st res rdh =
    let overflow = bit_at rdh 7 && not (bit_at res 15) in
    let negative = bit_at res 15 in
    record st {
      v = overflow;
      n = negative;
      s = xor negative overflow;
      z = res == 0;
      c = bit_at res 15 && not (bit_at rdh 7);
    }

unfoldable pub run_sbiw : ℕ → ℕ → Device → Run
run_sbiw r1 k d =
    let rdl = get_core_reg r1 d in
    let rdh = get_core_reg (r1 + 1) d in
    let rd = (rdh <<< 8) + rdl in
    let res = u16 (rd + 0x1_0000 - k) in
    let d' = set_pair r1 (r1 + 1) res d in
    ok (record d' { status = sbiw_status d.status res rdh }, pos 2)

unfoldable pub run_cp : ℕ → ℕ → Device → Run
unfolding compare_status
run_cp r1 r2 d =
    let rd = get_core_reg r1 d in
    let rr = get_core_reg r2 d in
    clocks 1 (record d { status = compare_status d.status (minus8 rd rr 0) rd rr })

unfoldable pub run_cpc : ℕ → ℕ → Device → Run
unfolding compare_status
run_cpc r1 r2 d =
    let rd = get_core_reg r1 d in
    let rr = get_core_reg r2 d in
    let st = compare_status d.status (minus8 rd rr (bit d.status.c)) rd rr in
    clocks 1 (record d { status = keep_zero d.status st })

unfoldable pub run_cpi : ℕ → ℕ → Device → Run
unfolding compare_status
run_cpi r1 k d =
    let rd = get_core_reg r1 d in
    clocks 1 (record d { status = compare_status d.status (minus8 rd k 0) rd k })

-- The flags of INC and DEC, which keep H and C.
abbrev pub count_status : Sreg → ℕ → ℕ → ℕ → Sreg
count_status st res val limit =
    let negative = bit_at res 7 in
    let overflow = val == limit in
    record st { n = negative; v = overflow; s = xor negative overflow; z = res == 0 }

unfoldable pub run_dec : ℕ → Device → Run
run_dec r1 d =
    let res = minus8 (get_core_reg r1 d) 1 0 in
    store r1 res (count_status d.status res res 0x7f) 1 d

unfoldable pub run_inc : ℕ → Device → Run
run_inc r1 d =
    let rd = get_core_reg r1 d in
    let res = u8 (rd + 1) in store r1 res (count_status d.status res rd 0x7f) 1 d

-- The flags of NEG.
abbrev pub neg_status : Sreg → ℕ → ℕ → Sreg
neg_status st res val =
    let overflow = res == 0x80 in
    let negative = bit_at res 7 in
    record st {
      h = bit_or (res >>> 3) (val >>> 3) % 2 == 1;
      v = overflow;
      n = negative;
      s = xor negative overflow;
      z = res == 0;
      c = not (res == 0);
    }

unfoldable pub run_neg : ℕ → Device → Run
run_neg rd d =
    let val = get_core_reg rd d in
    let res = minus8 0 val 0 in store rd res (neg_status d.status res val) 1 d
