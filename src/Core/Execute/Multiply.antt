-- ===== src/Core/Execute/Multiply.antt =====
-- The multiplications (`operator()` of these classes in src/decoder.cpp). The product of an `int` is
-- kept as the 16 bits of its two's complement, which is all that the flags and the registers take
-- of it.
pub mod Products
use simulavr.Prelude.{ℕ, ◌+◌, ◌-◌, ◌*◌, ◌/◌, ◌%◌, ◌^◌, ◌==◌}
use simulavr.Prelude.Bits.{◌<<<◌, u16}
use simulavr.Prelude.Int.{pos, ◌*ℤ◌, wrap, signed8}
use simulavr.Core.Alu.{bit_at}
use simulavr.Core.Device.{Device}
use simulavr.Core.Execute.Common.{Run, set_pair}
use simulavr.Core.Memory.{get_core_reg}
use simulavr.Core.Result.{ok}

-- A result in R1:R0; `resp` gives C.
abbrev pub product : ℕ → ℕ → Device → Run
product resp res d =
    let st = d.status in
    let d' = set_pair 0 1 res d in
    ok (record d' { status = record st { z = res == 0; c = bit_at resp 15 } }, pos 2)

unfoldable pub run_mul : ℕ → ℕ → Device → Run
run_mul rd rr d = let res = u16 (get_core_reg rd d * get_core_reg rr d) in product res res d

unfoldable pub run_muls : ℕ → ℕ → Device → Run
unfolding ◌*ℤ◌
run_muls rd rr d =
    let res = wrap 0x1_0000 (signed8 (get_core_reg rd d) *ℤ signed8 (get_core_reg rr d)) in
    product res res d

unfoldable pub run_mulsu : ℕ → ℕ → Device → Run
unfolding ◌*ℤ◌
run_mulsu rd rr d =
    let res = wrap 0x1_0000 (signed8 (get_core_reg rd d) *ℤ pos (get_core_reg rr d)) in
    product res res d

unfoldable pub run_fmul : ℕ → ℕ → Device → Run
run_fmul rd rr d =
    let resp = u16 (get_core_reg rd d * get_core_reg rr d) in product resp (u16 (resp <<< 1)) d

unfoldable pub run_fmuls : ℕ → ℕ → Device → Run
unfolding ◌*ℤ◌
run_fmuls rd rr d =
    let resp = wrap 0x1_0000 (signed8 (get_core_reg rd d) *ℤ signed8 (get_core_reg rr d)) in
    product resp (u16 (resp <<< 1)) d

unfoldable pub run_fmulsu : ℕ → ℕ → Device → Run
unfolding ◌*ℤ◌
run_fmulsu rd rr d =
    let resp = wrap 0x1_0000 (signed8 (get_core_reg rd d) *ℤ pos (get_core_reg rr d)) in
    product resp (u16 (resp <<< 1)) d
