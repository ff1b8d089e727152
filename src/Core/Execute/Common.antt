-- ===== src/Core/Execute/Common.antt =====
-- What the functions `operator()` of the instruction classes share (src/decoder.cpp): the result, a
-- state and the clocks used, and the store of a result with the new flags.
use simulavr.Prelude.{ℕ, ◌%◌, Bool, if◌then◌else◌}
use simulavr.Prelude.Bits.{◌>>>◌, u8}
use simulavr.Prelude.Int.{ℤ, pos}
use simulavr.Core.Device.{Device}
use simulavr.Core.Memory.{set_core_reg}
use simulavr.Core.Result.{Result, ok}
use simulavr.Sreg.{Sreg}

-- The value that `operator()` returns is negative for a break point.
abbrev pub Run : Type 0
Run = Result (Device × ℤ)

abbrev pub clocks : ℕ → Device → Run
clocks n d = ok (d, pos n)

-- A result in a core register, and the flags.
abbrev pub store : ℕ → ℕ → Sreg → ℕ → Device → Run
store r res st n d = let d' = set_core_reg r res d in ok (record d' { status = st }, pos n)

-- A 16-bit value in two core registers, the low byte in the first.
abbrev pub set_pair : ℕ → ℕ → ℕ → Device → Device
set_pair low high val d = set_core_reg high (u8 (val >>> 8)) (set_core_reg low (u8 val) d)

-- The choice of clocks by a flag of the core.
abbrev pub one_if : Bool → ℕ → ℕ
one_if fast n = if fast then 1 else n

-- `core->PC = x` for a sum `x` that may exceed 16 bits.
abbrev pub jump : ℕ → Device → Device
jump x d = record d { pc = x % 0x1_0000 }
