-- ===== src/Core/Stack.antt =====
-- The stack in RAM: `HWStackSram` (src/hwstack.cpp). `Push` writes at the stack pointer and then
-- decrements it, modulo the ceiling.
pub mod RoundTrip
pub mod Addresses
pub mod ThreeLevels
use simulavr.Prelude.{ℕ, ◌+◌, ◌-◌, ◌*◌, ◌/◌, ◌%◌, ◌^◌, Bool, ltb, ◌==◌, if◌then◌else◌}
use simulavr.Prelude.Bits.{◌<<<◌, ◌>>>◌}
use simulavr.Core.Device.{Device, HwStackSram}
use simulavr.Core.Memory.{get_rw_mem, set_rw_mem, check_return_points}
use simulavr.Core.Result.{Result, ok, ◌>>=◌}

-- `lowestStackPointer` after a push.
abbrev pub measure : HwStackSram → HwStackSram
measure s =
    if ltb s.stack_pointer s.lowest_stack_pointer
    then record s { lowest_stack_pointer = s.stack_pointer }
    else s

-- `stackPointer--` on a `uint32_t`, then `%=`.
abbrev pub below : ℕ → ℕ → ℕ
below sp ceil = ((sp + 0xffff_ffff) % 0x1_0000_0000) % ceil

-- `stackPointer++` on a `uint32_t`, then `%=`.
abbrev pub above : ℕ → ℕ → ℕ
above sp ceil = ((sp + 1) % 0x1_0000_0000) % ceil

-- `Push`.
unfoldable pub push : ℕ → Device → Result Device
unfolding set_rw_mem check_return_points
push val d = do
  d' ← set_rw_mem d.stack.stack_pointer val d
  let s = d'.stack
  let s' = check_return_points (record s { stack_pointer = below s.stack_pointer s.stack_ceil })
  ok (record d' { stack = measure s' })

-- `Pop`.
unfoldable pub pop : Device → Result (ℕ × Device)
unfolding get_rw_mem check_return_points
pop d =
    let s = d.stack in
    let s' =
      check_return_points (record s { stack_pointer = above s.stack_pointer s.stack_ceil }) in
    get_rw_mem s'.stack_pointer (record d { stack = s' })

-- `PushAddr`: the low byte first.
unfoldable pub push_addr : ℕ → Device → Result Device
unfolding push
push_addr addr d = do
  d1 ← push (addr % 0x100) d
  d2 ← push ((addr >>> 8) % 0x100) d1
  if d2.pc_size == 3 then push ((addr >>> 16) % 0x100) d2 else ok d2

-- `PopAddr`: the high byte first.
unfoldable pub pop_addr : Device → Result (ℕ × Device)
unfolding pop
pop_addr d = do
  (high, d1) ← pop d
  (low, d2) ← pop d1
  let val = (high <<< 8) + low
  if d2.pc_size == 3 then (pop d2 >>= λ p. ok ((val <<< 8) + p.0, p.1)) else ok (val, d2)
