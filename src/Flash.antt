-- ===== src/Flash.antt =====
-- The flash memory `AvrFlash` (src/flash.h, src/flash.cpp): its bytes, as WriteMem stores them with
-- the two bytes of each word swapped, and the instruction decoded at each word.
pub mod Blocks
pub mod Coherence
use simulavr.Prelude.{ℕ, zero, suc, ◌+◌, ◌*◌, ◌/◌, ◌%◌, ◌^◌, Bool, true, false, Option, none, some}
use simulavr.Prelude.{update, ltb, ◌==◌, if◌then◌else◌}
use simulavr.Prelude.Bits.{◌<<<◌}
use simulavr.Core.Result.{Result, ok, abort, flash_locked, assert, ◌>>=◌, ◌>>◌}
use simulavr.Decode.Case.{CoreFlags}
use simulavr.Decode.Instruction.{Instruction}
use simulavr.Decode.Lookup.{lookup_opcode}

pub record AvrFlash : Type 0 where
  -- In bytes.
  pub size : ℕ
  pub memory : ℕ → ℕ
  -- `none` is NULL.
  pub decoded : ℕ → Option Instruction
  -- Addresses below this are locked.
  pub rww_lock : ℕ
  pub flash_loaded : Bool

-- `IsRWWLock`.
abbrev pub is_rww_lock : AvrFlash → ℕ → Bool
is_rww_lock f addr = ltb addr f.rww_lock

-- The word at a byte address, with the byte at the lower address as the high byte.
abbrev pub word_at : (ℕ → ℕ) → ℕ → ℕ
word_at memory addr = (memory addr <<< 8) + memory (addr + 1)

-- `Decode(addr)`.
unfoldable pub decode : CoreFlags → ℕ → AvrFlash → Result AvrFlash
decode flags addr f = do
  assert (ltb addr f.size)
  assert (addr % 2 == 0)
  ok (record f {
    decoded = update f.decoded (addr / 2) (some (lookup_opcode flags (word_at f.memory addr)));
  })

-- `Decode(offset, secSize)`, with half of `secSize`, rounded up, as the rounds of the loop.
unfoldable pub decode_block : CoreFlags → ℕ → ℕ → AvrFlash → Result AvrFlash
unfolding decode
decode_block flags zero offset f = ok f
decode_block flags (suc rounds) offset f = elim (ltb offset f.size) [
  | true ↦ decode flags offset f >>= λ f'. decode_block flags rounds (offset + 2) f'
  | false ↦ ok f
]

-- The loop of `WriteMem` from `tt` on.
unfoldable pub copy : (ℕ → ℕ) → ℕ → ℕ → ℕ → AvrFlash → Result AvrFlash
copy src zero t offset f = ok f
copy src (suc rounds) t offset f = elim (ltb (t + offset) f.size) [
  | true ↦
      assert (ltb (t + offset + 1) f.size)
      >> copy src rounds (t + 2) offset (record f {
        memory = update (update f.memory (t + offset) (src (t + 1))) (t + 1 + offset) (src t);
      })
  | false ↦ copy src rounds (t + 2) offset f
]

-- `WriteMem`.
unfoldable pub write_mem : CoreFlags → (ℕ → ℕ) → ℕ → ℕ → AvrFlash → Result AvrFlash
unfolding copy decode_block
write_mem flags src offset sec_size f = do
  f' ← copy src ((sec_size + 1) / 2) 0 offset f
  f'' ← decode_block flags ((sec_size + 1) / 2) offset f'
  ok (record f'' { flash_loaded = true })

-- `WriteMemByte`: the instructions are not decoded again.
unfoldable pub write_mem_byte : ℕ → ℕ → AvrFlash → Result AvrFlash
write_mem_byte val offset f = do
  assert (ltb offset f.size)
  ok (record f { memory = update f.memory offset val; flash_loaded = true })

-- `GetInstruction`.
unfoldable pub get_instruction : AvrFlash → ℕ → Result (Option Instruction)
get_instruction f pc = if is_rww_lock f (pc * 2) then abort flash_locked else ok (f.decoded pc)

-- `GetOpcode`.
unfoldable pub get_opcode : AvrFlash → ℕ → Result ℕ
get_opcode f pc =
    let addr = pc * 2 in
    if is_rww_lock f addr then abort flash_locked else ok (word_at f.memory addr)

-- `ReadMem`.
unfoldable pub read_mem : AvrFlash → ℕ → ℕ
read_mem f offset = if is_rww_lock f offset then 0 else f.memory offset

-- `ReadMemWord`.
unfoldable pub read_mem_word : AvrFlash → ℕ → Result ℕ
read_mem_word f offset = do
  assert (ltb offset f.size)
  ok (if is_rww_lock f offset then 0 else word_at f.memory offset)
