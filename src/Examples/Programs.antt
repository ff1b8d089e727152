-- ===== src/Examples/Programs.antt =====
-- Decoding and the flash at concrete opcodes and words.
use simulavr.Prelude.{ℕ, ◌+◌, ◌*◌, ◌≤◌, ◌<◌, ◌≡◌, ◌⊎◌, arith}
use simulavr.Prelude.{some}
use simulavr.Core.Result.{ok}
use simulavr.Decode.Case.{full}
use simulavr.Decode.Encode.{encode}
use simulavr.Decode.Instruction.{avr_op_illegal}
use simulavr.Decode.Limits.{Weaker, lookup_opcode-Weaker}
use simulavr.Decode.Lookup.{lookup_opcode}
use simulavr.Decode.RoundTrip.{encode-lookup_opcode}
use simulavr.Flash.{AvrFlash, write_mem}
use simulavr.Flash.Coherence.{IsCoherent, write_mem-IsCoherent}
use simulavr.Examples.{small_core, flash, flash-IsCoherent}

encode-lookup_opcode_example :
    (lookup_opcode small_core 0x0f12 ≡ avr_op_illegal)
    ⊎ (encode (lookup_opcode small_core 0x0f12) ≡ some 0x0f12)
encode-lookup_opcode_example = encode-lookup_opcode small_core 0x0f12 (omega arith)

lookup_opcode-Weaker_example : Weaker (lookup_opcode small_core 0x9f12) (lookup_opcode full 0x9f12)
lookup_opcode-Weaker_example = lookup_opcode-Weaker small_core 0x9f12 (omega arith)

write_mem-IsCoherent_example :
    (f' : AvrFlash) × (write_mem full (λ a. a) 4 (2 * 2) flash ≡ ok f')
    × IsCoherent full f'
    × ((i : ℕ) → i < 2 → (f'.memory (4 + i * 2) ≡ i * 2 + 1) × (f'.memory (4 + i * 2 + 1) ≡ i * 2))
    × ((a : ℕ) → (a < 4) ⊎ (4 + 2 * 2 ≤ a) → f'.memory a ≡ 0xff)
write_mem-IsCoherent_example =
    write_mem-IsCoherent full (λ a. a) 4 2 flash (omega arith) (omega arith) flash-IsCoherent
