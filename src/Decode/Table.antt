-- ===== src/Decode/Table.antt =====
-- A check of every opcode, for a core that has all instructions, in blocks of 4096 opcodes.
pub mod Check
mod Low
mod Middle
mod High
mod Top
use simulavr.Prelude.{ℕ, zero, suc, ◌+◌, ◌*◌, ◌/◌, ◌%◌, ◌<◌, ◌≡◌, refl, true, ap, ◌∙◌, sym}
use simulavr.Prelude.{arith, all_below, all_below_sound}
use Check.{checked, evaluated, evaluated-eq-checked}
use Low.{block_0, block_1, block_2, block_3}
use Middle.{block_4, block_5, block_6, block_7}
use High.{block_8, block_9, block_10, block_11}
use Top.{block_12, block_13, block_14, block_15}

block : (hi : ℕ) → hi < 16 → all_below 4096 (λ x. evaluated (hi * 4096 + x)) ≡ true
block zero h = block_0
block (suc zero) h = block_1
block (suc (suc zero)) h = block_2
block (suc (suc (suc zero))) h = block_3
block (suc (suc (suc (suc zero)))) h = block_4
block (suc (suc (suc (suc (suc zero))))) h = block_5
block (suc (suc (suc (suc (suc (suc zero)))))) h = block_6
block (suc (suc (suc (suc (suc (suc (suc zero))))))) h = block_7
block (suc (suc (suc (suc (suc (suc (suc (suc zero)))))))) h = block_8
block (suc (suc (suc (suc (suc (suc (suc (suc (suc zero))))))))) h = block_9
block (suc (suc (suc (suc (suc (suc (suc (suc (suc (suc zero)))))))))) h = block_10
block (suc (suc (suc (suc (suc (suc (suc (suc (suc (suc (suc zero))))))))))) h = block_11
block (suc (suc (suc (suc (suc (suc (suc (suc (suc (suc (suc (suc zero)))))))))))) h = block_12
block (suc (suc (suc (suc (suc (suc (suc (suc (suc (suc (suc (suc (suc zero))))))))))))) h =
    block_13
block (suc (suc (suc (suc (suc (suc (suc (suc (suc (suc (suc (suc (suc (suc zero)))))))))))))) h =
    block_14
block (suc (suc (suc (suc (suc (suc (suc (suc (suc (suc (suc (suc (suc (suc (suc zero)))))))))))))))
      h =
    block_15
block
      (suc (
        suc (suc (suc (suc (suc (suc (suc (suc (suc (suc (suc (suc (suc (suc (suc hi))))))))))))))))
      h =
    absurd (omega arith)

-- Every opcode passes the check.
pub checked_all : (opcode : ℕ) → opcode < 65536 → checked opcode ≡ true
checked_all opcode h =
    let split : opcode / 4096 * 4096 + opcode % 4096 ≡ opcode = omega arith in
    sym (evaluated-eq-checked opcode)
    ∙ ap evaluated (sym split)
    ∙ all_below_sound 4096 (λ x. evaluated (opcode / 4096 * 4096 + x)) (opcode % 4096)
        (block (opcode / 4096) (omega arith)) (omega arith)
