-- ===== src/Decode/Table/Low.antt =====
-- Opcodes from 0x0000 to 0x3fff.
use simulavr.Prelude.{◌+◌, ◌*◌, ◌≡◌, refl, true, all_below}
use simulavr.Decode.Table.Check.{evaluated}

pub block_0 : all_below 4096 (λ x. evaluated (0 * 4096 + x)) ≡ true
unfolding all_below evaluated
block_0 = refl

pub block_1 : all_below 4096 (λ x. evaluated (1 * 4096 + x)) ≡ true
unfolding all_below evaluated
block_1 = refl

pub block_2 : all_below 4096 (λ x. evaluated (2 * 4096 + x)) ≡ true
unfolding all_below evaluated
block_2 = refl

pub block_3 : all_below 4096 (λ x. evaluated (3 * 4096 + x)) ≡ true
unfolding all_below evaluated
block_3 = refl
