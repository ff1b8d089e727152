-- ===== src/Decode/Table/High.antt =====
-- Opcodes from 0x8000 to 0xbfff.
use simulavr.Prelude.{◌+◌, ◌*◌, ◌≡◌, refl, true, all_below}
use simulavr.Decode.Table.Check.{evaluated}

pub block_8 : all_below 4096 (λ x. evaluated (8 * 4096 + x)) ≡ true
unfolding all_below evaluated
block_8 = refl

pub block_9 : all_below 4096 (λ x. evaluated (9 * 4096 + x)) ≡ true
unfolding all_below evaluated
block_9 = refl

pub block_10 : all_below 4096 (λ x. evaluated (10 * 4096 + x)) ≡ true
unfolding all_below evaluated
block_10 = refl

pub block_11 : all_below 4096 (λ x. evaluated (11 * 4096 + x)) ≡ true
unfolding all_below evaluated
block_11 = refl
