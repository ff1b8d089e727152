-- ===== src/Decode/Table/Top.antt =====
-- Opcodes from 0xc000 to 0xffff.
use simulavr.Prelude.{◌+◌, ◌*◌, ◌≡◌, refl, true, all_below}
use simulavr.Decode.Table.Check.{evaluated}

pub block_12 : all_below 4096 (λ x. evaluated (12 * 4096 + x)) ≡ true
unfolding all_below evaluated
block_12 = refl

pub block_13 : all_below 4096 (λ x. evaluated (13 * 4096 + x)) ≡ true
unfolding all_below evaluated
block_13 = refl

pub block_14 : all_below 4096 (λ x. evaluated (14 * 4096 + x)) ≡ true
unfolding all_below evaluated
block_14 = refl

pub block_15 : all_below 4096 (λ x. evaluated (15 * 4096 + x)) ≡ true
unfolding all_below evaluated
block_15 = refl
