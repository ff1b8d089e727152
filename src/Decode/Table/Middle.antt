-- ===== src/Decode/Table/Middle.antt =====
-- Opcodes from 0x4000 to 0x7fff.
use simulavr.Prelude.{◌+◌, ◌*◌, ◌≡◌, refl, true, all_below}
use simulavr.Decode.Table.Check.{evaluated}

pub block_4 : all_below 4096 (λ x. evaluated (4 * 4096 + x)) ≡ true
unfolding all_below evaluated
block_4 = refl

pub block_5 : all_below 4096 (λ x. evaluated (5 * 4096 + x)) ≡ true
unfolding all_below evaluated
block_5 = refl

pub block_6 : all_below 4096 (λ x. evaluated (6 * 4096 + x)) ≡ true
unfolding all_below evaluated
block_6 = refl

pub block_7 : all_below 4096 (λ x. evaluated (7 * 4096 + x)) ≡ true
unfolding all_below evaluated
block_7 = refl
