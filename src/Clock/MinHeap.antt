-- ===== src/Clock/MinHeap.antt =====
-- The heap of the system clock: the template `MinHeap` (src/systemclock.h, src/systemclock.cpp), with
-- times in ns as keys. The parameters `i` and `pos` of the loops count from 1, as in the source.
pub mod Weight
pub mod Up
pub mod Down
pub mod Laws
use simulavr.Prelude.{ℕ, zero, suc, ◌+◌, ◌-◌, ◌*◌, ◌/◌, Bool, true, false, ◌&&◌, ◌||◌}
use simulavr.Prelude.{update, ltb, leb, ◌==◌, if◌then◌else◌}
use simulavr.Core.Result.{Result, ok, abort, out_of_rounds, out_of_bounds, assert, ◌>>=◌, ◌>>◌}

-- The entries of the vector, each a key with a value.
pub record MinHeap {ℓ} (V : Type ℓ) : Type ℓ where
  pub size : ℕ
  pub entry : ℕ → ℕ × V

module _ {ℓ} {V : Type ℓ} where
  -- The entry and the key at a position that counts from 1.
  abbrev pub place : MinHeap V → ℕ → ℕ × V
  place h i = h.entry (i - 1)

  abbrev pub key : MinHeap V → ℕ → ℕ
  key h i = (place h i).0

  abbrev pub put : ℕ → ℕ × V → MinHeap V → MinHeap V
  put i e h = record h { entry = update h.entry (i - 1) e }

  -- `InsertInternal`: entries move down until the parent's key is not greater.
  unfoldable pub insert_loop : ℕ → ℕ → V → ℕ → MinHeap V → Result (MinHeap V)
  insert_loop zero k v i h = abort out_of_rounds
  insert_loop (suc rounds) k v i h =
      let parent = i / 2 in
      elim (parent == 0 || leb (key h parent) k) [
        | true ↦ ok (put i (k, v) h)
        | false ↦ insert_loop rounds k v parent (put i (place h parent) h)
      ]

  -- The position halves in each round.
  unfoldable pub insert_internal : ℕ → V → ℕ → MinHeap V → Result (MinHeap V)
  unfolding insert_loop
  insert_internal k v pos h = insert_loop (pos + 1) k v pos h

  -- The child that `RemoveAtPositionAndInsertInternal` takes up, or `i`.
  unfoldable pub smallest : ℕ → ℕ → MinHeap V → ℕ
  smallest k i h =
      let left = 2 * i in
      let right = 2 * i + 1 in
      let first = if ltb (left - 1) h.size && ltb (key h left) k then left else i in
      if ltb (right - 1) h.size && ltb (key h right) k && ltb (key h right) (key h left)
      then right
      else first

  -- `RemoveAtPositionAndInsertInternal`, with `i` for `pos + 1`: entries move up until no child has
  -- a smaller key.
  unfoldable pub remove_loop : ℕ → ℕ → V → ℕ → MinHeap V → Result (MinHeap V)
  unfolding smallest
  remove_loop zero k v i h = abort out_of_rounds
  remove_loop (suc rounds) k v i h =
      let s = smallest k i h in
      elim (s == i) [
        | true ↦ ok (put s (k, v) h)
        | false ↦ remove_loop rounds k v s (put i (place h s) h)
      ]

  -- The position at least doubles in each round, below the size.
  unfoldable pub remove_at_position_and_insert_internal : ℕ → V → ℕ → MinHeap V → Result (MinHeap V)
  unfolding remove_loop
  remove_at_position_and_insert_internal k v pos h =
      assert (ltb pos h.size) >> remove_loop (h.size + 1) k v (pos + 1) h

  -- `Insert`: `resize` first, which adds an entry of no account.
  unfoldable pub insert : ℕ → V → MinHeap V → Result (MinHeap V)
  unfolding insert_internal
  insert k v h = insert_internal k v (h.size + 1) (record h { size = h.size + 1 })

  -- `RemoveMinimumAndInsert`.
  unfoldable pub remove_minimum_and_insert : ℕ → V → MinHeap V → Result (MinHeap V)
  unfolding remove_at_position_and_insert_internal
  remove_minimum_and_insert k v h = remove_at_position_and_insert_internal k v 0 h

  -- `RemoveMinimum`.
  unfoldable pub remove_minimum : MinHeap V → Result (MinHeap V)
  unfolding remove_minimum_and_insert
  remove_minimum h = do
    assert (ltb 0 h.size)
    let last = h.entry (h.size - 1)
    h' ← remove_minimum_and_insert last.0 last.1 h
    ok (record h' { size = h'.size - 1 })

  -- `RemoveAtPositionAndInsert`.
  unfoldable pub remove_at_position_and_insert : ℕ → V → ℕ → MinHeap V → Result (MinHeap V)
  unfolding insert_internal remove_at_position_and_insert_internal
  remove_at_position_and_insert k v pos h =
      if pos == 0
      then abort out_of_bounds
      else if ltb k (h.entry (pos - 1)).0
      then insert_internal k v pos h
      else remove_at_position_and_insert_internal k v pos h
