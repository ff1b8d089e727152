-- ===== src/Clock/System/Reschedule.antt =====
-- `SystemClock::Reschedule` takes the position of a member for one that counts from 1, while it
-- counts from 0.
use simulavr.Prelude.{ℕ, zero, suc, ◌+◌, ◌-◌, ◌≤◌, ◌<◌, ◌≡◌, refl, arith}
use simulavr.Prelude.{true, false, inl, inr, Bool-cases, ap, ◌∙◌, ltb, ◌==◌}
use simulavr.Core.Result.{ok, abort, out_of_bounds, ◌>>=◌}
use simulavr.Clock.MinHeap.{MinHeap, key, insert_internal, remove_at_position_and_insert}
use simulavr.Clock.MinHeap.Up.{IsOrdered, Closed, UpInv, insert_loop-Closed}
use simulavr.Clock.MinHeap.Weight.{total}
use simulavr.Clock.System.{SimulationMember, SystemClock, position, reschedule}

module _ {ℓ} {V : Type ℓ} where
  earlier-UpInv :
      (h : MinHeap V) (i k : ℕ) → IsOrdered h → 1 ≤ i → i ≤ h.size → k < key h i → UpInv h i k
  earlier-UpInv h i k ordered low high less = record {
    low = low;
    high = high;
    edges = λ c p q r s. ordered c p q;
    above = λ c p q.
        let edge = ordered c (omega (arith, q, low)) p in omega (arith, edge, ap (key h) q, less);
    bridged = λ c p q r.
        let edge = ordered c (omega (arith, r, p)) q in
        omega (arith, edge, ap (key h) r, ordered i p high);
  }

  -- With a key below the one at `pos`, the entry there is replaced.
  replace-Closed :
      (k : ℕ) (v : V) (pos : ℕ) (h : MinHeap V)
      → IsOrdered h
      → 1 ≤ pos
      → pos ≤ h.size
      → k < key h pos
      → (h' : MinHeap V) × (remove_at_position_and_insert k v pos h ≡ ok h')
        × Closed h pos (k, v) h'
  unfolding remove_at_position_and_insert insert_internal
  replace-Closed k v pos h ordered low high less =
      let inner : (pos == 0) ≡ false = ground arith in
      let below : ltb k (h.entry (pos - 1)).0 ≡ true = ground arith in
      let run =
        insert_loop-Closed (pos + 1) k v pos h (omega arith)
          (earlier-UpInv h pos k ordered low high less) in
      (run.0, rw (inner, below) run.1, run.2)

module _ {ℓ} {M W : Type ℓ} (members : SimulationMember M W) where
  -- The first entry of `m` stands at `p`.
  pub record IsFound (m : M) (p : ℕ) (h : MinHeap M) : Type 0 where
    pub inside : p < h.size
    pub found : members.same (h.entry p).1 m ≡ true
    pub first : (j : ℕ) → j < p → members.same (h.entry j).1 m ≡ false

  position-IsFound :
      (m : M) (n i p : ℕ) (h : MinHeap M)
      → i ≤ p
      → p < n + i
      → members.same (h.entry p).1 m ≡ true
      → ((j : ℕ) → j < p → members.same (h.entry j).1 m ≡ false)
      → position members m n i h ≡ p
  unfolding position
  position-IsFound m zero i p h low high found first = absurd (omega arith)
  position-IsFound m (suc n) i p h low high found first = elim (Bool-cases (i == p)) [
    | inl here ↦
        let same : i ≡ p = ground (arith, here) in
        rw (ap (λ j. members.same (h.entry j).1 m) same ∙ found, position) same
    | inr there ↦
        rw (first i (ground (arith, there, low)), position)
          (position-IsFound m n (i + 1) p h (ground (arith, there, low)) (omega arith) found first)
  ]

  -- Rescheduling the member that is due first reads the table outside its bounds.
  pub reschedule-first :
      (m : M) (new_time : ℕ) (c : SystemClock M)
      → IsFound m 0 c.sync_members
      → reschedule members m new_time c ≡ abort out_of_bounds
  unfolding reschedule remove_at_position_and_insert
  reschedule-first m new_time c at =
      let h = c.sync_members in
      let p =
        position-IsFound m h.size 0 0 h (omega arith) (omega (arith, at.inside)) at.found
          at.first in
      let inside : ltb 0 h.size ≡ true = ground (arith, at.inside) in rw (p, inside) refl

  reschedule-at :
      (m : M) (new_time p : ℕ) (c : SystemClock M) (h' : MinHeap M)
      → IsFound m p c.sync_members
      → remove_at_position_and_insert (new_time + c.current_time + 1) m p c.sync_members ≡ ok h'
      → reschedule members m new_time c ≡ ok (record c { sync_members = h' })
  unfolding reschedule
  reschedule-at m new_time p c h' at e =
      let h = c.sync_members in
      let found =
        position-IsFound m h.size 0 p h (omega arith) (omega (arith, at.inside)) at.found
          at.first in
      let inside : ltb p h.size ≡ true = ground (arith, at.inside) in
      rw (found, inside) (ap (λ r. r >>= λ h'. ok (record c { sync_members = h' })) e)

  -- In a table that is in order, rescheduling a member that is not the first, to a time that is
  -- before that of the entry in front of it, succeeds and replaces that other entry: the member then
  -- has two entries.
  pub reschedule-replaces :
      (m : M) (new_time p : ℕ) (c : SystemClock M)
      → IsOrdered c.sync_members
      → IsFound m p c.sync_members
      → 1 ≤ p
      → new_time + c.current_time + 1 < (c.sync_members.entry (p - 1)).0
      → (c' : SystemClock M) × (reschedule members m new_time c ≡ ok c')
        × IsOrdered c'.sync_members
        × (c'.sync_members.size ≡ c.sync_members.size)
        × ((v : ℕ × M → ℕ)
            → total v c'.sync_members + v (c.sync_members.entry (p - 1))
              ≡ total v c.sync_members + v (new_time + c.current_time + 1, m))
  reschedule-replaces m new_time p c ordered at later less =
      let run =
        replace-Closed (new_time + c.current_time + 1) m p c.sync_members ordered later
          (omega (arith, at.inside)) less in
      (
        record c { sync_members = run.0 },
        reschedule-at m new_time p c run.0 at run.1,
        run.2.ordered,
        run.2.same_size,
        run.2.exchanged,
      )
