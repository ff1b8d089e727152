-- ===== src/Clock/MinHeap/Laws.antt =====
-- The operations of the heap (src/systemclock.h, src/systemclock.cpp) keep its order, and insert and
-- remove the entries they are meant to.
use simulavr.Prelude.{ℕ, zero, suc, ◌+◌, ◌-◌, ◌/◌, ◌≤◌, ◌<◌, ◌≡◌, ◌≢◌, arith}
use simulavr.Prelude.{true, inl, inr, Bool-cases, ap, ◌∙◌, ltb, ◌==◌}
use simulavr.Clock.MinHeap.{MinHeap, key, place, insert_internal, insert}
use simulavr.Clock.MinHeap.{remove_at_position_and_insert_internal}
use simulavr.Clock.MinHeap.{remove_minimum_and_insert, remove_minimum}
use simulavr.Clock.MinHeap.Up.{IsOrdered, Closed, UpInv, insert_loop-Closed}
use simulavr.Clock.MinHeap.Down.{DownInv, remove_loop-Closed}
use simulavr.Clock.MinHeap.Weight.{sum_below, total, total-last, total-grown}
use simulavr.Core.Result.{Result, ok, assert, ◌>>=◌}

module _ {ℓ} {V : Type ℓ} where
  grown : MinHeap V → MinHeap V
  grown h = record h { size = h.size + 1 }

  grown-UpInv : (h : MinHeap V) (k : ℕ) → IsOrdered h → UpInv (grown h) (h.size + 1) k
  unfolding grown
  grown-UpInv h k ordered = record {
    low = omega arith;
    high = omega arith;
    edges = λ c p q r s. ordered c p (omega (arith, q, r));
    above = λ c p q. absurd (omega (arith, p, q));
    bridged = λ c p q r. absurd (omega (arith, p, q, r));
  }

  -- Inserting an entry into an ordered heap succeeds with an ordered heap that holds one entry more:
  -- every measure of the entries grows by that of the new one.
  pub insert-IsOrdered :
      (k : ℕ) (v : V) (h : MinHeap V)
      → IsOrdered h
      → (h' : MinHeap V) × (insert k v h ≡ ok h')
        × IsOrdered h'
        × (h'.size ≡ h.size + 1)
        × ((w : ℕ × V → ℕ) → total w h' ≡ total w h + w (k, v))
  unfolding insert insert_internal grown
  insert-IsOrdered k v h ordered =
      let run =
        insert_loop-Closed (h.size + 1 + 1) k v (h.size + 1) (grown h) (omega arith)
          (grown-UpInv h k ordered) in
      (
        run.0,
        run.1,
        run.2.ordered,
        run.2.same_size,
        λ w.
            let at : place (grown h) (h.size + 1) ≡ h.entry h.size = ap h.entry (omega arith) in
            omega (arith, run.2.exchanged w, total-grown w h, ap w at),
      )

  -- The first entry of an ordered heap has the least key.
  pub root_least :
      (rounds : ℕ) (h : MinHeap V) (c : ℕ)
      → c < rounds
      → IsOrdered h
      → 1 ≤ c
      → c ≤ h.size
      → key h 1 ≤ key h c
  root_least zero h c enough ordered p q = absurd (omega arith)
  root_least (suc rounds) h c enough ordered p q = elim (Bool-cases (c == 1)) [
    | inl first ↦ let here : c ≡ 1 = ground arith in omega (arith, ap (key h) here)
    | inr later ↦
        let inner : 2 ≤ c = ground (arith, later, p) in
        omega (
          arith,
          root_least rounds h (c / 2) (omega arith) ordered (omega arith) (omega arith),
          ordered c inner q,
        )
  ]

  start-DownInv : (h : MinHeap V) (k : ℕ) → IsOrdered h → 1 ≤ h.size → DownInv h 1 k
  start-DownInv h k ordered some_entry = record {
    low = omega arith;
    high = some_entry;
    edges = λ c p q r s. ordered c p q;
    below = λ p. absurd (omega (arith, p));
    bridged = λ c p q r. absurd (omega (arith, p));
  }

  -- Replacing the minimum of an ordered heap.
  pub remove_minimum_and_insert-Closed :
      (k : ℕ) (v : V) (h : MinHeap V)
      → IsOrdered h
      → 1 ≤ h.size
      → (h' : MinHeap V) × (remove_minimum_and_insert k v h ≡ ok h')
        × Closed h 1 (k, v) h'
        × (1 ≢ h.size → k ≤ key h h.size → place h' h.size ≡ place h h.size)
  unfolding remove_minimum_and_insert remove_at_position_and_insert_internal
  remove_minimum_and_insert-Closed k v h ordered some_entry =
      let run =
        remove_loop-Closed (h.size + 1) k v 1 h (omega arith)
          (start-DownInv h k ordered some_entry) in
      let inside : ltb 0 h.size ≡ true = ground arith in
      (run.0, rw (inside, remove_minimum_and_insert) run.1, run.2, run.3)

  abbrev popped : MinHeap V → MinHeap V
  popped h = record h { size = h.size - 1 }

  abbrev shrunk : MinHeap V → Result (MinHeap V)
  shrunk h = ok (popped h)

  last_moved :
      (h h' : MinHeap V)
      → 1 ≤ h.size
      → Closed h 1 (place h h.size) h'
      → (1 ≢ h.size → place h' h.size ≡ place h h.size)
      → (w : ℕ × V → ℕ) → w (place h' h.size) ≡ w (place h h.size)
  last_moved h h' some_entry closed kept w = elim (Bool-cases (h.size == 1)) [
    | inl single ↦
        let one : h.size ≡ 1 = ground (arith, single) in
        let before : total w h ≡ w (place h 1) =
          ap (λ n. sum_below w h.entry n) one ∙ omega arith in
        let after : total w h' ≡ w (place h' 1) =
          ap (λ n. sum_below w h'.entry n) (closed.same_size ∙ one) ∙ omega arith in
        omega (arith, closed.exchanged w, before, after, ap (λ n. w (place h' n)) one)
    | inr many ↦ ap w (kept (λ e. ground (arith, many, e)))
  ]

  -- Removing the minimum of an ordered heap with an entry succeeds with an ordered heap that holds
  -- one entry less: every measure of the entries falls by that of the first one, whose key no other
  -- entry's is below.
  pub remove_minimum-IsOrdered :
      (h : MinHeap V)
      → IsOrdered h
      → 1 ≤ h.size
      → (h' : MinHeap V) × (remove_minimum h ≡ ok h')
        × IsOrdered h'
        × (h'.size + 1 ≡ h.size)
        × ((w : ℕ × V → ℕ) → total w h' + w (place h 1) ≡ total w h)
        × ((c : ℕ) → 1 ≤ c → c ≤ h.size → key h 1 ≤ key h c)
  unfolding remove_minimum
  remove_minimum-IsOrdered h ordered some_entry =
      let last = place h h.size in
      let run = remove_minimum_and_insert-Closed last.0 last.1 h ordered some_entry in
      let inside : ltb 0 h.size ≡ true = ground arith in
      let closed = run.2 in
      (
        popped run.0,
        ap (λ b. assert b >>= λ _. remove_minimum_and_insert last.0 last.1 h >>= shrunk) inside
            ∙ ap (λ m. m >>= shrunk) run.1,
        λ c p q. closed.ordered c p (omega (arith, q)),
        omega (arith, closed.same_size, some_entry),
        λ w.
            let size_kept = closed.same_size in
            let kept = last_moved h run.0 some_entry closed (λ n. run.3 n (omega arith)) w in
            let at = ap (λ n. w (place run.0 n)) size_kept in
            omega (
              arith,
              closed.exchanged w,
              total-last w run.0 (omega (arith, size_kept, some_entry)),
              kept,
              at,
            ),
        λ c p q. root_least (c + 1) h c (omega arith) ordered p q,
      )
