-- ===== src/Clock/MinHeap/Up.antt =====
-- Sifting up: the loop of `InsertInternal` closes a hole.
use simulavr.Prelude.{ℕ, zero, suc, ◌+◌, ◌-◌, ◌/◌, ◌≤◌, ◌<◌, ◌≡◌, ◌≢◌, refl, arith}
use simulavr.Prelude.{leb, ◌==◌, if◌then◌else◌, ◌||◌, inl, inr, Bool-cases, ap, update_other}
use simulavr.Clock.MinHeap.{MinHeap, key, place, put, insert_loop}
use simulavr.Clock.MinHeap.Weight.{total, sum_below-update}
use simulavr.Core.Result.{ok}

module _ {ℓ} {V : Type ℓ} where
  -- The heap order: no key is less than its parent's.
  abbrev pub IsOrdered : MinHeap V → Type 0
  IsOrdered h = (c : ℕ) → 2 ≤ c → c ≤ h.size → key h (c / 2) ≤ key h c

  -- What a loop that puts an entry `e` in the place of the entry at `i` leaves: an ordered heap of
  -- the other entries and `e`.
  pub record Closed (h : MinHeap V) (i : ℕ) (e : ℕ × V) (h' : MinHeap V) : Type ℓ where
    pub ordered : IsOrdered h'
    pub same_size : h'.size ≡ h.size
    pub exchanged : (w : ℕ × V → ℕ) → total w h' + w (place h i) ≡ total w h + w e

  -- Every edge is in order but those of the hole at `i`; its children are not below `k`, nor below
  -- its parent.
  pub record UpInv (h : MinHeap V) (i k : ℕ) : Type 0 where
    pub low : 1 ≤ i
    pub high : i ≤ h.size
    pub edges : (c : ℕ) → 2 ≤ c → c ≤ h.size → c ≢ i → c / 2 ≢ i → key h (c / 2) ≤ key h c
    pub above : (c : ℕ) → c ≤ h.size → c / 2 ≡ i → k ≤ key h c
    pub bridged : (c : ℕ) → 2 ≤ i → c ≤ h.size → c / 2 ≡ i → key h (i / 2) ≤ key h c

  -- The measure of the entries when the hole moves from `i` to `s`, and is closed there.
  pub exchange :
      (h h' : MinHeap V) (i s : ℕ) (e : ℕ × V)
      → 1 ≤ i
      → i ≤ h.size
      → 1 ≤ s
      → s ≢ i
      → Closed (put i (place h s) h) s e h'
      → (w : ℕ × V → ℕ) → total w h' + w (place h i) ≡ total w h + w e
  exchange h h' i s e low high low' other closed w =
      let moved = sum_below-update w h.entry (i - 1) (place h s) h.size (omega arith) in
      let kept =
        ap w (update_other h.entry (i - 1) (place h s) (s - 1) (λ eq. other (omega (arith, eq)))) in
      omega (arith, closed.exchanged w, moved, kept)

  -- A key after an entry is put.
  pub key-put :
      (h : MinHeap V) (i : ℕ) (e : ℕ × V) (c : ℕ)
      → 1 ≤ i
      → 1 ≤ c
      → key (put i e h) c ≡ (if c == i then e.0 else key h c)
  key-put h i e c p q = ground arith

  put-Closed :
      (h : MinHeap V) (i k : ℕ) (v : V)
      → UpInv h i k
      → (i ≢ 1 → key h (i / 2) ≤ k)
      → Closed h i (k, v) (put i (k, v) h)
  put-Closed h i k v u parent = record {
    ordered = λ c p q.
        let at = key-put h i (k, v) c u.low (omega (arith, p)) in
        let at_parent = key-put h i (k, v) (c / 2) u.low (omega (arith, p)) in
        ground (arith, at, at_parent, u.edges c, u.above c, parent);
    same_size = refl;
    exchanged =
        λ w. sum_below-update w h.entry (i - 1) (k, v) h.size (omega (arith, u.low, u.high));
  }

  put-UpInv :
      (h : MinHeap V) (i k : ℕ)
      → UpInv h i k
      → 2 ≤ i
      → k < key h (i / 2)
      → UpInv (put i (place h (i / 2)) h) (i / 2) k
  put-UpInv h i k u inner less = record {
    low = omega arith;
    high = omega (arith, u.high);
    edges = λ c p q r s.
        let at = key-put h i (place h (i / 2)) c u.low (omega (arith, p)) in
        let at_parent = key-put h i (place h (i / 2)) (c / 2) u.low (omega (arith, p)) in
        ground (arith, at, at_parent, u.edges c, u.bridged c);
    above = λ c p q.
        let at = key-put h i (place h (i / 2)) c u.low (omega (arith, q, inner)) in
        ground (arith, at, u.edges c);
    bridged = λ c p q r.
        let at = key-put h i (place h (i / 2)) c u.low (omega (arith, p, r)) in
        let at_parent = key-put h i (place h (i / 2)) (i / 2 / 2) u.low (omega (arith, p)) in
        ground (arith, at, at_parent, u.edges c, u.edges (i / 2));
  }

  -- The hole moves up: what closes it at the parent closes it here.
  pub lifted :
      (h h' : MinHeap V) (i s : ℕ) (e : ℕ × V)
      → 1 ≤ i
      → i ≤ h.size
      → 1 ≤ s
      → s ≢ i
      → Closed (put i (place h s) h) s e h'
      → Closed h i e h'
  lifted h h' i s e low high low' other closed = record {
    ordered = closed.ordered;
    same_size = closed.same_size;
    exchanged = exchange h h' i s e low high low' other closed;
  }

  -- The loop ends within its rounds, and closes the hole.
  pub insert_loop-Closed :
      (rounds k : ℕ) (v : V) (i : ℕ) (h : MinHeap V)
      → i < rounds
      → UpInv h i k
      → (h' : MinHeap V) × (insert_loop rounds k v i h ≡ ok h') × Closed h i (k, v) h'
  unfolding insert_loop
  insert_loop-Closed zero k v i h enough u = absurd (omega arith)
  insert_loop-Closed (suc rounds) k v i h enough u =
      elim (Bool-cases (i / 2 == 0 || leb (key h (i / 2)) k)) [
        | inl stop ↦ (
          put i (k, v) h,
          rw (stop, insert_loop) refl,
          put-Closed h i k v u (λ n. ground (arith, stop, n, u.low)),
        )
        | inr go ↦
            let inner : 2 ≤ i = ground (arith, go, u.low) in
            let less : k < key h (i / 2) = ground (arith, go) in
            let rest =
              insert_loop-Closed rounds k v (i / 2) (put i (place h (i / 2)) h) (omega arith)
                (put-UpInv h i k u inner less) in
            (
              rest.0,
              rw (go, insert_loop) rest.1,
              lifted h rest.0 i (i / 2) (k, v) u.low u.high (omega arith) (λ e. omega (arith, e))
                  rest.2,
            )
      ]
