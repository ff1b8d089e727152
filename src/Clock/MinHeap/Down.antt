-- ===== src/Clock/MinHeap/Down.antt =====
-- Sifting down: the loop of `RemoveAtPositionAndInsertInternal` closes a hole.
use simulavr.Prelude.{ℕ, zero, suc, ◌+◌, ◌-◌, ◌*◌, ◌/◌, ◌≤◌, ◌<◌, ◌≡◌, ◌≢◌, ◌⊎◌, refl, arith}
use simulavr.Prelude.{
  Bool, ltb, ◌==◌, ◌&&◌, true, false, inl, inr, Bool-cases, ap, ◌∙◌, update_other,
}
use simulavr.Clock.MinHeap.{MinHeap, key, place, put, smallest, remove_loop}
use simulavr.Clock.MinHeap.Up.{Closed, key-put, lifted}
use simulavr.Clock.MinHeap.Weight.{sum_below-update}
use simulavr.Core.Result.{ok}

-- The children of `i`.
child_cases : (i c : ℕ) → c / 2 ≡ i → (c ≡ 2 * i) ⊎ (c ≡ 2 * i + 1)
child_cases i c h = elim (Bool-cases (c == 2 * i)) [
  | inl left ↦ inl (ground arith)
  | inr right ↦ inr (ground (arith, right, h))
]

module _ {ℓ} {V : Type ℓ} where
  -- Every edge is in order but those of the hole at `i`; `k` is not below its parent, and neither are
  -- the children of the hole.
  pub record DownInv (h : MinHeap V) (i k : ℕ) : Type 0 where
    pub low : 1 ≤ i
    pub high : i ≤ h.size
    pub edges : (c : ℕ) → 2 ≤ c → c ≤ h.size → c ≢ i → c / 2 ≢ i → key h (c / 2) ≤ key h c
    pub below : 2 ≤ i → key h (i / 2) ≤ k
    pub bridged : (c : ℕ) → 2 ≤ i → c ≤ h.size → c / 2 ≡ i → key h (i / 2) ≤ key h c

  -- `s` is the child of `i` with the least key, which is below `k`.
  record IsChild (k i : ℕ) (h : MinHeap V) (s : ℕ) : Type 0 where
    inside : s ≤ h.size
    child : s / 2 ≡ i
    less : key h s < k
    least : (c : ℕ) → c ≤ h.size → c / 2 ≡ i → key h s ≤ key h c

  abbrev takes_left : ℕ → ℕ → MinHeap V → Bool
  takes_left k i h = ltb (2 * i - 1) h.size && ltb (key h (2 * i)) k

  abbrev takes_right : ℕ → ℕ → MinHeap V → Bool
  takes_right k i h =
      ltb (2 * i + 1 - 1) h.size
      && ltb (key h (2 * i + 1)) k
      && ltb (key h (2 * i + 1)) (key h (2 * i))

  left-IsChild :
      (k i : ℕ) (h : MinHeap V)
      → 1 ≤ i
      → takes_right k i h ≡ false
      → takes_left k i h ≡ true
      → IsChild k i h (2 * i)
  left-IsChild k i h low not_right left = record {
    inside = ground (arith, left, low);
    child = omega arith;
    less = ground (arith, left);
    least = λ c p q. elim (child_cases i c q) [
      | inl e ↦ omega (arith, ap (key h) e)
      | inr e ↦ ground (arith, not_right, left, p, e, ap (key h) e)
    ];
  }

  right-IsChild :
      (k i : ℕ) (h : MinHeap V) → 1 ≤ i → takes_right k i h ≡ true → IsChild k i h (2 * i + 1)
  right-IsChild k i h low right = record {
    inside = ground (arith, right, low);
    child = omega arith;
    less = ground (arith, right);
    least = λ c p q. elim (child_cases i c q) [
      | inl e ↦ ground (arith, right, ap (key h) e)
      | inr e ↦ omega (arith, ap (key h) e)
    ];
  }

  smallest-IsChild :
      (k i : ℕ) (h : MinHeap V) → 1 ≤ i → smallest k i h ≢ i → IsChild k i h (smallest k i h)
  unfolding smallest
  smallest-IsChild k i h low moved = elim (Bool-cases (takes_right k i h)) [
    | inl right ↦ rw right (right-IsChild k i h low right)
    | inr not_right ↦ elim (Bool-cases (takes_left k i h)) [
      | inl left ↦ rw not_right (rw left (left-IsChild k i h low not_right left))
      | inr neither ↦ absurd (moved (rw not_right (rw neither refl)))
    ]
  ]

  smallest-none :
      (k i c : ℕ) (h : MinHeap V)
      → 1 ≤ i
      → smallest k i h ≡ i
      → c ≤ h.size
      → c / 2 ≡ i
      → k ≤ key h c
  unfolding smallest
  smallest-none k i c h low stays inside child = elim (child_cases i c child) [
    | inl e ↦ ground (arith, stays, inside, low, e, ap (key h) e)
    | inr e ↦ ground (arith, stays, inside, low, e, ap (key h) e)
  ]

  put-Closed :
      (h : MinHeap V) (i k : ℕ) (v : V)
      → DownInv h i k
      → smallest k i h ≡ i
      → Closed h i (k, v) (put i (k, v) h)
  put-Closed h i k v u stays = record {
    ordered = λ c p q.
        let at = key-put h i (k, v) c u.low (omega (arith, p)) in
        let at_parent = key-put h i (k, v) (c / 2) u.low (omega (arith, p)) in
        let children = smallest-none k i c h u.low stays q in
        ground (arith, at, at_parent, u.edges c, u.below, children);
    same_size = refl;
    exchanged =
        λ w. sum_below-update w h.entry (i - 1) (k, v) h.size (omega (arith, u.low, u.high));
  }

  put-DownInv :
      (h : MinHeap V) (i k s : ℕ)
      → DownInv h i k
      → IsChild k i h s
      → DownInv (put i (place h s) h) s k
  put-DownInv h i k s u child = record {
    low = omega (arith, child.child, u.low);
    high = child.inside;
    edges = λ c p q r t.
        let at = key-put h i (place h s) c u.low (omega (arith, p)) in
        let at_parent = key-put h i (place h s) (c / 2) u.low (omega (arith, p)) in
        ground (arith, at, at_parent, u.edges c, u.bridged s, child.least c, child.child);
    below = λ p.
        let at_parent = key-put h i (place h s) (s / 2) u.low (omega (arith, p)) in
        ground (arith, at_parent, child.less, child.child);
    bridged = λ c p q r.
        let at = key-put h i (place h s) c u.low (omega (arith, r, p)) in
        let at_parent = key-put h i (place h s) (s / 2) u.low (omega (arith, p)) in
        ground (arith, at, at_parent, u.edges c, child.child);
  }

  -- The loop ends within its rounds, and closes the hole. The last entry stays where it is when its
  -- key is not below `k` and the hole is elsewhere.
  pub remove_loop-Closed :
      (rounds k : ℕ) (v : V) (i : ℕ) (h : MinHeap V)
      → h.size + 1 < rounds + i
      → DownInv h i k
      → (h' : MinHeap V) × (remove_loop rounds k v i h ≡ ok h')
        × Closed h i (k, v) h'
        × (i ≢ h.size → k ≤ key h h.size → place h' h.size ≡ place h h.size)
  unfolding remove_loop
  remove_loop-Closed zero k v i h enough u = absurd (omega (arith, u.high))
  remove_loop-Closed (suc rounds) k v i h enough u = elim (Bool-cases (smallest k i h == i)) [
    | inl stop ↦
        let stays : smallest k i h ≡ i = ground (arith, stop) in
        (
          put i (k, v) h,
          rw (stop, remove_loop) (ap (λ j. ok (put j (k, v) h)) stays),
          put-Closed h i k v u stays,
          λ n _.
              update_other h.entry (i - 1) (k, v) (h.size - 1)
                (λ e. n (omega (arith, e, u.low, u.high))),
        )
    | inr go ↦
        let s = smallest k i h in
        let moved : s ≢ i = λ e. ground (arith, go, e) in
        let child = smallest-IsChild k i h u.low moved in
        let deeper : i < s = omega (arith, child.child, u.low) in
        let rest =
          remove_loop-Closed rounds k v s (put i (place h s) h) (omega arith)
            (put-DownInv h i k s u child) in
        (
          rest.0,
          rw (go, remove_loop) rest.1,
          lifted h rest.0 i s (k, v) u.low u.high (omega arith) moved rest.2,
          λ n last.
              let same =
                update_other h.entry (i - 1) (place h s) (h.size - 1)
                  (λ e. n (omega (arith, e, u.low, u.high))) in
              rest.3 (λ e. omega (arith, e, last, child.less, ap (key h) e))
                (omega (arith, last, ap (λ (x : ℕ × V). x.0) same))
              ∙ same,
        )
  ]
