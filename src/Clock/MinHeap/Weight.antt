-- ===== src/Clock/MinHeap/Weight.antt =====
-- The entries of a heap, whatever their order: two heaps hold the same entries, as often, when every
-- measure of entries has the same sum over both.
use simulavr.Prelude.{
  ℕ, zero, suc, ◌+◌, ◌-◌, ◌≤◌, ◌<◌, ◌≡◌, ◌≢◌, update, ◌==◌, arith, update_same, update_other,
}
use simulavr.Prelude.{refl, inl, inr, Bool-cases, ap, sym, ◌∙◌}
use simulavr.Clock.MinHeap.{MinHeap, place}

module _ {ℓ} {E : Type ℓ} (w : E → ℕ) where
  abbrev pub sum_below : (ℕ → E) → ℕ → ℕ
  sum_below f zero = 0
  sum_below f (suc n) = sum_below f n + w (f n)

  sum_below-last : (f : ℕ → E) (n : ℕ) → 1 ≤ n → sum_below f n ≡ sum_below f (n - 1) + w (f (n - 1))
  sum_below-last f zero h = absurd (omega arith)
  sum_below-last f (suc n) h = let less_one : suc n - 1 ≡ n = omega arith in rw less_one refl

  sum_below-beyond :
      (f : ℕ → E) (i : ℕ) (e : E) (n : ℕ) → n ≤ i → sum_below (update f i e) n ≡ sum_below f n
  sum_below-beyond f i e zero h = omega arith
  sum_below-beyond f i e (suc n) h = omega (
    arith,
    sum_below-beyond f i e n (omega arith),
    ap w (update_other f i e n (λ eq. omega (arith, eq))),
  )

  pub sum_below-update :
      (f : ℕ → E) (i : ℕ) (e : E) (n : ℕ)
      → i < n
      → sum_below (update f i e) n + w (f i) ≡ sum_below f n + w e
  sum_below-update f i e zero h = absurd (omega arith)
  sum_below-update f i e (suc n) h = elim (Bool-cases (i == n)) [
    | inl last ↦
        let same : i ≡ n = ground arith in
        let here : w (update f i e n) ≡ w e = rw (← same) (ap w (update_same f i e)) in
        omega (arith, sum_below-beyond f i e n (omega (arith, same)), here, ap (λ j. w (f j)) same)
    | inr earlier ↦
        let other : i ≢ n = λ eq. ground (arith, earlier, eq) in
        omega (
          arith,
          sum_below-update f i e n (ground (arith, earlier, h)),
          ap w (update_other f i e n (λ eq. other (sym eq))),
        )
  ]

  pub sum_below-zero : (f : ℕ → E) (n : ℕ) → ((i : ℕ) → i < n → w (f i) ≡ 0) → sum_below f n ≡ 0
  sum_below-zero f zero h = omega arith
  sum_below-zero f (suc n) h =
      omega (arith, sum_below-zero f n (λ i p. h i (omega arith)), h n (omega arith))

  pub sum_below-positive : (f : ℕ → E) (n i : ℕ) → i < n → w (f i) ≤ sum_below f n
  sum_below-positive f zero i h = absurd (omega arith)
  sum_below-positive f (suc n) i h = elim (Bool-cases (i == n)) [
    | inl last ↦ let same : i ≡ n = ground arith in omega (arith, ap (λ j. w (f j)) same)
    | inr earlier ↦ omega (arith, sum_below-positive f n i (ground (arith, earlier, h)))
  ]

module _ {ℓ} {V : Type ℓ} where
  -- The sum of a measure over the entries.
  abbrev pub total : (ℕ × V → ℕ) → MinHeap V → ℕ
  total w h = sum_below w h.entry h.size

  pub total-last :
      (w : ℕ × V → ℕ) (h : MinHeap V)
      → 1 ≤ h.size
      → total w h ≡ total w (record h { size = h.size - 1 }) + w (place h h.size)
  total-last w h some_entry = sum_below-last w h.entry h.size some_entry

  pub total-grown :
      (w : ℕ × V → ℕ) (h : MinHeap V)
      → total w (record h { size = h.size + 1 }) ≡ total w h + w (h.entry h.size)
  total-grown w h =
      let less_one : h.size + 1 - 1 ≡ h.size = omega arith in
      sum_below-last w h.entry (h.size + 1) (omega arith) ∙ rw less_one refl

  count : (f : ℕ → ℕ × V) (n : ℕ) → sum_below (λ _. 1) f n ≡ n
  count f zero = refl
  count f (suc n) = omega (arith, count f n)

  pub total-size : (h : MinHeap V) → total (λ _. 1) h ≡ h.size
  total-size h = count h.entry h.size
