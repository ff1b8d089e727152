-- ===== src/Irq/Priority.antt =====
-- `GetNewPc` raises the pending interrupt of the lowest vector (src/irqsystem.cpp).
use simulavr.Prelude.{ℕ, zero, suc, ◌+◌, ◌*◌, ◌/◌, ◌≤◌, ◌<◌, ◌≡◌, refl, ap, ◌∙◌, arith}
use simulavr.Prelude.{true, false, Option, none, some, inl, inr, Bool-cases, ◌==◌, ◌⊎◌}
use simulavr.Core.Result.{Result, ok, abort, dangling_iterator}
use simulavr.Irq.{Hardware, HwIrqSystem, serve, lowest_pending, get_new_pc, no_pc}

module _ {ℓ} {H S : Type ℓ} (hw : Hardware H S) (irq_of : S → HwIrqSystem H) where
  skipped :
      (n i v : ℕ) (s : S)
      → i ≤ v
      → v < n + i
      → ((u : ℕ) → i ≤ u → u < v → (irq_of s).irq_partner_list u ≡ none)
      → (m : ℕ) × (lowest_pending hw irq_of n i s ≡ lowest_pending hw irq_of (suc m) v s)
  unfolding lowest_pending
  skipped zero i v s low high free = absurd (omega arith)
  skipped (suc n) i v s low high free = elim (Bool-cases (i == v)) [
    | inl here ↦
        let same : i ≡ v = ground (arith, here) in
        (n, ap (λ j. lowest_pending hw irq_of (suc n) j s) same)
    | inr later ↦
        let rest =
          skipped n (i + 1) v s (ground (arith, later, low)) (omega arith)
            (λ u p q. free u (omega (arith, p)) q) in
        (rest.0, rw (free i (omega arith) (ground (arith, later, low)), lowest_pending) rest.1)
  ]

  -- `second` is pending at `v`, and nothing at a lower vector.
  pub record IsLowest (v : ℕ) (second : H) (s : S) : Type ℓ where
    pub inside : v < (irq_of s).vector_table_size
    pub pending : (irq_of s).irq_partner_list v ≡ some second
    pub lower : (u : ℕ) → u < v → (irq_of s).irq_partner_list u ≡ none

  reached :
      (v : ℕ) (second : H) (s : S) (r : Result (Option ℕ × S))
      → IsLowest v second s
      → ((m : ℕ) → lowest_pending hw irq_of (suc m) v s ≡ r)
      → lowest_pending hw irq_of (irq_of s).vector_table_size 0 s ≡ r
  reached v second s r lowest there =
      let at =
        skipped (irq_of s).vector_table_size 0 v s (omega arith) (omega (arith, lowest.inside))
          (λ u p q. lowest.lower u q) in
      at.1 ∙ there at.0

  raises :
      (m v : ℕ) (second : H) (s s' : S)
      → (irq_of s).irq_partner_list v ≡ some second
      → hw.clear_irq_flag second v s ≡ ok s'
      → (hw.is_level_interrupt second v s ≡ false) ⊎ (hw.level_interrupt_pending second v s' ≡ true)
      → lowest_pending hw irq_of (suc m) v s ≡ ok (some v, s')
  unfolding lowest_pending serve
  raises m v second s s' pending cleared (inl edge) =
      rw (pending, lowest_pending) (rw cleared (rw edge refl))
  raises m v second s s' pending cleared (inr level) =
      elim (Bool-cases (hw.is_level_interrupt second v s)) [
        | inl is_level ↦ rw (pending, lowest_pending) (rw cleared (rw is_level (rw level refl)))
        | inr edge ↦ rw (pending, lowest_pending) (rw cleared (rw edge refl))
      ]

  -- The pending interrupt of the lowest vector is raised, if it is not a level interrupt or its
  -- level is still there after its flag is cleared: the flag is cleared and nothing else is done, the
  -- program counter goes to the vector's place in the table.
  pub get_new_pc-IsLowest :
      (actual_vector v : ℕ) (second : H) (s s' : S)
      → IsLowest v second s
      → hw.clear_irq_flag second v s ≡ ok s'
      → (hw.is_level_interrupt second v s ≡ false) ⊎ (hw.level_interrupt_pending second v s' ≡ true)
      → get_new_pc hw irq_of actual_vector s ≡ ok (v * ((irq_of s).bytes_per_vector / 2), v, s')
  unfolding get_new_pc
  get_new_pc-IsLowest actual_vector v second s s' lowest cleared raised =
      rw
        (reached v second s (ok (some v, s')) lowest
          (λ m. raises m v second s s' lowest.pending cleared raised))
        refl

  -- The same interrupt ends the loop at an erased element, if it is a level interrupt whose level is
  -- gone, and its flag was cleared in the table: the iterator is then used further.
  pub get_new_pc-dangles :
      (actual_vector v : ℕ) (second : H) (s s' : S)
      → IsLowest v second s
      → hw.clear_irq_flag second v s ≡ ok s'
      → hw.is_level_interrupt second v s ≡ true
      → hw.level_interrupt_pending second v s' ≡ false
      → (irq_of s').irq_partner_list v ≡ none
      → get_new_pc hw irq_of actual_vector s ≡ abort dangling_iterator
  unfolding get_new_pc lowest_pending serve
  get_new_pc-dangles actual_vector v second s s' lowest cleared level gone erased =
      rw
        (reached v second s (abort dangling_iterator) lowest (λ m.
          rw (lowest.pending, lowest_pending) (rw cleared (rw level (rw gone (rw erased refl))))))
        refl

  -- Nothing is raised, and nothing is changed, when no interrupt is pending.
  nothing_pending :
      (n i : ℕ) (s : S)
      → ((u : ℕ) → (irq_of s).irq_partner_list u ≡ none)
      → lowest_pending hw irq_of n i s ≡ ok (none, s)
  unfolding lowest_pending
  nothing_pending zero i s free = refl
  nothing_pending (suc n) i s free = rw (free i, lowest_pending) (nothing_pending n (i + 1) s free)

  pub get_new_pc-idle :
      (actual_vector : ℕ) (s : S)
      → ((u : ℕ) → (irq_of s).irq_partner_list u ≡ none)
      → get_new_pc hw irq_of actual_vector s ≡ ok (no_pc, actual_vector, s)
  unfolding get_new_pc
  get_new_pc-idle actual_vector s free =
      rw (nothing_pending (irq_of s).vector_table_size 0 s free) refl
