-- ===== src/Machine/Cycles.antt =====
-- The peripherals that follow the cycles of the core, `hwCycleList` (src/avrdevice.cpp).
use simulavr.Prelude.{ℕ, zero, suc, ◌+◌, ◌<◌, ◌≡◌, refl, ap, ◌∙◌, arith}
use simulavr.Prelude.{Bool, false, ◌||◌, ltb, List, [], ◌∷◌, none, some, length}
use simulavr.Core.Result.{Result, ok, abort, ◌>>=◌}
use simulavr.Irq.{Hardware}
use simulavr.Machine.{Machine, at_index, cycle_hardware}

module _ {ℓ} {H W : Type ℓ} (hw : Hardware H (Machine H W)) where
  -- Every peripheral of a list takes its cycle, in order.
  abbrev pub each_cycle : List H → Bool → Machine H W → Result (Machine H W × Bool)
  each_cycle [] hold m = ok (m, hold)
  each_cycle (p ∷ ps) hold m = hw.cpu_cycle p m >>= λ r. each_cycle ps (hold || ltb 0 (r.1)) (r.0)

  -- No peripheral changes the list.
  abbrev pub KeepsList : Type ℓ
  KeepsList =
      (p : H) (m m' : Machine H W) (n : ℕ)
      → hw.cpu_cycle p m ≡ ok (m', n)
      → m'.hw_cycle_list ≡ m.hw_cycle_list

  pub at-end :
      (rounds i : ℕ) (hold : Bool) (m : Machine H W)
      → at_index i m.hw_cycle_list ≡ none
      → cycle_hardware hw (suc rounds) i hold m ≡ ok (m, hold)
  unfolding cycle_hardware
  at-end rounds i hold m e = rw (e, cycle_hardware) refl

  pub at-some :
      (rounds i : ℕ) (hold : Bool) (m : Machine H W) (p : H)
      → at_index i m.hw_cycle_list ≡ some p
      → cycle_hardware hw (suc rounds) i hold m
        ≡ (hw.cpu_cycle p m >>= λ r. cycle_hardware hw rounds (i + 1) (hold || ltb 0 (r.1)) (r.0))
  unfolding cycle_hardware
  at-some rounds i hold m p e = rw (e, cycle_hardware) refl

  bind_cong :
      {A B : Type ℓ} (x : Result A) (f g : A → Result B)
      → ((a : A) → x ≡ ok a → f a ≡ g a)
      → (x >>= f) ≡ (x >>= g)
  bind_cong (ok a) f g h = h a refl
  bind_cong (abort e) f g h = refl

  from-each_cycle :
      (keeps : KeepsList) (ps : List H) (rounds i : ℕ) (hold : Bool) (m : Machine H W)
      → length ps < rounds
      → ((k : ℕ) → at_index (i + k) m.hw_cycle_list ≡ at_index k ps)
      → cycle_hardware hw rounds i hold m ≡ each_cycle ps hold m
  from-each_cycle keeps ps zero i hold m enough rest = absurd (omega arith)
  from-each_cycle keeps [] (suc rounds) i hold m enough rest =
      at-end rounds i hold m
        (ap (λ j. at_index j m.hw_cycle_list) {y = i + 0} (omega arith) ∙ rest 0)
  from-each_cycle keeps (p ∷ ps) (suc rounds) i hold m enough rest =
      at-some rounds i hold m p
        (ap (λ j. at_index j m.hw_cycle_list) {y = i + 0} (omega arith) ∙ rest 0)
      ∙ bind_cong (hw.cpu_cycle p m) _ _ (λ r e.
        from-each_cycle keeps ps rounds (i + 1) (hold || ltb 0 (r.1)) (r.0) (omega (arith, enough))
          (λ k.
            ap (at_index (i + 1 + k)) (keeps p m (r.0) (r.1) e)
            ∙ ap (λ j. at_index j m.hw_cycle_list) {y = i + suc k} (omega arith)
            ∙ rest (suc k)))

  -- If no peripheral changes the list, every one of it takes its cycle once, in order, within one
  -- round for each and one more, or the first that aborts ends the step.
  pub cycle_hardware-each_cycle :
      (keeps : KeepsList) (hold : Bool) (m : Machine H W)
      → cycle_hardware hw (length m.hw_cycle_list + 1) 0 hold m ≡ each_cycle m.hw_cycle_list hold m
  cycle_hardware-each_cycle keeps hold m =
      from-each_cycle keeps m.hw_cycle_list (length m.hw_cycle_list + 1) 0 hold m (omega arith)
        (λ k. ap (λ j. at_index j m.hw_cycle_list) (omega arith))

  -- A peripheral that leaves the list in its own cycle makes the loop pass over the one behind it.
  pub cycle_hardware-skips :
      (p q : H) (m m' : Machine H W) (n : ℕ)
      → m.hw_cycle_list ≡ p ∷ q ∷ []
      → hw.cpu_cycle p m ≡ ok (m', n)
      → m'.hw_cycle_list ≡ q ∷ []
      → cycle_hardware hw 2 0 false m ≡ ok (m', ltb 0 n)
  cycle_hardware-skips p q m m' n both e one =
      at-some 1 0 false m p (ap (at_index 0) both)
      ∙ ap (λ r. r >>= λ r. cycle_hardware hw 1 (0 + 1) (ltb 0 (r.1)) (r.0)) e
      ∙ at-end 0 1 (ltb 0 n) m' (ap (at_index 1) one)
