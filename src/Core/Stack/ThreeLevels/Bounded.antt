-- ===== src/Core/Stack/ThreeLevels/Bounded.antt =====
-- `ThreeLevelStack` (src/hwstack.cpp) is a stack that keeps the three newest addresses.
use simulavr.Prelude.{ℕ, zero, suc, ◌+◌, ◌-◌, ◌≤◌, ◌<◌, ◌≡◌, refl, ap, sym, ◌∙◌, arith, min}
use simulavr.Prelude.{ltb, if◌then◌else◌, List, [], ◌∷◌}
use simulavr.Core.Stack.ThreeLevels.{ThreeLevelStack, push_addr, pop_addr}

-- The abstract stack: a list, the newest address first, of which the first three are kept.
abbrev pub keep : ℕ → List ℕ → List ℕ
keep zero xs = []
keep (suc n) [] = []
keep (suc n) (x ∷ xs) = x ∷ keep n xs

abbrev items : ℕ → ℕ → ℕ → ℕ → List ℕ
items zero x y z = []
items (suc zero) x y z = x ∷ []
items (suc (suc zero)) x y z = x ∷ y ∷ []
items (suc (suc (suc n))) x y z = x ∷ y ∷ z ∷ []

abbrev pub contents : ThreeLevelStack → List ℕ
contents s = items (3 - s.stack_pointer) s.first s.second s.third

items-push : (n a x y z : ℕ) → n ≤ 3 → items (min 3 (suc n)) a x y ≡ keep 3 (a ∷ items n x y z)
items-push zero a x y z h = refl
items-push (suc zero) a x y z h = refl
items-push (suc (suc zero)) a x y z h = refl
items-push (suc (suc (suc n))) a x y z h = ap (λ m. items m a x y) {y = 3} (omega (arith, h))

items-pop : (n x y z w : ℕ) → n ≤ 2 → items (suc n) x y z ≡ x ∷ items n y z w
items-pop zero x y z w h = refl
items-pop (suc zero) x y z w h = refl
items-pop (suc (suc zero)) x y z w h = refl
items-pop (suc (suc (suc n))) x y z w h = absurd (omega arith)

-- While the pointer is at most 3, a push puts an address in front and keeps the three newest, and a
-- pop, when there is an address, gives the newest and removes it; the pointer stays at most 3.
pub push_addr-contents :
    (addr : ℕ) (s : ThreeLevelStack)
    → s.stack_pointer ≤ 3
    → (contents (push_addr addr s) ≡ keep 3 (addr ∷ contents s))
      × ((push_addr addr s).stack_pointer ≤ 3)
      × (s.stack_pointer < 3
          → (contents s ≡ (pop_addr s).0 ∷ contents ((pop_addr s).1))
            × ((pop_addr s).1.stack_pointer ≤ 3))
unfolding push_addr pop_addr
push_addr-contents addr s bound =
    let p = s.stack_pointer in
    let pushed : 3 - (if ltb 0 p then p - 1 else p) ≡ min 3 (suc (3 - p)) = ground (arith, bound) in
    (
      ap (λ n. items n addr s.first s.second) pushed
          ∙ items-push (3 - p) addr s.first s.second s.third (omega arith),
      ground (arith, bound),
      λ some_left.
          let popped : 3 - (if ltb 3 (p + 1) then 3 else p + 1) ≡ 2 - p =
            ground (arith, some_left) in
          let full : 3 - p ≡ suc (2 - p) = omega (arith, some_left) in
          (
            ap (λ n. items n s.first s.second s.third) full
                ∙ items-pop (2 - p) s.first s.second s.third s.third (omega arith)
                ∙ ap (λ n. s.first ∷ items n s.second s.third s.third) (sym popped),
            ground (arith, some_left),
          ),
    )
