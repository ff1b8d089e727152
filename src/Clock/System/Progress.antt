-- ===== src/Clock/System/Progress.antt =====
-- `SystemClock::Run` comes to its end: every step of the clock takes the time table nearer to the
-- end of the run.
use simulavr.Prelude.{ℕ, zero, suc, ◌+◌, ◌-◌, ◌≤◌, ◌<◌, ◌≡◌, ◌⊎◌, refl, arith}
use simulavr.Prelude.{Bool, true, false, not, ◌&&◌, inl, inr, Bool-cases, ap, ◌∙◌, ltb}
use simulavr.Prelude.Int.{ℤ, pos}
use simulavr.Core.Result.{ok, ◌>>=◌}
use simulavr.Clock.MinHeap.{place}
use simulavr.Clock.MinHeap.Weight.{total, total-size}
use simulavr.Clock.System.{SimulationMember, Stepped, SystemClock, ClockStep, step, run_loop, run}
use simulavr.Clock.System.Schedule.{IsScheduled, measure_due, due_again, step-IsScheduled}

module _ {ℓ} {M W : Type ℓ} (members : SimulationMember M W)
    (runs : (m : M) (f : Bool) (now : ℕ) (w : W)
      → (s : Stepped W) × (members.step m f now w ≡ ok s))
    (stays : (m : M) (f : Bool) (now : ℕ) (w : W)
      → (n : ℕ) × ((runs m f now w).0.next ≡ pos n)) where
  -- The time that is left for an entry until `limit`.
  abbrev pub remaining : ℕ → ℕ × M → ℕ
  remaining limit e = limit - e.0

  abbrev goes_on : ℕ → SystemClock M → Bool
  goes_on limit c = not c.break_message && ltb c.current_time limit

  measure_due-stays :
      (v : ℕ × M → ℕ) (m : M) (next : ℤ) (n now follow : ℕ)
      → next ≡ pos n
      → now ≤ follow
      → (t : ℕ) × (now < t) × (measure_due v m (due_again next now follow) ≡ v (t, m))
  measure_due-stays v m next zero now follow e p =
      (1 + follow, omega arith, ap (λ x. measure_due v m (due_again x now follow)) e)
  measure_due-stays v m next (suc n) now follow e p =
      (suc n + now, omega arith, ap (λ x. measure_due v m (due_again x now follow)) e)

  run_loop-ended :
      (rounds limit steps : ℕ) (c : SystemClock M) (w : W)
      → 1 ≤ rounds
      → goes_on limit c ≡ false
      → run_loop members rounds limit steps c w ≡ ok (steps, c, w)
  unfolding run_loop
  run_loop-ended zero limit steps c w p e = absurd (omega arith)
  run_loop-ended (suc rounds) limit steps c w p e = rw (e, run_loop) refl

  -- What a step of the clock does to the time left.
  record Nearer (limit : ℕ) (c c' : SystemClock M) : Type 0 where
    scheduled : IsScheduled c'
    same_size : c'.sync_members.size ≡ c.sync_members.size
    nearer :
        c'.current_time < limit
        → total (remaining limit) c'.sync_members < total (remaining limit) c.sync_members

  step-Nearer :
      (limit : ℕ) (c : SystemClock M) (w : W)
      → IsScheduled c
      → 1 ≤ c.sync_members.size
      → (r : ClockStep M W) × (step members false c w ≡ ok r) × Nearer limit c r.clock
  step-Nearer limit c w scheduled some_member =
      let r = step-IsScheduled members runs false c w scheduled some_member in
      let first = place c.sync_members 1 in
      let next = (runs first.1 false first.0 w).0.next in
      let asked = stays first.1 false first.0 w in
      let moves = λ (v : ℕ × M → ℕ).
        measure_due-stays v first.1 next asked.0 first.0 r.5 asked.1 (omega (arith, r.6, r.3)) in
      (
        r.0,
        r.1,
        record {
          scheduled = r.2;
          same_size = omega (
            arith,
            r.7 (λ _. 1),
            (moves (λ _. 1)).2,
            total-size c.sync_members,
            total-size r.0.clock.sync_members,
          );
          nearer = λ p.
              let v = remaining limit in omega (arith, r.7 v, (moves v).1, (moves v).2, r.3, p);
        },
      )

  record Ended (limit : ℕ) (c : SystemClock M) : Type 0 where
    in_order : IsScheduled c
    over : goes_on limit c ≡ false

  run_loop-Ended :
      (rounds limit steps : ℕ) (c : SystemClock M) (w : W)
      → IsScheduled c
      → 1 ≤ c.sync_members.size
      → total (remaining limit) c.sync_members + 1 < rounds
      → (r : ℕ × SystemClock M × W) × (run_loop members rounds limit steps c w ≡ ok r)
        × Ended limit (r.1)
  unfolding run_loop
  run_loop-Ended zero limit steps c w scheduled some_member enough = absurd (omega arith)
  run_loop-Ended (suc rounds) limit steps c w scheduled some_member enough =
      elim (Bool-cases (goes_on limit c)) [
        | inr over ↦
            ((steps, c, w), rw (over, run_loop) refl, record { in_order = scheduled; over = over })
        | inl on ↦
            let s = step-Nearer limit c w scheduled some_member in
            let same = s.2.same_size in
            let rest : (r : ℕ × SystemClock M × W) × (run_loop members rounds limit (steps + 1)
                    s.0.clock s.0.members
                  ≡ ok r)
                × Ended limit (r.1) =
              elim (Bool-cases (ltb s.0.clock.current_time limit)) [
                | inl before ↦
                    run_loop-Ended rounds limit (steps + 1) s.0.clock s.0.members s.2.scheduled
                      (omega (arith, same, some_member))
                      (omega (arith, s.2.nearer (ground (arith, before)), enough))
                | inr reached ↦
                    let over : goes_on limit s.0.clock ≡ false = ground (arith, reached) in
                    (
                      (steps + 1, s.0.clock, s.0.members),
                      run_loop-ended rounds limit (steps + 1) s.0.clock s.0.members
                          (omega (arith, enough)) over,
                      record { in_order = s.2.scheduled; over = over },
                    )
              ] in
            (
              rest.0,
              rw (on, run_loop)
                  (ap (λ m. m >>= λ t. run_loop members rounds limit (steps + 1) t.clock t.members)
                      s.1
                    ∙ rest.1),
              rest.2,
            )
      ]

  -- Running members that neither abort nor leave the table, with a table that is in order and not
  -- empty, ends: it takes at most as many rounds as there are ns between the entries and the end of
  -- the run, and two more. Then the end of the run is reached, or a stop was asked for.
  pub run-Ended :
      (rounds limit : ℕ) (c : SystemClock M) (w : W)
      → IsScheduled c
      → 1 ≤ c.sync_members.size
      → total (remaining limit) c.sync_members + 2 ≤ rounds
      → (r : ℕ × SystemClock M × W) × (run members rounds limit c w ≡ ok r)
        × IsScheduled (r.1)
        × ((r.1.break_message ≡ true) ⊎ (limit ≤ r.1.current_time))
  unfolding run
  run-Ended rounds limit c w scheduled some_member enough =
      let started = record c { break_message = false } in
      let end =
        run_loop-Ended rounds limit 0 started w
          (record { ordered = scheduled.ordered; due = scheduled.due }) some_member
          (omega (arith, enough)) in
      (
        end.0,
        end.1,
        end.2.in_order,
        elim (Bool-cases end.0.1.break_message) [
          | inl stopped ↦ inl stopped
          | inr running ↦ inr (ground (arith, end.2.over, running))
        ],
      )
