-- ===== src/Clock/System/Schedule.antt =====
-- The time table of `SystemClock` stays in order, and time does not run backwards.
use simulavr.Prelude.{ℕ, zero, suc, ◌+◌, ◌-◌, ◌≤◌, ◌≡◌, refl, arith}
use simulavr.Prelude.{Bool, false, ap, ◌∙◌, ltb, ◌==◌, ◌||◌, if◌then◌else◌}
use simulavr.Prelude.{Option, none, some, List, [], ◌∷◌}
use simulavr.Prelude.Int.{ℤ, pos, negsuc}
use simulavr.Core.Result.{ok, ◌>>=◌}
use simulavr.Clock.MinHeap.{MinHeap, key, place, remove_minimum}
use simulavr.Clock.MinHeap.Up.{IsOrdered}
use simulavr.Clock.MinHeap.Weight.{total, sum_below-zero, sum_below-positive}
use simulavr.Clock.MinHeap.Laws.{insert-IsOrdered, remove_minimum-IsOrdered}
use simulavr.Clock.System.{SimulationMember, Stepped, SystemClock, ClockStep}
use simulavr.Clock.System.{add, reinsert, step_async, step_first, step}

-- When a member is due again, which asks for `next` at the time `now`, while `following` is the
-- least time of the others.
abbrev pub due_again : ℤ → ℕ → ℕ → Option ℕ
due_again (negsuc n) now following = none
due_again (pos zero) now following = some (1 + following)
due_again (pos (suc n)) now following = some (suc n + now)

module _ {ℓ} {M : Type ℓ} where
  -- The time table is a heap whose times do not lie in the past.
  pub record IsScheduled (c : SystemClock M) : Type 0 where
    pub ordered : IsOrdered c.sync_members
    pub due : (i : ℕ) → 1 ≤ i → i ≤ c.sync_members.size → c.current_time ≤ key c.sync_members i

  abbrev before : ℕ → ℕ × M → ℕ
  before t e = if ltb e.0 t then 1 else 0

  none_before :
      (h : MinHeap M) (t : ℕ)
      → ((i : ℕ) → 1 ≤ i → i ≤ h.size → t ≤ key h i)
      → total (before t) h ≡ 0
  none_before h t due = sum_below-zero (before t) h.entry h.size (λ i p.
      let later = due (i + 1) (omega arith) (omega arith) in
      let same : i + 1 - 1 ≡ i = omega arith in ground (arith, later, ap (λ j. (h.entry j).0) same))

  due_after :
      (h : MinHeap M) (t : ℕ) → total (before t) h ≡ 0 → (i : ℕ) → 1 ≤ i → i ≤ h.size → t ≤ key h i
  due_after h t nothing i p q =
      let at = sum_below-positive (before t) h.entry h.size (i - 1) (omega arith) in
      ground (arith, at, nothing)

  abbrev pub following : ℕ → MinHeap M → ℕ
  following now h = if h.size == 0 then now else key h 1

  abbrev pub measure_due : (ℕ × M → ℕ) → M → Option ℕ → ℕ
  measure_due w m none = 0
  measure_due w m (some t) = w (t, m)

  -- Reinserting puts the member at its next time, if it asks for one.
  pub reinsert-IsOrdered :
      (next : ℤ) (now : ℕ) (m : M) (h : MinHeap M)
      → IsOrdered h
      → (h' : MinHeap M) × (reinsert next now m h ≡ ok h')
        × IsOrdered h'
        × ((w : ℕ × M → ℕ)
            → total w h' ≡ total w h + measure_due w m (due_again next now (following now h)))
  unfolding reinsert
  reinsert-IsOrdered (negsuc n) now m h ordered = (h, refl, ordered, λ w. omega arith)
  reinsert-IsOrdered (pos zero) now m h ordered =
      let run = insert-IsOrdered (1 + following now h) m h ordered in (run.0, run.1, run.2, run.4)
  reinsert-IsOrdered (pos (suc n)) now m h ordered =
      let run = insert-IsOrdered (suc n + now) m h ordered in (run.0, run.1, run.2, run.4)

  measure_due-before :
      (next : ℤ) (now follow t : ℕ) (m : M)
      → t ≤ now
      → now ≤ follow
      → measure_due (before t) m (due_again next now follow) ≡ 0
  measure_due-before (negsuc n) now follow t m p q = refl
  measure_due-before (pos zero) now follow t m p q = ground arith
  measure_due-before (pos (suc n)) now follow t m p q = ground arith

  following-due :
      (h : MinHeap M) (t : ℕ) → ((i : ℕ) → 1 ≤ i → i ≤ h.size → t ≤ key h i) → t ≤ following t h
  following-due h t due = let first = due 1 in ground (arith, first)

  -- Adding a member keeps the time table in order: it is due at once.
  pub add-IsScheduled :
      (m : M) (c : SystemClock M)
      → IsScheduled c
      → (c' : SystemClock M) × (add m c ≡ ok c')
        × IsScheduled c'
        × (c'.current_time ≡ c.current_time)
        × ((w : ℕ × M → ℕ)
            → total w c'.sync_members ≡ total w c.sync_members + w (c.current_time, m))
  unfolding add
  add-IsScheduled m c scheduled =
      let run = insert-IsOrdered c.current_time m c.sync_members scheduled.ordered in
      let now = c.current_time in
      let nothing : before now (now, m) ≡ 0 = ground arith in
      (
        record c { sync_members = run.0 },
        ap (λ r. r >>= λ h. ok (record c { sync_members = h })) run.1,
        record {
          ordered = run.2;
          due = due_after run.0 now (
              omega
                (arith, run.4 (before now), none_before c.sync_members now scheduled.due, nothing));
        },
        refl,
        run.4,
      )

module _ {ℓ} {M W : Type ℓ} (members : SimulationMember M W)
    (runs : (m : M) (f : Bool) (now : ℕ) (w : W)
      → (s : Stepped W) × (members.step m f now w ≡ ok s)) where
  step_async-ok :
      (ms : List M) (now : ℕ) (stopped : Bool) (w : W)
      → (a : W × Bool) × (step_async members ms now stopped w ≡ ok a)
  unfolding step_async
  step_async-ok [] now stopped w = ((w, stopped), refl)
  step_async-ok (m ∷ ms) now stopped w =
      let s = runs m false now w in
      let rest = step_async-ok ms now (stopped || s.0.stop) s.0.world in
      (
        rest.0,
        ap (λ r. r >>= λ s. step_async members ms now (stopped || s.stop) s.world) s.1 ∙ rest.1,
      )

  -- What a step leaves, from what its calls return.
  abbrev left : SystemClock M → Stepped W → MinHeap M → W × Bool → ClockStep M W
  left c s h a = record {
    clock = record c { current_time = key c.sync_members 1; sync_members = h; break_message = a.1 };
    members = a.0;
    result = if a.1 then pos 1 else s.code;
    core_finished = s.finished;
  }

  step-left :
      (finished : Bool) (c : SystemClock M) (w : W) (rest h : MinHeap M) (s : Stepped W)
      (a : W × Bool)
      → 1 ≤ c.sync_members.size
      → remove_minimum c.sync_members ≡ ok rest
      → members.step (place c.sync_members 1).1 finished (key c.sync_members 1) w ≡ ok s
      → reinsert s.next (key c.sync_members 1) (place c.sync_members 1).1 rest ≡ ok h
      → step_async members c.async_members
          (key c.sync_members 1)
          (c.break_message || s.stop)
          s.world
        ≡ ok a
      → step members finished c w ≡ ok (left c s h a)
  unfolding step step_first
  step-left finished c w rest h s a some_member removed stepped inserted async =
      let filled : (c.sync_members.size == 0) ≡ false = ground arith in
      rw (filled, removed, stepped, inserted, async) refl

  -- A step of the clock, of members that do not abort and with a table that is in order and not
  -- empty, succeeds: time goes to that of the first entry, which is not before the current time,
  -- the table stays in order, and the first entry alone leaves it, for one of the same member at the
  -- time it asked for, if it did; to ask for 0 ns is to ask for the ns after a time `follow`, which
  -- is not before the new current time.
  pub step-IsScheduled :
      (finished : Bool) (c : SystemClock M) (w : W)
      → IsScheduled c
      → 1 ≤ c.sync_members.size
      → (r : ClockStep M W) × (step members finished c w ≡ ok r)
        × IsScheduled r.clock
        × (r.clock.current_time ≡ key c.sync_members 1)
        × (c.current_time ≤ r.clock.current_time)
        × (follow : ℕ) × (r.clock.current_time ≤ follow)
        × ((v : ℕ × M → ℕ)
            → let first = place c.sync_members 1 in
              let s = (runs first.1 finished first.0 w).0 in
              total v r.clock.sync_members + v first
              ≡ total v c.sync_members + measure_due v first.1 (due_again s.next first.0 follow))
  step-IsScheduled finished c w scheduled some_member =
      let h = c.sync_members in
      let now = key h 1 in
      let core = (place h 1).1 in
      let rest = remove_minimum-IsOrdered h scheduled.ordered some_member in
      let s = runs core finished now w in
      let follow = following now rest.0 in
      let next = reinsert-IsOrdered s.0.next now core rest.0 rest.2 in
      let a = step_async-ok c.async_members now (c.break_message || s.0.stop) s.0.world in
      let later =
        due_after rest.0 now (omega (arith, rest.4 (before now), none_before h now rest.5)) in
      let behind = following-due rest.0 now later in
      let nothing : total (before now) next.0 ≡ 0 = omega (
        arith,
        next.3 (before now),
        none_before rest.0 now later,
        measure_due-before s.0.next now follow now core (omega arith) behind,
      ) in
      (
        left c s.0 next.0 a.0,
        step-left finished c w rest.0 next.0 s.0 a.0 some_member rest.1 s.1 next.1 a.1,
        record { ordered = next.2; due = due_after next.0 now nothing },
        refl,
        scheduled.due 1 (omega arith) some_member,
        follow,
        behind,
        λ v. omega (arith, next.3 v, rest.4 v),
      )
