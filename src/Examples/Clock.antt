-- ===== src/Examples/Clock.antt =====
-- The clock (src/systemclock.cpp) with three members: they ask for 0, 7 and 14 ns to the next step.
use simulavr.Prelude.{ℕ, ◌+◌, ◌*◌, ◌≤◌, ◌≡◌, ◌⊎◌, refl, arith}
use simulavr.Prelude.{Bool, true, false, ◌==◌, if◌then◌else◌, [], ◌∷◌}
use simulavr.Prelude.Int.{pos}
use simulavr.Core.Result.{ok}
use simulavr.Clock.MinHeap.{MinHeap, key, remove_minimum}
use simulavr.Clock.MinHeap.Up.{IsOrdered}
use simulavr.Clock.MinHeap.Weight.{total}
use simulavr.Clock.MinHeap.Laws.{remove_minimum-IsOrdered}
use simulavr.Clock.System.{SimulationMember, Stepped, SystemClock, ClockStep, step, run, reschedule}
use simulavr.Clock.System.Schedule.{IsScheduled, measure_due, due_again, step-IsScheduled}
use simulavr.Clock.System.Progress.{run-Ended}
use simulavr.Clock.System.Reschedule.{IsFound, reschedule-replaces}

abbrev times : ℕ → ℕ × ℕ
times i = (if i == 0 then 10 else if i == 1 then 20 else 15, i)

abbrev table : MinHeap ℕ
table = record { size = 3; entry = times }

table-IsOrdered : IsOrdered table
table-IsOrdered c p q = ground arith

remove_minimum-IsOrdered_example :
    (h' : MinHeap ℕ) × (remove_minimum table ≡ ok h')
    × IsOrdered h'
    × (h'.size + 1 ≡ 3)
    × ((w : ℕ × ℕ → ℕ) → total w h' + w (10, 0) ≡ total w table)
    × ((c : ℕ) → 1 ≤ c → c ≤ 3 → 10 ≤ key table c)
remove_minimum-IsOrdered_example = remove_minimum-IsOrdered table table-IsOrdered (omega arith)

-- The members count the steps.
abbrev answer : ℕ → ℕ → Stepped ℕ
answer m w = record {
  world = w + 1;
  code = pos 0;
  finished = true;
  next = pos (7 * m);
  stop = false;
}

abbrev counting : SimulationMember ℕ ℕ
counting = record { step = λ m f now w. ok (answer m w); same = λ m n. m == n }

abbrev counting_runs :
    (m : ℕ) (f : Bool) (now w : ℕ) → (s : Stepped ℕ) × (counting.step m f now w ≡ ok s)
counting_runs m f now w = (answer m w, refl)

abbrev counting_stays :
    (m : ℕ) (f : Bool) (now w : ℕ) → (n : ℕ) × ((counting_runs m f now w).0.next ≡ pos n)
counting_stays m f now w = (7 * m, refl)

abbrev clock : SystemClock ℕ
clock = record {
  current_time = 4;
  sync_members = table;
  async_members = 1 ∷ [];
  break_message = false;
}

clock-IsScheduled : IsScheduled clock
clock-IsScheduled = record { ordered = table-IsOrdered; due = λ i p q. ground arith }

step-IsScheduled_example :
    (r : ClockStep ℕ ℕ) × (step counting false clock 0 ≡ ok r)
    × IsScheduled r.clock
    × (r.clock.current_time ≡ 10)
    × (4 ≤ r.clock.current_time)
    × (follow : ℕ) × (r.clock.current_time ≤ follow)
    × ((v : ℕ × ℕ → ℕ)
        → total v r.clock.sync_members + v (10, 0)
          ≡ total v table + measure_due v 0 (due_again (pos 0) 10 follow))
step-IsScheduled_example =
    step-IsScheduled counting counting_runs false clock 0 clock-IsScheduled (omega arith)

run-Ended_example :
    (r : ℕ × SystemClock ℕ × ℕ) × (run counting 200 50 clock 0 ≡ ok r)
    × IsScheduled (r.1)
    × ((r.1.break_message ≡ true) ⊎ (50 ≤ r.1.current_time))
run-Ended_example =
    run-Ended counting counting_runs counting_stays 200 50 clock 0 clock-IsScheduled (omega arith)
      (omega arith)

last-IsFound : IsFound counting 2 2 table
last-IsFound = record { inside = omega arith; found = refl; first = λ j p. ground arith }

reschedule-replaces_example :
    (c' : SystemClock ℕ) × (reschedule counting 2 3 clock ≡ ok c')
    × IsOrdered c'.sync_members
    × (c'.sync_members.size ≡ 3)
    × ((v : ℕ × ℕ → ℕ) → total v c'.sync_members + v (20, 1) ≡ total v table + v (8, 2))
reschedule-replaces_example =
    reschedule-replaces counting 2 3 2 clock table-IsOrdered last-IsFound (omega arith)
      (omega arith)
