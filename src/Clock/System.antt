-- ===== src/Clock/System.antt =====
-- The central clock: the class `SystemClock` (src/systemclock.h, src/systemclock.cpp) with the global
-- `breakMessage`. Times are ns since the start of the simulation, and never negative.
pub mod Schedule
pub mod Progress
pub mod Reschedule
use simulavr.Prelude.{
  ℕ, zero, suc, ◌+◌, ◌≡◌, Bool, true, false, not, ◌&&◌, ◌||◌, ltb, ◌==◌, if◌then◌else◌,
}
use simulavr.Prelude.{List, [], ◌∷◌, ◌++◌}
use simulavr.Prelude.Int.{ℤ, pos, negsuc}
use simulavr.Core.Result.{Result, ok, abort, out_of_rounds, ◌>>=◌}
use simulavr.Clock.MinHeap.{MinHeap, insert, remove_minimum, remove_at_position_and_insert}

-- What a call of `Step` of a member leaves: the state of the members, the return code, the flag
-- `trueHwStep`, the time to the next step (-1 when the member does not set it), and whether
-- `SystemClock::Stop` was called or a signal came in the meantime.
pub record Stepped {ℓ} (W : Type ℓ) : Type ℓ where
  pub world : W
  pub code : ℤ
  pub finished : Bool
  pub next : ℤ
  pub stop : Bool

-- The interface `SimulationMember` (src/simulationmember.h): `Step` with the flag, the current time
-- and the state of all members.
pub record SimulationMember {ℓ} (M W : Type ℓ) : Type ℓ where
  pub step : M → Bool → ℕ → W → Result (Stepped W)
  pub same : M → M → Bool

pub record SystemClock {ℓ} (M : Type ℓ) : Type ℓ where
  pub current_time : ℕ
  pub sync_members : MinHeap M
  pub async_members : List M
  pub break_message : Bool

-- What `SystemClock::Step` leaves.
pub record ClockStep {ℓ} (M W : Type ℓ) : Type ℓ where
  pub clock : SystemClock M
  pub members : W
  pub result : ℤ
  pub core_finished : Bool

module _ {ℓ} {M : Type ℓ} where
  -- `SystemClock::Add`.
  unfoldable pub add : M → SystemClock M → Result (SystemClock M)
  add m c = do h ← insert c.current_time m c.sync_members; ok (record c { sync_members = h })

  -- `SystemClock::AddAsyncMember`.
  unfoldable pub add_async_member : M → SystemClock M → SystemClock M
  add_async_member m c = record c { async_members = c.async_members ++ (m ∷ []) }

  -- `SetCurrentTime` and `IncrTime`.
  unfoldable pub set_current_time : ℕ → SystemClock M → SystemClock M
  set_current_time time c = record c { current_time = time }

  unfoldable pub incr_time : ℕ → SystemClock M → SystemClock M
  incr_time offset c = record c { current_time = c.current_time + offset }

  -- `SystemClock::Stop`.
  unfoldable pub stop : SystemClock M → SystemClock M
  stop c = record c { break_message = true }

  -- `SystemClock::ResetClock`.
  unfoldable pub reset_clock : SystemClock M → SystemClock M
  reset_clock c = record {
    current_time = 0;
    sync_members = record c.sync_members { size = 0 };
    async_members = [];
    break_message = false;
  }

  -- The key for the next step: behind the following member's for 0, and none below 0.
  unfoldable pub reinsert : ℤ → ℕ → M → MinHeap M → Result (MinHeap M)
  reinsert (negsuc n) now m h = ok h
  reinsert (pos zero) now m h = insert (1 + (if h.size == 0 then now else (h.entry 0).0)) m h
  reinsert (pos (suc n)) now m h = insert (suc n + now) m h

module _ {ℓ} {M W : Type ℓ} (members : SimulationMember M W) where
  -- The asynchronous members, each stepped without a flag of its caller.
  unfoldable pub step_async : List M → ℕ → Bool → W → Result (W × Bool)
  step_async [] now stopped w = ok (w, stopped)
  step_async (m ∷ ms) now stopped w = do
    s ← members.step m false now w
    step_async ms now (stopped || s.stop) s.world

  -- The member whose time it is, out of a table that is not empty.
  unfoldable pub step_first : Bool → SystemClock M → W → Result (ClockStep M W)
  step_first finished c w = do
    let now = (c.sync_members.entry 0).0
    let core = (c.sync_members.entry 0).1
    rest ← remove_minimum c.sync_members
    s ← members.step core finished now w
    h ← reinsert s.next now core rest
    a ← step_async c.async_members now (c.break_message || s.stop) s.world
    ok record {
      clock = record c { current_time = now; sync_members = h; break_message = a.1 };
      members = a.0;
      result = if a.1 then pos 1 else s.code;
      core_finished = s.finished;
    }

  -- `SystemClock::Step`.
  unfoldable pub step : Bool → SystemClock M → W → Result (ClockStep M W)
  step finished c w =
      if c.sync_members.size == 0
      then ok record {
        clock = c;
        members = w;
        result = if c.break_message then pos 1 else pos 0;
        core_finished = finished;
      }
      else step_first finished c w

  -- `SystemClock::Reschedule`: the first entry of the member is replaced.
  unfoldable pub position : M → ℕ → ℕ → MinHeap M → ℕ
  position m zero i h = i
  position m (suc n) i h = if members.same (h.entry i).1 m then i else position m n (i + 1) h

  unfoldable pub reschedule : M → ℕ → SystemClock M → Result (SystemClock M)
  unfolding position
  reschedule m new_time c = do
    let h = c.sync_members
    let i = position m h.size 0 h
    let time = new_time + c.current_time + 1
    h' ← if ltb i h.size then remove_at_position_and_insert time m i h else insert time m h
    ok (record c { sync_members = h' })

  -- The loop of `SystemClock::Run`, `steps` of them done, until `limit`.
  unfoldable pub run_loop : ℕ → ℕ → ℕ → SystemClock M → W → Result (ℕ × SystemClock M × W)
  run_loop zero limit steps c w = abort out_of_rounds
  run_loop (suc rounds) limit steps c w = elim (not c.break_message && ltb c.current_time limit) [
    | false ↦ ok (steps, c, w)
    | true ↦ do s ← step false c w; run_loop rounds limit (steps + 1) s.clock s.members
  ]

  -- `SystemClock::Run`.
  unfoldable pub run : ℕ → ℕ → SystemClock M → W → Result (ℕ × SystemClock M × W)
  unfolding run_loop
  run rounds max_run_time c w =
      run_loop rounds max_run_time 0 (record c { break_message = false }) w

  -- `SystemClock::Endless`.
  unfoldable pub endless_loop : ℕ → ℕ → SystemClock M → W → Result (ℕ × SystemClock M × W)
  endless_loop zero steps c w = abort out_of_rounds
  endless_loop (suc rounds) steps c w = elim c.break_message [
    | true ↦ ok (steps, c, w)
    | false ↦ do s ← step false c w; endless_loop rounds (steps + 1) s.clock s.members
  ]

  unfoldable pub endless : ℕ → SystemClock M → W → Result (ℕ × SystemClock M × W)
  unfolding endless_loop
  endless rounds c w = endless_loop rounds 0 (record c { break_message = false }) w

  -- `SystemClock::RunTimeRange`: it also ends on a result other than 0, whose step is not counted.
  abbrev is_zero : ℤ → Bool
  is_zero (pos n) = n == 0
  is_zero (negsuc n) = false

  unfoldable pub range_loop : ℕ → ℕ → ℕ → SystemClock M → W → Result (ℕ × SystemClock M × W)
  range_loop zero limit steps c w = abort out_of_rounds
  range_loop (suc rounds) limit steps c w = elim (not c.break_message && ltb c.current_time limit) [
    | false ↦ ok (steps, c, w)
    | true ↦ do
      s ← step false c w
      elim (is_zero s.result) [
        | true ↦ range_loop rounds limit (steps + 1) s.clock s.members
        | false ↦ ok (steps, s.clock, s.members)
      ]
  ]

  unfoldable pub run_time_range : ℕ → ℕ → SystemClock M → W → Result (ℕ × SystemClock M × W)
  unfolding range_loop
  run_time_range rounds time_range c w =
      range_loop rounds (time_range + c.current_time) 0 (record c { break_message = false }) w
