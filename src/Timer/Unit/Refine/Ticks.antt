-- ===== src/Timer/Unit/Refine/Ticks.antt =====
-- A timer of src/hwtimer/hwtimer.cpp counts as its counter does.
use simulavr.Prelude.{
  ℕ, zero, suc, ◌+◌, ◌-◌, ◌%◌, not, Bool, true, false, ◌==◌, if◌then◌else◌, ◌≡◌, refl, ap, ◌∙◌,
  arith,
}
use simulavr.Timer.Unit.{
  BasicTimerUnit, Event, top_reached, max_reached, bottom_reached, compare_1, compare_2, compare_3,
}
use simulavr.Timer.Unit.Waveform.{is_compare}
use simulavr.Timer.Unit.Count.{
  event_if, compare_events, compare_b, compare_c, limit_events, count_updown, count_up, count_timer,
  wrap, bottom_event, top_event, long_size, turn,
}
use simulavr.Timer.Unit.Counter.{
  Counter, counter, notice, notice_if, tick_updown, tick_up, tick, overflown,
}
use simulavr.Timer.Unit.Refine.{handle_event-counter, event_if-counter}

-- A compare event changes nothing of the counter.
unnoticed : (event : Event) (c : Counter) → is_compare event ≡ true → notice event c ≡ c
unfolding notice
unnoticed compare_1 c e = ground arith
unnoticed compare_2 c e = ground arith
unnoticed compare_3 c e = ground arith
unnoticed top_reached c e = ground arith
unnoticed max_reached c e = ground arith
unnoticed bottom_reached c e = ground arith

unseen :
    (b : Bool) (event : Event) (u : BasicTimerUnit)
    → is_compare event ≡ true
    → counter (event_if b event u) ≡ counter u
unfolding notice_if
unseen true event u e = event_if-counter true event u ∙ unnoticed event (counter u) e
unseen false event u e = event_if-counter false event u

compare_c-counter : (u : BasicTimerUnit) → counter (compare_c u) ≡ counter u
unfolding compare_c
compare_c-counter u = ground (arith, unseen (u.vlast_tcnt == u.unit_c.compare) compare_3 u refl)

compare_b-counter : (u : BasicTimerUnit) → counter (compare_b u) ≡ counter u
unfolding compare_b
compare_b-counter u =
    let seen = unseen (u.vlast_tcnt == u.unit_b.compare) compare_2 u refl in
    ground
      (arith, seen, compare_c-counter (event_if (u.vlast_tcnt == u.unit_b.compare) compare_2 u))

compare_events-counter : (u : BasicTimerUnit) → counter (compare_events u) ≡ counter u
unfolding compare_events
compare_events-counter u =
    let seen = unseen (u.vlast_tcnt == u.unit_a.compare) compare_1 u refl in
    ground
      (arith, seen, compare_b-counter (event_if (u.vlast_tcnt == u.unit_a.compare) compare_1 u))

wrap-counter : (u : BasicTimerUnit) → counter (wrap u) ≡ overflown (counter u)
unfolding counter wrap overflown
wrap-counter u = ground (arith, handle_event-counter max_reached u)

bottom_stage : Counter → Counter
unfolding notice_if
bottom_stage c = notice_if (c.vlast_tcnt == c.limit_bottom) bottom_reached c

top_stage : Counter → Counter
unfolding notice_if
top_stage c = notice_if (c.vlast_tcnt == c.limit_top) top_reached c

bottom_event-counter : (u : BasicTimerUnit) → counter (bottom_event u) ≡ bottom_stage (counter u)
unfolding counter bottom_event bottom_stage
bottom_event-counter u = event_if-counter (u.vlast_tcnt == u.limit_bottom) bottom_reached u

top_event-counter : (u : BasicTimerUnit) → counter (top_event u) ≡ top_stage (counter u)
unfolding counter top_event top_stage
top_event-counter u = event_if-counter (u.vlast_tcnt == u.limit_top) top_reached u

count_up-counter : (u : BasicTimerUnit) → counter (count_up u) ≡ tick_up (counter u)
unfolding counter count_up tick_up bottom_stage top_stage
count_up-counter u =
    let counted = record u { vlast_tcnt = u.vtcnt; vtcnt = (u.vtcnt + 1) % long_size } in
    compare_events-counter (top_event (bottom_event (wrap counted)))
    ∙ top_event-counter (bottom_event (wrap counted))
    ∙ ap top_stage (bottom_event-counter (wrap counted))
    ∙ ap (λ c. top_stage (bottom_stage c)) (wrap-counter counted)

limit_stage : Counter → Counter
unfolding notice notice_if
limit_stage c =
    if c.vlast_tcnt == c.limit_bottom
    then notice bottom_reached c
    else notice_if (c.vlast_tcnt == c.limit_top) top_reached c

limit_events-counter : (u : BasicTimerUnit) → counter (limit_events u) ≡ limit_stage (counter u)
unfolding counter limit_events limit_stage
limit_events-counter u = ground (
  arith,
  handle_event-counter bottom_reached u,
  event_if-counter (u.vlast_tcnt == u.limit_top) top_reached u,
)

turn_stage : Counter → Counter
turn_stage c =
    let next =
      if c.count_down then (c.vtcnt + (long_size - 1)) % long_size else (c.vtcnt + 1) % long_size in
    record c {
      vtcnt = next;
      count_down = if c.count_down then not (next == c.limit_bottom) else next == c.limit_top;
    }

turn-counter : (u : BasicTimerUnit) → counter (turn u) ≡ turn_stage (counter u)
unfolding counter turn_stage
turn-counter u = refl

count_updown-counter : (u : BasicTimerUnit) → counter (count_updown u) ≡ tick_updown (counter u)
unfolding counter count_updown tick_updown limit_stage turn_stage
count_updown-counter u =
    let counted = record u { vlast_tcnt = u.vtcnt } in
    turn-counter (limit_events (compare_events counted))
    ∙ ap turn_stage (limit_events-counter (compare_events counted))
    ∙ ap (λ c. turn_stage (limit_stage c)) (compare_events-counter counted)

count_timer-counter : (u : BasicTimerUnit) → counter (count_timer u) ≡ tick (counter u)
unfolding counter count_timer tick
count_timer-counter u = ground (arith, count_updown-counter u, count_up-counter u)

-- `n` counts of a timer, and of a counter.
abbrev pub counts : ℕ → BasicTimerUnit → BasicTimerUnit
counts zero u = u
counts (suc n) u = count_timer (counts n u)

abbrev pub ticks : ℕ → Counter → Counter
ticks zero c = c
ticks (suc n) c = tick (ticks n c)

-- In every waveform generation mode, with whatever compare units, outputs and interrupt lines, the
-- timer counts as the abstract counter does: after any number of counts the counter value, the
-- direction, the limits, the mode and the number of overflow interrupts are those of the abstract
-- counter after as many ticks.
pub counts-counter : (n : ℕ) (u : BasicTimerUnit) → counter (counts n u) ≡ ticks n (counter u)
counts-counter zero u = refl
counts-counter (suc n) u = count_timer-counter (counts n u) ∙ ap tick (counts-counter n u)
