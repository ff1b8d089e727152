-- ===== src/Timer/Unit/Count.antt =====
-- Counting: `BasicTimerUnit::CountTimer` (src/hwtimer/hwtimer.cpp). An `unsigned long` has 64 bits.
use simulavr.Prelude.{ℕ, ◌+◌, ◌-◌, ◌%◌, bit_and, Bool, not, ltb, ◌==◌, if◌then◌else◌}
use simulavr.Timer.Unit.{
  BasicTimerUnit, Event, top_reached, max_reached, bottom_reached, compare_1, compare_2, compare_3,
}
use simulavr.Timer.Unit.Waveform.{handle_event}

-- 2 ^ 64.
abbrev pub long_size : ℕ
long_size = 0x1_0000_0000_0000_0000

-- `HandleEvent` under an `if`.
unfoldable pub event_if : Bool → Event → BasicTimerUnit → BasicTimerUnit
unfolding handle_event
event_if b event u = if b then handle_event event u else u

-- The compare events of the cycle: unit B is looked at if unit A is enabled, unit C if B is, too.
unfoldable pub compare_c : BasicTimerUnit → BasicTimerUnit
unfolding event_if
compare_c u =
    if u.unit_c.compare_enable then event_if (u.vlast_tcnt == u.unit_c.compare) compare_3 u else u

unfoldable pub compare_b : BasicTimerUnit → BasicTimerUnit
unfolding event_if compare_c
compare_b u =
    if u.unit_b.compare_enable
    then compare_c (event_if (u.vlast_tcnt == u.unit_b.compare) compare_2 u)
    else u

unfoldable pub compare_events : BasicTimerUnit → BasicTimerUnit
unfolding event_if compare_b
compare_events u =
    if u.unit_a.compare_enable
    then compare_b (event_if (u.vlast_tcnt == u.unit_a.compare) compare_1 u)
    else u

-- The events at BOTTOM and TOP in up/down counting, of which there is one at most.
unfoldable pub limit_events : BasicTimerUnit → BasicTimerUnit
unfolding handle_event event_if
limit_events u =
    if u.vlast_tcnt == u.limit_bottom
    then handle_event bottom_reached u
    else event_if (u.vlast_tcnt == u.limit_top) top_reached u

-- The step of the counter in up/down counting, with the change of its direction.
abbrev pub turn : BasicTimerUnit → BasicTimerUnit
turn u =
    let next =
      if u.count_down then (u.vtcnt + (long_size - 1)) % long_size else (u.vtcnt + 1) % long_size in
    record u {
      vtcnt = next;
      count_down = if u.count_down then not (next == u.limit_bottom) else next == u.limit_top;
    }

unfoldable pub count_updown : BasicTimerUnit → BasicTimerUnit
unfolding compare_events limit_events
count_updown u = turn (limit_events (compare_events (record u { vlast_tcnt = u.vtcnt })))

-- The overflow of simple up counting.
unfoldable pub wrap : BasicTimerUnit → BasicTimerUnit
unfolding handle_event
wrap u =
    if ltb u.limit_max u.vtcnt
    then (let v = handle_event max_reached u in record v { vtcnt = bit_and v.vtcnt v.limit_max })
    else u

-- `if(vlast_tcnt == ...)` for BOTTOM and for TOP.
unfoldable pub bottom_event : BasicTimerUnit → BasicTimerUnit
unfolding event_if
bottom_event u = event_if (u.vlast_tcnt == u.limit_bottom) bottom_reached u

unfoldable pub top_event : BasicTimerUnit → BasicTimerUnit
unfolding event_if
top_event u = event_if (u.vlast_tcnt == u.limit_top) top_reached u

unfoldable pub count_up : BasicTimerUnit → BasicTimerUnit
unfolding wrap bottom_event top_event compare_events
count_up u =
    let counted = record u { vlast_tcnt = u.vtcnt; vtcnt = (u.vtcnt + 1) % long_size } in
    compare_events (top_event (bottom_event (wrap counted)))

-- `CountTimer`.
unfoldable pub count_timer : BasicTimerUnit → BasicTimerUnit
unfolding count_updown count_up
count_timer u = if u.updown_counting then count_updown u else count_up u
