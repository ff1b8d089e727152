-- ===== src/Timer/Unit/Triangle.antt =====
-- The phase correct modes of src/hwtimer/hwtimer.cpp, in which the counter goes up and down.
use simulavr.Prelude.{
  ℕ, zero, suc, ◌+◌, ◌-◌, ◌*◌, ◌≤◌, ◌<◌, min, true, false, not, ltb, ◌==◌, if◌then◌else◌, ◌≡◌, refl,
  ap, ◌∙◌, arith,
}
use simulavr.Timer.Unit.{BasicTimerUnit, pcpwm_ocra, pfcpwm_ocra, is_wgm, func_pcpwm, func_pfcpwm}
use simulavr.Timer.Unit.Counter.{
  Counter, counter, notice, notice_if, tick_updown, tick, overflows_in,
}
use simulavr.Timer.Unit.Refine.Ticks.{counts, ticks, counts-counter}
use simulavr.Timer.Unit.Sawtooth.{ticks-add}

-- The two kinds of mode, in which OCRA does not give the top value.
pub data PhaseCorrect (c : Counter) : Type 0 where
  by_pcpwm : c.func ≡ func_pcpwm → is_wgm pcpwm_ocra c.wgm ≡ false → PhaseCorrect c
  by_pfcpwm : c.func ≡ func_pfcpwm → is_wgm pfcpwm_ocra c.wgm ≡ false → PhaseCorrect c

-- A counter that goes up to `top` and down to 0, at position `p` of the `2 * top` of a period, with
-- `k` overflows before this period.
pub record Wave (top p k : ℕ) (c : Counter) : Type 0 where
  pub mode : PhaseCorrect c
  pub both_ways : c.updown_counting ≡ true
  pub from_zero : c.limit_bottom ≡ 0
  pub to_top : c.limit_top ≡ top
  pub width : top ≤ 0xffff
  pub within : p < 2 * top
  pub direction : c.count_down ≡ not (ltb p top)
  pub stands : c.vtcnt ≡ (if ltb p top then p else 2 * top - p)
  pub counted : c.overflows ≡ k + min p 1

-- One count.
moved : Counter → Counter
moved c =
    let next = if c.count_down then c.vtcnt - 1 else c.vtcnt + 1 in
    record c {
      vlast_tcnt = c.vtcnt;
      vtcnt = next;
      count_down = if c.count_down then not (next == 0) else next == c.limit_top;
      overflows = c.overflows + (if c.vtcnt == 0 then 1 else 0);
    }

tick-moved : {top p k : ℕ} {c : Counter} → Wave top p k c → tick c ≡ moved c
unfolding tick tick_updown notice_if notice moved
tick-moved {top} {p} {k} {c} s = moves s.mode
  where
    moves : PhaseCorrect c → tick c ≡ moved c
    moves (by_pcpwm f fixed) = ground (
      arith, f, fixed, s.both_ways, s.from_zero, s.to_top, s.width, s.within, s.direction, s.stands,
    )
    moves (by_pfcpwm f fixed) = ground (
      arith, f, fixed, s.both_ways, s.from_zero, s.to_top, s.width, s.within, s.direction, s.stands,
    )

moved-PhaseCorrect : {c : Counter} → PhaseCorrect c → PhaseCorrect (moved c)
unfolding moved
moved-PhaseCorrect (by_pcpwm f fixed) = by_pcpwm f fixed
moved-PhaseCorrect (by_pfcpwm f fixed) = by_pfcpwm f fixed

tick-Wave :
    {top p k : ℕ} {c : Counter} → Wave top p k c → suc p < 2 * top → Wave top (suc p) k (tick c)
unfolding moved
tick-Wave {top} {p} {k} {c} s inside = rw (tick-moved s) (record {
  mode = moved-PhaseCorrect s.mode;
  both_ways = s.both_ways;
  from_zero = s.from_zero;
  to_top = s.to_top;
  width = s.width;
  within = inside;
  direction = ground (arith, s.to_top, s.within, inside, s.direction, s.stands);
  stands = ground (arith, s.to_top, s.within, inside, s.direction, s.stands);
  counted = ground (arith, s.within, inside, s.stands, s.counted);
})

round-Wave :
    {top p k : ℕ} {c : Counter} → Wave top p k c → suc p ≡ 2 * top → Wave top 0 (suc k) (tick c)
unfolding moved
round-Wave {top} {p} {k} {c} s last = rw (tick-moved s) (record {
  mode = moved-PhaseCorrect s.mode;
  both_ways = s.both_ways;
  from_zero = s.from_zero;
  to_top = s.to_top;
  width = s.width;
  within = omega (arith, s.within);
  direction = ground (arith, s.to_top, s.within, last, s.direction, s.stands);
  stands = ground (arith, s.to_top, s.within, last, s.direction, s.stands);
  counted = ground (arith, s.within, last, s.stands, s.counted);
})

ticks-Wave :
    {top k : ℕ} {c : Counter} (p : ℕ) → p < 2 * top → Wave top 0 k c → Wave top p k (ticks p c)
ticks-Wave zero inside s = s
ticks-Wave (suc p) inside s = tick-Wave (ticks-Wave p (omega arith) s) inside

-- The periods.
rounds-Wave :
    {top k : ℕ} {c : Counter} (m l k' : ℕ)
    → l ≡ m * (2 * top)
    → k' ≡ k + m
    → Wave top 0 k c
    → Wave top 0 k' (ticks l c)
rounds-Wave {top} {k} {c} zero l k' e e' s =
    let none_left : l ≡ 0 = omega (arith, e) in
    let same : k' ≡ k = omega (arith, e') in rw none_left (rw same s)
rounds-Wave {top} {k} {c} (suc m) l k' e e' s =
    let before = rounds-Wave m (m * (2 * top)) (k + m) refl refl s in
    let last = 2 * top - 1 in
    let room : 0 < 2 * top = s.within in
    let round = round-Wave (ticks-Wave last (omega (arith, room)) before) (omega (arith, room)) in
    let long : l ≡ suc last + m * (2 * top) = omega (arith, e, room) in
    let more : k' ≡ suc (k + m) = omega (arith, e') in
    rw (ticks-add (suc last) (m * (2 * top)) l c long) (rw more round)

-- A timer in a phase correct mode, or a phase and frequency correct one, in which OCRA does not give
-- the top value, that counts up from 0 with a top value above 0, goes up to the top value and down
-- to 0 in periods of `2 * top` counts: at position `p` of a period it stands at `p` on the way up,
-- and at `2 * top - p` from the top on. Each period fires one overflow interrupt, with the count that
-- leaves 0.
pub counts-triangle :
    {top k : ℕ} (m p : ℕ) (u : BasicTimerUnit)
    → Wave top 0 k (counter u)
    → p < 2 * top
    → ((counts (p + m * (2 * top)) u).vtcnt ≡ (if ltb p top then p else 2 * top - p))
      × (overflows_in (counts (p + m * (2 * top)) u).fired ≡ k + m + min p 1)
unfolding counter
counts-triangle {top} {k} m p u s inside =
    let total = p + m * (2 * top) in
    let after = ticks-Wave p inside (rounds-Wave m (m * (2 * top)) (k + m) refl refl s) in
    let shown = counts-counter total u ∙ ticks-add p (m * (2 * top)) total (counter u) refl in
    (ap (λ c. c.vtcnt) shown ∙ after.stands, ap (λ c. c.overflows) shown ∙ after.counted)
