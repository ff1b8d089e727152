-- ===== src/Timer/Unit/Runaway.antt =====
-- Up/down counting from the top value on (src/hwtimer/hwtimer.cpp).
use simulavr.Prelude.{ℕ, zero, suc, ◌+◌, ◌≤◌, ◌<◌, false, true, ◌≡◌, refl, ap, ◌∙◌, arith}
use simulavr.Timer.Unit.{BasicTimerUnit}
use simulavr.Timer.Unit.Count.{long_size}
use simulavr.Timer.Unit.Counter.{Counter, counter, notice, notice_if, tick_updown, tick}
use simulavr.Timer.Unit.Refine.Ticks.{counts, ticks, counts-counter}
use simulavr.Timer.Unit.Triangle.{PhaseCorrect, by_pcpwm, by_pfcpwm}

-- A counter that counts up from `v`, which is not below its top value.
pub record Above (v : ℕ) (c : Counter) : Type 0 where
  pub mode : PhaseCorrect c
  pub both_ways : c.updown_counting ≡ true
  pub upwards : c.count_down ≡ false
  pub from_zero : c.limit_bottom ≡ 0
  pub above_zero : 0 < v
  pub above_top : c.limit_top ≤ v
  pub stands : c.vtcnt ≡ v

raised : Counter → Counter
raised c = record c { vlast_tcnt = c.vtcnt; vtcnt = c.vtcnt + 1; count_down = false }

tick-raised : {v : ℕ} {c : Counter} → Above v c → v + 1 < long_size → tick c ≡ raised c
unfolding tick tick_updown notice_if notice raised
tick-raised {v} {c} s room = raises s.mode
  where
    raises : PhaseCorrect c → tick c ≡ raised c
    raises (by_pcpwm f fixed) = ground (
      arith, f, fixed, room, s.both_ways, s.upwards, s.from_zero, s.above_zero, s.above_top,
      s.stands,
    )
    raises (by_pfcpwm f fixed) = ground (
      arith, f, fixed, room, s.both_ways, s.upwards, s.from_zero, s.above_zero, s.above_top,
      s.stands,
    )

tick-Above : {v : ℕ} {c : Counter} → Above v c → v + 1 < long_size → Above (suc v) (tick c)
unfolding raised
tick-Above s room = rw (tick-raised s room) (record {
  mode = raises s.mode;
  both_ways = s.both_ways;
  upwards = refl;
  from_zero = s.from_zero;
  above_zero = omega arith;
  above_top = omega (arith, s.above_top);
  stands = omega (arith, s.stands);
})
  where
    raises : {c : Counter} → PhaseCorrect c → PhaseCorrect (raised c)
    raises (by_pcpwm f fixed) = by_pcpwm f fixed
    raises (by_pfcpwm f fixed) = by_pfcpwm f fixed

ticks-Above :
    {v : ℕ} {c : Counter} (n w : ℕ) → w ≡ v + n → w < long_size → Above v c → Above w (ticks n c)
ticks-Above {v} {c} zero w e room s = let same : w ≡ v = omega (arith, e) in rw same s
ticks-Above {v} {c} (suc n) w e room s =
    let next : w ≡ suc (v + n) = omega (arith, e) in
    rw next
      (tick-Above (ticks-Above n (v + n) refl (omega (arith, e, room)) s) (omega (arith, e, room)))

-- A timer in a phase correct mode, or a phase and frequency correct one, in which OCRA does not give
-- the top value, that counts up from a value `v` above 0 that is not below the top value, does not
-- turn and does not wrap at 8 or 16 bits: after `n` counts it stands at `v + n`, as long as this is
-- less than 2 ^ 64.
pub counts-runaway :
    {v : ℕ} (n : ℕ) (u : BasicTimerUnit)
    → Above v (counter u)
    → v + n < long_size
    → (counts n u).vtcnt ≡ v + n
unfolding counter
counts-runaway {v} n u s room =
    ap (λ c. c.vtcnt) (counts-counter n u) ∙ (ticks-Above n (v + n) (omega arith) room s).stands
