-- ===== src/Timer/Unit/Sawtooth.antt =====
-- The modes of src/hwtimer/hwtimer.cpp in which the counter goes up and starts again.
use simulavr.Prelude.{
  ℕ, zero, suc, ◌+◌, ◌*◌, ◌≤◌, ◌<◌, bit_and, false, ◌≡◌, refl, ap, ◌∙◌, ◌⊎◌, inl, inr, arith,
}
use simulavr.Timer.Unit.{BasicTimerUnit, fastpwm_ocra, is_wgm, func_normal, func_ctc, func_fastpwm}
use simulavr.Timer.Unit.Counter.{
  Counter, counter, notice, notice_if, tick_up, tick, overflown, overflows_in,
}
use simulavr.Timer.Unit.Refine.Ticks.{counts, ticks, counts-counter}

-- The mode of a counter that starts again after `top`, with `w` overflow interrupts each time.
pub data Restart (top w : ℕ) (c : Counter) : Type 0 where
  by_normal : c.func ≡ func_normal → c.limit_max ≡ top → w ≡ 1 → Restart top w c
  by_ctc : c.func ≡ func_ctc → c.limit_top ≡ top → top < c.limit_max → w ≡ 0 → Restart top w c
  by_fastpwm :
      c.func ≡ func_fastpwm
      → c.limit_top ≡ top
      → is_wgm fastpwm_ocra c.wgm ≡ false
      → w ≡ 1
      → Restart top w c

-- A counter of 8 or 16 bits that goes up to `top`, stands at `v`, and had `k` overflows.
pub record Saw (top w v k : ℕ) (c : Counter) : Type 0 where
  pub mode : Restart top w c
  pub upwards : c.updown_counting ≡ false
  pub from_zero : c.limit_bottom ≡ 0
  pub width : (c.limit_max ≡ 0xff) ⊎ (c.limit_max ≡ 0xffff)
  pub reaches : top ≤ c.limit_max
  pub stands : c.vtcnt ≡ v
  pub counted : c.overflows ≡ k

masked_out : (m : ℕ) → (m ≡ 0xff) ⊎ (m ≡ 0xffff) → bit_and (m + 1) m ≡ 0
masked_out m (inl e) = rw e refl
masked_out m (inr e) = rw e refl

-- One count below the top value, and one at it.
climbed : Counter → Counter
climbed c = record c { vlast_tcnt = c.vtcnt; vtcnt = c.vtcnt + 1 }

restarted : ℕ → Counter → Counter
restarted w c = record c { vlast_tcnt = c.vtcnt; vtcnt = 0; overflows = c.overflows + w }

tick-climbed : {top w v k : ℕ} {c : Counter} → Saw top w v k c → v < top → tick c ≡ climbed c
unfolding tick tick_up overflown notice_if notice climbed
tick-climbed {top} {w} {v} {k} {c} s below = climbs s.mode
  where
    climbs : Restart top w c → tick c ≡ climbed c
    climbs (by_normal f m one) = ground (arith, s.upwards, s.width, s.stands, f, m)
    climbs (by_ctc f t small never) = ground (arith, s.upwards, s.width, s.stands, f, t, small)
    climbs (by_fastpwm f t fixed one) =
        ground (arith, s.upwards, s.width, s.stands, s.reaches, f, t, fixed)

tick-restarted : {top w v k : ℕ} {c : Counter} → Saw top w v k c → v ≡ top → tick c ≡ restarted w c
unfolding tick tick_up overflown notice_if notice restarted
tick-restarted {top} {w} {v} {k} {c} s there = restarts s.mode
  where
    zero_after : bit_and (c.limit_max + 1) c.limit_max ≡ 0
    zero_after = masked_out c.limit_max s.width

    restarts : Restart top w c → tick c ≡ restarted w c
    restarts (by_normal f m one) =
        ground (arith, s.upwards, s.width, s.stands, s.from_zero, f, m, zero_after)
    restarts (by_ctc f t small never) =
        ground (arith, s.upwards, s.width, s.stands, s.from_zero, f, t, small)
    restarts (by_fastpwm f t fixed one) =
        ground
          (arith, s.upwards, s.width, s.stands, s.from_zero, s.reaches, f, t, fixed, zero_after)

tick-Saw : {top w v k : ℕ} {c : Counter} → Saw top w v k c → v < top → Saw top w (suc v) k (tick c)
unfolding climbed
tick-Saw s below = rw (tick-climbed s below) (record {
  mode = climbs s.mode;
  upwards = s.upwards;
  from_zero = s.from_zero;
  width = s.width;
  reaches = s.reaches;
  stands = omega (arith, s.stands);
  counted = s.counted;
})
  where
    climbs : {top w : ℕ} {c : Counter} → Restart top w c → Restart top w (climbed c)
    climbs (by_normal f m one) = by_normal f m one
    climbs (by_ctc f t small never) = by_ctc f t small never
    climbs (by_fastpwm f t fixed one) = by_fastpwm f t fixed one

restarted-Saw :
    {top w v k : ℕ} {c : Counter} → Saw top w v k c → v ≡ top → Saw top w 0 (k + w) (tick c)
unfolding restarted
restarted-Saw s there = rw (tick-restarted s there) (record {
  mode = restarts s.mode;
  upwards = s.upwards;
  from_zero = s.from_zero;
  width = s.width;
  reaches = s.reaches;
  stands = refl;
  counted = omega (arith, s.counted);
})
  where
    restarts : {top w : ℕ} {c : Counter} → Restart top w c → Restart top w (restarted w c)
    restarts (by_normal f m one) = by_normal f m one
    restarts (by_ctc f t small never) = by_ctc f t small never
    restarts (by_fastpwm f t fixed one) = by_fastpwm f t fixed one

ticks-Saw :
    {top w k : ℕ} {c : Counter} (n : ℕ) → n ≤ top → Saw top w 0 k c → Saw top w n k (ticks n c)
ticks-Saw zero within s = s
ticks-Saw (suc n) within s = tick-Saw (ticks-Saw n (omega arith) s) (omega arith)

pub ticks-add : (n m l : ℕ) (c : Counter) → l ≡ n + m → ticks l c ≡ ticks n (ticks m c)
ticks-add zero m l c e = ap (λ i. ticks i c) {y = m} (omega (arith, e))
ticks-add (suc n) m l c e =
    ap (λ i. ticks i c) {y = suc (n + m)} (omega (arith, e))
    ∙ ap tick (ticks-add n m (n + m) c refl)

-- The periods.
rounds-Saw :
    {top w k : ℕ} {c : Counter} (m l k' : ℕ)
    → l ≡ m * (top + 1)
    → k' ≡ k + m * w
    → Saw top w 0 k c
    → Saw top w 0 k' (ticks l c)
rounds-Saw {top} {w} {k} {c} zero l k' e e' s =
    let none_left : l ≡ 0 = omega (arith, e) in
    let same : k' ≡ k = omega (arith, e') in rw none_left (rw same s)
rounds-Saw {top} {w} {k} {c} (suc m) l k' e e' s =
    let before = rounds-Saw m (m * (top + 1)) (k + m * w) refl refl s in
    let round = restarted-Saw (ticks-Saw top (omega arith) before) refl in
    let long : l ≡ suc top + m * (top + 1) = omega (arith, e) in
    let more : k' ≡ k + m * w + w = omega (arith, e') in
    rw (ticks-add (suc top) (m * (top + 1)) l c long) (rw more round)

-- A timer of 8 or 16 bits in normal mode, in CTC mode with a top value below the maximum, or in a
-- fast PWM mode in which OCRA does not give the top value, counts up from 0 to the top value and
-- starts again: after `m` periods of `top + 1` counts and `n` counts more, with `n` at most `top`, it
-- stands at `n`, and each period has fired one overflow interrupt, or none in CTC mode.
pub counts-sawtooth :
    {top w k : ℕ} (m n : ℕ) (u : BasicTimerUnit)
    → Saw top w 0 k (counter u)
    → n ≤ top
    → ((counts (n + m * (top + 1)) u).vtcnt ≡ n)
      × (overflows_in (counts (n + m * (top + 1)) u).fired ≡ k + m * w)
unfolding counter
counts-sawtooth {top} {w} {k} m n u s within =
    let total = n + m * (top + 1) in
    let after = ticks-Saw n within (rounds-Saw m (m * (top + 1)) (k + m * w) refl refl s) in
    let shown = counts-counter total u ∙ ticks-add n (m * (top + 1)) total (counter u) refl in
    (ap (λ c. c.vtcnt) shown ∙ after.stands, ap (λ c. c.overflows) shown ∙ after.counted)
