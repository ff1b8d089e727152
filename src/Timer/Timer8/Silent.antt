-- ===== src/Timer/Timer8/Silent.antt =====
-- The modes of `HWTimer8_2C` with OCRA as top value (src/hwtimer/hwtimer.cpp).
use simulavr.Prelude.{
  ℕ, ◌%◌, Bool, true, false, Bool-cases, ltb, ◌==◌, bit_and, zero, suc, ◌+◌, ◌≡◌, refl, ap, ◌∙◌,
  arith, ◌⊎◌, inl, inr,
}
use simulavr.Timer.Unit.{
  BasicTimerUnit, Event, top_reached, bottom_reached, max_reached, compare_1, compare_2, compare_3,
  pcpwm_ocra, fastpwm_ocra, func_noop,
}
use simulavr.Timer.Unit.Waveform.{handle_event}
use simulavr.Timer.Unit.Count.{
  count_timer, count_up, count_updown, event_if, compare_events, compare_b, compare_c, wrap,
  bottom_event, top_event, limit_events, turn, long_size,
}
use simulavr.Timer.Unit.Modes.{wgmfunc_8, change_wgm_8}
use simulavr.Timer.Timer8.{wgm_2c}
use simulavr.Timer.Unit.Refine.Ticks.{counts}

noop :
    (v : BasicTimerUnit) → v.wgmfunc v.wgm ≡ func_noop → (event : Event) → handle_event event v ≡ v
unfolding handle_event
noop v e event = ground (arith, e)

unmoved :
    (v : BasicTimerUnit)
    → v.wgmfunc v.wgm ≡ func_noop
    → (b : Bool) (event : Event) → event_if b event v ≡ v
unfolding event_if
unmoved v e true event = noop v e event
unmoved v e false event = refl

compare_c-noop : (v : BasicTimerUnit) → v.wgmfunc v.wgm ≡ func_noop → compare_c v ≡ v
unfolding compare_c
compare_c-noop v e = ground (arith, unmoved v e (v.vlast_tcnt == v.unit_c.compare) compare_3)

compare_b-noop : (v : BasicTimerUnit) → v.wgmfunc v.wgm ≡ func_noop → compare_b v ≡ v
unfolding compare_b
compare_b-noop v e =
    ground (arith, unmoved v e (v.vlast_tcnt == v.unit_b.compare) compare_2, compare_c-noop v e)

compare_events-noop : (v : BasicTimerUnit) → v.wgmfunc v.wgm ≡ func_noop → compare_events v ≡ v
unfolding compare_events
compare_events-noop v e =
    ground (arith, unmoved v e (v.vlast_tcnt == v.unit_a.compare) compare_1, compare_b-noop v e)

-- What stays of a timer: its mode, its outputs and the interrupts so far.
record Silent (u v : BasicTimerUnit) : Type 0 where
  none : v.wgmfunc v.wgm ≡ func_noop
  quiet : v.fired ≡ u.fired
  same_a : v.unit_a ≡ u.unit_a
  same_b : v.unit_b ≡ u.unit_b
  same_c : v.unit_c ≡ u.unit_c

-- The counter of a silent timer moves.
stepped : ℕ → ℕ → Bool → BasicTimerUnit → BasicTimerUnit
stepped last next down v = record v { vlast_tcnt = last; vtcnt = next; count_down = down }

wrapped :
    (v : BasicTimerUnit)
    → v.wgmfunc v.wgm ≡ func_noop
    → (next : ℕ) × (wrap v ≡ record v { vtcnt = next })
unfolding wrap
wrapped v e = elim (Bool-cases (ltb v.limit_max v.vtcnt)) [
  | inl over ↦ (bit_and v.vtcnt v.limit_max, ground (arith, over, noop v e max_reached))
  | inr under ↦ (v.vtcnt, ground (arith, under))
]

count_up-stepped :
    (v : BasicTimerUnit)
    → v.wgmfunc v.wgm ≡ func_noop
    → (next : ℕ) × (count_up v ≡ stepped v.vtcnt next v.count_down v)
unfolding count_up bottom_event top_event stepped
count_up-stepped v e =
    let counted = record v { vlast_tcnt = v.vtcnt; vtcnt = (v.vtcnt + 1) % long_size } in
    let r = wrapped counted e in
    let w = record counted { vtcnt = r.0 } in
    let bottom = unmoved w e (w.vlast_tcnt == w.limit_bottom) bottom_reached in
    let top = unmoved w e (w.vlast_tcnt == w.limit_top) top_reached in
    (
      r.0,
      ap (λ x. compare_events (top_event (bottom_event x))) (r.1)
          ∙ ap (λ x. compare_events (top_event x)) bottom
          ∙ ap compare_events top
          ∙ compare_events-noop w e,
    )

limit_events-noop : (v : BasicTimerUnit) → v.wgmfunc v.wgm ≡ func_noop → limit_events v ≡ v
unfolding limit_events
limit_events-noop v e =
    ground (arith, noop v e bottom_reached, unmoved v e (v.vlast_tcnt == v.limit_top) top_reached)

count_updown-stepped :
    (v : BasicTimerUnit)
    → v.wgmfunc v.wgm ≡ func_noop
    → count_updown v ≡ turn (record v { vlast_tcnt = v.vtcnt })
unfolding count_updown
count_updown-stepped v e =
    let counted = record v { vlast_tcnt = v.vtcnt } in
    ap (λ x. turn (limit_events x)) (compare_events-noop counted e)
    ∙ ap turn (limit_events-noop counted e)

count_timer-Silent : {u v : BasicTimerUnit} → Silent u v → Silent u (count_timer v)
unfolding count_timer stepped
count_timer-Silent {u} {v} s = elim (Bool-cases v.updown_counting) [
  | inl both ↦
      let shown : count_timer v ≡ turn (record v { vlast_tcnt = v.vtcnt }) =
        ground (arith, both, count_updown-stepped v s.none) in
      rw shown (record {
        none = s.none;
        quiet = s.quiet;
        same_a = s.same_a;
        same_b = s.same_b;
        same_c = s.same_c;
      })
  | inr up ↦
      let r = count_up-stepped v s.none in
      let shown : count_timer v ≡ stepped v.vtcnt (r.0) v.count_down v = ground (arith, up, r.1) in
      rw shown (record {
        none = s.none;
        quiet = s.quiet;
        same_a = s.same_a;
        same_b = s.same_b;
        same_c = s.same_c;
      })
]

counts-Silent : {u v : BasicTimerUnit} (n : ℕ) → Silent u v → Silent u (counts n v)
counts-Silent zero s = s
counts-Silent (suc n) s = count_timer-Silent (counts-Silent n s)

silenced :
    (u : BasicTimerUnit) (raw : ℕ)
    → u.wgmfunc ≡ wgmfunc_8
    → (raw ≡ 5) ⊎ (raw ≡ 7)
    → Silent u (change_wgm_8 (wgm_2c raw) u)
unfolding change_wgm_8 wgm_2c
silenced u raw table (inl five) = rw five (record {
  none = ap (λ t. t pcpwm_ocra) table;
  quiet = refl;
  same_a = refl;
  same_b = refl;
  same_c = refl;
})
silenced u raw table (inr seven) = rw seven (record {
  none = ap (λ t. t fastpwm_ocra) table;
  quiet = refl;
  same_a = refl;
  same_b = refl;
  same_c = refl;
})

-- The modes that the values 5 and 7 of the WGM bits of a `HWTimer8_2C` stand for, PWM with OCRA as
-- top value, do nothing but count: with the table of `HWTimer8`, the timer fires no interrupt in any
-- number of counts and leaves all three compare units with their outputs as they are.
pub counts-silent :
    (n raw : ℕ) (u : BasicTimerUnit)
    → u.wgmfunc ≡ wgmfunc_8
    → (raw ≡ 5) ⊎ (raw ≡ 7)
    → ((counts n (change_wgm_8 (wgm_2c raw) u)).fired ≡ u.fired)
      × ((counts n (change_wgm_8 (wgm_2c raw) u)).unit_a ≡ u.unit_a)
      × ((counts n (change_wgm_8 (wgm_2c raw) u)).unit_b ≡ u.unit_b)
      × ((counts n (change_wgm_8 (wgm_2c raw) u)).unit_c ≡ u.unit_c)
counts-silent n raw u table modes =
    let s = counts-Silent n (silenced u raw table modes) in (s.quiet, s.same_a, s.same_b, s.same_c)
