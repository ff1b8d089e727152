-- ===== src/Timer/Unit/Noise.antt =====
-- The noise canceler of the input capture (src/hwtimer/hwtimer.cpp).
use simulavr.Prelude.{
  ℕ, zero, suc, ◌-◌, ◌≤◌, ◌<◌, Bool, true, false, not, ltb, xor, if◌then◌else◌, ◌≡◌, refl, ap, ◌∙◌,
  arith,
}
use simulavr.Timer.Unit.{BasicTimerUnit, wgm_use_icr}
use simulavr.Timer.Unit.Capture.{input_capture, cancel_noise, detect_edge}

-- `n` cycles with a level of the capture source.
abbrev pub samples : ℕ → Bool → BasicTimerUnit → BasicTimerUnit
samples zero level u = u
samples (suc n) level u = input_capture level (samples n level u)

-- A unit with the noise canceler on, which has seen `n` samples of a new level.
record Settling (n : ℕ) (level : Bool) (u v : BasicTimerUnit) : Type 0 where
  source : v.has_source ≡ true
  mode : wgm_use_icr v.wgm ≡ false
  canceler : v.icap_noise_canceler ≡ true
  seen : v.icap_nc_state ≡ (if ltb 0 n then level else not level)
  length : 0 < n → v.icap_nc_counter ≡ n - 1
  state : v.capture_input_state ≡ not level
  register : v.icap_register ≡ u.icap_register
  counter : v.vtcnt ≡ u.vtcnt
  edge : v.icap_rising_edge ≡ u.icap_rising_edge
  quiet : v.fired ≡ u.fired

-- The sample changes the canceler only.
noticed : ℕ → Bool → BasicTimerUnit → BasicTimerUnit
noticed n level v = record v { icap_nc_state = level; icap_nc_counter = n }

ignored :
    {u v : BasicTimerUnit} (n : ℕ) (level : Bool)
    → n ≤ 4
    → Settling n level u v
    → input_capture level v ≡ noticed n level v
unfolding input_capture cancel_noise detect_edge noticed
ignored n true small s = ground (arith, s.source, s.mode, s.canceler, s.seen, s.length, s.state)
ignored n false small s = ground (arith, s.source, s.mode, s.canceler, s.seen, s.length, s.state)

input_capture-Settling :
    {u v : BasicTimerUnit} (n : ℕ) (level : Bool)
    → n ≤ 4
    → Settling n level u v
    → Settling (suc n) level u (input_capture level v)
unfolding noticed
input_capture-Settling n level small s = rw (ignored n level small s) (record {
  source = s.source;
  mode = s.mode;
  canceler = s.canceler;
  seen = ground arith;
  length = λ started. omega arith;
  state = s.state;
  register = s.register;
  counter = s.counter;
  edge = s.edge;
  quiet = s.quiet;
})

samples-Settling :
    {u : BasicTimerUnit} (n : ℕ) (level : Bool)
    → n ≤ 5
    → Settling 0 level u u
    → Settling n level u (samples n level u)
samples-Settling zero level small s = s
samples-Settling (suc n) level small s =
    input_capture-Settling n level (omega arith) (samples-Settling n level (omega arith) s)

-- The sample that goes on to the edge detector.
accepted :
    {u v : BasicTimerUnit} (level : Bool)
    → Settling 5 level u v
    → input_capture level v ≡ detect_edge level v
unfolding input_capture cancel_noise detect_edge
accepted true s = ground (arith, s.source, s.mode, s.canceler, s.seen, s.length, s.state)
accepted false s = ground (arith, s.source, s.mode, s.canceler, s.seen, s.length, s.state)

-- The state of a unit whose noise canceler is on and has settled on the level `not level`.
pub record Settled (level : Bool) (u : BasicTimerUnit) : Type 0 where
  pub source : u.has_source ≡ true
  pub mode : wgm_use_icr u.wgm ≡ false
  pub canceler : u.icap_noise_canceler ≡ true
  pub seen : u.icap_nc_state ≡ not level
  pub state : u.capture_input_state ≡ not level

start : {u : BasicTimerUnit} (level : Bool) → Settled level u → Settling 0 level u u
start level s = record {
  source = s.source;
  mode = s.mode;
  canceler = s.canceler;
  seen = s.seen;
  length = λ never. absurd (omega arith);
  state = s.state;
  register = refl;
  counter = refl;
  edge = refl;
  quiet = refl;
}

caught :
    {u v : BasicTimerUnit} (level : Bool)
    → Settling 5 level u v
    → (detect_edge level v).icap_register
      ≡ (if xor level u.icap_rising_edge then u.icap_register else u.vtcnt)
unfolding detect_edge
caught true s = ground (arith, s.state, s.register, s.counter, s.edge)
caught false s = ground (arith, s.state, s.register, s.counter, s.edge)

taken_over : (level : Bool) (v : BasicTimerUnit) → (detect_edge level v).capture_input_state ≡ level
unfolding detect_edge
taken_over level v = refl

-- With the noise canceler on and settled, the source present, and a mode that does not use ICR as top
-- value, up to five samples of the other level capture nothing and fire nothing. The sixth in a row is
-- taken over, and captures the counter if it is the edge that is chosen.
pub samples-canceled :
    (n : ℕ) (level : Bool) (u : BasicTimerUnit)
    → Settled level u
    → n ≤ 5
    → ((samples n level u).icap_register ≡ u.icap_register)
      × ((samples n level u).capture_input_state ≡ not level)
      × ((samples n level u).fired ≡ u.fired)
      × ((samples 6 level u).capture_input_state ≡ level)
      × ((samples 6 level u).icap_register
          ≡ (if xor level u.icap_rising_edge then u.icap_register else u.vtcnt))
samples-canceled n level u s few =
    let before = samples-Settling n level few (start level s) in
    let fifth = samples-Settling 5 level (omega arith) (start level s) in
    (
      before.register,
      before.state,
      before.quiet,
      ap (λ v. v.capture_input_state) (accepted level fifth) ∙ taken_over level (samples 5 level u),
      ap (λ v. v.icap_register) (accepted level fifth) ∙ caught level fifth,
    )
