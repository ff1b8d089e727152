-- ===== src/Timer/Unit/Outputs.antt =====
-- The output of a compare unit in PWM modes (src/hwtimer/hwtimer.cpp).
use simulavr.Prelude.{ℕ, zero, suc, Bool, true, false, ◌≡◌, refl, arith}
use simulavr.Timer.Unit.{OutputCompare, com_toggle, set_compare_output, set_pwm_compare_output}

-- `n` calls of `SetPWMCompareOutput` in a mode in which COM_TOGGLE is allowed.
abbrev pub toggled : ℕ → Bool → OutputCompare → OutputCompare
toggled zero top_or_down o = o
toggled (suc n) top_or_down o = set_pwm_compare_output true top_or_down (toggled n top_or_down o)

record Stuck (level : Bool) (o : OutputCompare) : Type 0 where
  mode : o.com_mode ≡ com_toggle
  pin : o.has_output ≡ true
  state : o.compare_output_state ≡ false
  shown : o.alternate ≡ level

set_pwm-Stuck :
    {o : OutputCompare} (d : Bool) {level : Bool}
    → Stuck level o
    → Stuck true (set_pwm_compare_output true d o)
unfolding set_pwm_compare_output set_compare_output
set_pwm-Stuck d s = record {
  mode = ground (arith, s.mode, s.pin, s.state);
  pin = ground (arith, s.mode, s.pin, s.state);
  state = ground (arith, s.mode, s.pin, s.state);
  shown = ground (arith, s.mode, s.pin, s.state);
}

toggled-Stuck :
    (n : ℕ) (d : Bool) (o : OutputCompare) → Stuck o.alternate o → Stuck true (toggled (suc n) d o)
toggled-Stuck zero d o s = set_pwm-Stuck d s
toggled-Stuck (suc n) d o s = set_pwm-Stuck d (toggled-Stuck n d o s)

-- In a PWM mode with OCRA as top value, unit A with COM_TOGGLE, a pin, and a state that is false does
-- not toggle: after one or more compare matches the pin is high and the state false.
pub toggled-stuck :
    (n : ℕ) (d : Bool) (o : OutputCompare)
    → o.com_mode ≡ com_toggle
    → o.has_output ≡ true
    → o.compare_output_state ≡ false
    → ((toggled (suc n) d o).alternate ≡ true)
      × ((toggled (suc n) d o).compare_output_state ≡ false)
toggled-stuck n d o m p s =
    let end = toggled-Stuck n d o (record { mode = m; pin = p; state = s; shown = refl }) in
    (end.shown, end.state)
