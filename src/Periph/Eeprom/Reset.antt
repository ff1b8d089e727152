-- ===== src/Periph/Eeprom/Reset.antt =====
-- A reset while the EEPROM is in the state ENABLED (src/hweeprom.cpp).
use simulavr.Prelude.{ℕ, ◌<◌, ◌≡◌, refl, ap, ◌∙◌, arith, bit_and, List, [], ◌∷◌}
use simulavr.Core.Result.{ok, ◌>>=◌}
use simulavr.Periph.Eeprom.{
  HwEeprom, OpState, set_eecr, reset, cpu_cycle, finish_write, hold, is_writing,
}
use simulavr.Periph.Eeprom.Write.{cycles, count_enable-none, started-IsWriting}
use simulavr.Periph.Eeprom.Enable.{finish_write-none}

-- What a reset in the state ENABLED leaves, with the settings of `f`.
record Open (f e : HwEeprom) : Type 0 where
  none_left : e.op_enable_cycles ≡ 0
  state : e.op_state ≡ OpState.enabled
  same_size : e.size ≡ f.size
  same_eear : e.eear ≡ f.eear
  same_mask : e.eecr_mask ≡ f.eecr_mask

cpu_cycle-Open :
    (now : ℕ) (f e : HwEeprom)
    → Open f e
    → (r : HwEeprom × ℕ) × (cpu_cycle now e ≡ ok r) × Open f (r.0)
unfolding cpu_cycle hold
cpu_cycle-Open now f e o = (
  hold e,
  ap (λ x. finish_write now x >>= λ r. ok (hold r)) (count_enable-none e o.none_left)
      ∙ ap (λ x. x >>= λ r. ok (hold r)) (finish_write-none now e (ap is_writing o.state)),
  record {
    none_left = o.none_left;
    state = o.state;
    same_size = o.same_size;
    same_eear = o.same_eear;
    same_mask = o.same_mask;
  },
)

cycles-Open :
    (ts : List ℕ) (f e : HwEeprom) → Open f e → (e' : HwEeprom) × (cycles ts e ≡ ok e') × Open f e'
cycles-Open [] f e o = (e, refl, o)
cycles-Open (t ∷ ts) f e o =
    let one = cpu_cycle-Open t f e o in
    let rest = cycles-Open ts f (one.0.0) one.2 in
    (rest.0, ap (λ x. x >>= λ r. cycles ts (r.0)) one.1 ∙ rest.1, rest.2)

-- After a reset in the state ENABLED, with an address below the size and a register EECR that takes
-- EEWE, the window stays open: after any number of cycles, EEWE alone, without EEMWE before it,
-- starts a write.
pub reset-open :
    (e : HwEeprom) (ts : List ℕ) (now : ℕ)
    → e.op_state ≡ OpState.enabled
    → bit_and 2 e.eecr_mask ≡ 2
    → e.eear < e.size
    → (e1 : HwEeprom) × (cycles ts (reset e) ≡ ok e1)
      × (e2 : HwEeprom) × (set_eecr 2 now e1 ≡ ok e2)
      × (e2.op_state ≡ OpState.writing)
unfolding reset
reset-open e ts now enabled taken inside =
    let run = cycles-Open ts e (reset e) (record {
      none_left = refl;
      state = enabled;
      same_size = refl;
      same_eear = refl;
      same_mask = refl;
    }) in
    let o = run.2 in
    let start =
      started-IsWriting 2 2 now run.0 o.state (ap (bit_and 2) o.same_mask ∙ taken) refl
        (omega (arith, inside, o.same_eear, o.same_size)) in
    (run.0, run.1, start.0, start.1, start.2.state)
