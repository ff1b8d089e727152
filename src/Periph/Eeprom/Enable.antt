-- ===== src/Periph/Eeprom/Enable.antt =====
-- The state ENABLED of the EEPROM, which guards its memory (src/hweeprom.cpp).
use simulavr.Prelude.{ℕ, zero, suc, ◌+◌, ◌-◌, ◌<◌, ◌≡◌, refl, ap, sym, ◌∙◌, arith}
use simulavr.Prelude.{bit_and, true, false, ltb, leb, ◌==◌, ◌&&◌, inl, inr, Bool-cases}
use simulavr.Prelude.{List, [], ◌∷◌, length}
use simulavr.Core.Result.{ok, ◌>>=◌}
use simulavr.Periph.Eeprom.{HwEeprom, OpState, set_eecr, control, control_ready, read_cell}
use simulavr.Periph.Eeprom.{signalled}
use simulavr.Periph.Eeprom.{
  cpu_cycle, count_enable, fall_back, finish_write, hold, is_writing, has_bits,
}
use simulavr.Periph.Eeprom.{ctrl_enable, ctrl_read}
use simulavr.Periph.Eeprom.Write.{cycles}

pub finish_write-none :
    (now : ℕ) (e : HwEeprom) → is_writing e.op_state ≡ false → finish_write now e ≡ ok e
unfolding finish_write
finish_write-none now e idle =
    let waits : (is_writing e.op_state && leb e.write_done_time now) ≡ false =
      ap (λ b. b && leb e.write_done_time now) idle in
    rw waits refl

abbrev pub window_state : ℕ → OpState
window_state zero = OpState.ready
window_state (suc n) = OpState.enabled

-- `e` is ENABLED for `n` more cycles, or READY after the last; `memory` is what it holds.
pub record Window (n : ℕ) (memory : ℕ → ℕ) (e : HwEeprom) : Type 0 where
  pub left : e.op_enable_cycles ≡ n
  pub state : e.op_state ≡ window_state n
  pub kept : e.my_memory ≡ memory

window_idle : (n : ℕ) → is_writing (window_state n) ≡ false
window_idle zero = refl
window_idle (suc n) = refl

count_enable-Window :
    (n : ℕ) (memory : ℕ → ℕ) (e : HwEeprom)
    → Window (suc n) memory e
    → Window n memory (count_enable e)
unfolding count_enable
count_enable-Window zero memory e w =
    let some_left : (e.op_enable_cycles == 0) ≡ false = ground (arith, w.left) in
    let last : (e.op_enable_cycles - 1 == 0) ≡ true = ground (arith, w.left) in
    rw some_left (rw last (record { left = refl; state = ap fall_back w.state; kept = w.kept }))
count_enable-Window (suc n) memory e w =
    let some_left : (e.op_enable_cycles == 0) ≡ false = ground (arith, w.left) in
    let last : (e.op_enable_cycles - 1 == 0) ≡ false = ground (arith, w.left) in
    rw some_left (rw last (record { left = omega (arith, w.left); state = w.state; kept = w.kept }))

cpu_cycle-Window :
    (now n : ℕ) (memory : ℕ → ℕ) (e : HwEeprom)
    → Window (suc n) memory e
    → (r : HwEeprom × ℕ) × (cpu_cycle now e ≡ ok r) × Window n memory (r.0)
unfolding cpu_cycle hold
cpu_cycle-Window now n memory e w =
    let counted = count_enable-Window n memory e w in
    (
      hold (count_enable e),
      ap (λ x. x >>= λ r. ok (hold r))
          (finish_write-none now (count_enable e) (ap is_writing counted.state ∙ window_idle n)),
      record { left = counted.left; state = counted.state; kept = counted.kept },
    )

recounted :
    {n : ℕ} (m : ℕ) (memory : ℕ → ℕ) (e : HwEeprom) → Window n memory e → n ≡ m → Window m memory e
recounted m memory e w same = record {
  left = w.left ∙ same;
  state = w.state ∙ ap window_state same;
  kept = w.kept;
}

-- An EEPROM that is ENABLED for `n` cycles, the last of which makes it READY, is so for `m` after
-- `n - m` of them, and its memory is as before.
pub cycles-Window :
    (ts : List ℕ) (m : ℕ) (memory : ℕ → ℕ) (e : HwEeprom)
    → Window (length ts + m) memory e
    → (e' : HwEeprom) × (cycles ts e ≡ ok e') × Window m memory e'
cycles-Window [] m memory e w = (e, refl, recounted m memory e w (omega arith))
cycles-Window (t ∷ ts) m memory e w =
    let one = cpu_cycle-Window t (length ts + m) memory e (recounted _ memory e w (omega arith)) in
    let rest = cycles-Window ts m memory (one.0.0) one.2 in
    (rest.0, ap (λ x. x >>= λ r. cycles ts (r.0)) one.1 ∙ rest.1, rest.2)

-- Storing in EECR in the state READY.
control_ready-idle :
    (e : HwEeprom)
    → e.op_state ≡ OpState.ready
    → e.eear < e.size
    → (e' : HwEeprom) × (control_ready e ≡ ok e')
      × (is_writing e'.op_state ≡ false)
      × (e'.my_memory ≡ e.my_memory)
unfolding control_ready read_cell
control_ready-idle e idle inside =
    let valid : ltb e.eear e.size ≡ true = ground (arith, inside) in
    let free = ap is_writing idle in
    elim (Bool-cases (has_bits ctrl_enable e.eecr)) [
      | inl enable ↦ elim (Bool-cases (has_bits ctrl_read e.eecr)) [
        | inl read ↦ rw (enable, control_ready) (rw read (rw valid (_, refl, refl, refl)))
        | inr other ↦ rw (enable, control_ready) (rw other (_, refl, refl, refl))
      ]
      | inr none ↦ elim (Bool-cases (has_bits ctrl_read e.eecr)) [
        | inl read ↦ rw (none, control_ready) (rw read (rw valid (_, refl, free, refl)))
        | inr other ↦ rw (none, control_ready) (rw other (_, refl, free, refl))
      ]
    ]

no_write :
    (newval now : ℕ) (e : HwEeprom)
    → e.op_state ≡ OpState.ready
    → e.eear < e.size
    → (e' : HwEeprom) × (set_eecr newval now e ≡ ok e')
      × (is_writing e'.op_state ≡ false)
      × (e'.my_memory ≡ e.my_memory)
unfolding set_eecr signalled control
no_write newval now e idle inside =
    let stored = record e { eecr = bit_and newval e.eecr_mask } in
    let run = control_ready-idle stored idle inside in
    let finish = λ (r : HwEeprom). ok (signalled e.eecr r) in
    (
      signalled e.eecr run.0,
      ap (λ s. control s now stored >>= finish) idle ∙ ap (λ r. r >>= finish) run.1,
      run.2,
      run.3,
    )

opened :
    (now : ℕ) (e : HwEeprom)
    → e.op_state ≡ OpState.ready
    → bit_and 4 e.eecr_mask ≡ 4
    → (e' : HwEeprom) × (set_eecr 4 now e ≡ ok e') × Window 4 e.my_memory e'
unfolding set_eecr signalled control control_ready
opened now e idle taken =
    let finish = λ (r : HwEeprom). ok (signalled e.eecr r) in
    (
      signalled e.eecr
          (record e { eecr = 4; op_state = OpState.enabled; op_enable_cycles = 4; cycled = true }),
      ap (λ s. control s now (record e { eecr = bit_and 4 e.eecr_mask }) >>= finish) idle
          ∙ ap (λ v. control_ready (record e { eecr = v }) >>= finish) taken,
      record { left = refl; state = refl; kept = refl },
    )

-- In the state READY, with an address below the size, no value that is stored in EECR starts a write
-- or changes the memory. If the register takes EEMWE, that bit opens a window: after less than 4
-- cycles, at whatever times, the state is ENABLED, after the fourth it is READY again, and the memory
-- is as before.
pub set_eecr-guarded :
    (newval now : ℕ) (e : HwEeprom)
    → e.op_state ≡ OpState.ready
    → e.eear < e.size
    → bit_and 4 e.eecr_mask ≡ 4
    → ((e1 : HwEeprom) × (set_eecr newval now e ≡ ok e1)
        × (is_writing e1.op_state ≡ false)
        × (e1.my_memory ≡ e.my_memory))
      × (e2 : HwEeprom) × (set_eecr 4 now e ≡ ok e2)
      × ((ts : List ℕ) (m : ℕ)
          → length ts + m ≡ 4
          → (e3 : HwEeprom) × (cycles ts e2 ≡ ok e3)
            × (e3.op_state ≡ window_state m)
            × (e3.my_memory ≡ e.my_memory))
set_eecr-guarded newval now e idle inside taken =
    let window = opened now e idle taken in
    (
      no_write newval now e idle inside,
      window.0,
      window.1,
      λ ts m four.
          let run =
            cycles-Window ts m e.my_memory window.0
              (recounted (length ts + m) e.my_memory window.0 window.2 (sym four)) in
          (run.0, run.1, run.2.state, run.2.kept),
    )
