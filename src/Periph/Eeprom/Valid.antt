-- ===== src/Periph/Eeprom/Valid.antt =====
-- No `assert` of the EEPROM fails, whatever the core does with its registers (src/hweeprom.cpp).
use simulavr.Prelude.{ℕ, zero, suc, ◌+◌, ◌-◌, ◌≤◌, ◌<◌, ◌≡◌, refl, ap, ◌∙◌, arith}
use simulavr.Prelude.{bit_and, bit_or, Bool, true, ltb, leb, ◌==◌, ◌&&◌, inl, inr, Bool-cases}
use simulavr.Prelude.{List, [], ◌∷◌}
use simulavr.Prelude.Bits.{bit_and-le}
use simulavr.Core.Result.{Result, ok, ◌>>=◌}
use simulavr.Periph.Eeprom.{
  HwEeprom, OpState, DevMode, create, reset, set_eearl, set_eearh, set_eedr,
}
use simulavr.Periph.Eeprom.{set_eecr, control, control_ready, control_enabled, control_writing}
use simulavr.Periph.Eeprom.{read_cell, start_write, started, signalled, cpu_cycle, count_enable}
use simulavr.Periph.Eeprom.{fall_back, finish_write, complete_write, completed, hold, is_writing}
use simulavr.Periph.Eeprom.Write.{count_enable-none}
use simulavr.Periph.Eeprom.{has_bits, ctrl_enable, ctrl_read, ctrl_write, write_mem, clear_irq_flag}

-- The address register takes addresses of the memory only, and so does a write under way.
pub record IsValid (e : HwEeprom) : Type 0 where
  pub mask : e.eear_mask + 1 ≡ e.size
  pub inside : e.eear < e.size
  pub target : is_writing e.op_state ≡ true → e.op_addr < e.size

-- An operation of the EEPROM succeeds with a valid state.
abbrev Succeeds : Result HwEeprom → Type 0
Succeeds r = (e' : HwEeprom) × (r ≡ ok e') × IsValid e'

create-IsValid :
    (mode : DevMode) (irq : Bool) (size : ℕ) → 1 ≤ size → IsValid (create mode irq size)
unfolding create reset
create-IsValid mode irq size some_cell = record {
  mask = omega (arith, some_cell);
  inside = some_cell;
  target = λ w. some_cell;
}

masked : (e : HwEeprom) (x : ℕ) → IsValid e → bit_and x e.eear_mask < e.size
masked e x v = omega (arith, bit_and-le x e.eear_mask, v.mask)

read_cell-IsValid : (e : HwEeprom) → IsValid e → Succeeds (read_cell e)
unfolding read_cell
read_cell-IsValid e v =
    let valid : ltb e.eear e.size ≡ true = ground (arith, v.inside) in
    rw valid (_, refl, record { mask = v.mask; inside = v.inside; target = v.target })

start_write-IsValid : (now : ℕ) (e : HwEeprom) → IsValid e → Succeeds (start_write now e)
unfolding start_write started
start_write-IsValid now e v =
    let valid : ltb e.eear e.size ≡ true = ground (arith, v.inside) in
    rw valid (_, refl, record { mask = v.mask; inside = v.inside; target = λ w. v.inside })

control_ready-IsValid : (e : HwEeprom) → IsValid e → Succeeds (control_ready e)
unfolding control_ready read_cell
control_ready-IsValid e v =
    let valid : ltb e.eear e.size ≡ true = ground (arith, v.inside) in
    elim (Bool-cases (has_bits ctrl_enable e.eecr)) [
      | inl enable ↦ elim (Bool-cases (has_bits ctrl_read e.eecr)) [
        | inl read ↦
            rw (enable, control_ready)
              (rw read (
                rw valid (
                  _,
                  refl,
                  record { mask = v.mask; inside = v.inside; target = λ x. ground (arith, x) },
                )))
        | inr other ↦
            rw (enable, control_ready)
              (rw other (
                _,
                refl,
                record { mask = v.mask; inside = v.inside; target = λ x. ground (arith, x) },
              ))
      ]
      | inr none ↦ elim (Bool-cases (has_bits ctrl_read e.eecr)) [
        | inl read ↦
            rw (none, control_ready)
              (rw read (
                rw valid (_, refl, record { mask = v.mask; inside = v.inside; target = v.target })))
        | inr other ↦
            rw (none, control_ready)
              (rw other (_, refl, record { mask = v.mask; inside = v.inside; target = v.target }))
      ]
    ]

control_enabled-IsValid : (now : ℕ) (e : HwEeprom) → IsValid e → Succeeds (control_enabled now e)
unfolding control_enabled
control_enabled-IsValid now e v =
    let e1 = record e { eecr = bit_or e.eecr ctrl_enable } in
    let v1 : IsValid e1 = record { mask = v.mask; inside = v.inside; target = v.target } in
    elim (Bool-cases (has_bits ctrl_read e1.eecr)) [
      | inl read ↦ rw (read, control_enabled) (read_cell-IsValid e1 v1)
      | inr other ↦ elim (Bool-cases (has_bits ctrl_write e1.eecr)) [
        | inl write ↦ rw (other, control_enabled) (rw write (start_write-IsValid now e1 v1))
        | inr none ↦ rw (other, control_enabled) (rw none (e1, refl, v1))
      ]
    ]

control_writing-IsValid : (e : HwEeprom) → IsValid e → IsValid (control_writing e)
unfolding control_writing
control_writing-IsValid e v = elim (Bool-cases (has_bits ctrl_enable e.eecr)) [
  | inl enable ↦
      rw (enable, control_writing) (record { mask = v.mask; inside = v.inside; target = v.target })
  | inr none ↦
      rw (none, control_writing) (record { mask = v.mask; inside = v.inside; target = v.target })
]

control-IsValid : (s : OpState) (now : ℕ) (e : HwEeprom) → IsValid e → Succeeds (control s now e)
unfolding control
control-IsValid OpState.ready now e v = control_ready-IsValid e v
control-IsValid OpState.enabled now e v = control_enabled-IsValid now e v
control-IsValid OpState.writing now e v = (control_writing e, refl, control_writing-IsValid e v)

set_eecr-IsValid : (newval now : ℕ) (e : HwEeprom) → IsValid e → Succeeds (set_eecr newval now e)
unfolding set_eecr signalled
set_eecr-IsValid newval now e v =
    let run =
      control-IsValid e.op_state now (record e { eecr = bit_and newval e.eecr_mask })
        (record { mask = v.mask; inside = v.inside; target = v.target }) in
    (
      signalled e.eecr run.0,
      ap (λ r. r >>= λ r. ok (signalled e.eecr r)) run.1,
      record { mask = run.2.mask; inside = run.2.inside; target = run.2.target },
    )

not_writing : (s : OpState) → is_writing (fall_back s) ≡ true → is_writing s ≡ true
not_writing OpState.ready h = h
not_writing OpState.enabled h = h
not_writing OpState.writing h = h

count_enable-IsValid : (e : HwEeprom) → IsValid e → IsValid (count_enable e)
unfolding count_enable
count_enable-IsValid e v = elim (Bool-cases (e.op_enable_cycles == 0)) [
  | inl none ↦ rw (count_enable-none e (ground (arith, none))) v
  | inr more ↦ elim (Bool-cases (e.op_enable_cycles - 1 == 0)) [
    | inl last ↦
        rw (more, count_enable)
          (rw last (record {
            mask = v.mask;
            inside = v.inside;
            target = λ w. v.target (not_writing e.op_state w);
          }))
    | inr early ↦
        rw (more, count_enable)
          (rw early (record { mask = v.mask; inside = v.inside; target = v.target }))
  ]
]

finish_write-IsValid : (now : ℕ) (e : HwEeprom) → IsValid e → Succeeds (finish_write now e)
unfolding finish_write complete_write completed
finish_write-IsValid now e v =
    elim (Bool-cases (is_writing e.op_state && leb e.write_done_time now)) [
      | inl due ↦
          let valid : ltb e.op_addr e.size ≡ true = ground (arith, v.target, due) in
          rw (due, finish_write)
            (rw valid (
              _,
              refl,
              record { mask = v.mask; inside = v.inside; target = λ w. ground (arith, w) },
            ))
      | inr waits ↦ rw (waits, finish_write) (e, refl, v)
    ]

cpu_cycle-IsValid :
    (now : ℕ) (e : HwEeprom)
    → IsValid e
    → (r : HwEeprom × ℕ) × (cpu_cycle now e ≡ ok r) × IsValid (r.0)
unfolding cpu_cycle hold
cpu_cycle-IsValid now e v =
    let run = finish_write-IsValid now (count_enable e) (count_enable-IsValid e v) in
    (
      hold run.0,
      ap (λ r. r >>= λ r. ok (hold r)) run.1,
      record { mask = run.2.mask; inside = run.2.inside; target = run.2.target },
    )

write_mem-IsValid :
    (src : ℕ → ℕ) (offset n : ℕ) (e : HwEeprom) → IsValid e → IsValid (write_mem src offset n e)
unfolding write_mem
write_mem-IsValid src offset zero e v = v
write_mem-IsValid src offset (suc n) e v =
    let w = write_mem-IsValid src offset n e v in
    elim (Bool-cases (ltb (n + offset) (write_mem src offset n e).size)) [
      | inl inside ↦
          rw (inside, write_mem) (record { mask = w.mask; inside = w.inside; target = w.target })
      | inr outside ↦ rw (outside, write_mem) w
    ]

-- What the core and the loader do with the EEPROM: the accesses to its registers, its cycles, the
-- reset, and the load of a memory.
pub data Operation : Type 0 where
  write_eearl write_eearh write_eedr : (val : ℕ) → Operation
  write_eecr : (val now : ℕ) → Operation
  cycle : (now : ℕ) → Operation
  reset_device clear_irq : Operation
  load : (src : ℕ → ℕ) (offset n : ℕ) → Operation

abbrev pub perform : Operation → HwEeprom → Result HwEeprom
perform (write_eearl val) e = ok (set_eearl val e)
perform (write_eearh val) e = ok (set_eearh val e)
perform (write_eedr val) e = ok (set_eedr val e)
perform (write_eecr val now) e = set_eecr val now e
perform (cycle now) e = cpu_cycle now e >>= λ r. ok (r.0)
perform reset_device e = ok (reset e)
perform clear_irq e = ok (clear_irq_flag e)
perform (load src offset n) e = ok (write_mem src offset n e)

abbrev pub perform_all : List Operation → HwEeprom → Result HwEeprom
perform_all [] e = ok e
perform_all (o ∷ os) e = perform o e >>= perform_all os

perform-IsValid : (o : Operation) (e : HwEeprom) → IsValid e → Succeeds (perform o e)
unfolding set_eearl set_eearh set_eedr reset clear_irq_flag
perform-IsValid (write_eearl val) e v =
    (_, refl, record { mask = v.mask; inside = masked e _ v; target = v.target })
perform-IsValid (write_eearh val) e v =
    (_, refl, record { mask = v.mask; inside = masked e _ v; target = v.target })
perform-IsValid (write_eedr val) e v =
    (_, refl, record { mask = v.mask; inside = v.inside; target = v.target })
perform-IsValid (write_eecr val now) e v = set_eecr-IsValid val now e v
perform-IsValid (cycle now) e v =
    let run = cpu_cycle-IsValid now e v in (run.0.0, ap (λ r. r >>= λ r. ok (r.0)) run.1, run.2)
perform-IsValid reset_device e v =
    (_, refl, record { mask = v.mask; inside = v.inside; target = v.target })
perform-IsValid clear_irq e v =
    (_, refl, record { mask = v.mask; inside = v.inside; target = v.target })
perform-IsValid (load src offset n) e v = (_, refl, write_mem-IsValid src offset n e v)

all-IsValid : (os : List Operation) (e : HwEeprom) → IsValid e → Succeeds (perform_all os e)
all-IsValid [] e v = (e, refl, v)
all-IsValid (o ∷ os) e v =
    let one = perform-IsValid o e v in
    let rest = all-IsValid os one.0 one.2 in
    (rest.0, ap (λ r. r >>= perform_all os) one.1 ∙ rest.1, rest.2)

-- From a new EEPROM of at least one cell on, of any mode, every sequence of operations succeeds: no
-- `assert` fails, whatever values are stored in the registers. The address in EEAR, and that of a
-- write under way, is always below the size.
pub perform_all-IsValid :
    (mode : DevMode) (irq : Bool) (size : ℕ) (os : List Operation)
    → 1 ≤ size
    → (e : HwEeprom) × (perform_all os (create mode irq size) ≡ ok e) × IsValid e
perform_all-IsValid mode irq size os some_cell =
    all-IsValid os (create mode irq size) (create-IsValid mode irq size some_cell)
