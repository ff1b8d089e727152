-- ===== src/Irq.antt =====
-- The interrupt system `HWIrqSystem` (src/irqsystem.h, src/irqsystem.cpp), and the interface `Hardware`
-- (src/hardware.h) of the peripherals that it calls. `S` is the state of the whole device.
pub mod Priority
pub mod External
pub mod Statistic
use simulavr.Prelude.{
  ℕ, zero, suc, ◌+◌, ◌*◌, ◌/◌, ◌%◌, Bool, true, false, Option, none, some, update,
}
use simulavr.Prelude.{ltb}
use simulavr.Core.Result.{Result, ok, abort, assert, dangling_iterator, out_of_bounds, ◌>>=◌, ◌>>◌}

-- `Hardware`: what the virtual functions of each peripheral do to the state of the device.
pub record Hardware {ℓ} (H S : Type ℓ) : Type ℓ where
  pub cpu_cycle : H → S → Result (S × ℕ)
  pub clear_irq_flag : H → ℕ → S → Result S
  pub is_level_interrupt : H → ℕ → S → Bool
  pub level_interrupt_pending : H → ℕ → S → Bool
  pub reset : H → S → Result S
  -- Whether two pointers are the same.
  pub same : H → H → Bool

-- The map `irqPartnerList` is a function from vectors. `irq_trace` holds the values traced.
pub record HwIrqSystem {ℓ} (H : Type ℓ) : Type ℓ where
  pub bytes_per_vector : ℕ
  pub vector_table_size : ℕ
  pub irq_trace : ℕ → ℕ
  pub irq_partner_list : ℕ → Option H
  pub debug_interrupt_table : ℕ → Option H

-- No interrupt: the word 0xffffffff.
abbrev pub no_pc : ℕ
no_pc = 0xffff_ffff

module _ {ℓ} {H : Type ℓ} where
  -- `SetIrqFlag`.
  unfoldable pub set_irq_flag : H → ℕ → HwIrqSystem H → Result (HwIrqSystem H)
  set_irq_flag hwp vector irq =
      assert (ltb vector irq.vector_table_size)
      >> ok (record irq { irq_partner_list = update irq.irq_partner_list vector (some hwp) })

  -- `ClearIrqFlag`.
  unfoldable pub clear_irq_flag : ℕ → HwIrqSystem H → HwIrqSystem H
  clear_irq_flag vector irq = record irq {
    irq_partner_list = update irq.irq_partner_list vector none;
  }

  -- `IrqHandlerStarted`.
  unfoldable pub irq_handler_started : ℕ → HwIrqSystem H → Result (HwIrqSystem H)
  irq_handler_started vector irq = elim (ltb vector irq.vector_table_size) [
    | true ↦ ok (record irq { irq_trace = update irq.irq_trace vector 1 })
    | false ↦ abort out_of_bounds
  ]

  -- `IrqHandlerFinished`.
  unfoldable pub irq_handler_finished : ℕ → HwIrqSystem H → Result (HwIrqSystem H)
  irq_handler_finished vector irq = elim (ltb vector irq.vector_table_size) [
    | true ↦ ok (record irq { irq_trace = update irq.irq_trace vector 0 })
    | false ↦ abort out_of_bounds
  ]

  -- `DebugVerifyInterruptVector`.
  unfoldable pub debug_verify_interrupt_vector :
      (H → H → Bool) → ℕ → H → HwIrqSystem H → Result (HwIrqSystem H)
  debug_verify_interrupt_vector same vector source irq =
      assert (ltb vector irq.vector_table_size) >> elim (irq.debug_interrupt_table vector) [
        | none ↦ ok (record irq {
          debug_interrupt_table = update irq.debug_interrupt_table vector (some source);
        })
        | some existing ↦ assert (same existing source) >> ok irq
      ]

module _ {ℓ} {H S : Type ℓ} (hw : Hardware H S) (irq_of : S → HwIrqSystem H) where
  -- The interrupt that was pending at `vector` when the iterator came there: the vector that is
  -- raised, or none, and then the iterator goes on, from an element that must still be there.
  unfoldable pub serve : ℕ → H → S → Result (Option ℕ × S)
  serve vector second s = do
    s' ← hw.clear_irq_flag second vector s
    elim (hw.is_level_interrupt second vector s) [
      | false ↦ ok (some vector, s')
      | true ↦ elim (hw.level_interrupt_pending second vector s') [
        | true ↦ ok (some vector, s')
        | false ↦ elim ((irq_of s').irq_partner_list vector) [
          | none ↦ abort dangling_iterator
          | some kept ↦ ok (none, s')
        ]
      ]
    ]

  -- The loop of `GetNewPc` from `vector` on, over the `n` vectors that are left of the table.
  unfoldable pub lowest_pending : ℕ → ℕ → S → Result (Option ℕ × S)
  lowest_pending zero vector s = ok (none, s)
  lowest_pending (suc n) vector s = elim ((irq_of s).irq_partner_list vector) [
    | none ↦ lowest_pending n (vector + 1) s
    | some second ↦ do
      r ← serve vector second s
      elim (r.0) [
        | none ↦ lowest_pending n (vector + 1) (r.1)
        | some raised ↦ ok (some raised, r.1)
      ]
  ]

  -- `GetNewPc`: the new program counter, with `actualVector` and the state. The flags are set at
  -- vectors of the table only.
  unfoldable pub get_new_pc : ℕ → S → Result (ℕ × ℕ × S)
  get_new_pc actual_vector s = do
    r ← lowest_pending (irq_of s).vector_table_size 0 s
    elim (r.0) [
      | none ↦ ok (no_pc, actual_vector, r.1)
      | some vector ↦ ok (vector * ((irq_of s).bytes_per_vector / 2), vector, r.1)
    ]
