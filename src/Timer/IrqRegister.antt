-- ===== src/Timer/IrqRegister.antt =====
-- The registers TIMSK and TIFR, `TimerIRQRegister` (src/hwtimer/timerirq.h, src/hwtimer/timerirq.cpp). The
-- names of the lines, by which the devices find them, are left out.

pub mod Acknowledge
pub mod Masking
pub mod Enable
use simulavr.Prelude.{
  ℕ, zero, suc, ◌+◌, ◌-◌, bit_and, bit_or, bit_xor, Bool, true, false, not, ◌&&◌, ltb, ◌==◌, Option,
  none, some, update,
}
use simulavr.Prelude.Bits.{◌<<<◌, u8}
use simulavr.Core.Result.{Result, ok, abort, out_of_bounds, null_pointer, ◌>>=◌}
use simulavr.Irq.{HwIrqSystem, set_irq_flag, clear_irq_flag, debug_verify_interrupt_vector}

-- `this` is the register as the interrupt system sees it. `lines` gives the vector of each of the 8
-- lines, `vector2line` the number of a line, which is 0 for a vector that is not in the map.
pub record TimerIrqRegister {ℓ} (H : Type ℓ) : Type ℓ where
  pub this : H
  pub irqsystem : HwIrqSystem H
  pub lines : ℕ → Option ℕ
  pub vector2line : ℕ → ℕ
  pub irqmask : ℕ
  pub irqflags : ℕ
  pub bitmask : ℕ

-- Whether a bit is set.
abbrev pub has_bit : ℕ → ℕ → Bool
has_bit v idx = not (bit_and v (1 <<< idx) == 0)

module _ {ℓ} {H : Type ℓ} where
  -- `registerLine`, with a comparison of pointers.
  unfoldable pub register_line :
      (H → H → Bool) → ℕ → ℕ → TimerIrqRegister H → Result (TimerIrqRegister H)
  unfolding debug_verify_interrupt_vector
  register_line same idx vector r = do
    irq ← debug_verify_interrupt_vector same vector r.this r.irqsystem
    elim (ltb idx 8) [
      | false ↦ abort out_of_bounds
      | true ↦ ok (record r {
        irqsystem = irq;
        lines = update r.lines idx (some vector);
        vector2line = update r.vector2line vector idx;
        bitmask = u8 (bit_or r.bitmask (1 <<< idx));
      })
    ]

  -- `fireInterrupt`.
  unfoldable pub fire_interrupt : ℕ → TimerIrqRegister H → Result (TimerIrqRegister H)
  unfolding set_irq_flag
  fire_interrupt vector r =
      let idx = r.vector2line vector in
      let r' = record r { irqflags = u8 (bit_or r.irqflags (1 <<< idx)) } in
      elim (has_bit r.irqmask idx) [
        | false ↦ ok r'
        | true ↦ do irq ← set_irq_flag r.this vector r.irqsystem; ok (record r' { irqsystem = irq })
      ]

  -- `IRQLine::fireInterrupt`: a line that is not registered does nothing.
  unfoldable pub fire_line : Option ℕ → TimerIrqRegister H → Result (TimerIrqRegister H)
  unfolding fire_interrupt
  fire_line none r = ok r
  fire_line (some vector) r = fire_interrupt vector r

  -- `ClearIrqFlag`.
  unfoldable pub clear_flag : ℕ → TimerIrqRegister H → TimerIrqRegister H
  unfolding clear_irq_flag
  clear_flag vector r = record r {
    irqflags = bit_and r.irqflags (0xff - u8 (1 <<< r.vector2line vector));
    irqsystem = clear_irq_flag vector r.irqsystem;
  }

  -- `Reset`.
  unfoldable pub reset : TimerIrqRegister H → TimerIrqRegister H
  reset r = record r { irqmask = 0; irqflags = 0 }

  -- The loop over the lines for a write to TIMSK, from line `idx` on, with `n` lines left: an interrupt
  -- whose flag waited for its mask bit is raised.
  unfoldable pub raise_enabled : ℕ → ℕ → ℕ → TimerIrqRegister H → Result (TimerIrqRegister H)
  unfolding set_irq_flag
  raise_enabled zero idx nv r = ok r
  raise_enabled (suc n) idx nv r =
      elim (has_bit nv idx && not (has_bit r.irqmask idx) && has_bit r.irqflags idx) [
        | false ↦ raise_enabled n (idx + 1) nv r
        | true ↦ elim (r.lines idx) [
          | none ↦ raise_enabled n (idx + 1) nv r
          | some vector ↦ do
            irq ← set_irq_flag r.this vector r.irqsystem
            raise_enabled n (idx + 1) nv (record r { irqsystem = irq })
        ]
      ]

  -- `set_from_reg` for TIMSK: the value of the register, and the state.
  unfoldable pub set_timsk : ℕ → TimerIrqRegister H → Result (ℕ × TimerIrqRegister H)
  unfolding raise_enabled
  set_timsk nv r = do
    r' ← raise_enabled 8 0 (bit_and nv r.bitmask) r
    ok (bit_and nv r.bitmask, record r' { irqmask = bit_and nv r.bitmask })

  -- The loop over the lines for a write to TIFR.
  unfoldable pub clear_lines : ℕ → ℕ → ℕ → TimerIrqRegister H → Result (TimerIrqRegister H)
  unfolding clear_flag
  clear_lines zero idx reset r = ok r
  clear_lines (suc n) idx reset r = elim (has_bit reset idx) [
    | false ↦ clear_lines n (idx + 1) reset r
    | true ↦ elim (r.lines idx) [
      | none ↦ abort null_pointer
      | some vector ↦ clear_lines n (idx + 1) reset (clear_flag vector r)
    ]
  ]

  -- `set_from_reg` for TIFR.
  unfoldable pub set_tifr : ℕ → TimerIrqRegister H → Result (ℕ × TimerIrqRegister H)
  unfolding clear_lines
  set_tifr nv r = do
    let reset = bit_and (bit_and nv r.bitmask) r.irqflags
    r' ← clear_lines 8 0 reset (record r { irqflags = bit_xor r.irqflags reset })
    ok (nv, r')

  -- `get_from_client` for TIMSK and for TIFR.
  unfoldable pub get_timsk : TimerIrqRegister H → ℕ
  get_timsk r = r.irqmask

  unfoldable pub get_tifr : TimerIrqRegister H → ℕ
  get_tifr r = r.irqflags
