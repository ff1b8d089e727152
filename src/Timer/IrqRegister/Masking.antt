-- ===== src/Timer/IrqRegister/Masking.antt =====
-- The mask register TIMSK and interrupts that are pending already (src/hwtimer/timerirq.cpp).
use simulavr.Prelude.{
  ℕ, zero, suc, ◌+◌, false, true, some, update, update_same, bit_or, ◌≡◌, refl, ap, ◌∙◌, arith, ltb,
}
use simulavr.Prelude.Bits.{◌<<<◌, u8, bit_and-zero}
use simulavr.Core.Result.{ok, ◌>>=◌}
use simulavr.Irq.{set_irq_flag}
use simulavr.Timer.IrqRegister.{TimerIrqRegister, has_bit, fire_interrupt, raise_enabled, set_timsk}

module _ {ℓ} {H : Type ℓ} where
  -- The register after an interrupt of an enabled line.
  abbrev pub raised : ℕ → TimerIrqRegister H → TimerIrqRegister H
  raised vector r = record r {
    irqflags = u8 (bit_or r.irqflags (1 <<< r.vector2line vector));
    irqsystem = record r.irqsystem {
      irq_partner_list = update r.irqsystem.irq_partner_list vector (some r.this);
    };
  }

  fire_interrupt-raised :
      (vector : ℕ) (r : TimerIrqRegister H)
      → has_bit r.irqmask (r.vector2line vector) ≡ true
      → ltb vector r.irqsystem.vector_table_size ≡ true
      → fire_interrupt vector r ≡ ok (raised vector r)
  unfolding fire_interrupt set_irq_flag
  fire_interrupt-raised vector r on fits = rw (on, fire_interrupt) (rw (fits, set_irq_flag) refl)

  raise_enabled-none : (n at : ℕ) (r : TimerIrqRegister H) → raise_enabled n at 0 r ≡ ok r
  unfolding raise_enabled
  raise_enabled-none zero at r = refl
  raise_enabled-none (suc n) at r = rw (nothing at, raise_enabled) (raise_enabled-none n (at + 1) r)
    where
      nothing : (at : ℕ) → has_bit 0 at ≡ false
      nothing at = ground (arith, bit_and-zero (1 <<< at))

  set_timsk-zero : (r : TimerIrqRegister H) → set_timsk 0 r ≡ ok (0, record r { irqmask = 0 })
  unfolding set_timsk
  set_timsk-zero r =
      ap (λ m. raise_enabled 8 0 m r >>= (λ r'. ok (m, record r' { irqmask = m })))
        (bit_and-zero r.bitmask)
      ∙ ap (λ x. x >>= (λ r'. ok (0, record r' { irqmask = 0 }))) (raise_enabled-none 8 0 r)

  -- An interrupt of a line that is enabled, with a vector of the table, is pending after
  -- `fireInterrupt`, and a write of 0 to TIMSK, which disables every line, leaves it pending: the
  -- interrupt system still has the register at its vector.
  pub fire_interrupt-set_timsk :
      (vector : ℕ) (r : TimerIrqRegister H)
      → has_bit r.irqmask (r.vector2line vector) ≡ true
      → ltb vector r.irqsystem.vector_table_size ≡ true
      → ((fire_interrupt vector r >>= set_timsk 0)
          ≡ ok (0, record (raised vector r) { irqmask = 0 }))
        × ((raised vector r).irqsystem.irq_partner_list vector ≡ some r.this)
  fire_interrupt-set_timsk vector r on fits = (
    ap (λ x. x >>= set_timsk 0) (fire_interrupt-raised vector r on fits)
        ∙ set_timsk-zero (raised vector r),
    update_same r.irqsystem.irq_partner_list vector (some r.this),
  )
