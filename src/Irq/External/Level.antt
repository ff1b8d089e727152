-- ===== src/Irq/External/Level.antt =====
-- A level interrupt on a pin (src/externalirq.cpp) and the loop of `GetNewPc` (src/irqsystem.cpp).
use simulavr.Prelude.{ℕ, ◌-◌, ◌*◌, ◌/◌, ◌≡◌, refl, ap, ◌∙◌, arith, inr, update, update_same}
use simulavr.Prelude.{true, false, ◌&&◌, ltb, some, none, bit_and}
use simulavr.Prelude.Bits.{◌<<<◌}
use simulavr.Core.Result.{ok, abort, dangling_iterator}
use simulavr.Irq.{HwIrqSystem, set_irq_flag, get_new_pc}
use simulavr.Irq.External.{Board, ExternalIrqSingle, hardware, fire_again, must_set_flag_on_fire}
use simulavr.Irq.External.{
  clear_irq_flag, trigger, is_level_interrupt, level_interrupt_pending, has_bit,
}
use simulavr.Irq.Priority.{IsLowest, get_new_pc-IsLowest, get_new_pc-dangles}

gone_when_high : (s : ExternalIrqSingle) → s.state ≡ true → fire_again s ≡ false
unfolding fire_again
gone_when_high s high = ground (arith, high)

fires_when_low : (s : ExternalIrqSingle) → s.mode ≡ 0 → s.state ≡ false → fire_again s ≡ true
unfolding fire_again
fires_when_low s level low = ground (arith, level, low)

module _ {ℓ} {H : Type ℓ} where
  abbrev pub irq_of : Board H → HwIrqSystem H
  irq_of b = b.irq_system

  -- The state once the flag of `vector` is cleared.
  abbrev cleared : ℕ → Board H → Board H
  cleared vector b =
      let x = b.handler in
      record {
        handler = record x {
          irq_flag = bit_and x.irq_flag (0xff - (1 <<< x.irqbits (x.vector_index vector)));
        };
        irq_system = simulavr.Irq.clear_irq_flag vector b.irq_system;
      }

  -- The lowest pending interrupt is a level interrupt of the handler.
  pub record IsLevel (this : H) (v : ℕ) (b : Board H) : Type ℓ where
    pub lowest : IsLowest hardware irq_of v this b
    pub low_level : (b.handler.extirqs (b.handler.vector_index v)).mode ≡ 0
    pub own_vector : b.handler.vectors (b.handler.vector_index v) ≡ v

  clear-gone :
      (this : H) (v : ℕ) (b : Board H)
      → fire_again (b.handler.extirqs (b.handler.vector_index v)) ≡ false
      → clear_irq_flag this v b ≡ ok (cleared v b)
  unfolding clear_irq_flag
  clear-gone this v b gone = rw (gone, clear_irq_flag) refl

  is_level :
      (this : H) (v : ℕ) (b : Board H) → IsLevel this v b → is_level_interrupt v b.handler ≡ true
  unfolding is_level_interrupt must_set_flag_on_fire
  is_level this v b level = ground (arith, level.low_level)

  -- If the level of the pin is high again, `GetNewPc` goes on from an element that it has erased.
  high-dangles :
      (this : H) (actual_vector v : ℕ) (b : Board H)
      → IsLevel this v b
      → (b.handler.extirqs (b.handler.vector_index v)).state ≡ true
      → get_new_pc hardware irq_of actual_vector b ≡ abort dangling_iterator
  unfolding hardware level_interrupt_pending simulavr.Irq.clear_irq_flag
  high-dangles this actual_vector v b level high =
      let x = b.handler in
      let idx = x.vector_index v in
      let gone : fire_again (x.extirqs idx) ≡ false = gone_when_high (x.extirqs idx) high in
      get_new_pc-dangles hardware irq_of actual_vector v this b (cleared v b) level.lowest
        (clear-gone this v b gone) (is_level this v b level)
        (ap (λ c. c && has_bit x.irq_mask idx x) gone)
        (update_same b.irq_system.irq_partner_list v none)

  -- The flag that is cleared is set again.
  set_again :
      (this : H) (v : ℕ) (b : Board H)
      → IsLevel this v b
      → fire_again (b.handler.extirqs (b.handler.vector_index v)) ≡ true
      → has_bit b.handler.irq_mask (b.handler.vector_index v) b.handler ≡ true
      → (b' : Board H) × (clear_irq_flag this v b ≡ ok b')
        × (b'.handler.extirqs ≡ b.handler.extirqs)
        × (level_interrupt_pending v b'.handler ≡ true)
        × (b'.irq_system.irq_partner_list v ≡ some this)
  unfolding clear_irq_flag trigger set_irq_flag simulavr.Irq.clear_irq_flag level_interrupt_pending
  set_again this v b level again masked =
      let x = b.handler in
      let at = x.vectors (x.vector_index v) in
      let inside : ltb at b.irq_system.vector_table_size ≡ true =
        ground (arith, level.lowest.inside, level.own_vector) in
      let free = update b.irq_system.irq_partner_list v none in
      let irq = cleared v b in
      let irqs = irq.irq_system in
      (
        record irq { irq_system = record irqs { irq_partner_list = update free at (some this) } },
        rw (again, clear_irq_flag) (rw (masked, trigger) (rw inside refl)),
        refl,
        ap (λ c. c && has_bit x.irq_mask (x.vector_index v) x) again ∙ masked,
        ap (λ a. update free a (some this) v) level.own_vector ∙ update_same free v (some this),
      )

  -- A level interrupt of the handler, which is the lowest that is pending: if its pin is low and its
  -- mask bit set, it is raised, and stays pending; if the pin is high again, `GetNewPc` goes on
  -- with an iterator to the element that `ClearIrqFlag` has erased.
  pub get_new_pc-level :
      (this : H) (actual_vector v : ℕ) (b : Board H)
      → IsLevel this v b
      → has_bit b.handler.irq_mask (b.handler.vector_index v) b.handler ≡ true
      → ((b.handler.extirqs (b.handler.vector_index v)).state ≡ false
          → (b' : Board H) × (get_new_pc hardware irq_of actual_vector b
              ≡ ok (v * (b.irq_system.bytes_per_vector / 2), v, b'))
            × (b'.irq_system.irq_partner_list v ≡ some this))
        × ((b.handler.extirqs (b.handler.vector_index v)).state ≡ true
            → get_new_pc hardware irq_of actual_vector b ≡ abort dangling_iterator)
  unfolding hardware
  get_new_pc-level this actual_vector v b level masked =
      let x = b.handler in
      let source = x.extirqs (x.vector_index v) in
      (
        (λ low.
            let again =
              set_again this v b level (fires_when_low source level.low_level low) masked in
            (
              again.0,
              get_new_pc-IsLowest hardware irq_of actual_vector v this b again.0 level.lowest
                  again.1 (inr again.3),
              again.4,
            )),
        high-dangles this actual_vector v b level,
      )
