-- ===== src/Machine/Interrupt.antt =====
-- The entry of an interrupt in `AvrDevice::Step` (src/avrdevice.cpp), and its return.
use simulavr.Prelude.{ℕ, ◌+◌, ◌%◌, ◌≤◌, ◌<◌, ◌≡◌, refl, ap, sym, ◌∙◌, arith}
use simulavr.Prelude.{◌==◌, ◌&&◌, not, ltb, true, false, Bool, update, update_same}
use simulavr.Prelude.Int.{pos, ◌+ℤ◌}
use simulavr.Core.Device.{Device}
use simulavr.Core.Execute.Common.{jump}
use simulavr.Core.Execute.Jump.{run_reti}
use simulavr.Core.Memory.{set_return_point}
use simulavr.Core.Result.{ok, ◌>>=◌}
use simulavr.Core.Stack.{push_addr}
use simulavr.Core.Stack.RoundTrip.{IsBounded, HasRoom, StandsAt, popped}
use simulavr.Core.Stack.Addresses.{Holds, push_addr_two, pop_addr_two}
use simulavr.Irq.{Hardware, HwIrqSystem, irq_handler_started, no_pc}
use simulavr.Machine.{Machine, is_busy, contains, next_pc, advance, finish}
use simulavr.Machine.{enter_interrupt, next_instruction, step_core}

-- What RETI makes of a handler's state.
pub record Returns (pc p : ℕ) (d : Device) : Type 0 where
  pub back : (next_pc d).pc ≡ pc
  pub pointer : d.stack.stack_pointer ≡ p
  pub enabled : d.status.i ≡ true

reti-Returns :
    (pc p c : ℕ) (d : Device)
    → d.pc_size ≡ 2
    → StandsAt p c d
    → p + 2 < c
    → c ≤ 65536
    → pc < 65536
    → Holds p pc d
    → (d' : Device) × (run_reti d ≡ ok (d', pos 4)) × Returns pc (p + 2) d'
unfolding run_reti next_pc
reti-Returns pc p c d size at room ceiling word held =
    let up = pop_addr_two pc p c d size at room ceiling word held in
    let back = jump (pc + 0xffff) (popped (popped d)) in
    let set = record back.status { i = true } in
    (
      record back { status = set },
      rw up.0 (ap (λ n. ok (record back { status = set }, pos (n + 2))) size),
      record { back = omega arith; pointer = up.1.pointer; enabled = refl },
    )

trace-started {ℓ} :
    {H : Type ℓ} (v : ℕ) (irq : HwIrqSystem H)
    → v < irq.vector_table_size
    → irq_handler_started v irq ≡ ok (record irq { irq_trace = update irq.irq_trace v 1 })
unfolding irq_handler_started
trace-started v irq inside =
    let known : ltb v irq.vector_table_size ≡ true = ground (arith, inside) in
    rw (known, irq_handler_started) refl

module _ {ℓ} {H W : Type ℓ} where
  -- The core is at the end of an instruction, and neither a break point nor an exit point is at the
  -- next.
  pub record IsReady (m : Machine H W) : Type 0 where
    pub idle : is_busy m.cpu_cycles ≡ false
    pub no_break : contains m.device.pc m.bp ≡ false
    pub no_exit : contains m.device.pc m.ep ≡ false

  -- A detected interrupt is about to be entered, on a core with return addresses of two bytes that
  -- has two bytes of RAM at the stack pointer, which is `p + 2`.
  pub record Enters (p : ℕ) (m : Machine H W) : Type 0 where
    pub ready : IsReady m
    pub deferred : m.defer_irq ≡ true
    pub target : m.new_irq_pc < 65536
    pub vector : m.actual_irq_vector < m.irq_system.vector_table_size
    pub size : m.device.pc_size ≡ 2
    pub bounded : IsBounded m.device
    pub room : HasRoom 2 m.device
    pub at : m.device.stack.stack_pointer ≡ p + 2

  pub step_core-ready :
      (hw : Hardware H (Machine H W)) (finished : Bool) (m m' : Machine H W)
      → IsReady m
      → next_instruction hw m ≡ ok m'
      → step_core hw finished false m ≡ finish false (advance m')
  unfolding step_core
  step_core-ready hw finished m m' ready e =
      rw ready.idle
        (rw ready.no_break (rw ready.no_exit (ap (λ r. r >>= λ m'. finish false (advance m')) e)))

  -- The device in the handler.
  abbrev handler : Machine H W → Device → Device
  handler m d =
      let cleared = record d.status { i = false } in
      record d { status = cleared; pc = (m.new_irq_pc + 0xffff_ffff) % 0x1_0000 }

  abbrev marked : Machine H W → Device
  marked m =
      let d = m.device in
      record d { stack = set_return_point d.stack.stack_pointer m.actual_irq_vector d.stack }

  abbrev handled : Machine H W → Device → Machine H W
  handled m d =
      let irq = m.irq_system in
      record m {
        defer_irq = false;
        irq_system = record irq { irq_trace = update irq.irq_trace m.actual_irq_vector 1 };
        device = handler m d;
        cpu_cycles = pos 4;
      }

  next_instruction-handled :
      (hw : Hardware H (Machine H W)) (p : ℕ) (m : Machine H W) (d : Device)
      → Enters p m
      → push_addr m.device.pc (marked m) ≡ ok d
      → next_instruction hw m ≡ ok (handled m d)
  unfolding next_instruction enter_interrupt
  next_instruction-handled hw p m d enters e =
      let raised : (m.defer_irq && not (m.new_irq_pc == no_pc)) ≡ true =
        ground (arith, enters.target, enters.deferred) in
      rw (raised, next_instruction)
        (rw (trace-started m.actual_irq_vector m.irq_system enters.vector, enter_interrupt)
          (ap (λ r. r >>= λ d. ok (handled m d)) e))

  -- A detected interrupt is entered, on a core at the end of an instruction, without a break point or
  -- an exit point, with return addresses of two bytes and two bytes of RAM at its stack pointer: the
  -- handler starts at the vector's address with the I flag cleared after four clocks, of which this
  -- step is the first. RETI in the state that the handler starts with goes back to the instruction
  -- that was next, restores the stack pointer and sets the I flag.
  pub step_core-Returns :
      (hw : Hardware H (Machine H W)) (finished : Bool) (p : ℕ) (m : Machine H W)
      → Enters p m
      → m.device.pc < 65536
      → (m' : Machine H W) × (step_core hw finished false m ≡ finish false m')
        × (m'.device.pc ≡ m.new_irq_pc)
        × (m'.device.status.i ≡ false)
        × (m'.cpu_cycles ≡ pos 3)
        × (m'.defer_irq ≡ false)
        × (m'.irq_system.irq_trace m.actual_irq_vector ≡ 1)
        × (d' : Device) × (run_reti m'.device ≡ ok (d', pos 4))
        × Returns m.device.pc (p + 2) d'
  unfolding advance next_pc set_return_point ◌+ℤ◌
  step_core-Returns hw finished p m enters word =
      let d = m.device in
      let c = d.stack.stack_ceil in
      let down =
        push_addr_two d.pc p c (marked m) enters.size
          (record { pointer = enters.at; stack_end = refl })
          (omega (arith, enters.bounded.bound, enters.at)) enters.bounded.ceiling
          (λ a h k.
            enters.room.in_ram a (omega (arith, k, enters.at)) (omega (arith, h, enters.at))) in
      let d' = down.0 in
      let m' = advance (handled m d') in
      let size : d'.pc_size ≡ 2 = ap (λ (e : Device). e.pc_size) (sym down.5) ∙ enters.size in
      let again =
        reti-Returns d.pc p c m'.device size
          (record { pointer = down.2.pointer; stack_end = down.2.stack_end })
          (omega (arith, enters.bounded.bound, enters.at)) enters.bounded.ceiling word
          (record {
            high_byte = down.3.high_byte;
            low_byte = down.3.low_byte;
            in_ram = down.3.in_ram;
          }) in
      (
        m',
        step_core-ready hw finished m (handled m d') enters.ready
            (next_instruction-handled hw p m d' enters down.1),
        omega (arith, enters.target),
        refl,
        refl,
        refl,
        update_same m.irq_system.irq_trace m.actual_irq_vector 1,
        again.0,
        again.1,
        again.2,
      )
