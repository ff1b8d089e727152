-- ===== src/Irq/External.antt =====
-- External interrupts: `ExternalIRQHandler` and `ExternalIRQSingle` (src/externalirq.h, src/externalirq.cpp).
-- The levels of the pins come from outside.
pub mod Level
use simulavr.Prelude.{ℕ, zero, suc, ◌+◌, ◌-◌, ◌*◌, bit_and, bit_or, bit_xor, update}
use simulavr.Prelude.{Bool, true, false, not, ◌&&◌, ◌||◌, ◌==◌, ltb, if◌then◌else◌}
use simulavr.Prelude.Bits.{◌<<<◌, ◌>>>◌, u8}
use simulavr.Core.Result.{Result, ok, ◌>>=◌}
use simulavr.Irq.{Hardware, HwIrqSystem, set_irq_flag}

-- `ExternalIRQSingle`; `pin` is the level of its pin, `state` the one that was saved.
pub record ExternalIrqSingle : Type 0 where
  pub bitshift : ℕ
  pub mask : ℕ
  pub mode : ℕ
  pub state : Bool
  pub two_bit_mode : Bool
  pub mode_8515 : Bool

abbrev pub mode_level_low : ℕ
mode_level_low = 0

abbrev pub mode_edge_all : ℕ
mode_edge_all = 1

abbrev pub mode_edge_fall : ℕ
mode_edge_fall = 2

abbrev pub mode_edge_rise : ℕ
mode_edge_rise = 3

-- `fireAgain` and `mustSetFlagOnFire`.
unfoldable pub fire_again : ExternalIrqSingle → Bool
fire_again s = (s.mode == mode_level_low) && not s.state

unfoldable pub must_set_flag_on_fire : ExternalIrqSingle → Bool
must_set_flag_on_fire s = not (s.mode == mode_level_low)

-- `ChangeMode`, without its warning, and `ResetMode`.
unfoldable pub change_mode : ℕ → ExternalIrqSingle → ExternalIrqSingle
change_mode m s = record s { mode = if s.two_bit_mode then m else u8 (m + mode_edge_fall) }

unfoldable pub reset_mode : ExternalIrqSingle → ExternalIrqSingle
reset_mode s = record s { mode = 0 }

-- `ExternalIRQ::set_from_reg` and `get_from_client`, for the control register.
unfoldable pub set_control : ℕ → ExternalIrqSingle → ExternalIrqSingle
set_control nv s = change_mode (bit_and nv s.mask >>> s.bitshift) s

unfoldable pub get_control : ℕ → ExternalIrqSingle → ℕ
get_control v s = u8 (bit_or (bit_and v (0xff - s.mask)) (s.mode <<< s.bitshift))

-- `PinStateHasChanged`: whether the interrupt fires, and the source with the level saved.
unfoldable pub fires : Bool → ExternalIrqSingle → Bool
fires level s =
    if s.mode == mode_level_low
    then not level
    else if s.mode == mode_edge_all
    then not s.mode_8515 && ((level && not s.state) || (not level && s.state))
    else if s.mode == mode_edge_fall
    then not level && s.state
    else if s.mode == mode_edge_rise
    then level && not s.state
    else false

-- `ExternalIRQHandler`, with `count` sources; `vector_index` is `vector2idx`.
pub record ExternalIrqHandler : Type 0 where
  pub count : ℕ
  pub extirqs : ℕ → ExternalIrqSingle
  pub irq_mask : ℕ
  pub irq_flag : ℕ
  pub reg_mask : ℕ
  pub vectors : ℕ → ℕ
  pub irqbits : ℕ → ℕ
  pub vector_index : ℕ → ℕ

-- A handler with the interrupt system that it calls, where its flags carry `this`.
pub record Board {ℓ} (H : Type ℓ) : Type ℓ where
  pub handler : ExternalIrqHandler
  pub irq_system : HwIrqSystem H

-- The bit of a source in the mask and flag registers is set.
abbrev pub has_bit : ℕ → ℕ → ExternalIrqHandler → Bool
has_bit reg idx x = not (bit_and reg (1 <<< x.irqbits idx) == 0)

-- `IsLevelInterrupt` and `LevelInterruptPending`.
unfoldable pub is_level_interrupt : ℕ → ExternalIrqHandler → Bool
is_level_interrupt vector x = not (must_set_flag_on_fire (x.extirqs (x.vector_index vector)))

unfoldable pub level_interrupt_pending : ℕ → ExternalIrqHandler → Bool
level_interrupt_pending vector x =
    let idx = x.vector_index vector in fire_again (x.extirqs idx) && has_bit x.irq_mask idx x

-- `Reset`.
unfoldable pub reset : ExternalIrqHandler → ExternalIrqHandler
reset x = record x { irq_mask = 0; irq_flag = 0; extirqs = λ i. reset_mode (x.extirqs i) }

-- `get_from_client`, for the mask and for the flag register.
unfoldable pub get_mask : ℕ → ExternalIrqHandler → ℕ
get_mask v x = bit_or (bit_and v (0xff - x.reg_mask)) x.irq_mask

unfoldable pub get_flag : ℕ → ExternalIrqHandler → ℕ
get_flag v x = bit_or (bit_and v (0xff - x.reg_mask)) x.irq_flag

-- `set_from_reg` for the flag register: a bit that is written as 1 clears its flag. It returns
-- `get_flag nv` of what it leaves.
unfoldable pub set_flag : ℕ → ExternalIrqHandler → ExternalIrqHandler
set_flag nv x = record x {
  irq_flag = bit_xor x.irq_flag (bit_and (bit_and nv x.reg_mask) x.irq_flag);
}

module _ {ℓ} {H : Type ℓ} (this : H) where
  -- The flag of a source is set in the interrupt system, if its mask bit is.
  unfoldable pub trigger : ℕ → Board H → Result (Board H)
  trigger idx b =
      if has_bit b.handler.irq_mask idx b.handler
      then (set_irq_flag this (b.handler.vectors idx) b.irq_system >>= λ irq.
          ok (record b { irq_system = irq }))
      else ok b

  -- `fireInterrupt`.
  unfoldable pub fire_interrupt : ℕ → Board H → Result (Board H)
  fire_interrupt idx b =
      let x = b.handler in
      let flag =
        if must_set_flag_on_fire (x.extirqs idx)
        then bit_or x.irq_flag (1 <<< x.irqbits idx)
        else x.irq_flag in
      trigger idx (record b { handler = record x { irq_flag = flag } })

  -- `ClearIrqFlag`: the flag is set again if the source fires again.
  unfoldable pub clear_irq_flag : ℕ → Board H → Result (Board H)
  clear_irq_flag vector b =
      let x = b.handler in
      let idx = x.vector_index vector in
      let cleared : Board H = record {
        handler = record x { irq_flag = bit_and x.irq_flag (0xff - (1 <<< x.irqbits idx)) };
        irq_system = simulavr.Irq.clear_irq_flag vector b.irq_system;
      } in
      if fire_again (x.extirqs idx) then trigger idx cleared else ok cleared

  -- The pin of a source has changed.
  unfoldable pub pin_state_has_changed : ℕ → Bool → Board H → Result (Board H)
  pin_state_has_changed idx level b = do
    let s = b.handler.extirqs idx
    b' ← if fires level s then fire_interrupt idx b else ok b
    let saved = update b'.handler.extirqs idx (record s { state = level })
    let x = b'.handler
    ok (record b' { handler = record x { extirqs = saved } })

  -- `set_from_reg` for the mask register: a bit that is newly set triggers what is pending.
  unfoldable pub trigger_new : ℕ → ℕ → Board H → Result (Board H)
  trigger_new nv zero b = ok b
  trigger_new nv (suc idx) b = do
    b' ← trigger_new nv idx b
    let x = b'.handler
    let rises = has_bit nv idx x && not (has_bit x.irq_mask idx x)
    let waits = has_bit x.irq_flag idx x || fire_again (x.extirqs idx)
    elim (rises && waits) [
      | false ↦ ok b'
      | true ↦ do
        irq ← set_irq_flag this (x.vectors idx) b'.irq_system
        ok (record b' { irq_system = irq })
    ]

  unfoldable pub set_mask : ℕ → Board H → Result (Board H)
  set_mask nv b = do
    b' ← trigger_new nv b.handler.count b
    let x = b'.handler
    ok (record b' { handler = record x { irq_mask = bit_and nv x.reg_mask } })

-- The handler as a `Hardware`, which takes no cycles.
unfoldable pub hardware {ℓ} : {H : Type ℓ} → Hardware H (Board H)
hardware = record {
  cpu_cycle = λ h b. ok (b, 0);
  clear_irq_flag = λ h vector b. clear_irq_flag h vector b;
  is_level_interrupt = λ h vector b. is_level_interrupt vector b.handler;
  level_interrupt_pending = λ h vector b. level_interrupt_pending vector b.handler;
  reset = λ h b. ok (record b { handler = reset b.handler });
  same = λ h k. true;
}
