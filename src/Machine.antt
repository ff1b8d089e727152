-- ===== src/Machine.antt =====
-- A step of the core: `AvrDevice::Step` with `opIsCli`, and the list of the peripherals that follow its
-- cycles (src/avrdevice.h, src/avrdevice.cpp). Traces and the dumps of `dumpManager` are left out.
pub mod Interrupt
pub mod Timing
pub mod Cycles
pub mod Periphery
pub mod Skips
use simulavr.Prelude.{ℕ, zero, suc, ◌+◌, ◌*◌, ◌/◌, ◌%◌, bit_and, bit_or}
use simulavr.Prelude.{Bool, true, false, not, ◌&&◌, ◌||◌, ltb, leb, ◌==◌, if◌then◌else◌}
use simulavr.Prelude.{List, [], ◌∷◌, ◌++◌, Option, none, some, length}
use simulavr.Prelude.Bits.{◌>>>◌, ◌<<<◌}
use simulavr.Prelude.Int.{ℤ, pos, negsuc, ◌+ℤ◌}
use simulavr.Core.Device.{Device, Member, sreg, register_space_size}
use simulavr.Core.Memory.{set_return_point}
use simulavr.Core.Execute.{execute}
use simulavr.Core.Stack.{push_addr}
use simulavr.Core.Result.{Result, ok, abort, deref, out_of_rounds, out_of_flash, ◌>>=◌}
use simulavr.Clock.System.{Stepped}
use simulavr.Decode.Instruction.{Instruction}
use simulavr.Flash.{get_opcode, get_instruction}
use simulavr.Sreg.{from_int}
use simulavr.Irq.{Hardware, HwIrqSystem, get_new_pc, irq_handler_started, no_pc}

-- What `AvrDevice` has beside the state of its instructions; `hardware` is the state of the
-- peripherals, and `stopped` whether `SystemClock::Stop` was called.
pub record Machine {ℓ} (H W : Type ℓ) : Type ℓ where
  pub device : Device
  pub irq_system : HwIrqSystem H
  pub hw_cycle_list : List H
  pub hw_reset_list : List H
  pub hardware : W
  pub bp : List ℕ
  pub ep : List ℕ
  pub cpu_cycles : ℤ
  pub c_pc : ℕ
  pub defer_irq : Bool
  pub new_irq_pc : ℕ
  pub actual_irq_vector : ℕ
  pub clock_freq : ℕ
  pub stopped : Bool

abbrev is_status_register : Member → Bool
is_status_register Member.sreg = true
is_status_register _ = false

-- `opIsCli`: CLI, or an OUT to the status register that clears its I flag.
unfoldable pub op_is_cli : ℕ → Device → Bool
op_is_cli opcode d =
    if opcode == 0x94f8
    then true
    else let addr = bit_or (bit_and (opcode >>> 5) 0x0030) (bit_and opcode 0x000f) in
      let reg = bit_and (opcode >>> 4) 0x001f in
      (bit_and opcode 0xb800 == 0xb800)
      && is_status_register (d.rw (register_space_size + addr))
      && (bit_and (d.cells reg) 0x80 == 0)

-- `cpuCycles > 0`.
unfoldable pub is_busy : ℤ → Bool
is_busy (pos n) = ltb 0 n
is_busy (negsuc n) = false

-- `(cpuCycles < 0) ? cpuCycles : 0`.
unfoldable pub return_code : ℤ → ℤ
return_code (pos n) = pos 0
return_code (negsuc n) = negsuc n

-- `find` in a vector of addresses.
unfoldable pub contains : ℕ → List ℕ → Bool
contains a [] = false
contains a (b ∷ bs) = (b == a) || contains a bs

-- `PC++` on a word.
unfoldable pub next_pc : Device → Device
next_pc d = record d { pc = (d.pc + 1) % 0x1_0000 }

module _ {ℓ} {H : Type ℓ} where
  unfoldable pub holds : (H → H → Bool) → H → List H → Bool
  holds same h [] = false
  holds same h (x ∷ xs) = same x h || holds same h xs

  unfoldable pub without : (H → H → Bool) → H → List H → List H
  without same h [] = []
  without same h (x ∷ xs) = let rest = without same h xs in if same x h then xs else x ∷ rest

  abbrev pub at_index : ℕ → List H → Option H
  at_index i [] = none
  at_index zero (x ∷ xs) = some x
  at_index (suc i) (x ∷ xs) = at_index i xs

module _ {ℓ} {H W : Type ℓ} where
  -- `AddToCycleList` and `RemoveFromCycleList`.
  unfoldable pub add_to_cycle_list : (H → H → Bool) → H → Machine H W → Machine H W
  add_to_cycle_list same h m =
      if holds same h m.hw_cycle_list
      then m
      else record m { hw_cycle_list = m.hw_cycle_list ++ (h ∷ []) }

  unfoldable pub remove_from_cycle_list : (H → H → Bool) → H → Machine H W → Machine H W
  remove_from_cycle_list same h m = record m { hw_cycle_list = without same h m.hw_cycle_list }

  -- The step that is over for the clock, which asks for the next after `next` ns.
  unfoldable pub leave : ℤ → Bool → ℤ → Machine H W → Result (Stepped (Machine H W))
  leave code finished next m =
      ok record { world = m; code = code; finished = finished; next = next; stop = m.stopped }

  -- The interrupt that was detected is entered.
  unfoldable pub enter_interrupt : Machine H W → Result (Machine H W)
  enter_interrupt m = do
    irq ← irq_handler_started m.actual_irq_vector m.irq_system
    let d = m.device
    let marked = set_return_point d.stack.stack_pointer m.actual_irq_vector d.stack
    d' ← push_addr d.pc (record d { stack = marked })
    let cleared = record d'.status { i = false }
    ok (record m {
      defer_irq = false;
      irq_system = irq;
      device = record d' { status = cleared; pc = (m.new_irq_pc + 0xffff_ffff) % 0x1_0000 };
      cpu_cycles = pos 4;
    })

  -- The instruction at the program counter is executed.
  unfoldable pub run_instruction : Machine H W → Result (Machine H W)
  run_instruction m = elim (leb m.device.flash.size (m.device.pc * 2)) [
    | true ↦ abort out_of_flash
    | false ↦ do
      instruction ← get_instruction m.device.flash m.device.pc
      de ← deref instruction
      r ← execute de m.device
      ok (record m { device = r.0; cpu_cycles = r.1 })
  ]

  -- The end of a step: the time to the next is a tick.
  unfoldable pub finish : Bool → Machine H W → Result (Stepped (Machine H W))
  finish hw_wait m =
      leave (return_code m.cpu_cycles) (not (is_busy m.cpu_cycles || hw_wait)) (pos m.clock_freq) m

  -- `PC++` and `cpuCycles--`.
  unfoldable pub advance : Machine H W → Machine H W
  advance m = record m { device = next_pc m.device; cpu_cycles = m.cpu_cycles +ℤ negsuc 0 }

module _ {ℓ} {H W : Type ℓ} (hw : Hardware H (Machine H W)) where
  -- The loop over `hwCycleList`, which the peripherals may change under way.
  unfoldable pub cycle_hardware : ℕ → ℕ → Bool → Machine H W → Result (Machine H W × Bool)
  cycle_hardware zero i hw_wait m = abort out_of_rounds
  cycle_hardware (suc rounds) i hw_wait m = elim (at_index i m.hw_cycle_list) [
    | none ↦ ok (m, hw_wait)
    | some p ↦ do r ← hw.cpu_cycle p m; cycle_hardware rounds (i + 1) (hw_wait || ltb 0 (r.1)) (r.0)
  ]

  -- With I set, and no instruction ahead that clears it, a pending interrupt is detected.
  unfoldable pub detect_interrupt : Machine H W → Result (Machine H W)
  detect_interrupt m = elim m.device.status.i [
    | false ↦ ok m
    | true ↦ do
      opcode ← get_opcode m.device.flash m.device.pc
      elim (op_is_cli opcode m.device) [
        | true ↦ ok m
        | false ↦ do
          r ← get_new_pc hw (λ s. s.irq_system) m.actual_irq_vector m
          let m' = record r.2 { new_irq_pc = r.0; actual_irq_vector = r.1 }
          elim (r.0 == no_pc) [ true ↦ ok m' | false ↦ ok (record m' { defer_irq = true }) ]
      ]
  ]

  -- The core at the end of its instruction, not held by a peripheral.
  unfoldable pub next_instruction : Machine H W → Result (Machine H W)
  next_instruction m = elim (m.defer_irq && not (m.new_irq_pc == no_pc)) [
    | true ↦ enter_interrupt m
    | false ↦ detect_interrupt m >>= run_instruction
  ]

  -- What the step does after the peripherals' cycle.
  unfoldable pub step_core : Bool → Bool → Machine H W → Result (Stepped (Machine H W))
  step_core finished hw_wait m =
      if hw_wait
      then finish true m
      else if is_busy m.cpu_cycles
      then finish false (record m { cpu_cycles = m.cpu_cycles +ℤ negsuc 0 })
      else if contains m.device.pc m.bp
      then leave (negsuc 1) true (pos m.clock_freq) m
      else if contains m.device.pc m.ep
      then leave (pos 0) finished (negsuc 0) (record m { stopped = true })
      else (next_instruction m >>= λ m'. finish false (advance m'))

  -- `Step`, at the time `now`. The rounds bound the loop over the cycle list.
  unfoldable pub step : ℕ → Bool → ℕ → Machine H W → Result (Stepped (Machine H W))
  step rounds finished now m = do
    let current = if is_busy m.cpu_cycles then m.c_pc else m.device.pc
    let timed = record m.device { now = now }
    c ← cycle_hardware rounds 0 false (record m { c_pc = current; device = timed; stopped = false })
    step_core finished (c.1) (c.0)

  -- `Reset`. What an interrupt in preparation needs is not reset.
  unfoldable pub reset_all : List H → Machine H W → Result (Machine H W)
  reset_all [] m = ok m
  reset_all (p ∷ ps) m = hw.reset p m >>= reset_all ps

  unfoldable pub reset : Machine H W → Result (Machine H W)
  reset m = do
    let d = m.device
    m' ← reset_all m.hw_reset_list (record m { device = record d { pc_size = 2; pc = 0 } })
    let d' = m'.device
    ok (record m' {
      device = record d' { pc = 0; status = from_int 0 };
      c_pc = 0;
      cpu_cycles = pos 0;
    })
