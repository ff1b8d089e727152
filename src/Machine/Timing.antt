-- ===== src/Machine/Timing.antt =====
-- The steps of an instruction in `AvrDevice::Step` (src/avrdevice.cpp): one that executes it, and one
-- for each further clock.
use simulavr.Prelude.{ℕ, zero, suc, ◌+◌, ◌*◌, ◌<◌, ◌≡◌, refl, ap, ◌∙◌, arith}
use simulavr.Prelude.{◌==◌, Bool, true, false, not, ◌&&◌, leb, ltb, some, length, if◌then◌else◌}
use simulavr.Prelude.Int.{ℤ, pos, negsuc, ◌+ℤ◌}
use simulavr.Core.Device.{Device}
use simulavr.Core.Execute.{execute}
use simulavr.Core.Result.{Result, ok, ◌>>=◌}
use simulavr.Decode.Instruction.{Instruction}
use simulavr.Flash.{get_instruction}
use simulavr.Irq.{Hardware, no_pc}
use simulavr.Machine.{Machine, is_busy, next_pc, advance, finish, leave}
use simulavr.Machine.{run_instruction, detect_interrupt, next_instruction, step_core, step}
use simulavr.Machine.Interrupt.{IsReady, step_core-ready}
use simulavr.Machine.Periphery.{
  Periphery, periphery, with_periphery, round, rounds, AllTick, round-Calm, cycle_hardware-round,
}

pos-less : (n : ℕ) → pos (suc n) +ℤ negsuc 0 ≡ pos n
unfolding ◌+ℤ◌
pos-less n =
    let some_left : leb 1 (suc n + 0) ≡ true = ground arith in rw some_left (ap pos (omega arith))

-- The instruction at the program counter can be fetched: it is in the flash, which is not locked
-- there, and it is decoded.
pub record Fetches (d : Device) (instruction : Instruction) : Type 0 where
  pub inside : d.pc * 2 < d.flash.size
  pub fetched : get_instruction d.flash d.pc ≡ ok (some instruction)

module _ {ℓ} {H W : Type ℓ} (hw : Hardware H (Machine H W))
    (tick : ℕ → H → Periphery H W → Periphery H W) (Calm : Periphery H W → Type 0) (bound : ℕ) where
  -- `n` steps of a core at the times `times`, the last step first. `bound` bounds the loops over the
  -- cycle list.
  abbrev pub steps : ℕ → (ℕ → ℕ) → Machine H W → Result (Machine H W)
  steps zero times m = ok m
  steps (suc n) times m = do s ← step hw bound false (times n) m; steps n times s.world

  -- The peripherals of the cycle list take their cycles without holding the core, and change nothing
  -- but their state.
  pub record HasTicks (m : Machine H W) : Type ℓ where
    pub enough : length m.hw_cycle_list < bound
    pub all : AllTick hw tick Calm m.hw_cycle_list
    pub calm : Calm (periphery m)

  -- The state that the step's core part starts with: the peripherals have taken their cycles.
  abbrev pub begun : ℕ → Machine H W → Machine H W
  begun now m =
      let current = if is_busy m.cpu_cycles then m.c_pc else m.device.pc in
      let timed = record m.device { now = now } in
      with_periphery (round tick now m.hw_cycle_list (periphery m))
        (record m { c_pc = current; device = timed; stopped = false })

  -- The same before that.
  abbrev timed_at : ℕ → Machine H W → Machine H W
  timed_at now m =
      let current = if is_busy m.cpu_cycles then m.c_pc else m.device.pc in
      let timed = record m.device { now = now } in
      record m { c_pc = current; device = timed; stopped = false }

  step-begun :
      (finished : Bool) (now : ℕ) (m : Machine H W)
      → HasTicks m
      → step hw bound finished now m ≡ step_core hw finished false (begun now m)
  unfolding step
  step-begun finished now m ticks =
      ap (λ r. r >>= λ c. step_core hw finished (c.1) (c.0))
        (cycle_hardware-round hw tick Calm bound (timed_at now m) ticks.enough ticks.all ticks.calm)

  step_core-busy :
      (finished : Bool) (m : Machine H W)
      → is_busy m.cpu_cycles ≡ true
      → step_core hw finished false m
        ≡ finish false (record m { cpu_cycles = m.cpu_cycles +ℤ negsuc 0 })
  unfolding step_core
  step_core-busy finished m busy = rw busy refl

  -- A step of a core that is still busy.
  abbrev waiting : ℕ → ℕ → Machine H W → Machine H W
  waiting now n m = record (begun now m) { cpu_cycles = pos n }

  waiting-HasTicks : (now n : ℕ) (m : Machine H W) → HasTicks m → HasTicks (waiting now n m)
  waiting-HasTicks now n m ticks = record {
    enough = ticks.enough;
    all = ticks.all;
    calm = round-Calm hw tick Calm m.hw_cycle_list now (periphery m) ticks.all ticks.calm;
  }

  step-waiting :
      (now n : ℕ) (m : Machine H W)
      → HasTicks m
      → m.cpu_cycles ≡ pos (suc n)
      → step hw bound false now m ≡ finish false (waiting now n m)
  unfolding is_busy ◌+ℤ◌
  step-waiting now n m ticks left =
      let some_left : ltb 0 (suc n) ≡ true = ground arith in
      let one_less : pos (suc n) +ℤ negsuc 0 ≡ pos n = pos-less n in
      step-begun false now m ticks
      ∙ step_core-busy false (begun now m) (ap is_busy left ∙ some_left)
      ∙ ap (λ c. finish false (record (begun now m) { cpu_cycles = c }))
          (ap (λ c. c +ℤ negsuc 0) left ∙ one_less)

  -- Nothing but the clocks left, the time and the address of the instruction has changed, and the
  -- peripherals have taken `n` cycles.
  pub record Waited (n : ℕ) (times : ℕ → ℕ) (m m' : Machine H W) : Type ℓ where
    pub over : m'.cpu_cycles ≡ pos 0
    pub same_device :
        record m.device {
          now = m'.device.now;
          wado = m'.device.wado;
          spm_register = m'.device.spm_register;
        }
        ≡ m'.device
    pub peripherals : periphery m' ≡ rounds tick m.hw_cycle_list n times (periphery m)

  steps-Waited :
      (n : ℕ) (times : ℕ → ℕ) (m : Machine H W)
      → HasTicks m
      → m.cpu_cycles ≡ pos n
      → (m' : Machine H W) × (steps n times m ≡ ok m') × Waited n times m m'
  unfolding finish leave
  steps-Waited zero times m ticks left =
      (m, refl, record { over = left; same_device = refl; peripherals = refl })
  steps-Waited (suc n) times m ticks left =
      let now = times n in
      let first = step-waiting now n m ticks left in
      let rest = steps-Waited n times (waiting now n m) (waiting-HasTicks now n m ticks) refl in
      (
        rest.0,
        ap (λ r. r >>= λ s. steps n times s.world) first ∙ rest.1,
        record {
          over = rest.2.over;
          same_device = rest.2.same_device;
          peripherals = rest.2.peripherals;
        },
      )

  -- What the first step of an instruction makes of the core.
  abbrev executed : Machine H W → Device → ℤ → Machine H W
  executed m d clocks = record m { device = d; cpu_cycles = clocks }

  detect-masked : (m : Machine H W) → m.device.status.i ≡ false → detect_interrupt hw m ≡ ok m
  unfolding detect_interrupt
  detect-masked m masked = simp (masked, detect_interrupt) refl

  run_instruction-executed :
      (m : Machine H W) (instruction : Instruction) (d : Device) (clocks : ℤ)
      → Fetches m.device instruction
      → execute instruction m.device ≡ ok (d, clocks)
      → run_instruction m ≡ ok (executed m d clocks)
  unfolding run_instruction
  run_instruction-executed m instruction d clocks fetches e =
      let inside : leb m.device.flash.size (m.device.pc * 2) ≡ false =
        ground (arith, fetches.inside) in
      rw (inside, run_instruction)
        (rw fetches.fetched (ap (λ r. r >>= λ x. ok (executed m (x.0) (x.1))) e))

  next_instruction-executed :
      (m : Machine H W) (instruction : Instruction) (d : Device) (clocks : ℤ)
      → m.defer_irq ≡ false
      → m.device.status.i ≡ false
      → Fetches m.device instruction
      → execute instruction m.device ≡ ok (d, clocks)
      → next_instruction hw m ≡ ok (executed m d clocks)
  unfolding next_instruction
  next_instruction-executed m instruction d clocks direct masked fetches e =
      let normal : (m.defer_irq && not (m.new_irq_pc == no_pc)) ≡ false =
        ap (λ b. b && not (m.new_irq_pc == no_pc)) direct in
      rw (normal, next_instruction)
        (ap (λ r. r >>= run_instruction) (detect-masked m masked)
          ∙ run_instruction-executed m instruction d clocks fetches e)

  -- The state of the peripherals when the instruction has left the device as `d`.
  abbrev pub left_by : Device → Periphery H W → Periphery H W
  left_by d s = record s { wado = d.wado; spm_register = d.spm_register }

  -- An instruction that takes `n + 1` clocks is over after as many steps, on a core at the end of the
  -- instruction before, with no interrupt detected and the I flag cleared, without a break
  -- point or an exit point at the instruction. The peripherals of the cycle list, fewer than the
  -- bound of the loop, do not hold the core and change nothing but their own state and the
  -- interrupts, under a condition on that state that their cycles and the instruction keep. The
  -- device is then as the instruction at the program counter left it in the first step, with the
  -- program counter increased by 1, and every peripheral has taken one cycle in each step: the first
  -- before the instruction was executed, and the other `n` behind it, in the state that it left.
  pub steps-execute :
      (n : ℕ) (times : ℕ → ℕ) (m : Machine H W) (instruction : Instruction) (d : Device)
      → HasTicks m
      → IsReady m
      → m.defer_irq ≡ false
      → m.device.status.i ≡ false
      → Fetches m.device instruction
      → execute instruction (begun (times n) m).device ≡ ok (d, pos (suc n))
      → Calm (left_by d (periphery (begun (times n) m)))
      → (m' : Machine H W) × (steps (suc n) times m ≡ ok m')
        × (m'.cpu_cycles ≡ pos 0)
        × (record (next_pc d) {
          now = m'.device.now;
          wado = m'.device.wado;
          spm_register = m'.device.spm_register;
        }
            ≡ m'.device)
        × (periphery m'
            ≡ rounds tick m.hw_cycle_list n times (left_by d (periphery (begun (times n) m))))
  unfolding finish leave advance next_pc ◌+ℤ◌
  steps-execute n times m instruction d ticks ready direct masked fetches e calm =
      let now = times n in
      let run =
        next_instruction-executed (begun now m) instruction d (pos (suc n)) direct masked
          (record { inside = fetches.inside; fetched = fetches.fetched }) e in
      let after = executed (begun now m) (next_pc d) (pos n) in
      let first : step hw bound false now m ≡ finish false after =
        step-begun false now m ticks
        ∙ step_core-ready hw false (begun now m) (executed (begun now m) d (pos (suc n)))
            (record { idle = ready.idle; no_break = ready.no_break; no_exit = ready.no_exit }) run
        ∙ ap (λ c. finish false (executed (begun now m) (next_pc d) c)) (pos-less n) in
      let still : HasTicks after = record { enough = ticks.enough; all = ticks.all; calm = calm } in
      let rest = steps-Waited n times after still refl in
      (
        rest.0,
        ap (λ r. r >>= λ s. steps n times s.world) first ∙ rest.1,
        rest.2.over,
        rest.2.same_device,
        rest.2.peripherals,
      )
