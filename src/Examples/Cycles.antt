-- ===== src/Examples/Cycles.antt =====
-- Steps of the core (src/avrdevice.cpp) with three peripherals that are on the cycle list from their
-- constructors on, as in src/atmega8.cpp: the flash programming engine, a prescaler and the watchdog.
use simulavr.Prelude.{ℕ, ◌-◌, ◌*◌, ◌≡◌, refl, arith, true, false, none, some, [], ◌∷◌}
use simulavr.Prelude.{Bool, if◌then◌else◌}
use simulavr.Prelude.Int.{pos}
use simulavr.Core.Device.{Device}
use simulavr.Core.Execute.{execute}
use simulavr.Core.Execute.Jump.{run_rjmp, relative}
use simulavr.Core.Result.{Result, ok, ◌>>=◌}
use simulavr.Decode.Instruction.{avr_op_rjmp}
use simulavr.Examples.{device, flash}
use simulavr.Flash.{AvrFlash, get_instruction}
use simulavr.Irq.{Hardware, HwIrqSystem}
use simulavr.Machine.{Machine, is_busy, contains, next_pc, reset}
use simulavr.Machine.Interrupt.{IsReady}
use simulavr.Machine.Periphery.{Periphery, periphery, Ticks}
use simulavr.Machine.Timing.{steps, HasTicks, Fetches, steps-execute}
use simulavr.Periph.Spm
use simulavr.Periph.Spm.{FlashProgramming, action_noop, ops_noop}
use simulavr.Periph.Wado
use simulavr.Periph.Wado.{Wado}
use simulavr.Timer.Prescaler
use simulavr.Timer.Prescaler.{HwPrescaler}

data Part : Type 0 where
  prescaler watchdog programming : Part

abbrev State : Type 0
State = Machine Part HwPrescaler

-- The cycle of the watchdog, which may reset the core.
abbrev watchdog_cycle : (State → Result State) → State → Result (State × ℕ)
watchdog_cycle restart m = elim m.device.wado [
  | none ↦ ok (m, 0)
  | some w ↦
      let r = Wado.cpu_cycle m.device.now w in
      let m' = record m { device = record m.device { wado = some (r.0) } } in
      if r.1 then (restart m' >>= λ m''. ok (m'', 0)) else ok (m', 0)
]

abbrev programming_cycle : State → Result (State × ℕ)
programming_cycle m = elim m.device.spm_register [
  | none ↦ ok (m, 0)
  | some p ↦
      let r = Spm.cpu_cycle m.device.now p in
      ok (record m { device = record m.device { spm_register = some (r.0) } }, if r.1 then 1 else 0)
]

abbrev cycle : (State → Result State) → Part → State → Result (State × ℕ)
cycle restart prescaler m = ok (record m { hardware = Prescaler.cpu_cycle m.hardware }, 0)
cycle restart watchdog m = watchdog_cycle restart m
cycle restart programming m = programming_cycle m

abbrev same_part : Part → Part → Bool
same_part prescaler prescaler = true
same_part watchdog watchdog = true
same_part programming programming = true
same_part _ _ = false

-- The reset list of the core is empty, so that its reset calls none of a peripheral.
abbrev parts : Hardware Part State
parts = record {
  cpu_cycle = cycle (λ m. ok m);
  clear_irq_flag = λ h v m. ok m;
  is_level_interrupt = λ h v m. false;
  level_interrupt_pending = λ h v m. false;
  reset = λ h m. ok m;
  same = same_part;
}

abbrev with_reset : Hardware Part State
with_reset = record parts { cpu_cycle = cycle (reset parts) }

-- The watchdog and the engine after their reset.
abbrev at_rest : Wado
at_rest = record { wdtcr = 0; cnt_wde = 0; time_out_at = 0 }

abbrev engine : FlashProgramming
engine = record {
  page_size = 32;
  nrww_addr = 0xc00;
  spmcr_val = 0;
  spmcr_opr_bits = 0x1f;
  spmcr_valid_bits = 0x9f;
  opr_enable_count = 0;
  action = action_noop;
  spm_opr = ops_noop;
  timeout = 0;
  temp_buffer = λ i. 0xff;
  is_at_mega = true;
}

abbrev irqs : HwIrqSystem Part
irqs = record {
  bytes_per_vector = 2;
  vector_table_size = 19;
  irq_trace = λ v. 0;
  irq_partner_list = λ v. none;
  debug_interrupt_table = λ v. none;
}

-- Every word of the flash is decoded as RJMP.
abbrev jumps : AvrFlash
jumps = record flash { decoded = λ w. some (avr_op_rjmp (pos 3)) }

abbrev core : Device
core = record device { flash = jumps; wado = some at_rest; spm_register = some engine }

-- The prescaler is about to wrap.
abbrev jumping : State
jumping = record {
  device = core;
  irq_system = irqs;
  hw_cycle_list = programming ∷ prescaler ∷ watchdog ∷ [];
  hw_reset_list = [];
  hardware = record {
    reset_bit = some 0;
    reset_sync_bit = none;
    pre_scale_value = 1023;
    count_enable = true;
  };
  bp = [];
  ep = [];
  cpu_cycles = pos 0;
  c_pc = 4;
  defer_irq = false;
  new_irq_pc = 0xffff_ffff;
  actual_irq_vector = 0;
  clock_freq = 250;
  stopped = false;
}

abbrev tick : ℕ → Part → Periphery Part HwPrescaler → Periphery Part HwPrescaler
tick now prescaler s = record s { hardware = Prescaler.cpu_cycle s.hardware }
tick now watchdog s = record s { wado = some at_rest }
tick now programming s = record s { spm_register = some engine }

-- The watchdog and the engine are at rest.
abbrev Calm : Periphery Part HwPrescaler → Type 0
Calm s = (s.wado ≡ some at_rest) × (s.spm_register ≡ some engine)

prescaler-Ticks : Ticks with_reset tick Calm prescaler
prescaler-Ticks = record { cycle = λ m calm. refl; kept = λ now s calm. calm }

watchdog-Ticks : Ticks with_reset tick Calm watchdog
unfolding Wado.cpu_cycle
watchdog-Ticks = record { cycle = λ m calm. rw calm.0 refl; kept = λ now s calm. (refl, calm.1) }

programming-Ticks : Ticks with_reset tick Calm programming
unfolding Spm.cpu_cycle
programming-Ticks = record { cycle = λ m calm. rw calm.1 refl; kept = λ now s calm. (calm.0, refl) }

jumping-HasTicks : HasTicks with_reset tick Calm 4 jumping
jumping-HasTicks = record {
  enough = omega arith;
  all = (programming-Ticks, (prescaler-Ticks, (watchdog-Ticks, tt)));
  calm = (refl, refl);
}

jumping-IsReady : IsReady jumping
unfolding is_busy contains
jumping-IsReady = record { idle = refl; no_break = refl; no_exit = refl }

jumping-Fetches : Fetches jumping.device (avr_op_rjmp (pos 3))
unfolding get_instruction
jumping-Fetches = record { inside = omega arith; fetched = refl }

abbrev target : Device
target = relative (pos 3) (record jumping.device { now = 250 })

jumping-executed :
    execute (avr_op_rjmp (pos 3)) (record jumping.device { now = 250 }) ≡ ok (target, pos 2)
unfolding execute run_rjmp
jumping-executed = refl

-- The prescaler has counted both clocks.
steps-execute_example :
    (m' : State) × (steps with_reset tick Calm 4 2 (λ k. 500 - 250 * k) jumping ≡ ok m')
    × (m'.cpu_cycles ≡ pos 0)
    × (record (next_pc target) {
      now = m'.device.now;
      wado = m'.device.wado;
      spm_register = m'.device.spm_register;
    }
        ≡ m'.device)
    × (periphery m'
        ≡ record (periphery jumping) { hardware = record jumping.hardware { pre_scale_value = 1 } })
unfolding Prescaler.cpu_cycle
steps-execute_example =
    steps-execute with_reset tick Calm 4 1 (λ k. 500 - 250 * k) jumping (avr_op_rjmp (pos 3)) target
      jumping-HasTicks jumping-IsReady refl refl jumping-Fetches jumping-executed (refl, refl)
