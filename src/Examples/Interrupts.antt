-- ===== src/Examples/Interrupts.antt =====
-- Interrupts and the steps of the core (src/irqsystem.cpp, src/avrdevice.cpp) with two peripherals: `false`
-- has an interrupt at vector 3, and leaves the cycle list in its cycle. A handler of external
-- interrupts (src/externalirq.cpp) has a level interrupt at vector 5.
use simulavr.Prelude.{ℕ, ◌+◌, ◌-◌, ◌≡◌, ap, sym, inl, refl, arith, Bool, true, false, not, ◌==◌}
use simulavr.Prelude.{Option, none, some, List, [], ◌∷◌, update, if◌then◌else◌}
use simulavr.Prelude.Int.{pos}
use simulavr.Core.Device.{Device}
use simulavr.Core.Execute.Jump.{run_reti}
use simulavr.Core.Result.{Result, ok, abort, dangling_iterator}
use simulavr.Examples.{device, device-IsBounded, device-HasRoom}
use simulavr.Irq.{Hardware, HwIrqSystem, get_new_pc}
use simulavr.Irq.Priority.{IsLowest, get_new_pc-IsLowest}
use simulavr.Irq.External.{Board, ExternalIrqSingle, hardware}
use simulavr.Irq.External.Level.{IsLevel, get_new_pc-level}
use simulavr.Machine.{Machine, step_core, finish, cycle_hardware, is_busy, contains}
use simulavr.Machine.Cycles.{each_cycle, cycle_hardware-each_cycle}
use simulavr.Machine.Interrupt.{IsReady, Enters, Returns, step_core-Returns}

abbrev equal : Bool → Bool → Bool
equal false b = not b
equal true b = b

abbrev pending : ℕ → Option Bool
pending v = if v == 3 then some false else if v == 5 then some true else none

abbrev irqs : (ℕ → Option Bool) → HwIrqSystem Bool
irqs list = record {
  bytes_per_vector = 2;
  vector_table_size = 20;
  irq_trace = λ v. 0;
  irq_partner_list = list;
  debug_interrupt_table = λ v. none;
}

abbrev machine : (ℕ → Option Bool) → List Bool → Machine Bool (Unit {0})
machine list cycle_list = record {
  device = device;
  irq_system = irqs list;
  hw_cycle_list = cycle_list;
  hw_reset_list = [];
  hardware = tt;
  bp = [];
  ep = [];
  cpu_cycles = pos 0;
  c_pc = 4;
  defer_irq = false;
  new_irq_pc = 0xffff_ffff;
  actual_irq_vector = 0;
  clock_freq = 250;
  stopped = false;
}

abbrev taken_off : Bool → Machine Bool (Unit {0}) → Machine Bool (Unit {0})
taken_off true m = m
taken_off false m = record m { hw_cycle_list = true ∷ [] }

abbrev parts : Hardware Bool (Machine Bool (Unit {0}))
parts = record {
  cpu_cycle = λ h m. ok (taken_off h m, 0);
  clear_irq_flag = λ h v m. ok (record m {
    irq_system = record m.irq_system {
      irq_partner_list = update m.irq_system.irq_partner_list v none;
    };
  });
  is_level_interrupt = λ h v m. h;
  level_interrupt_pending = λ h v m. false;
  reset = λ h m. ok m;
  same = equal;
}

abbrev steady : Hardware Bool (Machine Bool (Unit {0}))
steady = record parts { cpu_cycle = λ h m. ok (m, if h then 1 else 0) }

abbrev irq_of : Machine Bool (Unit {0}) → HwIrqSystem Bool
irq_of m = m.irq_system

abbrev with_irqs : (ℕ → Option Bool) → Machine Bool (Unit {0})
with_irqs list = record (machine list []) { irq_system = irqs list }

edge-IsLowest : IsLowest parts irq_of 3 false (machine pending [])
edge-IsLowest = record { inside = omega arith; pending = refl; lower = λ u p. ground arith }

get_new_pc-IsLowest_example :
    get_new_pc parts irq_of 0 (machine pending []) ≡ ok (3, 3, with_irqs (update pending 3 none))
get_new_pc-IsLowest_example =
    get_new_pc-IsLowest parts irq_of 0 3 false (machine pending [])
      (with_irqs (update pending 3 none)) edge-IsLowest refl (inl refl)

-- A handler of two external interrupts, of which the second, at vector 5, is a level interrupt.
abbrev source : ExternalIrqSingle
source = record {
  bitshift = 0;
  mask = 3;
  mode = 0;
  state = true;
  two_bit_mode = true;
  mode_8515 = false;
}

abbrev board : Board Bool
board = record {
  handler = record {
    count = 2;
    extirqs = λ i. source;
    irq_mask = 0xc0;
    irq_flag = 0;
    reg_mask = 0xc0;
    vectors = λ i. i + 4;
    irqbits = λ i. i + 6;
    vector_index = λ v. v - 4;
  };
  irq_system = irqs (update (λ v. none) 5 (some true));
}

board-IsLevel : IsLevel true 5 board
board-IsLevel = record {
  lowest = record { inside = omega arith; pending = refl; lower = λ u p. ground arith };
  low_level = refl;
  own_vector = refl;
}

get_new_pc-level_example :
    (true ≡ false
      → (b' : Board Bool) × (get_new_pc hardware (λ b. b.irq_system) 0 board ≡ ok (5, 5, b'))
        × (b'.irq_system.irq_partner_list 5 ≡ some true))
    × (true ≡ true → get_new_pc hardware (λ b. b.irq_system) 0 board ≡ abort dangling_iterator)
get_new_pc-level_example = get_new_pc-level true 0 5 board board-IsLevel refl

abbrev two : List Bool
two = false ∷ true ∷ []

abbrev listed : Result (Machine Bool (Unit {0}) × ℕ) → List Bool
listed (ok r) = r.0.hw_cycle_list
listed (abort e) = []

steady_keeps :
    (p : Bool) (m m' : Machine Bool (Unit {0})) (n : ℕ)
    → steady.cpu_cycle p m ≡ ok (m', n)
    → m'.hw_cycle_list ≡ m.hw_cycle_list
steady_keeps p m m' n e = sym (ap listed e)

cycle_hardware-each_cycle_example :
    cycle_hardware steady 3 0 false (machine pending two)
    ≡ each_cycle steady two false (machine pending two)
cycle_hardware-each_cycle_example =
    cycle_hardware-each_cycle steady steady_keeps false (machine pending two)

abbrev raised : Machine Bool (Unit {0})
raised = record (machine pending []) { defer_irq = true; new_irq_pc = 3; actual_irq_vector = 3 }

raised-IsReady : IsReady raised
unfolding is_busy contains
raised-IsReady = record { idle = refl; no_break = refl; no_exit = refl }

raised-Enters : Enters 0x45d raised
raised-Enters = record {
  ready = raised-IsReady;
  deferred = refl;
  target = omega arith;
  vector = omega arith;
  size = refl;
  bounded = device-IsBounded;
  room = device-HasRoom 2 (omega arith);
  at = refl;
}

step_core-Returns_example :
    (m' : Machine Bool (Unit {0})) × (step_core parts false false raised ≡ finish false m')
    × (m'.device.pc ≡ 3)
    × (m'.device.status.i ≡ false)
    × (m'.cpu_cycles ≡ pos 3)
    × (m'.defer_irq ≡ false)
    × (m'.irq_system.irq_trace 3 ≡ 1)
    × (d' : Device) × (run_reti m'.device ≡ ok (d', pos 4))
    × Returns 4 0x45f d'
step_core-Returns_example = step_core-Returns parts false 0x45d raised raised-Enters (omega arith)
