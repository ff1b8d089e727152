-- ===== src/Examples.antt =====
-- Concrete inputs at which the theorems apply: a core with 1 KB of RAM behind its IO space, like that
-- of the ATmega8 (src/atmega8.cpp), and a flash of 16 words.
pub mod Programs
pub mod Numbers
pub mod Control
pub mod Steps
pub mod Clock
pub mod Interrupts
pub mod Cycles
pub mod Eeprom
pub mod Timers
pub mod Counting
pub mod Serial
pub mod Requests
use simulavr.Prelude.{
  ℕ, ◌+◌, ◌*◌, ◌%◌, ◌≤◌, ◌≡◌, refl, arith, true, false, none, some, [], ltb, if◌then◌else◌,
}
use simulavr.Core.Device.{Device, IsValid, ram, invalid_mem}
use simulavr.Core.Stack.RoundTrip.{IsBounded, HasRoom}
use simulavr.Decode.Case.{CoreFlags, full}
use simulavr.Decode.Lookup.{lookup_opcode}
use simulavr.Flash.{AvrFlash, word_at}
use simulavr.Flash.Coherence.{IsCoherent}
use simulavr.Sreg.{clear}

-- The flags of a core without multiplication.
abbrev pub small_core : CoreFlags
small_core = record full { mul_instructions = false }

abbrev pub blank : ℕ → ℕ
blank a = 0xff

-- Every word is 0xffff, and is decoded.
abbrev pub flash : AvrFlash
flash = record {
  size = 32;
  memory = blank;
  decoded = λ w. some (lookup_opcode full (word_at blank (w * 2)));
  rww_lock = 0;
  flash_loaded = false;
}

pub flash-IsCoherent : IsCoherent full flash
unfolding IsCoherent
flash-IsCoherent w h = refl

-- The cells hold multiples of 7, and the stack stands at the end of RAM.
abbrev pub device : Device
device = record {
  pc = 4;
  pc_size = 2;
  flags = full;
  status = clear;
  cells = λ a. a * 7 % 256;
  rw = λ a. if ltb a 0x460 then ram else invalid_mem;
  io_space_size = 0x40;
  flash = flash;
  stack = record {
    stack_pointer = 0x45f;
    lowest_stack_pointer = 0x45f;
    stack_ceil = 0x460;
    return_point_list = [];
    finished = [];
  };
  rampz = none;
  eind = some (record { reg_val = 0; reg_mask = 0x3f });
  spm_register = none;
  wado = none;
  abort_on_invalid_access = true;
  now = 0;
  ports = λ a l. 0;
  log = [];
}

pub device-IsValid : IsValid device
device-IsValid = record {
  registers = λ r h. ground arith;
  bytes = λ a. omega arith;
  pc_word = omega arith;
  stack_bound = omega arith;
  ceiling = omega arith;
  port_bytes = λ a l. omega arith;
}

pub device-IsBounded : IsBounded device
device-IsBounded = record { bound = omega arith; ceiling = omega arith }

pub device-HasRoom : (n : ℕ) → n ≤ 0x45f → HasRoom n device
device-HasRoom n h = record { depth = h; in_ram = λ a low high. ground (arith, low) }
