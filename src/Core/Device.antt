-- ===== src/Core/Device.antt =====
-- The state of the core: `AvrDevice` (src/avrdevice.h), with its memory map `rw`, the stack in RAM
-- `HWStackSram` (src/hwstack.h) and the registers that the core reaches through pointers.
use simulavr.Prelude.{ℕ, Bool, Option, List, ◌≡◌, ◌≤◌, ◌<◌}
use simulavr.Decode.Case.{CoreFlags}
use simulavr.Flash.{AvrFlash}
use simulavr.Periph.Spm.{FlashProgramming}
use simulavr.Periph.Wado.{Wado}
use simulavr.Sreg.{Sreg}

-- The class of a `RWMemoryMember` that stands in `rw`: `RAM`, `InvalidMem`, `RWSreg`, the registers
-- of the stack, of `AddressExtensionRegister`, `HWWado` and `FlashProgramming`, and the registers of
-- any other peripheral.
pub data Member : Type 0 where
  ram invalid_mem sreg spl sph rampz_reg eind_reg wdtcr_reg spmcr_reg : Member
  port : Member

-- An access to a register of another peripheral.
pub data Access : Type 0 where
  read : (addr : ℕ) → Access
  write : (addr : ℕ) (val : ℕ) → Access

-- `AddressExtensionRegister`.
pub record ExtensionRegister : Type 0 where
  pub reg_val : ℕ
  pub reg_mask : ℕ

-- `HWStackSram`. A return point is a stack pointer with the interrupt vector whose
-- `IrqHandlerFinished` is then called; `finished` lists those calls, the last first.
pub record HwStackSram : Type 0 where
  pub stack_pointer : ℕ
  pub lowest_stack_pointer : ℕ
  pub stack_ceil : ℕ
  pub return_point_list : List (ℕ × ℕ)
  pub finished : List ℕ

-- `AvrDevice`. `ports` gives the value that a register of another peripheral returns, after the
-- accesses of `log`, the last first. `now` is the time of the simulation in ns.
pub record Device : Type 0 where
  pub pc : ℕ
  pub pc_size : ℕ
  pub flags : CoreFlags
  pub status : Sreg
  pub cells : ℕ → ℕ
  pub rw : ℕ → Member
  pub io_space_size : ℕ
  pub flash : AvrFlash
  pub stack : HwStackSram
  pub rampz : Option ExtensionRegister
  pub eind : Option ExtensionRegister
  pub spm_register : Option FlashProgramming
  pub wado : Option Wado
  pub abort_on_invalid_access : Bool
  pub now : ℕ
  pub ports : ℕ → List Access → ℕ
  pub log : List Access

abbrev pub register_space_size : ℕ
register_space_size = 32

abbrev pub total_io_space : ℕ
total_io_space = 0x1_0000

-- What the constructors of a device establish: the registers are RAM cells that hold bytes, and
-- the stack pointer lies below the ceiling, which is at most 64 KB.
pub record IsValid (d : Device) : Type 0 where
  pub registers : (r : ℕ) → r < register_space_size → d.rw r ≡ Member.ram
  pub bytes : (a : ℕ) → d.cells a < 256
  pub pc_word : d.pc < 0x1_0000
  pub stack_bound : d.stack.stack_pointer < d.stack.stack_ceil
  pub ceiling : d.stack.stack_ceil ≤ 0x1_0000
  pub port_bytes : (a : ℕ) (l : List Access) → d.ports a l < 256
