-- ===== src/Periph/Eeprom.antt =====
-- The EEPROM `HWEeprom` (src/hweeprom.h, src/hweeprom.cpp). Times are in ns since the start of the
-- simulation.
pub mod Write
pub mod Enable
pub mod Reset
pub mod Valid
use simulavr.Prelude.{ℕ, zero, suc, ◌+◌, ◌-◌, ◌*◌, bit_and, bit_or, update}
use simulavr.Prelude.{Bool, true, false, not, ◌&&◌, ◌||◌, ltb, leb, ◌==◌, if◌then◌else◌}
use simulavr.Prelude.Bits.{◌<<<◌, ◌>>>◌}
use simulavr.Core.Result.{Result, ok, abort, assert, ◌>>=◌, ◌>>◌}

pub data DevMode : Type 0 where
  normal at90s extended : DevMode

pub data OpState : Type 0 where
  ready enabled writing : OpState

-- `cycled` tells whether the EEPROM is in the cycle list of the core, `irq_flag` whether its flag is
-- set in the interrupt system, which `has_irq` says is there.
pub record HwEeprom : Type 0 where
  pub size : ℕ
  pub my_memory : ℕ → ℕ
  pub eear : ℕ
  pub eear_mask : ℕ
  pub eecr : ℕ
  pub eecr_mask : ℕ
  pub eedr : ℕ
  pub has_irq : Bool
  pub irq_flag : Bool
  pub op_enable_cycles : ℕ
  pub cpu_hold_cycles : ℕ
  pub op_state : OpState
  pub op_mode : ℕ
  pub op_addr : ℕ
  pub erase_write_delay_time : ℕ
  pub erase_delay_time : ℕ
  pub write_delay_time : ℕ
  pub write_done_time : ℕ
  pub cycled : Bool

abbrev pub ctrl_read : ℕ
ctrl_read = 1

abbrev pub ctrl_write : ℕ
ctrl_write = 2

abbrev pub ctrl_enable : ℕ
ctrl_enable = 4

abbrev pub ctrl_irq : ℕ
ctrl_irq = 8

abbrev pub ctrl_modes : ℕ
ctrl_modes = 48

-- A register with a bit of `mask` cleared, and the test that all of them are set.
abbrev pub clear_bits : ℕ → ℕ → ℕ
clear_bits mask val = bit_and val (0xff - mask)

abbrev pub has_bits : ℕ → ℕ → Bool
has_bits mask val = bit_and val mask == mask

-- The mask of EECR and the time of the usual operation, which the constructor chooses.
unfoldable pub control_mask : DevMode → Bool → ℕ
control_mask extended irq = 0x3f
control_mask normal irq = if irq then 0x0f else 0x07
control_mask at90s irq = if irq then 0x0f else 0x07

unfoldable pub delays : DevMode → ℕ × ℕ × ℕ
delays normal = (8_500_000, 0, 0)
delays at90s = (4_000_000, 0, 0)
delays extended = (3_400_000, 1_800_000, 1_800_000)

-- `Reset`: the state of the operation is not reset.
unfoldable pub reset : HwEeprom → HwEeprom
reset e = record e {
  eecr = bit_and e.eecr 0x32;
  eedr = 0;
  op_enable_cycles = 0;
  cpu_hold_cycles = 0;
}

-- The constructor.
unfoldable pub create : DevMode → Bool → ℕ → HwEeprom
create mode irq size = reset (record {
  size = size;
  my_memory = λ a. 0xff;
  eear = 0;
  eear_mask = size - 1;
  eecr = 0;
  eecr_mask = control_mask mode irq;
  eedr = 0;
  has_irq = irq;
  irq_flag = false;
  op_enable_cycles = 0;
  cpu_hold_cycles = 0;
  op_state = OpState.ready;
  op_mode = 0;
  op_addr = 0;
  erase_write_delay_time = (delays mode).0;
  erase_delay_time = (delays mode).1;
  write_delay_time = (delays mode).2;
  write_done_time = 0;
  cycled = false;
})

-- `SetEearl`, `SetEearh` and `SetEedr`, without their warnings.
unfoldable pub set_eearl : ℕ → HwEeprom → HwEeprom
set_eearl val e = record e { eear = bit_and (bit_and e.eear 0xff00 + val) e.eear_mask }

unfoldable pub set_eearh : ℕ → HwEeprom → HwEeprom
set_eearh val e = record e { eear = bit_and (bit_and e.eear 0x00ff + (val <<< 8)) e.eear_mask }

unfoldable pub set_eedr : ℕ → HwEeprom → HwEeprom
set_eedr val e = record e { eedr = val }

-- `GetEearl` and `GetEearh`.
unfoldable pub get_eearl : HwEeprom → ℕ
get_eearl e = bit_and e.eear 0xff

unfoldable pub get_eearh : HwEeprom → ℕ
get_eearh e = bit_and (e.eear >>> 8) 0xff

-- The read in `SetEecr`.
unfoldable pub read_cell : HwEeprom → Result HwEeprom
read_cell e =
    assert (ltb e.eear e.size)
    >> ok (record e {
      cpu_hold_cycles = 4;
      eedr = e.my_memory e.eear;
      eecr = clear_bits ctrl_read e.eecr;
    })

-- `SetEecr` in the state READY, after the register is stored.
unfoldable pub control_ready : HwEeprom → Result HwEeprom
control_ready e = do
  let e1 =
      if has_bits ctrl_enable e.eecr
      then record e { op_state = OpState.enabled; op_enable_cycles = 4; cycled = true }
      else e
  e2 ←
      if has_bits ctrl_read e.eecr
      then (read_cell e1 >>= λ r. ok (record r { cycled = true }))
      else ok e1
  ok (record e2 { eecr = clear_bits ctrl_write e2.eecr })

-- The time that the operation of a mode takes.
unfoldable pub operation_time : ℕ → HwEeprom → ℕ
operation_time mode e =
    if mode == 16
    then e.erase_delay_time
    else if mode == 32
    then e.write_delay_time
    else e.erase_write_delay_time

unfoldable pub started : ℕ → HwEeprom → HwEeprom
started now e =
    let mode = bit_and e.eecr ctrl_modes in
    record e {
      cpu_hold_cycles = 2;
      op_mode = mode;
      op_addr = e.eear;
      op_state = OpState.writing;
      op_enable_cycles = 0;
      eecr = clear_bits ctrl_enable e.eecr;
      write_done_time = now + operation_time (bit_and mode ctrl_modes) e;
    }

unfoldable pub start_write : ℕ → HwEeprom → Result HwEeprom
start_write now e = assert (ltb e.eear e.size) >> ok (started now e)

-- In the state ENABLED.
unfoldable pub control_enabled : ℕ → HwEeprom → Result HwEeprom
control_enabled now e =
    let e1 = record e { eecr = bit_or e.eecr ctrl_enable } in
    if has_bits ctrl_read e1.eecr
    then read_cell e1
    else if has_bits ctrl_write e1.eecr
    then start_write now e1
    else ok e1

-- In the state WRITE.
unfoldable pub control_writing : HwEeprom → HwEeprom
control_writing e =
    let e1 = if has_bits ctrl_enable e.eecr then record e { op_enable_cycles = 4 } else e in
    record e1 { eecr = bit_or (clear_bits ctrl_read e1.eecr) ctrl_write }

unfoldable pub control : OpState → ℕ → HwEeprom → Result HwEeprom
control OpState.ready now e = control_ready e
control OpState.enabled now e = control_enabled now e
control OpState.writing now e = ok (control_writing e)

-- The interrupt of a device that is not busy, when it is enabled.
unfoldable pub signalled : ℕ → HwEeprom → HwEeprom
signalled old e =
    let rises = (bit_and old ctrl_irq == 0) && has_bits ctrl_irq e.eecr in
    let idle = bit_and e.eecr ctrl_write == 0 in
    record e { irq_flag = (rises && e.has_irq && idle) || e.irq_flag }

-- `SetEecr`, at the time `now`.
unfoldable pub set_eecr : ℕ → ℕ → HwEeprom → Result HwEeprom
set_eecr newval now e =
    control e.op_state now (record e { eecr = bit_and newval e.eecr_mask }) >>= λ r.
    ok (signalled e.eecr r)

-- `CpuCycle`: the enable state falls back,
abbrev pub fall_back : OpState → OpState
fall_back OpState.ready = OpState.ready
fall_back OpState.enabled = OpState.ready
fall_back OpState.writing = OpState.writing

unfoldable pub count_enable : HwEeprom → HwEeprom
count_enable e =
    let left = e.op_enable_cycles - 1 in
    if e.op_enable_cycles == 0
    then e
    else if left == 0
    then record e {
      op_enable_cycles = 0;
      eecr = clear_bits ctrl_enable e.eecr;
      op_state = fall_back e.op_state;
    }
    else record e { op_enable_cycles = left }

-- the operation is done when its time has come,
unfoldable pub operated : ℕ → ℕ → ℕ → ℕ
operated mode data_byte old =
    if mode == 16 then 0xff else if mode == 32 then bit_and data_byte old else data_byte

unfoldable pub completed : HwEeprom → HwEeprom
completed e =
    let byte = operated (bit_and e.op_mode ctrl_modes) e.eedr (e.my_memory e.op_addr) in
    let eecr = clear_bits ctrl_write e.eecr in
    record e {
      op_state = OpState.ready;
      eecr = eecr;
      my_memory = update e.my_memory e.op_addr byte;
      irq_flag = (e.has_irq && has_bits ctrl_irq eecr) || e.irq_flag;
    }

unfoldable pub complete_write : HwEeprom → Result HwEeprom
complete_write e = assert (ltb e.op_addr e.size) >> ok (completed e)

abbrev pub is_writing : OpState → Bool
is_writing OpState.ready = false
is_writing OpState.enabled = false
is_writing OpState.writing = true

unfoldable pub finish_write : ℕ → HwEeprom → Result HwEeprom
finish_write now e =
    if is_writing e.op_state && leb e.write_done_time now then complete_write e else ok e

abbrev is_ready : OpState → Bool
is_ready OpState.ready = true
is_ready OpState.enabled = false
is_ready OpState.writing = false

-- and the EEPROM leaves the cycle list when it has nothing to do. The core is held while the number
-- returned is not 0. The hold cycles stay at 0.
unfoldable pub hold : HwEeprom → HwEeprom × ℕ
hold e =
    let idle = is_ready e.op_state && (e.cpu_hold_cycles == 0) && (e.op_enable_cycles == 0) in
    (
      record e { cycled = not idle && e.cycled; cpu_hold_cycles = e.cpu_hold_cycles - 1 },
      if e.cpu_hold_cycles == 0 then 0 else 1,
    )

unfoldable pub cpu_cycle : ℕ → HwEeprom → Result (HwEeprom × ℕ)
cpu_cycle now e = finish_write now (count_enable e) >>= λ r. ok (hold r)

-- `ClearIrqFlag` for the vector of the EEPROM.
unfoldable pub clear_irq_flag : HwEeprom → HwEeprom
clear_irq_flag e = record e { irq_flag = false }

-- `WriteMem`: the bytes beyond the size are left out.
unfoldable pub write_mem : (ℕ → ℕ) → ℕ → ℕ → HwEeprom → HwEeprom
write_mem src offset zero e = e
write_mem src offset (suc n) e =
    let e1 = write_mem src offset n e in
    if ltb (n + offset) e1.size
    then record e1 { my_memory = update e1.my_memory (n + offset) (src n) }
    else e1

-- `WriteAtAddress` and `ReadFromAddress`.
unfoldable pub write_at_address : ℕ → ℕ → HwEeprom → HwEeprom
write_at_address addr val e = record e { my_memory = update e.my_memory addr val }

unfoldable pub read_from_address : ℕ → HwEeprom → ℕ
read_from_address addr e = e.my_memory addr
