-- ===== src/Core/Memory.antt =====
-- The memory map of the core: the accessors of `AvrDevice` (src/avrdevice.cpp), the members that
-- they reach (src/rwmem.cpp, src/ioregs.h, src/hwsreg.cpp) and the stack in RAM (src/hwstack.cpp).
-- Trace output and the detection of threads for the debugger are left out.
use simulavr.Prelude.{ℕ, ◌+◌, ◌%◌, bit_and, bit_or, Bool}
use simulavr.Prelude.{not, ◌&&◌, some, List, [], ◌∷◌, update, ltb, ◌==◌, if◌then◌else◌}
use simulavr.Prelude.Bits.{◌<<<◌, ◌>>>◌, not32}
use simulavr.Core.Device.{
  Device, Member, ram, invalid_mem, sreg, spl, sph, rampz_reg, eind_reg, wdtcr_reg, spmcr_reg, port,
  read, write, ExtensionRegister, HwStackSram, register_space_size, total_io_space,
}
use simulavr.Core.Result.{Result, ok, abort, invalid_access, assert, deref, ◌>>=◌, ◌>>◌}
use simulavr.Periph.Spm.{set_spmcr}
use simulavr.Periph.Wado.{set_wdtcr}
use simulavr.Sreg.{to_int, from_int}

-- `AddressExtensionRegister::SetRegVal`.
unfoldable pub set_reg_val : ℕ → ExtensionRegister → ExtensionRegister
set_reg_val val r = record r { reg_val = bit_and val r.reg_mask }

-- The vectors that wait for a stack pointer, and the other return points.
unfoldable pub reached : ℕ → List (ℕ × ℕ) → List ℕ
reached sp [] = []
reached sp ((p, vector) ∷ l) = if p == sp then vector ∷ reached sp l else reached sp l

unfoldable pub unreached : ℕ → List (ℕ × ℕ) → List (ℕ × ℕ)
unreached sp [] = []
unreached sp ((p, vector) ∷ l) = if p == sp then unreached sp l else (p, vector) ∷ unreached sp l

abbrev pub push_all : List ℕ → List ℕ → List ℕ
push_all [] done = done
push_all (x ∷ l) done = push_all l (x ∷ done)

-- `HWStack::CheckReturnPoints`.
unfoldable pub check_return_points : HwStackSram → HwStackSram
check_return_points s = record s {
  return_point_list = unreached s.stack_pointer s.return_point_list;
  finished = push_all (reached s.stack_pointer s.return_point_list) s.finished;
}

-- `SetReturnPoint`.
unfoldable pub set_return_point : ℕ → ℕ → HwStackSram → HwStackSram
set_return_point sp vector s = record s { return_point_list = (sp, vector) ∷ s.return_point_list }

-- `SetSpl` and `SetSph`.
unfoldable pub set_spl : ℕ → HwStackSram → HwStackSram
set_spl val s =
    check_return_points
      (record s { stack_pointer = (bit_and s.stack_pointer (not32 0xff) + val) % s.stack_ceil })

unfoldable pub set_sph : ℕ → HwStackSram → HwStackSram
set_sph val s = check_return_points (record s {
  stack_pointer = (bit_and s.stack_pointer (not32 0xff00) + (val <<< 8)) % s.stack_ceil;
})

-- `ThreadList::OnSPRead`: what it asserts.
abbrev pub on_sp_read : ℕ → Result (Unit {0})
on_sp_read sp = assert (ltb sp 0x1_0000 && not (sp == 0))

-- The conversion of a member to `unsigned char`.
unfoldable pub get_member : Member → ℕ → Device → Result (ℕ × Device)
unfolding to_int
get_member ram addr d = ok (d.cells addr, d)
get_member invalid_mem addr d =
    if d.abort_on_invalid_access then abort invalid_access else ok (0, d)
get_member sreg addr d = ok (to_int d.status, d)
get_member spl addr d =
    on_sp_read d.stack.stack_pointer >> ok (bit_and d.stack.stack_pointer 0xff, d)
get_member sph addr d =
    on_sp_read d.stack.stack_pointer >> ok (bit_and d.stack.stack_pointer 0xff00 >>> 8, d)
get_member rampz_reg addr d = do r ← deref d.rampz; ok (r.reg_val, d)
get_member eind_reg addr d = do r ← deref d.eind; ok (r.reg_val, d)
get_member wdtcr_reg addr d = do w ← deref d.wado; ok (w.wdtcr, d)
get_member spmcr_reg addr d = do p ← deref d.spm_register; ok (p.spmcr_val, d)
get_member port addr d = ok (d.ports addr d.log, record d { log = read addr ∷ d.log })

-- The assignment of an `unsigned char` to a member.
unfoldable pub set_member : Member → ℕ → ℕ → Device → Result Device
unfolding from_int set_spl set_sph set_reg_val set_wdtcr set_spmcr
set_member ram addr val d = ok (record d { cells = update d.cells addr val })
set_member invalid_mem addr val d = if d.abort_on_invalid_access then abort invalid_access else ok d
set_member sreg addr val d = ok (record d { status = from_int val })
set_member spl addr val d = ok (record d { stack = set_spl val d.stack })
set_member sph addr val d = ok (record d { stack = set_sph val d.stack })
set_member rampz_reg addr val d = do
  r ← deref d.rampz
  ok (record d { rampz = some (set_reg_val val r) })
set_member eind_reg addr val d = do
  r ← deref d.eind
  ok (record d { eind = some (set_reg_val val r) })
set_member wdtcr_reg addr val d = do
  w ← deref d.wado
  ok (record d { wado = some (set_wdtcr val w) })
set_member spmcr_reg addr val d = do
  p ← deref d.spm_register
  ok (record d { spm_register = some (set_spmcr val p) })
set_member port addr val d = ok (record d { log = write addr val ∷ d.log })

-- `GetRWMem` and `SetRWMem`.
unfoldable pub get_rw_mem : ℕ → Device → Result (ℕ × Device)
unfolding get_member
get_rw_mem addr d = if ltb addr total_io_space then get_member (d.rw addr) addr d else ok (0, d)

unfoldable pub set_rw_mem : ℕ → ℕ → Device → Result Device
unfolding set_member
set_rw_mem addr val d = if ltb addr total_io_space then set_member (d.rw addr) addr val d else ok d

-- `GetCoreReg` and `SetCoreReg`: a core register is a RAM cell. What they assert, that the register is
-- below 32, is left out: the decoder masks a register to 5 bits.
abbrev pub get_core_reg : ℕ → Device → ℕ
get_core_reg r d = d.cells r

abbrev pub set_core_reg : ℕ → ℕ → Device → Device
set_core_reg r val d = record d { cells = update d.cells r val }

-- `GetIOReg` and `SetIOReg`.
unfoldable pub get_io_reg : ℕ → Device → Result (ℕ × Device)
unfolding get_member
get_io_reg addr d = do
  assert (ltb addr d.io_space_size)
  get_member (d.rw (addr + register_space_size)) (addr + register_space_size) d

unfoldable pub set_io_reg : ℕ → ℕ → Device → Result Device
unfolding set_member
set_io_reg addr val d = do
  assert (ltb addr d.io_space_size)
  set_member (d.rw (addr + register_space_size)) (addr + register_space_size) val d

-- `SetIORegBit`.
unfoldable pub set_io_reg_bit : ℕ → ℕ → Bool → Device → Result Device
unfolding get_member set_member
set_io_reg_bit addr bitaddr bval d = do
  assert (ltb addr 0x20)
  let a = addr + register_space_size
  (val, d') ← get_member (d.rw a) a d
  let val' = if bval then bit_or val (1 <<< bitaddr) else bit_and val (not32 (1 <<< bitaddr))
  set_member (d'.rw a) a val' d'

-- `GetRegX`, `GetRegY` and `GetRegZ`.
abbrev pub get_reg_x : Device → ℕ
get_reg_x d = (d.cells 27 <<< 8) + d.cells 26

abbrev pub get_reg_y : Device → ℕ
get_reg_y d = (d.cells 29 <<< 8) + d.cells 28

abbrev pub get_reg_z : Device → ℕ
get_reg_z d = (d.cells 31 <<< 8) + d.cells 30
