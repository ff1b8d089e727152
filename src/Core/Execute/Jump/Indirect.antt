-- ===== src/Core/Execute/Jump/Indirect.antt =====
-- The indirect jumps. `Step` increments PC after each instruction.
use simulavr.Prelude.{◌+◌, ◌%◌, ◌≡◌, refl, arith, some}
use simulavr.Prelude.Int.{pos}
use simulavr.Core.Device.{Device, ExtensionRegister}
use simulavr.Core.Execute.Jump.{run_ijmp, run_eijmp}
use simulavr.Core.Execute.Common.{jump}
use simulavr.Prelude.Bits.{◌<<<◌}
use simulavr.Core.Memory.{get_reg_z}
use simulavr.Core.Result.{ok}

-- On a core with an EIND register, after the increment of PC, IJMP stands at the word that Z names,
-- while EIJMP stands one word after it, both modulo 16 bits: the value of EIND has no effect.
pub eijmp-ijmp :
    (d : Device) (e : ExtensionRegister)
    → d.eind ≡ some e
    → (d1 : Device) × (d2 : Device) × (run_ijmp d ≡ ok (d1, pos 2))
      × (run_eijmp d ≡ ok (d2, pos 2))
      × ((d1.pc + 1) % 65536 ≡ get_reg_z d % 65536)
      × ((d2.pc + 1) % 65536 ≡ (get_reg_z d + 1) % 65536)
unfolding run_ijmp run_eijmp
eijmp-ijmp d e present = (
  jump (get_reg_z d + 0xffff) d,
  jump ((e.reg_val <<< 16) + get_reg_z d) d,
  refl,
  rw present refl,
  omega arith,
  omega arith,
)
