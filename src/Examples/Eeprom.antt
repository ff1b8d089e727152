-- ===== src/Examples/Eeprom.antt =====
-- An EEPROM of 512 bytes like that of the ATmega8 (src/hweeprom.cpp), with the byte 0x5a for address 3.
use simulavr.Prelude.{ℕ, ◌+◌, ◌≤◌, ◌≡◌, refl, arith, true, List, [], ◌∷◌, update, false}
use simulavr.Prelude.{length}
use simulavr.Core.Result.{ok}
use simulavr.Periph.Eeprom.{HwEeprom, OpState, create, normal, set_eecr, cpu_cycle, is_writing}
use simulavr.Periph.Eeprom.Write.{cycles, AllBefore, set_eecr-written}
use simulavr.Periph.Eeprom.Enable.{set_eecr-guarded, window_state}
use simulavr.Periph.Eeprom.Valid.{
  IsValid, Operation, write_eearl, write_eedr, write_eecr, cycle, perform_all, perform_all-IsValid,
}

abbrev idle : HwEeprom
idle = record {
  size = 512;
  my_memory = λ a. 0xff;
  eear = 3;
  eear_mask = 511;
  eecr = 0;
  eecr_mask = 0x0f;
  eedr = 0x5a;
  has_irq = true;
  irq_flag = false;
  op_enable_cycles = 0;
  cpu_hold_cycles = 0;
  op_state = OpState.ready;
  op_mode = 0;
  op_addr = 0;
  erase_write_delay_time = 8_500_000;
  erase_delay_time = 0;
  write_delay_time = 0;
  write_done_time = 0;
  cycled = false;
}

abbrev enabled_one : HwEeprom
enabled_one = record idle {
  eecr = 4;
  op_state = OpState.enabled;
  op_enable_cycles = 3;
  cycled = true;
}

set_eecr-written_example :
    (e1 : HwEeprom) × (set_eecr 6 1000 enabled_one ≡ ok e1)
    × ((ts : List ℕ)
        → AllBefore 8_501_000 ts
        → (e2 : HwEeprom) × (cycles ts e1 ≡ ok e2)
          × (e2.my_memory ≡ (λ a. 0xff))
          × ((late : ℕ)
              → 8_501_000 ≤ late
              → (r : HwEeprom × ℕ) × (cpu_cycle late e2 ≡ ok r)
                × (r.0.op_state ≡ OpState.ready)
                × (r.0.my_memory ≡ update (λ a. 0xff) 3 0x5a)
                × ((later : ℕ)
                    → (e3 : HwEeprom) × (set_eecr 1 later (r.0) ≡ ok e3) × (e3.eedr ≡ 0x5a))))
set_eecr-written_example = set_eecr-written 1000 enabled_one refl refl refl (omega arith)

set_eecr-guarded_example :
    ((e1 : HwEeprom) × (set_eecr 6 1000 idle ≡ ok e1)
      × (is_writing e1.op_state ≡ false)
      × (e1.my_memory ≡ (λ a. 0xff)))
    × (e2 : HwEeprom) × (set_eecr 4 1000 idle ≡ ok e2)
    × ((ts : List ℕ) (m : ℕ)
        → length ts + m ≡ 4
        → (e3 : HwEeprom) × (cycles ts e2 ≡ ok e3)
          × (e3.op_state ≡ window_state m)
          × (e3.my_memory ≡ (λ a. 0xff)))
set_eecr-guarded_example = set_eecr-guarded 6 1000 idle refl (omega arith) refl

abbrev session : List Operation
session =
    write_eearl 3
    ∷ write_eedr 0x5a
    ∷ write_eecr 4 0
    ∷ cycle 250
    ∷ write_eecr 6 500
    ∷ cycle 8_500_500
    ∷ []

perform_all-IsValid_example :
    (e : HwEeprom) × (perform_all session (create normal true 512) ≡ ok e) × IsValid e
perform_all-IsValid_example = perform_all-IsValid normal true 512 session (omega arith)
