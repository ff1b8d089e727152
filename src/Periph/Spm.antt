-- ===== src/Periph/Spm.antt =====
-- The flash programming engine `FlashProgramming` (src/flashprog.h, src/flashprog.cpp).
pub mod Pages
use simulavr.Prelude.{ℕ, ◌+◌, ◌-◌, ◌*◌, bit_and, bit_or, Bool, true, false, ◌&&◌}
use simulavr.Prelude.{update, ltb, ◌==◌, if◌then◌else◌}
use simulavr.Prelude.Bits.{◌<<<◌, ◌>>>◌, not32, u8}
use simulavr.Core.Result.{Result, ok, ◌>>=◌}
use simulavr.Decode.Case.{CoreFlags}
use simulavr.Flash.{AvrFlash, write_mem}

pub data SpmAction : Type 0 where
  action_noop prepare lockcpu wait : SpmAction

pub data SpmOps : Type 0 where
  ops_noop storebuffer writebuffer erase lockbits unlockrww clearbuffer readsig : SpmOps

pub record FlashProgramming : Type 0 where
  -- In words.
  pub page_size : ℕ
  -- A word address.
  pub nrww_addr : ℕ
  pub spmcr_val : ℕ
  pub spmcr_opr_bits : ℕ
  pub spmcr_valid_bits : ℕ
  pub opr_enable_count : ℕ
  pub action : SpmAction
  pub spm_opr : SpmOps
  pub timeout : ℕ
  pub temp_buffer : ℕ → ℕ
  pub is_at_mega : Bool

abbrev pub spm_timeout : ℕ
spm_timeout = 4_000_000

-- `ClearOperationBits`.
unfoldable pub clear_operation_bits : FlashProgramming → FlashProgramming
clear_operation_bits p = record p {
  spmcr_val = bit_and p.spmcr_val (not32 p.spmcr_opr_bits);
  action = action_noop;
  spm_opr = ops_noop;
}

-- `SetRWWLock`.
unfoldable pub set_rww_lock : ℕ → FlashProgramming → AvrFlash → FlashProgramming × AvrFlash
set_rww_lock addr p f =
    if p.is_at_mega && ltb addr (p.nrww_addr * 2)
    then (record p { spmcr_val = bit_or p.spmcr_val 0x40 }, record f { rww_lock = p.nrww_addr * 2 })
    else (p, f)

-- `Reset`.
unfoldable pub reset : FlashProgramming → FlashProgramming
reset p = record p {
  spmcr_val = 0;
  opr_enable_count = 0;
  action = action_noop;
  spm_opr = ops_noop;
  timeout = 0;
}

abbrev is_lockcpu : SpmAction → Bool
is_lockcpu lockcpu = true
is_lockcpu _ = false

-- `CpuCycle`: the engine, and whether the CPU is held.
unfoldable pub cpu_cycle : ℕ → FlashProgramming → FlashProgramming × Bool
unfolding clear_operation_bits
cpu_cycle now p =
    let counted = record p { opr_enable_count = p.opr_enable_count - 1 } in
    let p' =
      if ltb 0 p.opr_enable_count
      then if counted.opr_enable_count == 0 then clear_operation_bits counted else counted
      else p in
    if is_lockcpu p'.action
    then if ltb now p'.timeout then (p', true) else (clear_operation_bits p', false)
    else (p', false)

-- The end of a page write or erase: the buffer is stored to flash, and the CPU is locked.
unfoldable pub store_page :
    CoreFlags → ℕ → ℕ → FlashProgramming → AvrFlash → Result (FlashProgramming × AvrFlash × ℕ)
unfolding write_mem set_rww_lock
store_page flags now addr p f = do
  f' ← write_mem flags p.temp_buffer addr (p.page_size * 2) f
  let (p', f'') = set_rww_lock addr (record p { timeout = now + spm_timeout; action = lockcpu }) f'
  ok (p', f'', 0)

-- The operation that was prepared.
unfoldable pub operate :
    CoreFlags
    → ℕ
    → ℕ
    → ℕ
    → SpmOps
    → FlashProgramming
    → AvrFlash
    → Result (FlashProgramming × AvrFlash × ℕ)
unfolding clear_operation_bits store_page
operate flags now data_word addr unlockrww p f =
    let p' = clear_operation_bits p in
    ok (record p' { spmcr_val = bit_and p'.spmcr_val (not32 0x40) }, record f { rww_lock = 0 }, 0)
operate flags now data_word addr storebuffer p f =
    let a = bit_and (bit_and addr 0xfffe) (p.page_size * 2 - 1) in
    let buffer =
      update (update p.temp_buffer a (bit_and data_word 0xff)) (a + 1)
        (bit_and (data_word >>> 8) 0xff) in
    ok (clear_operation_bits (record p { temp_buffer = buffer }), f, 2)
operate flags now data_word addr writebuffer p f =
    store_page flags now (bit_and addr (not32 (p.page_size * 2 - 1))) p f
operate flags now data_word addr erase p f =
    store_page flags now (bit_and addr (not32 (p.page_size * 2 - 1)))
      (record p { temp_buffer = λ i. if ltb i (p.page_size * 2) then 0xff else p.temp_buffer i }) f
operate flags now data_word addr _ p f = ok (clear_operation_bits p, f, 0)

abbrev is_prepare : SpmAction → Bool
is_prepare prepare = true
is_prepare _ = false

-- `SPM_action`: the engine, the flash, and the clocks that are added.
unfoldable pub spm_action :
    CoreFlags
    → ℕ
    → ℕ
    → ℕ
    → ℕ
    → ℕ
    → FlashProgramming
    → AvrFlash
    → Result (FlashProgramming × AvrFlash × ℕ)
unfolding operate
spm_action flags pc now data_word xaddr addr p f =
    let full_addr = bit_and addr 0xffff + (xaddr <<< 16) in
    if ltb pc p.nrww_addr
    then ok (p, f, 0)
    else if is_prepare p.action
    then operate flags now data_word full_addr p.spm_opr (record p { opr_enable_count = 0 }) f
    else ok (p, f, 0)

-- The `switch` of `SetSpmcr`, on the operation bits.
abbrev pub operation : Bool → ℕ → SpmOps
operation is_at_mega bits =
    if bits == 0x1
    then storebuffer
    else if bits == 0x3
    then erase
    else if bits == 0x5
    then writebuffer
    else if bits == 0x9
    then lockbits
    else if bits == 0x11
    then (if is_at_mega then unlockrww else clearbuffer)
    else if bits == 0x21
    then readsig
    else ops_noop

abbrev is_ops_noop : SpmOps → Bool
is_ops_noop ops_noop = true
is_ops_noop _ = false

abbrev is_action_noop : SpmAction → Bool
is_action_noop action_noop = true
is_action_noop _ = false

-- `SetSpmcr`.
unfoldable pub set_spmcr : ℕ → FlashProgramming → FlashProgramming
set_spmcr v p =
    let reg = u8 (bit_and p.spmcr_val (not32 p.spmcr_valid_bits) + bit_and v p.spmcr_valid_bits) in
    let p' = record p { spmcr_val = reg } in
    let op = operation p.is_at_mega (bit_and reg p.spmcr_opr_bits) in
    if is_action_noop p.action
    then if is_ops_noop op && bit_and reg 0x1 == 0
      then record p' { opr_enable_count = 0; action = action_noop; spm_opr = op }
      else record p' { opr_enable_count = 4; action = prepare; spm_opr = op }
    else p'
