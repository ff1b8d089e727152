-- ===== src/Periph/Eeprom/Write.antt =====
-- Writing a byte to the EEPROM, and reading it (src/hweeprom.cpp).
use simulavr.Prelude.{ℕ, ◌+◌, ◌≤◌, ◌<◌, ◌≡◌, refl, ap, ◌∙◌, arith}
use simulavr.Prelude.{bit_and, bit_or, update, update_same}
use simulavr.Prelude.{true, false, ◌&&◌, ltb, leb, ◌==◌, List, [], ◌∷◌, if◌then◌else◌}
use simulavr.Core.Result.{Result, ok, ◌>>=◌}
use simulavr.Periph.Eeprom.{HwEeprom, OpState, set_eecr, control, control_enabled, start_write}
use simulavr.Periph.Eeprom.{
  operation_time, cpu_cycle, count_enable, finish_write, complete_write, completed, started,
  signalled,
}
use simulavr.Periph.Eeprom.{operated, hold, read_cell, control_ready, is_writing}
use simulavr.Periph.Eeprom.{has_bits, ctrl_read, ctrl_write}

-- Cycles of the EEPROM at the given times.
abbrev pub cycles : List ℕ → HwEeprom → Result HwEeprom
cycles [] e = ok e
cycles (t ∷ ts) e = cpu_cycle t e >>= λ r. cycles ts (r.0)

abbrev pub AllBefore : ℕ → List ℕ → Type 0
AllBefore t [] = Unit {0}
AllBefore t (u ∷ us) = (u < t) × AllBefore t us

-- What a write in the usual mode keeps until it is done: the address, the byte, the time, and all
-- else that it depends on, those of `f`.
pub record IsWriting (f : HwEeprom) (done : ℕ) (e : HwEeprom) : Type 0 where
  pub state : e.op_state ≡ OpState.writing
  pub no_enable : e.op_enable_cycles ≡ 0
  pub mode : e.op_mode ≡ 0
  pub addr : e.op_addr ≡ f.eear
  pub time : e.write_done_time ≡ done
  pub same_size : e.size ≡ f.size
  pub same_data : e.eedr ≡ f.eedr
  pub same_memory : e.my_memory ≡ f.my_memory
  pub same_eear : e.eear ≡ f.eear
  pub same_mask : e.eecr_mask ≡ f.eecr_mask

pub count_enable-none : (e : HwEeprom) → e.op_enable_cycles ≡ 0 → count_enable e ≡ e
unfolding count_enable
count_enable-none e none =
    let zero_left : (e.op_enable_cycles == 0) ≡ true = ground (arith, none) in rw zero_left refl

finish_write-early : (now : ℕ) (e : HwEeprom) → now < e.write_done_time → finish_write now e ≡ ok e
unfolding finish_write
finish_write-early now e early =
    let waits : (is_writing e.op_state && leb e.write_done_time now) ≡ false =
      ground (arith, early) in
    rw waits refl

-- A cycle before the operation is done.
cpu_cycle-IsWriting :
    (f : HwEeprom) (now done : ℕ) (e : HwEeprom)
    → IsWriting f done e
    → now < done
    → (r : HwEeprom × ℕ) × (cpu_cycle now e ≡ ok r) × IsWriting f done (r.0)
unfolding cpu_cycle hold
cpu_cycle-IsWriting f now done e w early = (
  hold e,
  ap (λ x. finish_write now x >>= λ r. ok (hold r)) (count_enable-none e w.no_enable)
      ∙ ap (λ x. x >>= λ r. ok (hold r)) (finish_write-early now e (omega (arith, early, w.time))),
  record {
    state = w.state;
    no_enable = w.no_enable;
    mode = w.mode;
    addr = w.addr;
    time = w.time;
    same_size = w.same_size;
    same_data = w.same_data;
    same_memory = w.same_memory;
    same_eear = w.same_eear;
    same_mask = w.same_mask;
  },
)

cycles-IsWriting :
    (f : HwEeprom) (ts : List ℕ) (done : ℕ) (e : HwEeprom)
    → IsWriting f done e
    → AllBefore done ts
    → (e' : HwEeprom) × (cycles ts e ≡ ok e') × IsWriting f done e'
cycles-IsWriting f [] done e w early = (e, refl, w)
cycles-IsWriting f (t ∷ ts) done e w early =
    let one = cpu_cycle-IsWriting f t done e w (early.0) in
    let rest = cycles-IsWriting f ts done (one.0.0) one.2 (early.1) in
    (rest.0, ap (λ x. x >>= λ r. cycles ts (r.0)) one.1 ∙ rest.1, rest.2)

-- The state after a write.
pub record IsWritten (f : HwEeprom) (e : HwEeprom) : Type 0 where
  pub state : e.op_state ≡ OpState.ready
  pub memory : e.my_memory ≡ update f.my_memory f.eear f.eedr
  pub same_size : e.size ≡ f.size
  pub same_eear : e.eear ≡ f.eear
  pub same_mask : e.eecr_mask ≡ f.eecr_mask

cpu_cycle-IsWritten :
    (f : HwEeprom) (now done : ℕ) (e : HwEeprom)
    → IsWriting f done e
    → done ≤ now
    → f.eear < f.size
    → (r : HwEeprom × ℕ) × (cpu_cycle now e ≡ ok r) × IsWritten f (r.0)
unfolding cpu_cycle finish_write complete_write completed operated hold
cpu_cycle-IsWritten f now done e w late inside =
    let writes : is_writing e.op_state ≡ true = ap is_writing w.state in
    let due : (is_writing e.op_state && leb e.write_done_time now) ≡ true =
      ground (arith, late, w.time, writes) in
    let valid : ltb e.op_addr e.size ≡ true = ground (arith, inside, w.addr, w.same_size) in
    let byte : operated (bit_and e.op_mode 48) e.eedr (e.my_memory e.op_addr) ≡ f.eedr =
      ap (λ m. operated (bit_and m 48) e.eedr (e.my_memory e.op_addr)) w.mode ∙ w.same_data in
    (
      hold (completed e),
      ap (λ x. finish_write now x >>= λ r. ok (hold r)) (count_enable-none e w.no_enable)
          ∙ rw (due, finish_write) (rw valid refl),
      record {
        state = refl;
        memory =
            ap (update e.my_memory e.op_addr) byte
            ∙ ap (λ a. update e.my_memory a f.eedr) w.addr
            ∙ ap (λ m. update m f.eear f.eedr) w.same_memory;
        same_size = w.same_size;
        same_eear = w.same_eear;
        same_mask = w.same_mask;
      },
    )

-- The state ENABLED, after its bit is set.
abbrev prepared : ℕ → HwEeprom → Result HwEeprom
prepared now e =
    if has_bits ctrl_read e.eecr
    then read_cell e
    else if has_bits ctrl_write e.eecr
    then start_write now e
    else ok e

-- The start of a write.
pub started-IsWriting :
    (val stored now : ℕ) (e : HwEeprom)
    → e.op_state ≡ OpState.enabled
    → bit_and val e.eecr_mask ≡ stored
    → bit_or stored 4 ≡ 6
    → e.eear < e.size
    → (e' : HwEeprom) × (set_eecr val now e ≡ ok e')
      × IsWriting e (now + e.erase_write_delay_time) e'
unfolding set_eecr signalled control control_enabled start_write started operation_time
started-IsWriting val stored now e enabled taken write inside =
    let valid : ltb e.eear e.size ≡ true = ground (arith, inside) in
    let finish = λ (r : HwEeprom). ok (signalled e.eecr r) in
    (
      signalled e.eecr (started now (record e { eecr = 6 })),
      ap (λ s. control s now (record e { eecr = bit_and val e.eecr_mask }) >>= finish) enabled
          ∙ ap (λ v. control_enabled now (record e { eecr = v }) >>= finish) taken
          ∙ ap (λ v. prepared now (record e { eecr = v }) >>= finish) write
          ∙ rw valid refl,
      record {
        state = refl;
        no_enable = refl;
        mode = refl;
        addr = refl;
        time = refl;
        same_size = refl;
        same_data = refl;
        same_memory = refl;
        same_eear = refl;
        same_mask = refl;
      },
    )

-- Reading in the state READY gives the byte at the address.
read-IsRead :
    (now : ℕ) (e : HwEeprom)
    → e.op_state ≡ OpState.ready
    → bit_and 1 e.eecr_mask ≡ 1
    → e.eear < e.size
    → (e' : HwEeprom) × (set_eecr 1 now e ≡ ok e') × (e'.eedr ≡ e.my_memory e.eear)
unfolding set_eecr signalled control control_ready read_cell
read-IsRead now e idle taken inside =
    let valid : ltb e.eear e.size ≡ true = ground (arith, inside) in
    let finish = λ (r : HwEeprom). ok (signalled e.eecr r) in
    (
      signalled e.eecr
          (record e { eecr = 0; cpu_hold_cycles = 4; eedr = e.my_memory e.eear; cycled = true }),
      ap (λ s. control s now (record e { eecr = bit_and 1 e.eecr_mask }) >>= finish) idle
          ∙ ap (λ v. control_ready (record e { eecr = v }) >>= finish) taken
          ∙ rw valid refl,
      refl,
    )

-- In the state ENABLED, with an address below the size and a register EECR that takes the bits 0 to
-- 2, the bits EEWE and EEMWE start a write: until the time of the operation is over, whatever the
-- times of the cycles, the memory is as before; the first cycle after that puts the data byte in the cell
-- that was addressed, changes no other and goes to READY, and a read then gives the byte.
pub set_eecr-written :
    (now : ℕ) (e : HwEeprom)
    → e.op_state ≡ OpState.enabled
    → bit_and 6 e.eecr_mask ≡ 6
    → bit_and 1 e.eecr_mask ≡ 1
    → e.eear < e.size
    → (e1 : HwEeprom) × (set_eecr 6 now e ≡ ok e1)
      × ((ts : List ℕ)
          → AllBefore (now + e.erase_write_delay_time) ts
          → (e2 : HwEeprom) × (cycles ts e1 ≡ ok e2)
            × (e2.my_memory ≡ e.my_memory)
            × ((late : ℕ)
                → now + e.erase_write_delay_time ≤ late
                → (r : HwEeprom × ℕ) × (cpu_cycle late e2 ≡ ok r)
                  × (r.0.op_state ≡ OpState.ready)
                  × (r.0.my_memory ≡ update e.my_memory e.eear e.eedr)
                  × ((later : ℕ)
                      → (e3 : HwEeprom) × (set_eecr 1 later (r.0) ≡ ok e3) × (e3.eedr ≡ e.eedr))))
set_eecr-written now e enabled takes_write takes_read inside =
    let start = started-IsWriting 6 6 now e enabled takes_write refl inside in
    let done = now + e.erase_write_delay_time in
    (
      start.0,
      start.1,
      λ ts early.
          let wait = cycles-IsWriting e ts done start.0 start.2 early in
          (
            wait.0,
            wait.1,
            wait.2.same_memory,
            λ late p.
                let write = cpu_cycle-IsWritten e late done wait.0 wait.2 p inside in
                let w = write.2 in
                (
                  write.0,
                  write.1,
                  w.state,
                  w.memory,
                  λ later.
                      let read =
                        read-IsRead later (write.0.0) w.state
                          (ap (bit_and 1) w.same_mask ∙ takes_read)
                          (omega (arith, w.same_eear, w.same_size, inside)) in
                      (
                        read.0,
                        read.1,
                        read.2
                            ∙ ap (λ a. write.0.0.my_memory a) w.same_eear
                            ∙ ap (λ m. m e.eear) w.memory
                            ∙ update_same e.my_memory e.eear e.eedr,
                      ),
                ),
          ),
    )
