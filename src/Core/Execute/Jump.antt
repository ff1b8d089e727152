-- ===== src/Core/Execute/Jump.antt =====
-- Branches, skips, jumps and calls (`operator()` of these classes in src/decoder.cpp). `Step`
-- increments PC after each of them.
pub mod Calls
pub mod Indirect
use simulavr.Prelude.{ℕ, ◌+◌, ◌-◌, ◌*◌, ◌/◌, ◌%◌, ◌^◌, bit_and, bit_or, bit_xor, Bool, true, false}
use simulavr.Prelude.{zero, suc, Option, none, some, not, ◌&&◌, ◌||◌, ltb, ◌==◌, if◌then◌else◌}
use simulavr.Prelude.Bits.{◌<<<◌, ◌>>>◌, not32, u8, u16}
use simulavr.Prelude.Int.{ℤ, pos, negsuc, add_mod}
use simulavr.Core.Device.{Device, ExtensionRegister}
use simulavr.Core.Execute.Common.{Run, clocks, set_pair, one_if, jump}
use simulavr.Core.Memory.{
  get_core_reg, set_core_reg, get_rw_mem, set_rw_mem, get_io_reg, set_io_reg, set_io_reg_bit,
  get_reg_x, get_reg_y, get_reg_z, set_reg_val,
}
use simulavr.Core.Result.{
  Result, ok, abort, undefined_result, illegal_instruction, assert, deref, ◌>>=◌, ◌>>◌,
}
use simulavr.Core.Stack.{push, pop, push_addr, pop_addr}
use simulavr.Decode.Instruction.{is_instruction_2_words}
use simulavr.Flash.{AvrFlash, read_mem_word}
use simulavr.Periph.Wado.{wdr}
use simulavr.Sreg.{to_int}

abbrev branch : Bool → ℤ → Device → Run
branch taken offset d =
    if taken then clocks 2 (record d { pc = add_mod 0x1_0000 d.pc offset }) else clocks 1 d

unfoldable pub run_brbc : ℕ → ℤ → Device → Run
unfolding to_int
run_brbc bitmask offset d = branch (bit_and bitmask (to_int d.status) == 0) offset d

unfoldable pub run_brbs : ℕ → ℤ → Device → Run
unfolding to_int
run_brbs bitmask offset d = branch (not (bit_and bitmask (to_int d.status) == 0)) offset d

-- The clocks of a skip, from the instruction that is skipped.
abbrev pub skip_clocks : Device → Result ℕ
skip_clocks d =
    deref (d.flash.decoded (d.pc + 1)) >>= λ i. ok (if is_instruction_2_words i then 3 else 2)

-- A skip, with the clocks that it has in any case.
abbrev pub skip_if : Bool → ℕ → ℕ → Device → Run
skip_if test skip more d =
    if test then clocks (skip + more) (jump (d.pc + (skip - 1)) d) else clocks (1 + more) d

unfoldable pub run_cpse : ℕ → ℕ → Device → Run
unfolding is_instruction_2_words
run_cpse r1 r2 d = do
  skip ← skip_clocks d
  skip_if (get_core_reg r1 d == get_core_reg r2 d) skip 0 d

unfoldable pub run_sbrc : ℕ → ℕ → Device → Run
unfolding is_instruction_2_words
run_sbrc r1 kbit d = do
  skip ← skip_clocks d
  skip_if (bit_and (get_core_reg r1 d) (1 <<< kbit) == 0) skip 0 d

unfoldable pub run_sbrs : ℕ → ℕ → Device → Run
unfolding is_instruction_2_words
run_sbrs r1 kbit d = do
  skip ← skip_clocks d
  skip_if (not (bit_and (get_core_reg r1 d) (1 <<< kbit) == 0)) skip 0 d

unfoldable pub run_sbic : ℕ → ℕ → Device → Run
unfolding is_instruction_2_words get_io_reg
run_sbic ioreg kbit d = do
  skip ← skip_clocks d
  (val, d') ← get_io_reg ioreg d
  skip_if (bit_and val (1 <<< kbit) == 0) skip (if d.flags.xmega then 1 else 0) d'

unfoldable pub run_sbis : ℕ → ℕ → Device → Run
unfolding is_instruction_2_words get_io_reg
run_sbis ioreg kbit d = do
  skip ← skip_clocks d
  (val, d') ← get_io_reg ioreg d
  skip_if (not (bit_and val (1 <<< kbit) == 0)) skip (if d.flags.xmega then 1 else 0) d'

-- `ThreadList::OnCall`: what it asserts.
abbrev on_call : Device → Result (Unit {0})
on_call d = assert (not (d.stack.stack_pointer == 0))

-- The clocks of a call.
abbrev pub call_clocks : Device → ℕ
call_clocks d = d.pc_size + (if d.flags.xmega then 0 else 1)

unfoldable pub run_call : ℕ → Device → Run
unfolding read_mem_word push_addr
run_call kh d = do
  lsb ← read_mem_word d.flash ((d.pc + 1) * 2)
  on_call d
  d' ← push_addr (d.pc + 2) d
  clocks (d'.pc_size + (if d.flags.xmega then 1 else 2)) (jump ((kh <<< 16) + lsb + 0xffff) d')

unfoldable pub run_jmp : ℕ → Device → Run
unfolding read_mem_word
run_jmp k d = do
  lsb ← read_mem_word d.flash ((d.pc + 1) * 2)
  clocks 3 (jump ((k <<< 16) + lsb + 0xffff) d)

unfoldable pub run_icall : Device → Run
unfolding push_addr
run_icall d = do
  on_call d
  d' ← push_addr (d.pc + 1) d
  clocks (call_clocks d') (jump (get_reg_z d + 0xffff) d')

unfoldable pub run_ijmp : Device → Run
run_ijmp d = clocks 2 (jump (get_reg_z d + 0xffff) d)

unfoldable pub run_eicall : Device → Run
unfolding push_addr
run_eicall d = do
  e ← deref d.eind
  let new_pc = get_reg_z d + (e.reg_val <<< 16)
  on_call d
  d' ← push_addr (d.pc + 1) d
  clocks (if d'.flags.xmega then 3 else 4) (jump new_pc d')

unfoldable pub run_eijmp : Device → Run
run_eijmp d = do e ← deref d.eind; clocks 2 (jump ((e.reg_val <<< 16) + get_reg_z d) d)

-- `PC += K`, then `&=` with the last word of the flash.
abbrev pub relative : ℤ → Device → Device
relative k d =
    let last = ((d.flash.size + 0xffff_ffff) % 0x1_0000_0000) >>> 1 in
    record d { pc = bit_and (add_mod 0x1_0000 d.pc k) last }

unfoldable pub run_rjmp : ℤ → Device → Run
run_rjmp k d = clocks 2 (relative k d)

unfoldable pub run_rcall : ℤ → Device → Run
unfolding push_addr
run_rcall k d = do
  d' ← push_addr (d.pc + 1) d
  on_call d'
  let d'' = relative k d'
  clocks (if d.flags.tiny10 then 4 else call_clocks d'') d''

unfoldable pub run_ret : Device → Run
unfolding pop_addr
run_ret d = do (addr, d') ← pop_addr d; clocks (d'.pc_size + 2) (jump (addr + 0xffff) d')

unfoldable pub run_reti : Device → Run
unfolding pop_addr
run_reti d = do
  (addr, d') ← pop_addr d
  let st = d'.status
  clocks (d'.pc_size + 2) (record (jump (addr + 0xffff) d') { status = record st { i = true } })

unfoldable pub run_wdr : Device → Run
unfolding wdr
run_wdr d = elim d.wado [
  | none ↦ clocks 1 d
  | some w ↦ clocks 1 (record d { wado = some (wdr d.now w) })
]

unfoldable pub run_nop : Device → Run
run_nop d = clocks 1 d

unfoldable pub run_sleep : Device → Run
run_sleep d = clocks 1 d

-- `BREAK_POINT + 1`.
unfoldable pub run_break : Device → Run
run_break d = ok (d, negsuc 0)

unfoldable pub run_illegal : Device → Run
run_illegal d = abort illegal_instruction
