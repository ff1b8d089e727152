-- ===== src/Core/Execute/Store.antt =====
-- Stores to the data space, the stack and the IO space, and to flash (`operator()` of these classes in
-- src/decoder.cpp).
use simulavr.Prelude.{ℕ, ◌+◌, ◌*◌, true, false}
use simulavr.Prelude.{none, some, ◌&&◌, ◌||◌, ◌==◌}
use simulavr.Prelude.Bits.{◌<<<◌, ◌>>>◌, u16}
use simulavr.Core.Device.{Device}
use simulavr.Core.Execute.Common.{Run, clocks, set_pair, one_if, jump}
use simulavr.Core.Memory.{
  get_core_reg, set_core_reg, set_rw_mem, get_io_reg, set_io_reg, set_io_reg_bit, get_reg_x,
  get_reg_y, get_reg_z, set_reg_val,
}
use simulavr.Core.Result.{Result, ok, ◌>>=◌, ◌>>◌}
use simulavr.Core.Stack.{push, pop}
use simulavr.Core.Execute.Load.{defined, rampz_value, set_rampz}
use simulavr.Flash.{read_mem_word}
use simulavr.Periph.Spm.{FlashProgramming, spm_action}

-- A store after a pre-decrement: the pointer changes first.
abbrev store_decr : ℕ → ℕ → ℕ → Device → Run
store_decr low pointer r1 d = do
  defined low r1
  let x = u16 (pointer + 0xffff)
  let d' = set_pair low (low + 1) x d
  d'' ← set_rw_mem x (get_core_reg r1 d') d'
  clocks 2 d''

abbrev store_incr : ℕ → ℕ → ℕ → Device → Run
store_incr low pointer r1 d = do
  defined low r1
  d' ← set_rw_mem pointer (get_core_reg r1 d) d
  clocks (one_if (d.flags.xmega || d.flags.tiny10) 2)
      (set_pair low (low + 1) (u16 (pointer + 1)) d')

unfoldable pub run_std_y : ℕ → ℕ → Device → Run
unfolding set_rw_mem
run_std_y r1 k d = do
  d' ← set_rw_mem (get_reg_y d + k) (get_core_reg r1 d) d
  clocks (one_if ((k == 0) && (d.flags.xmega || d.flags.tiny10)) 2) d'

unfoldable pub run_std_z : ℕ → ℕ → Device → Run
unfolding set_rw_mem
run_std_z r1 k d = do
  d' ← set_rw_mem (get_reg_z d + k) (get_core_reg r1 d) d
  clocks (one_if ((k == 0) && (d.flags.xmega || d.flags.tiny10)) 2) d'

unfoldable pub run_sts : ℕ → Device → Run
unfolding set_rw_mem read_mem_word
run_sts r1 d = do
  k ← read_mem_word d.flash ((d.pc + 1) * 2)
  d' ← set_rw_mem k (get_core_reg r1 d) d
  clocks 2 (jump (d'.pc + 1) d')

unfoldable pub run_st_x : ℕ → Device → Run
unfolding set_rw_mem
run_st_x r1 d = do
  d' ← set_rw_mem (get_reg_x d) (get_core_reg r1 d) d
  clocks (one_if (d.flags.xmega || d.flags.tiny10) 2) d'

unfoldable pub run_st_x_decr : ℕ → Device → Run
unfolding set_rw_mem
run_st_x_decr r1 d = store_decr 26 (get_reg_x d) r1 d

unfoldable pub run_st_x_incr : ℕ → Device → Run
unfolding set_rw_mem
run_st_x_incr r1 d = store_incr 26 (get_reg_x d) r1 d

unfoldable pub run_st_y_decr : ℕ → Device → Run
unfolding set_rw_mem
run_st_y_decr r1 d = store_decr 28 (get_reg_y d) r1 d

unfoldable pub run_st_y_incr : ℕ → Device → Run
unfolding set_rw_mem
run_st_y_incr r1 d = store_incr 28 (get_reg_y d) r1 d

unfoldable pub run_st_z_decr : ℕ → Device → Run
unfolding set_rw_mem
run_st_z_decr r1 d = store_decr 30 (get_reg_z d) r1 d

unfoldable pub run_st_z_incr : ℕ → Device → Run
unfolding set_rw_mem
run_st_z_incr r1 d = store_incr 30 (get_reg_z d) r1 d

unfoldable pub run_push : ℕ → Device → Run
unfolding push
run_push r1 d = push (get_core_reg r1 d) d >>= clocks (one_if d.flags.xmega 2)

unfoldable pub run_pop : ℕ → Device → Run
unfolding pop
run_pop r1 d = pop d >>= λ p. clocks 2 (set_core_reg r1 p.0 p.1)

unfoldable pub run_in : ℕ → ℕ → Device → Run
unfolding get_io_reg
run_in r1 ioreg d = get_io_reg ioreg d >>= λ p. clocks 1 (set_core_reg r1 p.0 p.1)

unfoldable pub run_out : ℕ → ℕ → Device → Run
unfolding set_io_reg
run_out ioreg r1 d = set_io_reg ioreg (get_core_reg r1 d) d >>= clocks 1

unfoldable pub run_cbi : ℕ → ℕ → Device → Run
unfolding set_io_reg_bit
run_cbi ioreg kbit d =
    set_io_reg_bit ioreg kbit false d >>= clocks (one_if (d.flags.xmega || d.flags.tiny10) 2)

unfoldable pub run_sbi : ℕ → ℕ → Device → Run
unfolding set_io_reg_bit
run_sbi ioreg kbit d =
    set_io_reg_bit ioreg kbit true d >>= clocks (one_if (d.flags.xmega || d.flags.tiny10) 2)

-- The call of `SPM_action`, with the clocks it adds.
abbrev program : FlashProgramming → Device → Result (Device × ℕ)
program p d = do
  let data_word = get_core_reg 0 d + (get_core_reg 1 d <<< 8)
  (p', f, cycles) ← spm_action d.flags d.pc d.now data_word (rampz_value d) (get_reg_z d) p d.flash
  ok (record d { spm_register = some p'; flash = f }, 1 + cycles)

unfoldable pub run_spm : Device → Run
unfolding spm_action
run_spm d = elim d.spm_register [ none ↦ clocks 1 d | some p ↦ program p d >>= λ q. clocks q.1 q.0 ]

unfoldable pub run_espm : Device → Run
unfolding spm_action set_reg_val
run_espm d = elim d.spm_register [
  | none ↦ clocks 1 d
  | some p ↦
      let z = get_reg_z d + 1 in
      program p d >>= λ q. clocks q.1 (set_rampz (z >>> 16) (set_pair 30 31 z q.0))
]
