-- ===== src/Core/Execute/Load.antt =====
-- Loads from the data space and from flash (`operator()` of these classes in src/decoder.cpp).
use simulavr.Prelude.{ℕ, ◌+◌, ◌*◌, bit_xor}
use simulavr.Prelude.{none, some, ◌&&◌, ◌||◌, ◌==◌, if◌then◌else◌}
use simulavr.Prelude.Bits.{◌<<<◌, ◌>>>◌, u8, u16}
use simulavr.Core.Device.{Device}
use simulavr.Core.Execute.Common.{Run, clocks, set_pair, one_if, jump}
use simulavr.Core.Memory.{set_core_reg, get_rw_mem, get_reg_x, get_reg_y, get_reg_z, set_reg_val}
use simulavr.Core.Result.{Result, ok, abort, undefined_result, ◌>>=◌, ◌>>◌}
use simulavr.Flash.{read_mem, read_mem_word}

-- A load from a data address.
abbrev load : ℕ → ℕ → Device → Result Device
load rd addr d = get_rw_mem addr d >>= λ p. ok (set_core_reg rd p.0 p.1)

-- The loads that change a pointer end the simulation when they load one of its two registers.
abbrev pub defined : ℕ → ℕ → Result (Unit {0})
defined low r = if r == low || r == low + 1 then abort undefined_result else ok tt

-- The pre-decrement of a pointer in `low` and `low + 1`: the load comes first.
abbrev load_decr : ℕ → ℕ → ℕ → Device → Run
load_decr low pointer rd d = do
  defined low rd
  let x = u16 (pointer + 0xffff)
  d' ← load rd x d
  clocks (if d.flags.tiny10 then 3 else 2) (set_pair low (low + 1) x d')

abbrev load_incr : ℕ → ℕ → ℕ → Device → Run
load_incr low pointer rd d = do
  defined low rd
  d' ← load rd pointer d
  clocks (one_if d.flags.xmega 2) (set_pair low (low + 1) (u16 (pointer + 1)) d')

unfoldable pub run_ldd_y : ℕ → ℕ → Device → Run
unfolding get_rw_mem
run_ldd_y rd k d = do
  d' ← load rd (get_reg_y d + k) d
  clocks (one_if ((d.flags.xmega || d.flags.tiny10) && (k == 0)) 2) d'

unfoldable pub run_ldd_z : ℕ → ℕ → Device → Run
unfolding get_rw_mem
run_ldd_z rd k d = do
  d' ← load rd (get_reg_z d + k) d
  clocks (one_if ((d.flags.xmega || d.flags.tiny10) && (k == 0)) 2) d'

unfoldable pub run_lds : ℕ → Device → Run
unfolding get_rw_mem read_mem_word
run_lds r1 d = do
  offset ← read_mem_word d.flash ((d.pc + 1) * 2)
  d' ← load r1 offset d
  clocks 2 (jump (d'.pc + 1) d')

unfoldable pub run_ld_x : ℕ → Device → Run
unfolding get_rw_mem
run_ld_x rd d = do
  d' ← load rd (get_reg_x d) d
  clocks (one_if (d.flags.xmega || d.flags.tiny10) 2) d'

unfoldable pub run_ld_x_decr : ℕ → Device → Run
unfolding get_rw_mem
run_ld_x_decr rd d = load_decr 26 (get_reg_x d) rd d

unfoldable pub run_ld_x_incr : ℕ → Device → Run
unfolding get_rw_mem
run_ld_x_incr rd d = load_incr 26 (get_reg_x d) rd d

unfoldable pub run_ld_y_decr : ℕ → Device → Run
unfolding get_rw_mem
run_ld_y_decr rd d = load_decr 28 (get_reg_y d) rd d

unfoldable pub run_ld_y_incr : ℕ → Device → Run
unfolding get_rw_mem
run_ld_y_incr rd d = load_incr 28 (get_reg_y d) rd d

unfoldable pub run_ld_z_decr : ℕ → Device → Run
unfolding get_rw_mem
run_ld_z_decr rd d = load_decr 30 (get_reg_z d) rd d

unfoldable pub run_ld_z_incr : ℕ → Device → Run
unfolding get_rw_mem
run_ld_z_incr rd d = load_incr 30 (get_reg_z d) rd d

-- A load from the program memory, where the two bytes of a word are swapped.
abbrev load_program : ℕ → ℕ → Device → Device
load_program rd z d = set_core_reg rd (read_mem d.flash (bit_xor z 1)) d

unfoldable pub run_lpm_z : ℕ → Device → Run
unfolding read_mem
run_lpm_z rd d = clocks 3 (load_program rd (get_reg_z d) d)

unfoldable pub run_lpm : Device → Run
unfolding read_mem
run_lpm d = clocks 3 (load_program 0 (get_reg_z d) d)

unfoldable pub run_lpm_z_incr : ℕ → Device → Run
unfolding read_mem
run_lpm_z_incr rd d =
    clocks 3 (set_pair 30 31 (u16 (get_reg_z d + 1)) (load_program rd (get_reg_z d) d))

-- `rampz`, 0 when the core has none.
abbrev pub rampz_value : Device → ℕ
rampz_value d = elim d.rampz [ none ↦ 0 | some r ↦ r.reg_val ]

abbrev pub set_rampz : ℕ → Device → Device
set_rampz val d = elim d.rampz [
  | none ↦ d
  | some r ↦ record d { rampz = some (set_reg_val (u8 val) r) }
]

-- `(rampz << 16) + core->GetRegZ()`.
abbrev pub extended_z : Device → ℕ
extended_z d = (rampz_value d <<< 16) + get_reg_z d

unfoldable pub run_elpm_z : ℕ → Device → Run
unfolding read_mem
run_elpm_z r1 d = clocks 3 (load_program r1 (extended_z d) d)

unfoldable pub run_elpm_z_incr : ℕ → Device → Run
unfolding read_mem set_reg_val
run_elpm_z_incr r1 d =
    let z = extended_z d + 1 in
    clocks 3 (set_pair 30 31 z (set_rampz (z >>> 16) (load_program r1 (extended_z d) d)))

unfoldable pub run_elpm : Device → Run
unfolding read_mem
run_elpm d = clocks 3 (load_program 0 (extended_z d) d)
