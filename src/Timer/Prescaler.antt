-- ===== src/Timer/Prescaler.antt =====
-- The prescaler of the timers, and the choice of its outputs (src/hwtimer/timerprescaler.h,
-- src/hwtimer/timerprescaler.cpp, src/hwtimer/prescalermux.cpp). The levels of the pins come from outside.
pub mod Count
use simulavr.Prelude.{ℕ, ◌+◌, ◌-◌, ◌*◌, ◌%◌, bit_and}
use simulavr.Prelude.{
  Bool, true, false, not, ◌&&◌, ◌||◌, ◌==◌, ltb, if◌then◌else◌, Option, none, some,
}
use simulavr.Prelude.Bits.{◌<<<◌}
use simulavr.Core.Result.{Result, ok, abort, wrong_value}

-- `HWPrescaler`. A bit position of -1 is `none`.
pub record HwPrescaler : Type 0 where
  pub reset_bit : Option ℕ
  pub reset_sync_bit : Option ℕ
  pub pre_scale_value : ℕ
  pub count_enable : Bool

-- `HWPrescaler::CpuCycle`: `preScaleValue++` on an `unsigned short`, and back to 0 after 1023.
abbrev pub counted : ℕ → ℕ
counted v = let next = (v + 1) % 0x1_0000 in if ltb 1023 next then 0 else next

unfoldable pub cpu_cycle : HwPrescaler → HwPrescaler
cpu_cycle p = record p {
  pre_scale_value = if p.count_enable then counted p.pre_scale_value else p.pre_scale_value;
}

-- `Reset`.
unfoldable pub reset : HwPrescaler → HwPrescaler
reset p = record p { pre_scale_value = 0 }

-- A bit of the register is written as 1.
abbrev pub bit_at : Option ℕ → ℕ → Bool
bit_at none nv = false
bit_at (some bit) nv = not (bit_and (1 <<< bit) nv == 0)

abbrev pub without_bit : Option ℕ → ℕ → ℕ
without_bit none nv = nv
without_bit (some bit) nv = bit_and (0xff - (1 <<< bit)) nv

-- `set_from_reg` for the register with the reset bit: the value that the register takes, and the
-- prescaler. A prescaler without a reset register never gets there.
unfoldable pub set_from_reg : ℕ → HwPrescaler → ℕ × HwPrescaler
set_from_reg nv p =
    if bit_at p.reset_bit nv
    then (let p' = reset p in
        if bit_at p.reset_sync_bit nv
        then (nv, record p' { count_enable = false })
        else (without_bit p.reset_bit nv, record p' { count_enable = true }))
    else (nv, p)

-- `HWPrescalerAsync`.
pub record HwPrescalerAsync : Type 0 where
  pub prescaler : HwPrescaler
  pub pinstate : Bool
  pub clockselect : Bool
  pub clock_select_bit : ℕ

-- `HWPrescalerAsync::CpuCycle`, with the level of the oscillator pin: with the external clock the
-- count follows its rising edges.
unfoldable pub cpu_cycle_async : Bool → HwPrescalerAsync → HwPrescalerAsync
cpu_cycle_async level a = record a {
  prescaler =
      if not a.clockselect || (not a.pinstate && level) then cpu_cycle a.prescaler else a.prescaler;
  pinstate = if a.clockselect then level else a.pinstate;
}

-- The clock selection in `HWPrescalerAsync::set_from_reg`.
unfoldable pub select_clock : ℕ → HwPrescalerAsync → HwPrescalerAsync
select_clock v a = record a { clockselect = bit_at (some a.clock_select_bit) v }

-- `PrescalerMultiplexer::isClock`.
abbrev pub divides : ℕ → ℕ → Bool
divides n v = v % n == 0

unfoldable pub is_clock : ℕ → ℕ → Result Bool
is_clock cs pv =
    if cs == 0
    then ok false
    else if cs == 1
    then ok true
    else if cs == 2
    then ok (divides 8 pv)
    else if cs == 3
    then ok (divides 32 pv)
    else if cs == 4
    then ok (divides 64 pv)
    else if cs == 5
    then ok (divides 128 pv)
    else if cs == 6
    then ok (divides 256 pv)
    else if cs == 7
    then ok (divides 1024 pv)
    else abort wrong_value

-- An edge of the clock pin, and the level that is saved.
abbrev pub edge : Bool → Bool → Bool → Bool × Bool
edge rising current old =
    if (current && old) || (not current && not old)
    then (false, old)
    else (if rising then current else not current, current)

-- `PrescalerMultiplexerExt::isClock`, with the level of the clock pin and the one that was saved.
unfoldable pub is_clock_ext : ℕ → ℕ → Bool → Bool → Result (Bool × Bool)
is_clock_ext cs pv current old =
    if cs == 0
    then ok (false, old)
    else if cs == 1
    then ok (true, old)
    else if cs == 2
    then ok (divides 8 pv, old)
    else if cs == 3
    then ok (divides 64 pv, old)
    else if cs == 4
    then ok (divides 256 pv, old)
    else if cs == 5
    then ok (divides 1024 pv, old)
    else if cs == 6
    then ok (edge false current old)
    else if cs == 7
    then ok (edge true current old)
    else abort wrong_value
