-- ===== src/Periph/Wado.antt =====
-- The watchdog `HWWado` (src/hwwado.h, src/hwwado.cpp). A time is in ns since the start of the
-- simulation.
pub mod Silence
use simulavr.Prelude.{ℕ, ◌+◌, ◌-◌, bit_and, Bool, true, false, not, ◌&&◌, ltb, ◌==◌, if◌then◌else◌}

pub record Wado : Type 0 where
  pub wdtcr : ℕ
  pub cnt_wde : ℕ
  pub time_out_at : ℕ

abbrev pub wdtoe : ℕ
wdtoe = 0x10

abbrev pub wde : ℕ
wde = 0x08

-- `SetWdtcr`.
unfoldable pub set_wdtcr : ℕ → Wado → Wado
set_wdtcr val w =
    let old_wdtoe = bit_and w.wdtcr wdtoe in
    let new_wde = bit_and val wde in
    let w' =
      if new_wde == 1
      then record w { wdtcr = val }
      else if old_wdtoe == 1
      then record w { wdtcr = val }
      else w in
    if bit_and val wdtoe == 1 then record w' { cnt_wde = 4 } else w'

-- `CpuCycle`: the watchdog, and whether it resets the core.
unfoldable pub cpu_cycle : ℕ → Wado → Wado × Bool
cpu_cycle now w =
    let cnt = if ltb 0 w.cnt_wde then w.cnt_wde - 1 else w.cnt_wde in
    let reg = if cnt == 0 then bit_and w.wdtcr (0xff - wdtoe) else w.wdtcr in
    (record w { wdtcr = reg; cnt_wde = cnt }, not (bit_and reg wde == 0) && ltb w.time_out_at now)

-- `Reset`.
unfoldable pub reset : Wado → Wado
reset w = record w { time_out_at = 0; wdtcr = 0 }

-- The times of the `switch` in `Wdr`.
unfoldable pub time_out : ℕ → ℕ
time_out p =
    if p == 0
    then 47_000_000
    else if p == 1
    then 94_000_000
    else if p == 2
    then 190_000_000
    else if p == 3
    then 380_000_000
    else if p == 4
    then 750_000_000
    else if p == 5
    then 1_500_000_000
    else if p == 6
    then 3_000_000_000
    else 6_000_000_000

-- `Wdr`.
unfoldable pub wdr : ℕ → Wado → Wado
unfolding time_out
wdr now w = record w { time_out_at = now + time_out (bit_and w.wdtcr 0x7) }
