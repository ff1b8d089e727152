-- ===== src/Irq/Statistic.antt =====
-- The statistics of interrupts: `IrqStatisticEntry` and `IrqStatisticPerVector` (src/irqsystem.cpp), and
-- what the methods of `HWIrqSystem` note in them. Times are in ns since the start of the simulation;
-- a time of 0 stands for none.
pub mod Extremes
use simulavr.Prelude.{ℕ, ◌+◌, Bool, not, ◌&&◌, ◌==◌, ltb, if◌then◌else◌, update}
use simulavr.Prelude.Int.{ℤ, pos, sub_ℕ, pos_part, neg_part}

pub record IrqStatisticEntry : Type 0 where
  pub flag_set : ℕ
  pub flag_cleared : ℕ
  pub handler_started : ℕ
  pub handler_finished : ℕ
  pub set_clear : ℤ
  pub set_started : ℤ
  pub set_finished : ℤ
  pub started_finished : ℤ

-- The constructor, and those of the entries that stand for no extreme yet.
unfoldable pub filled : ℤ → IrqStatisticEntry
filled d = record {
  flag_set = 0;
  flag_cleared = 0;
  handler_started = 0;
  handler_finished = 0;
  set_clear = d;
  set_started = d;
  set_finished = d;
  started_finished = d;
}

-- `CalcDiffs`.
unfoldable pub calc_diffs : IrqStatisticEntry → IrqStatisticEntry
calc_diffs e = record e {
  set_clear = sub_ℕ e.flag_cleared e.flag_set;
  set_started = sub_ℕ e.handler_started e.flag_set;
  set_finished = sub_ℕ e.handler_finished e.flag_set;
  started_finished = sub_ℕ e.handler_finished e.handler_started;
}

pub record IrqStatisticPerVector : Type 0 where
  pub long_set_clear : IrqStatisticEntry
  pub short_set_clear : IrqStatisticEntry
  pub long_set_started : IrqStatisticEntry
  pub short_set_started : IrqStatisticEntry
  pub long_set_finished : IrqStatisticEntry
  pub short_set_finished : IrqStatisticEntry
  pub long_started_finished : IrqStatisticEntry
  pub short_started_finished : IrqStatisticEntry
  pub actual : IrqStatisticEntry

-- The constructor.
unfoldable pub create : IrqStatisticPerVector
create =
    let short = filled (pos 0xffff_ffff_ffff) in
    let long = filled (pos 0) in
    record {
      long_set_clear = long;
      short_set_clear = short;
      long_set_started = long;
      short_set_started = short;
      long_set_finished = long;
      short_set_finished = short;
      long_started_finished = long;
      short_started_finished = short;
      actual = filled (pos 0);
    }

-- `a < b`.
abbrev pub less : ℤ → ℤ → Bool
less a b = ltb (pos_part a + neg_part b) (pos_part b + neg_part a)

-- One of two entries, by one of their differences.
abbrev pub shorter :
    (IrqStatisticEntry → ℤ) → IrqStatisticEntry → IrqStatisticEntry → IrqStatisticEntry
shorter field e old = if less (field e) (field old) then e else old

abbrev pub longer :
    (IrqStatisticEntry → ℤ) → IrqStatisticEntry → IrqStatisticEntry → IrqStatisticEntry
longer field e old = if less (field old) (field e) then e else old

-- `CalculateStatistic`.
unfoldable pub calculate_statistic : IrqStatisticPerVector → IrqStatisticPerVector
calculate_statistic s =
    let e = calc_diffs s.actual in
    record {
      short_set_clear = shorter (λ x. x.set_clear) e s.short_set_clear;
      long_set_clear = longer (λ x. x.set_clear) e s.long_set_clear;
      short_set_started = shorter (λ x. x.set_started) e s.short_set_started;
      long_set_started = longer (λ x. x.set_started) e s.long_set_started;
      short_set_finished = shorter (λ x. x.set_finished) e s.short_set_finished;
      long_set_finished = longer (λ x. x.set_finished) e s.long_set_finished;
      short_started_finished = shorter (λ x. x.started_finished) e s.short_started_finished;
      long_started_finished = longer (λ x. x.started_finished) e s.long_started_finished;
      actual = e;
    }

-- `CheckComplete`.
abbrev pub is_complete : IrqStatisticEntry → Bool
is_complete e =
    not (e.flag_set == 0)
    && not (e.flag_cleared == 0)
    && not (e.handler_started == 0)
    && not (e.handler_finished == 0)

unfoldable pub check_complete : IrqStatisticPerVector → IrqStatisticPerVector
check_complete s =
    if is_complete s.actual then record (calculate_statistic s) { actual = filled (pos 0) } else s

-- A time is noted where there is none.
abbrev pub noted : ℕ → ℕ → ℕ
noted now old = if old == 0 then now else old

-- What `SetIrqFlag`, `ClearIrqFlag`, `IrqHandlerStarted` and `IrqHandlerFinished` note for their
-- vector.
unfoldable pub note_set : ℕ → IrqStatisticPerVector → IrqStatisticPerVector
note_set now s =
    let e = s.actual in record s { actual = record e { flag_set = noted now e.flag_set } }

unfoldable pub note_cleared : ℕ → IrqStatisticPerVector → IrqStatisticPerVector
note_cleared now s =
    let e = s.actual in
    check_complete (record s { actual = record e { flag_cleared = noted now e.flag_cleared } })

unfoldable pub note_started : ℕ → IrqStatisticPerVector → IrqStatisticPerVector
note_started now s =
    let e = s.actual in
    check_complete
      (record s { actual = record e { handler_started = noted now e.handler_started } })

unfoldable pub note_finished : ℕ → IrqStatisticPerVector → IrqStatisticPerVector
note_finished now s =
    let e = s.actual in
    check_complete
      (record s { actual = record e { handler_finished = noted now e.handler_finished } })
