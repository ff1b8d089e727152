-- ===== src/Irq/Statistic/Extremes.antt =====
-- The entries of the statistics are extremes (src/irqsystem.cpp).
use simulavr.Prelude.{◌≡◌, refl, arith, true, false, inl, inr, Bool-cases}
use simulavr.Prelude.Int.{ℤ}
use simulavr.Irq.Statistic.{
  IrqStatisticEntry, IrqStatisticPerVector, less, shorter, longer, check_complete,
}
use simulavr.Irq.Statistic.{calculate_statistic, calc_diffs, is_complete, filled}

-- `e` is not below `low` nor above `high`, in one of their differences.
abbrev pub Between :
    (IrqStatisticEntry → ℤ) → IrqStatisticEntry → IrqStatisticEntry → IrqStatisticEntry → Type 0
Between field low e high =
    (less (field e) (field low) ≡ false) × (less (field high) (field e) ≡ false)

shorter-below :
    (field : IrqStatisticEntry → ℤ) (e old : IrqStatisticEntry)
    → less (field e) (field (shorter field e old)) ≡ false
shorter-below field e old = elim (Bool-cases (less (field e) (field old))) [
  | inl below ↦ rw below (ground arith)
  | inr above ↦ rw above above
]

longer-above :
    (field : IrqStatisticEntry → ℤ) (e old : IrqStatisticEntry)
    → less (field (longer field e old)) (field e) ≡ false
longer-above field e old = elim (Bool-cases (less (field old) (field e))) [
  | inl below ↦ rw below (ground arith)
  | inr above ↦ rw above above
]

extreme :
    (field : IrqStatisticEntry → ℤ) (e low high : IrqStatisticEntry)
    → Between field (shorter field e low) e (longer field e high)
extreme field e low high = (shorter-below field e low, longer-above field e high)

-- When an interrupt is complete, each of its four differences lies between the shortest and the
-- longest that are kept, and the entry for the next one is empty.
pub check_complete-Between :
    (s : IrqStatisticPerVector)
    → is_complete s.actual ≡ true
    → let e = calc_diffs s.actual in
      let r = check_complete s in
      Between (λ x. x.set_clear) r.short_set_clear e r.long_set_clear
      × Between (λ x. x.set_started) r.short_set_started e r.long_set_started
      × Between (λ x. x.set_finished) r.short_set_finished e r.long_set_finished
      × Between (λ x. x.started_finished) r.short_started_finished e r.long_started_finished
      × (is_complete r.actual ≡ false)
unfolding check_complete calculate_statistic filled
check_complete-Between s complete =
    let e = calc_diffs s.actual in
    rw complete (
      extreme (λ x. x.set_clear) e s.short_set_clear s.long_set_clear,
      extreme (λ x. x.set_started) e s.short_set_started s.long_set_started,
      extreme (λ x. x.set_finished) e s.short_set_finished s.long_set_finished,
      extreme (λ x. x.started_finished) e s.short_started_finished s.long_started_finished,
      refl,
    )
