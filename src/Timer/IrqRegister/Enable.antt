-- ===== src/Timer/IrqRegister/Enable.antt =====
-- Flags that wait for their mask bit in TIMSK (src/hwtimer/timerirq.cpp).
use simulavr.Prelude.{
  ℕ, zero, suc, ◌+◌, ◌≤◌, ◌<◌, bit_and, true, false, not, ◌&&◌, Bool, ltb, first_or_later,
  Bool-cases, Option-cases, none, some, update, ◌≡◌, refl, ap, sym, ◌∙◌, inl, inr, arith,
}
use simulavr.Core.Result.{ok, ◌>>=◌}
use simulavr.Irq.{set_irq_flag}
use simulavr.Timer.IrqRegister.{TimerIrqRegister, has_bit, raise_enabled, set_timsk}

module _ {ℓ} {H : Type ℓ} where
  -- The vectors of the lines are in the table.
  abbrev pub Fits : TimerIrqRegister H → Type 0
  Fits r =
      (i vector : ℕ) → r.lines i ≡ some vector → ltb vector r.irqsystem.vector_table_size ≡ true

  abbrev pub IsPending : ℕ → TimerIrqRegister H → Type ℓ
  IsPending vector r = r.irqsystem.irq_partner_list vector ≡ some r.this

  -- The interrupt of a vector is raised.
  raise : ℕ → TimerIrqRegister H → TimerIrqRegister H
  raise v r = record r {
    irqsystem = record r.irqsystem {
      irq_partner_list = update r.irqsystem.irq_partner_list v (some r.this);
    };
  }

  -- The flag of a line waits, and its mask bit is in `nv`.
  abbrev pub waits : ℕ → ℕ → TimerIrqRegister H → Bool
  waits nv i r = has_bit nv i && not (has_bit r.irqmask i) && has_bit r.irqflags i

  -- What the loop from line `at` on, over `n` lines, ends with.
  record LoopEnd (n at nv i vector : ℕ) (r : TimerIrqRegister H) : Type ℓ where
    end : TimerIrqRegister H
    shown : raise_enabled n at nv r ≡ ok end
    same : end.this ≡ r.this
    kept : IsPending vector r → IsPending vector end
    reached : at ≤ i → i < at + n → IsPending vector end

  IsPending-raise :
      (vector v : ℕ) (r : TimerIrqRegister H) → IsPending vector r → IsPending vector (raise v r)
  unfolding raise
  IsPending-raise vector v r p = ground (arith, p)

  raise-IsPending : (v : ℕ) (r : TimerIrqRegister H) → IsPending v (raise v r)
  unfolding raise
  raise-IsPending v r = ground arith

  Fits-raise : (v : ℕ) (r : TimerIrqRegister H) → Fits r → Fits (raise v r)
  unfolding raise
  Fits-raise v r f = f

  waits-raise : (v nv i : ℕ) (r : TimerIrqRegister H) → waits nv i (raise v r) ≡ waits nv i r
  unfolding raise
  waits-raise v nv i r = refl

  lines-raise : (v : ℕ) (r : TimerIrqRegister H) → (raise v r).lines ≡ r.lines
  unfolding raise
  lines-raise v r = refl

  this-raise : (v : ℕ) (r : TimerIrqRegister H) → (raise v r).this ≡ r.this
  unfolding raise
  this-raise v r = refl

  raised_next :
      (n at nv v : ℕ) (r : TimerIrqRegister H)
      → waits nv at r ≡ true
      → r.lines at ≡ some v
      → ltb v r.irqsystem.vector_table_size ≡ true
      → raise_enabled (suc n) at nv r ≡ raise_enabled n (at + 1) nv (raise v r)
  unfolding raise_enabled set_irq_flag raise
  raised_next n at nv v r on line fits =
      rw (on, raise_enabled) (rw line (rw (fits, set_irq_flag) refl))

  skipped_line :
      (n at nv : ℕ) (r : TimerIrqRegister H)
      → waits nv at r ≡ false
      → raise_enabled (suc n) at nv r ≡ raise_enabled n (at + 1) nv r
  unfolding raise_enabled
  skipped_line n at nv r off = rw (off, raise_enabled) refl

  no_line :
      (n at nv : ℕ) (r : TimerIrqRegister H)
      → waits nv at r ≡ true
      → r.lines at ≡ none
      → raise_enabled (suc n) at nv r ≡ raise_enabled n (at + 1) nv r
  unfolding raise_enabled
  no_line n at nv r on line = rw (on, raise_enabled) (rw line refl)

  raise_enabled-LoopEnd :
      (n at nv i vector : ℕ) (r : TimerIrqRegister H)
      → Fits r
      → waits nv i r ≡ true
      → r.lines i ≡ some vector
      → LoopEnd n at nv i vector r
  unfolding raise_enabled
  raise_enabled-LoopEnd zero at nv i vector r fits on line = record {
    end = r;
    shown = refl;
    same = refl;
    kept = λ p. p;
    reached = λ a b. absurd (omega arith);
  }
  raise_enabled-LoopEnd (suc n) at nv i vector r fits on line = elim (Bool-cases (waits nv at r)) [
    | inl here ↦ elim (Option-cases (r.lines at)) [
      | inl empty ↦
          let rest = raise_enabled-LoopEnd n (at + 1) nv i vector r fits on line in
          record {
            end = rest.end;
            shown = no_line n at nv r here empty ∙ rest.shown;
            same = rest.same;
            kept = rest.kept;
            reached =
                first_or_later at n i
                  (λ e. absurd (ground (arith, sym line ∙ ap r.lines (sym e) ∙ empty)))
                  rest.reached;
          }
      | inr own ↦
          let v = own.0 in
          let next = raise v r in
          let rest =
            raise_enabled-LoopEnd n (at + 1) nv i vector next (Fits-raise v r fits)
              (waits-raise v nv i r ∙ on) (ap (λ l. l i) (lines-raise v r) ∙ line) in
          record {
            end = rest.end;
            shown = raised_next n at nv v r here (own.1) (fits at v (own.1)) ∙ rest.shown;
            same = rest.same ∙ this-raise v r;
            kept = λ p. rest.kept (IsPending-raise vector v r p);
            reached =
                first_or_later at n i
                  (λ e.
                    let known : v ≡ vector = ground (arith, sym (own.1) ∙ ap r.lines e ∙ line) in
                    rest.kept (rw (← known) (raise-IsPending v r)))
                  rest.reached;
          }
    ]
    | inr skip ↦
        let rest = raise_enabled-LoopEnd n (at + 1) nv i vector r fits on line in
        record {
          end = rest.end;
          shown = skipped_line n at nv r skip ∙ rest.shown;
          same = rest.same;
          kept = rest.kept;
          reached =
              first_or_later at n i
                (λ e. absurd (ground (arith, sym on ∙ ap (λ j. waits nv j r) (sym e) ∙ skip)))
                rest.reached;
        }
  ]

  -- TIMSK is written, of a register whose lines all have vectors of the table. For a used bit that is
  -- written as 1, was 0 before, and whose flag is set, the write goes through, and the interrupt of
  -- the line is pending afterwards: a flag waits for its mask bit and is not lost.
  pub set_timsk-IsPending :
      (nv i vector : ℕ) (r : TimerIrqRegister H)
      → i < 8
      → Fits r
      → waits (bit_and nv r.bitmask) i r ≡ true
      → r.lines i ≡ some vector
      → (r' : TimerIrqRegister H) × (set_timsk nv r ≡ ok (bit_and nv r.bitmask, r'))
        × (r'.irqsystem.irq_partner_list vector ≡ some r.this)
  unfolding set_timsk
  set_timsk-IsPending nv i vector r small fits on line =
      let m = bit_and nv r.bitmask in
      let run = raise_enabled-LoopEnd 8 0 m i vector r fits on line in
      (
        record (run.end) { irqmask = m },
        ap (λ x. x >>= (λ r'. ok (m, record r' { irqmask = m }))) run.shown,
        run.reached (omega arith) small ∙ ap some run.same,
      )
