-- ===== src/Timer/IrqRegister/Acknowledge.antt =====
-- The acknowledgement of timer interrupts by a write to TIFR (src/hwtimer/timerirq.cpp).
use simulavr.Prelude.{
  ℕ, zero, suc, ◌+◌, ◌-◌, ◌^◌, ◌≤◌, ◌<◌, bit_and, bit_xor, true, false, ◌==◌, Bool-cases,
  first_or_later, none, some, ◌≡◌, refl, ap, sym, ◌∙◌, ◌↔◌, inl, inr, arith, all_below,
  all_below_sound, ==_iff,
}
use simulavr.Prelude.Bits.{◌<<<◌, u8, bit_and-cleared}
use simulavr.Core.Result.{ok}
use simulavr.Irq.{clear_irq_flag}
use simulavr.Timer.IrqRegister.{TimerIrqRegister, has_bit, clear_flag, clear_lines, set_tifr}

-- The mask of a bit, in both spellings.
has_bit-clear : (v i : ℕ) → (has_bit v i ≡ false) ↔ (bit_and v (2 ^ i) ≡ 0)
has_bit-clear v i =
    let same : 1 <<< i ≡ 2 ^ i = omega arith in
    (
      λ e. ap (bit_and v) (sym same) ∙ ground (arith, e),
      λ e. ground (arith, ap (bit_and v) same, e),
    )

-- A bit that is clear stays so under a mask, and the mask of a line clears its bit.
has_bit-mask : (v m i : ℕ) → has_bit v i ≡ false → has_bit (bit_and v m) i ≡ false
has_bit-mask v m i e =
    (has_bit-clear (bit_and v m) i).1 (bit_and-cleared i v m (inl ((has_bit-clear v i).0 e)))

has_bit-cleared : (v i : ℕ) → i < 8 → has_bit (bit_and v (0xff - u8 (1 <<< i))) i ≡ false
unfolding all_below
has_bit-cleared v i small =
    let own : bit_and (0xff - u8 (1 <<< i)) (2 ^ i) ≡ 0 =
      (==_iff _ _).0
        (all_below_sound 8 (λ i. bit_and (0xff - u8 (1 <<< i)) (2 ^ i) == 0) i refl small) in
    (has_bit-clear (bit_and v (0xff - u8 (1 <<< i))) i).1
      (bit_and-cleared i v (0xff - u8 (1 <<< i)) (inr own))

module _ {ℓ} {H : Type ℓ} where
  -- Each bit that is looked at has a line, and the lines know their numbers.
  pub record Wired (reset : ℕ) (r : TimerIrqRegister H) : Type ℓ where
    pub has_line :
        (i : ℕ) → i < 8 → has_bit reset i ≡ true → (vector : ℕ) × (r.lines i ≡ some vector)
    pub numbered : (i vector : ℕ) → i < 8 → r.lines i ≡ some vector → r.vector2line vector ≡ i

  -- The line `i` with its vector is not pending, and its flag is clear.
  pub record Quiet (i vector : ℕ) (r : TimerIrqRegister H) : Type ℓ where
    pub taken_back : r.irqsystem.irq_partner_list vector ≡ none
    pub flag : has_bit r.irqflags i ≡ false

  clear_flag-keeps :
      (i vector v : ℕ) (r : TimerIrqRegister H) → Quiet i vector r → Quiet i vector (clear_flag v r)
  unfolding clear_flag clear_irq_flag
  clear_flag-keeps i vector v r q = record {
    taken_back = ground (arith, q.taken_back);
    flag = has_bit-mask r.irqflags (0xff - u8 (1 <<< r.vector2line v)) i q.flag;
  }

  clear_flag-Quiet :
      (i vector : ℕ) (r : TimerIrqRegister H)
      → i < 8
      → r.vector2line vector ≡ i
      → Quiet i vector (clear_flag vector r)
  unfolding clear_flag clear_irq_flag
  clear_flag-Quiet i vector r small e = record {
    taken_back = ground arith;
    flag =
        ap (λ j. has_bit (bit_and r.irqflags (0xff - u8 (1 <<< j))) i) e
        ∙ has_bit-cleared r.irqflags i small;
  }

  -- What the loop from line `at` on, over `n` lines, ends with.
  record Cleared (n at reset i vector : ℕ) (r : TimerIrqRegister H) : Type ℓ where
    end : TimerIrqRegister H
    shown : clear_lines n at reset r ≡ ok end
    kept : Quiet i vector r → Quiet i vector end
    reached : at ≤ i → i < at + n → Quiet i vector end

  Wired-clear_flag :
      {reset : ℕ} {r : TimerIrqRegister H} (v : ℕ) → Wired reset r → Wired reset (clear_flag v r)
  unfolding clear_flag
  Wired-clear_flag v w = record { has_line = w.has_line; numbered = w.numbered }

  lines-clear_flag : (v : ℕ) (r : TimerIrqRegister H) → (clear_flag v r).lines ≡ r.lines
  unfolding clear_flag
  lines-clear_flag v r = refl

  clear_lines-Cleared :
      (n at reset i vector : ℕ) (r : TimerIrqRegister H)
      → at + n ≤ 8
      → Wired reset r
      → has_bit reset i ≡ true
      → r.lines i ≡ some vector
      → Cleared n at reset i vector r
  unfolding clear_lines
  clear_lines-Cleared zero at reset i vector r room w set line = record {
    end = r;
    shown = refl;
    kept = λ q. q;
    reached = λ a b. absurd (omega arith);
  }
  clear_lines-Cleared (suc n) at reset i vector r room w set line =
      elim (Bool-cases (has_bit reset at)) [
        | inl here ↦
            let own = w.has_line at (omega arith) here in
            let next = clear_flag (own.0) r in
            let rest =
              clear_lines-Cleared n (at + 1) reset i vector next (omega arith)
                (Wired-clear_flag (own.0) w) set
                (ap (λ l. l i) (lines-clear_flag (own.0) r) ∙ line) in
            record {
              end = rest.end;
              shown = rw (here, clear_lines) (rw (own.1) rest.shown);
              kept = λ q. rest.kept (clear_flag-keeps i vector (own.0) r q);
              reached =
                  first_or_later at n i
                    (λ e.
                      let v : own.0 ≡ vector = ground (arith, sym (own.1) ∙ ap r.lines e ∙ line) in
                      rest.kept (
                        rw (← v) (
                          clear_flag-Quiet i (own.0) r (omega (arith, e, room))
                            (w.numbered at (own.0) (omega (arith, room)) (own.1) ∙ e))))
                    rest.reached;
            }
        | inr skip ↦
            let rest = clear_lines-Cleared n (at + 1) reset i vector r (omega arith) w set line in
            record {
              end = rest.end;
              shown = rw (skip, clear_lines) rest.shown;
              kept = rest.kept;
              reached =
                  first_or_later at n i
                    (λ e. absurd (ground (arith, sym set ∙ ap (has_bit reset) (sym e) ∙ skip)))
                    rest.reached;
            }
      ]

  -- A byte is written to TIFR of a register whose used and set flags have lines, which know their
  -- numbers. For each bit that is written as 1 and whose flag is used and set, the write goes through,
  -- the flag is clear afterwards and the interrupt of the line is not pending any more.
  pub set_tifr-Quiet :
      (nv i vector : ℕ) (r : TimerIrqRegister H)
      → i < 8
      → Wired (bit_and (bit_and nv r.bitmask) r.irqflags) r
      → has_bit (bit_and (bit_and nv r.bitmask) r.irqflags) i ≡ true
      → r.lines i ≡ some vector
      → (r' : TimerIrqRegister H) × (set_tifr nv r ≡ ok (nv, r')) × Quiet i vector r'
  unfolding set_tifr
  set_tifr-Quiet nv i vector r small w set line =
      let reset = bit_and (bit_and nv r.bitmask) r.irqflags in
      let start = record r { irqflags = bit_xor r.irqflags reset } in
      let run =
        clear_lines-Cleared 8 0 reset i vector start (omega arith)
          (record { has_line = w.has_line; numbered = w.numbered }) set line in
      (run.end, rw (run.shown, set_tifr) refl, run.reached (omega arith) small)
