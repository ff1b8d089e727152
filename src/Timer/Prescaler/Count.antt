-- ===== src/Timer/Prescaler/Count.antt =====
-- What the prescaler counts (src/hwtimer/timerprescaler.h, src/hwtimer/prescalermux.cpp).
use simulavr.Prelude.{ℕ, zero, suc, ◌+◌, ◌%◌, ◌≤◌, ◌<◌, ◌≡◌, refl, ap, ◌∙◌, arith}
use simulavr.Prelude.{true, false, ◌==◌, if◌then◌else◌}
use simulavr.Core.Result.{ok}
use simulavr.Timer.Prescaler.{
  HwPrescaler, cpu_cycle, counted, set_from_reg, reset, bit_at, is_clock, divides,
}

-- `n` cycles of the core.
abbrev pub cycles : ℕ → HwPrescaler → HwPrescaler
cycles zero p = p
cycles (suc n) p = cycles n (cpu_cycle p)

-- The divisors of the clock selections from 2 on.
abbrev pub divisor : ℕ → ℕ
divisor cs =
    if cs == 2
    then 8
    else if cs == 3
    then 32
    else if cs == 4
    then 64
    else if cs == 5
    then 128
    else if cs == 6
    then 256
    else 1024

counted-mod : (v : ℕ) → v < 1024 → counted v ≡ (v + 1) % 1024
counted-mod v h = ground (arith, h)

cycles-value :
    (n : ℕ) (p : HwPrescaler)
    → p.count_enable ≡ true
    → p.pre_scale_value < 1024
    → (cycles n p).pre_scale_value ≡ (p.pre_scale_value + n) % 1024
unfolding cpu_cycle
cycles-value zero p on small = omega (arith, small)
cycles-value (suc n) p on small =
    let once : (cpu_cycle p).pre_scale_value ≡ (p.pre_scale_value + 1) % 1024 =
      ap (λ b. if b then counted p.pre_scale_value else p.pre_scale_value) on
      ∙ counted-mod p.pre_scale_value small in
    omega (arith, cycles-value n (cpu_cycle p) on (omega (arith, once)), once)

same_rest : (d v : ℕ) → (v % 1024) % d ≡ v % d → ok (divides d (v % 1024)) ≡ ok (divides d v)
same_rest d v e = ap (λ r. ok (r == 0)) e

selected : (cs v : ℕ) → 2 ≤ cs → cs ≤ 7 → is_clock cs (v % 1024) ≡ ok (divides (divisor cs) v)
unfolding is_clock
selected zero v low high = absurd (omega arith)
selected (suc zero) v low high = absurd (omega arith)
selected (suc (suc zero)) v low high = same_rest 8 v (omega arith)
selected (suc (suc (suc zero))) v low high = same_rest 32 v (omega arith)
selected (suc (suc (suc (suc zero)))) v low high = same_rest 64 v (omega arith)
selected (suc (suc (suc (suc (suc zero))))) v low high = same_rest 128 v (omega arith)
selected (suc (suc (suc (suc (suc (suc zero)))))) v low high = same_rest 256 v (omega arith)
selected (suc (suc (suc (suc (suc (suc (suc zero))))))) v low high = same_rest 1024 v (omega arith)
selected (suc (suc (suc (suc (suc (suc (suc (suc cs)))))))) v low high = absurd (omega arith)

-- A prescaler that counts, from a value below 1024, has an output for each clock selection from 2 to
-- 7 that is active in the cycles in which the number of cycles, counted on from that value, is a
-- multiple of the divisor: in one of 8, 32, 64, 128, 256 or 1024 cycles, without a gap where the
-- counter wraps.
pub is_clock-divides :
    (n cs : ℕ) (p : HwPrescaler)
    → p.count_enable ≡ true
    → p.pre_scale_value < 1024
    → 2 ≤ cs
    → cs ≤ 7
    → is_clock cs (cycles n p).pre_scale_value ≡ ok (divides (divisor cs) (p.pre_scale_value + n))
is_clock-divides n cs p on small low high =
    let value = cycles-value n p on small in
    ap (is_clock cs) value ∙ selected cs (p.pre_scale_value + n) low high

cycles-stopped :
    (n : ℕ) (p : HwPrescaler)
    → p.count_enable ≡ false
    → (cycles n p).pre_scale_value ≡ p.pre_scale_value
unfolding cpu_cycle
cycles-stopped zero p off = refl
cycles-stopped (suc n) p off =
    cycles-stopped n (cpu_cycle p) off
    ∙ ap (λ b. if b then counted p.pre_scale_value else p.pre_scale_value) off

-- The prescaler after both writes.
stopped : HwPrescaler → HwPrescaler
stopped p = record p { pre_scale_value = 0; count_enable = false }

written :
    (first : ℕ) (p : HwPrescaler)
    → bit_at p.reset_bit first ≡ true
    → bit_at p.reset_sync_bit first ≡ true
    → set_from_reg first p ≡ (first, stopped p)
unfolding set_from_reg reset stopped
written first p resets syncs = rw (resets, set_from_reg) (rw syncs refl)

left_alone :
    (second : ℕ) (p : HwPrescaler)
    → bit_at p.reset_bit second ≡ false
    → set_from_reg second p ≡ (second, p)
unfolding set_from_reg
left_alone second p leaves = rw (leaves, set_from_reg) refl

-- A register write that resets the prescaler with its synchronisation bit set stops it, and writing
-- the register with the reset bit cleared does not start it again, whatever the synchronisation bit:
-- the value is 0 after any number of cycles.
pub set_from_reg-stopped :
    (first second n : ℕ) (p : HwPrescaler)
    → bit_at p.reset_bit first ≡ true
    → bit_at p.reset_sync_bit first ≡ true
    → bit_at p.reset_bit second ≡ false
    → (cycles n ((set_from_reg second ((set_from_reg first p).1)).1)).pre_scale_value ≡ 0
unfolding stopped
set_from_reg-stopped first second n p resets syncs leaves =
    ap (λ r. (cycles n ((set_from_reg second (r.1)).1)).pre_scale_value)
      (written first p resets syncs)
    ∙ ap (λ r. (cycles n (r.1)).pre_scale_value) (left_alone second (stopped p) leaves)
    ∙ cycles-stopped n (stopped p) refl
