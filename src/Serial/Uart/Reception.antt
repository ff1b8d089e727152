-- ===== src/Serial/Uart/Reception.antt =====
-- The receiver sample by sample (src/hwuart.cpp).
pub mod Frame
pub mod Bytes
use simulavr.Prelude.{
  ℕ, zero, suc, ◌+◌, ◌≤◌, ◌<◌, bit_and, bit_or, Bool, true, false, not, ltb, ◌==◌, if◌then◌else◌,
  ◌≡◌, refl, ap, ◌∙◌, arith,
}
use simulavr.Prelude.Bits.{◌<<<◌}
use simulavr.Serial.Uart.{
  HwUart, RxState, rx_disabled, rx_wait_for_high, rx_read_parity, rx_read_stopbit2,
  rx_wait_for_lowedge, rx_read_startbit, rx_read_databit, rx_read_stopbit, rxc, fe, rxen, usbs,
  upm1, chr9, has, check_for_new_set_irq, check_for_new_clear_irq,
}
use simulavr.Serial.Uart.Receive.{
  cpu_cycle_rx, receive, read_startbit, read_databit, read_stopbit, sampled, read_parity_bit,
  read_stopbit2,
}
use simulavr.Serial.Uart.Votes.{majority}

-- `n` calls of `CpuCycleRx`, with the levels `from`, `from + 1`, … of the pin.
abbrev pub run_samples : ℕ → ℕ → (ℕ → Bool) → HwUart → HwUart
run_samples zero from level u = u
run_samples (suc n) from level u = run_samples n (from + 1) level (cpu_cycle_rx (level from) u)

-- The UART without its interrupts, which the receiver does not look at.
abbrev pub calm : HwUart → HwUart
calm u = record u { irq_rx = false; irq_udre = false; irq_tx = false }

unfoldable pub sample : Bool → HwUart → HwUart
unfolding receive
sample level u = if has rxen u.ucr then receive u.rx_state level u else u

receive-calm :
    (s : RxState) (level : Bool) (u : HwUart) → calm (receive s level u) ≡ receive s level (calm u)
unfolding receive read_startbit read_databit read_parity_bit read_stopbit read_stopbit2 sampled
receive-calm rx_disabled level u = refl
receive-calm rx_wait_for_high level u = refl
receive-calm rx_wait_for_lowedge level u = refl
receive-calm rx_read_startbit level u = ground arith
receive-calm rx_read_databit level u = ground arith
receive-calm rx_read_parity level u = ground arith
receive-calm rx_read_stopbit level u = ground arith
receive-calm rx_read_stopbit2 level u = ground arith

pub calm-cpu_cycle_rx :
    (level : Bool) (u : HwUart) → calm (cpu_cycle_rx level u) ≡ sample level (calm u)
unfolding cpu_cycle_rx sample check_for_new_set_irq check_for_new_clear_irq
calm-cpu_cycle_rx level u = ground (arith, receive-calm u.rx_state level u)

-- `n` samples.
abbrev pub samples_of : ℕ → ℕ → (ℕ → Bool) → HwUart → HwUart
samples_of zero from level u = u
samples_of (suc n) from level u = samples_of n (from + 1) level (sample (level from) u)

pub calm-run_samples :
    (n from : ℕ) (level : ℕ → Bool) (u : HwUart)
    → calm (run_samples n from level u) ≡ samples_of n from level (calm u)
calm-run_samples zero from level u = refl
calm-run_samples (suc n) from level u =
    calm-run_samples n (from + 1) level (cpu_cycle_rx (level from) u)
    ∙ ap (samples_of n (from + 1) level) (calm-cpu_cycle_rx (level from) u)

-- `n` samples of a bit that is not finished.
abbrev pub votes_of : ℕ → ℕ → (ℕ → Bool) → HwUart → HwUart
votes_of zero from level u = u
votes_of (suc n) from level u = votes_of n (from + 1) level (sampled (level from) u)

-- An enabled receiver in a state, with one stop bit.
pub record In (s : RxState) (u : HwUart) : Type 0 where
  pub enabled : has rxen u.ucr ≡ true
  pub one_stop : has usbs u.ucsrc ≡ false
  pub state : u.rx_state ≡ s

In-sampled : {s : RxState} (level : Bool) {u : HwUart} → In s u → In s (sampled level u)
unfolding sampled
In-sampled level i = record { enabled = i.enabled; one_stop = i.one_stop; state = i.state }

cnt-sampled : (level : Bool) (u : HwUart) → (sampled level u).cnt_rx_samples ≡ u.cnt_rx_samples + 1
unfolding sampled
cnt-sampled level u = refl

-- A state in which the samples up to number `last` only vote.
abbrev pub Waits : RxState → ℕ → Type 0
Waits s last =
    (level : Bool) (u : HwUart)
    → In s u
    → u.cnt_rx_samples + 1 ≤ last
    → sample level u ≡ sampled level u

pub samples-votes :
    {s : RxState} {last : ℕ}
    → Waits s last
    → (n from : ℕ) (level : ℕ → Bool) (u : HwUart) → In s u
    → u.cnt_rx_samples + n ≤ last
    → samples_of n from level u ≡ votes_of n from level u
samples-votes w zero from level u i room = refl
samples-votes w (suc n) from level u i room =
    let next = sampled (level from) u in
    ap (samples_of n (from + 1) level) (w (level from) u i (omega (arith, room)))
    ∙ samples-votes w n (from + 1) level next (In-sampled (level from) i)
        (omega (arith, room, cnt-sampled (level from) u))

pub startbit-Waits : Waits rx_read_startbit 15
unfolding sample receive read_startbit sampled
startbit-Waits level u i room = ground (arith, i.enabled, i.state, room)

pub databit-Waits : Waits rx_read_databit 15
unfolding sample receive read_databit sampled
databit-Waits level u i room = ground (arith, i.enabled, i.state, room)

pub stopbit-Waits : Waits rx_read_stopbit 10
unfolding sample receive read_stopbit sampled
stopbit-Waits level u i room = ground (arith, i.enabled, i.state, i.one_stop, room)
