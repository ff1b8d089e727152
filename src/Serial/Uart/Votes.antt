-- ===== src/Serial/Uart/Votes.antt =====
-- The vote of the samples, and the receiver with parity (src/hwuart.cpp).
use simulavr.Prelude.{Bool, ◌&&◌, ◌||◌, ◌≡◌, refl, ◌∙◌, arith, List, [], ◌∷◌}
use simulavr.Serial.Uart.{HwUart, rx_read_parity, check_for_new_set_irq, check_for_new_clear_irq}
use simulavr.Serial.Uart.Receive.{sampled, receive, cpu_cycle_rx, read_parity_bit}

-- What two of three samples say.
abbrev pub majority : Bool → Bool → Bool → Bool
majority a b c = (a && b) || (a && c) || (b && c)

-- The levels of the pin in as many calls of `CpuCycleRx`.
abbrev pub receives : List Bool → HwUart → HwUart
receives [] u = u
receives (level ∷ levels) u = receives levels (cpu_cycle_rx level u)

parity_state :
    (level : Bool) (u : HwUart)
    → u.rx_state ≡ rx_read_parity
    → (cpu_cycle_rx level u).rx_state ≡ rx_read_parity
unfolding cpu_cycle_rx receive read_parity_bit sampled check_for_new_set_irq check_for_new_clear_irq
parity_state level u e = ground (arith, e)

parity_byte :
    (level : Bool) (u : HwUart)
    → u.rx_state ≡ rx_read_parity
    → (cpu_cycle_rx level u).udr_read ≡ u.udr_read
unfolding cpu_cycle_rx receive read_parity_bit sampled check_for_new_set_irq check_for_new_clear_irq
parity_byte level u e = ground (arith, e)

-- A receiver that waits for the parity bit waits for ever: no levels of the pin take it out of that
-- state, and the byte of UDR stays the old one.
pub receives-stuck :
    (levels : List Bool) (u : HwUart)
    → u.rx_state ≡ rx_read_parity
    → ((receives levels u).rx_state ≡ rx_read_parity) × ((receives levels u).udr_read ≡ u.udr_read)
receives-stuck [] u e = (e, refl)
receives-stuck (level ∷ levels) u e =
    let rest = receives-stuck levels (cpu_cycle_rx level u) (parity_state level u e) in
    (rest.0, rest.1 ∙ parity_byte level u e)
