-- ===== src/Examples/Serial.antt =====
-- A UART that sends and receives (src/hwuart.cpp).
use simulavr.Prelude.{◌≡◌, refl, arith, true, false, [], ◌∷◌}
use simulavr.Serial.Uart.{
  HwUart, PinAtPort, tx_first_run, tx_after_stopbit, rx_wait_for_lowedge, rx_read_parity, has,
}
use simulavr.Serial.Uart.{rxc, fe}
use simulavr.Prelude.Bits.{◌<<<◌}
use simulavr.Serial.Uart.Reception.Bytes.{received, received-byte}
use simulavr.Serial.Uart.Frames.{bit_times, shifted, bit_times-frame, bit_times-ninth}
use simulavr.Serial.Uart.Votes.{receives, receives-stuck}

abbrev pin : PinAtPort
pin = record {
  alternate_port = true;
  alternate_ddr = true;
  use_alternate_port = true;
  use_alternate_ddr = true;
}

-- Transmitter and receiver are enabled, nine data bits, and 0x53 is to be sent.
abbrev serial : HwUart
serial = record {
  udr_write = 0x53;
  udr_read = 0x11;
  usr = 0;
  ucr = 0x1d;
  ucsrc = 6;
  ubrr = 0;
  read_parity = false;
  write_parity = false;
  frame_length = 8;
  irq_rx = false;
  irq_udre = false;
  irq_tx = false;
  pin_tx = pin;
  pin_rx = pin;
  reg_seq = 0;
  baud_cnt = 0;
  rx_state = rx_wait_for_lowedge;
  tx_state = tx_first_run;
  cnt_rx_samples = 0;
  rx_low_cnt = 0;
  rx_high_cnt = 0;
  rx_data_tmp = 0;
  rx_bit_cnt = 3;
  baud_cnt16 = 0;
  tx_data_tmp = 0;
  tx_bit_cnt = 0;
}

bit_times-frame_example :
    ((bit_times 1 serial).pin_tx.alternate_port ≡ false)
    × ((bit_times 3 serial).pin_tx.alternate_port ≡ has 2 (shifted serial))
    × ((bit_times 11 serial).pin_tx.alternate_port ≡ true)
    × ((bit_times 11 serial).tx_state ≡ tx_after_stopbit)
bit_times-frame_example =
    bit_times-frame serial 1
      (record {
        enabled = refl;
        new_data = refl;
        at_rest = refl;
        no_parity = refl;
        one_stop = refl;
        byte = omega arith;
      })
      (omega arith)

bit_times-ninth_example : (bit_times 10 serial).pin_tx.alternate_port ≡ false
bit_times-ninth_example =
    bit_times-ninth serial
      (record {
        enabled = refl;
        new_data = refl;
        at_rest = refl;
        no_parity = refl;
        one_stop = refl;
        byte = omega arith;
      })
      refl (omega arith)

receives-stuck_example :
    ((receives (true ∷ false ∷ true ∷ []) (record serial { rx_state = rx_read_parity })).rx_state
      ≡ rx_read_parity)
    × ((receives (true ∷ false ∷ true ∷ []) (record serial { rx_state = rx_read_parity })).udr_read
        ≡ 0x11)
receives-stuck_example =
    receives-stuck (true ∷ false ∷ true ∷ []) (record serial { rx_state = rx_read_parity }) refl

-- A receiver for eight data bits, and the levels of the byte 0x53.
abbrev listening : HwUart
listening = record serial { ucr = 0x10; frame_length = 7 }

received-byte_example :
    ((received (λ i. false) (λ k i. has (1 <<< k) 0x53) (λ i. true) listening).udr_read ≡ 0x53)
    × (has rxc (received (λ i. false) (λ k i. has (1 <<< k) 0x53) (λ i. true) listening).usr ≡ true)
    × (has fe (received (λ i. false) (λ k i. has (1 <<< k) 0x53) (λ i. true) listening).usr ≡ false)
received-byte_example =
    received-byte 0x53 (λ i. false) (λ k i. has (1 <<< k) 0x53) (λ i. true) listening
      (record {
        enabled = refl;
        waits = refl;
        no_parity = refl;
        one_stop = refl;
        eight = refl;
        byte = omega arith;
      })
      refl (omega arith) refl (λ k small. ground arith) refl
