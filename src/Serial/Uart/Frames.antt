-- ===== src/Serial/Uart/Frames.antt =====
-- The frames that the transmitter sends (src/hwuart.cpp).
use simulavr.Prelude.{
  ℕ, zero, suc, ◌+◌, ◌≤◌, ◌<◌, bit_or, true, false, ltb, not, if◌then◌else◌, ◌≡◌, refl, ap, ◌∙◌,
  arith, all_below, all_below_sound,
}
use simulavr.Prelude.Bits.{◌<<<◌, u8}
use simulavr.Serial.Uart.{
  HwUart, tx_send_databit, tx_send_stopbit, tx_after_stopbit, txc, udre, txen, txb8, usbs, has,
  without, check_for_new_set_irq, check_for_new_clear_irq,
}
use simulavr.Serial.Uart.Transmit.{
  bit_time, take_new_data, load_shift_register, transmit, send_databit, after_last_stopbit,
  is_at_rest,
}

-- `n` times of a bit.
abbrev pub bit_times : ℕ → HwUart → HwUart
bit_times zero u = u
bit_times (suc n) u = bit_time (bit_times n u)

-- What the shift register takes from UDR and TXB8.
abbrev pub shifted : HwUart → ℕ
shifted u = if has txb8 u.ucr then u8 (bit_or u.udr_write 0x100) else u.udr_write

-- A transmitter at rest with new data, without parity and with one stop bit.
pub record Ready (u : HwUart) : Type 0 where
  pub enabled : has txen u.ucr ≡ true
  pub new_data : has udre u.usr ≡ false
  pub at_rest : is_at_rest u.tx_state ≡ true
  pub no_parity : has 0x30 u.ucsrc ≡ false
  pub one_stop : has usbs u.ucsrc ≡ false
  pub byte : u.usr < 0x100

-- A transmitter that has sent `k` of the data bits of `d`.
record Sending (d f k : ℕ) (v : HwUart) : Type 0 where
  enabled : has txen v.ucr ≡ true
  empty : has udre v.usr ≡ true
  no_parity : has 0x30 v.ucsrc ≡ false
  one_stop : has usbs v.ucsrc ≡ false
  length : v.frame_length ≡ f
  data_bits : v.tx_data_tmp ≡ d
  count : v.tx_bit_cnt ≡ k
  state : v.tx_state ≡ (if ltb f k then tx_send_stopbit else tx_send_databit)

emptied : (v : ℕ) → v < 0x100 → has udre (without txc (bit_or v udre)) ≡ true
unfolding all_below
emptied v small = all_below_sound 0x100 (λ v. has udre (without txc (bit_or v udre))) v refl small

start-Sending :
    (u : HwUart)
    → Ready u
    → Sending (shifted u) u.frame_length 0 (bit_time u)
      × ((bit_time u).pin_tx.alternate_port ≡ false)
unfolding bit_time take_new_data load_shift_register transmit check_for_new_set_irq
    check_for_new_clear_irq
start-Sending u r = (
  record {
    enabled = ground (arith, r.enabled, r.new_data, r.at_rest);
    empty = ground (arith, r.enabled, r.new_data, r.at_rest, emptied u.usr r.byte);
    no_parity = ground (arith, r.enabled, r.new_data, r.at_rest, r.no_parity);
    one_stop = ground (arith, r.enabled, r.new_data, r.at_rest, r.one_stop);
    length = ground (arith, r.enabled, r.new_data, r.at_rest);
    data_bits = ground (arith, r.enabled, r.new_data, r.at_rest);
    count = ground (arith, r.enabled, r.new_data, r.at_rest);
    state = ground (arith, r.enabled, r.new_data, r.at_rest);
  },
  ground (arith, r.enabled, r.new_data, r.at_rest),
)

step-Sending :
    {d f k : ℕ} {v : HwUart}
    → k ≤ f
    → Sending d f k v
    → Sending d f (suc k) (bit_time v) × ((bit_time v).pin_tx.alternate_port ≡ has (1 <<< k) d)
unfolding bit_time take_new_data transmit send_databit check_for_new_set_irq check_for_new_clear_irq
step-Sending {d} {f} {k} {v} more s =
    let now : v.tx_state ≡ tx_send_databit = ground (arith, more, s.state) in
    (
      record {
        enabled = ground (arith, s.enabled, s.empty, now);
        empty = ground (arith, s.enabled, s.empty, now);
        no_parity = ground (arith, s.enabled, s.empty, now, s.no_parity);
        one_stop = ground (arith, s.enabled, s.empty, now, s.one_stop);
        length = ground (arith, s.enabled, s.empty, now, s.length);
        data_bits = ground (arith, s.enabled, s.empty, now, s.data_bits);
        count = ground (arith, s.enabled, s.empty, now, s.count);
        state = ground (arith, s.enabled, s.empty, now, s.count, s.no_parity, s.length);
      },
      ground (arith, s.enabled, s.empty, now, s.count, s.data_bits),
    )

stop-Sending :
    {d f : ℕ} {v : HwUart}
    → Sending d f (suc f) v
    → ((bit_time v).pin_tx.alternate_port ≡ true) × ((bit_time v).tx_state ≡ tx_after_stopbit)
unfolding bit_time take_new_data transmit after_last_stopbit check_for_new_set_irq
    check_for_new_clear_irq
stop-Sending {d} {f} {v} s =
    let now : v.tx_state ≡ tx_send_stopbit = ground (arith, s.state) in
    (
      ground (arith, s.enabled, s.empty, s.one_stop, now),
      ground (arith, s.enabled, s.empty, s.one_stop, now),
    )

bit_times-Sending :
    (u : HwUart) (k : ℕ)
    → Ready u
    → k ≤ u.frame_length + 1
    → Sending (shifted u) u.frame_length k (bit_times (suc k) u)
bit_times-Sending u zero r small = (start-Sending u r).0
bit_times-Sending u (suc k) r small =
    (step-Sending (omega arith) (bit_times-Sending u k r (omega arith))).0

-- A transmitter that is enabled and at rest, with new data, without parity and with one stop bit,
-- sends a frame: the pin is low for the start bit, then shows the bits of the shift register, the
-- lowest first, as many as the frame has, and is high for the stop bit, after which the transmitter
-- has nothing more to send.
pub bit_times-frame :
    (u : HwUart) (k : ℕ)
    → Ready u
    → k ≤ u.frame_length
    → ((bit_times 1 u).pin_tx.alternate_port ≡ false)
      × ((bit_times (suc (suc k)) u).pin_tx.alternate_port ≡ has (1 <<< k) (shifted u))
      × ((bit_times (u.frame_length + 3) u).pin_tx.alternate_port ≡ true)
      × ((bit_times (u.frame_length + 3) u).tx_state ≡ tx_after_stopbit)
bit_times-frame u k r small =
    let end = stop-Sending (bit_times-Sending u (suc u.frame_length) r (omega arith)) in
    let last : u.frame_length + 3 ≡ suc (suc (suc u.frame_length)) = omega arith in
    (
      (start-Sending u r).1,
      (step-Sending small (bit_times-Sending u k r (omega arith))).1,
      ap (λ n. (bit_times n u).pin_tx.alternate_port) last ∙ end.0,
      ap (λ n. (bit_times n u).tx_state) last ∙ end.1,
    )

no_ninth : (d : ℕ) → d < 0x100 → has (1 <<< 8) d ≡ false
unfolding all_below
no_ninth d small = ground (arith, all_below_sound 0x100 (λ d. not (has (1 <<< 8) d)) d refl small)

-- A frame of nine data bits, of a byte in UDR and the bit TXB8, is sent with a ninth bit that is low,
-- whatever TXB8 is: the shift register has eight bits.
pub bit_times-ninth :
    (u : HwUart)
    → Ready u
    → u.frame_length ≡ 8
    → u.udr_write < 0x100
    → (bit_times 10 u).pin_tx.alternate_port ≡ false
bit_times-ninth u r nine small =
    (step-Sending (omega (arith, nine)) (bit_times-Sending u 8 r (omega (arith, nine)))).1
    ∙ no_ninth (shifted u) (ground (arith, small))
