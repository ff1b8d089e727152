-- ===== src/Serial/Uart/Registers.antt =====
-- The registers of `HWUart` and `HWUsart` (src/hwuart.h, src/hwuart.cpp).
use simulavr.Prelude.{ℕ, bit_and, bit_or, Bool, true, false, ◌&&◌, ◌==◌, if◌then◌else◌}
use simulavr.Prelude.Bits.{◌<<<◌, ◌>>>◌}
use simulavr.Serial.Uart.{
  HwUart, TxState, tx_first_run, tx_send_startbit, rx_wait_for_lowedge, rxc, txc, udre, rxen, txen,
  chr9, ursel, has, without, check_irqs, check_for_new_set_irq, check_for_new_clear_irq,
}

-- `SetUdr`.
unfoldable pub set_udr : ℕ → HwUart → HwUart
set_udr val u = record u {
  udr_write = val;
  usr = if has udre u.usr then without udre u.usr else u.usr;
  irq_udre = if has udre u.usr && has udre u.ucr then false else u.irq_udre;
}

-- `SetUsr`.
unfoldable pub set_usr : ℕ → HwUart → HwUart
unfolding check_for_new_set_irq check_for_new_clear_irq
set_usr val u =
    check_irqs (bit_and u.ucr u.usr) (bit_and u.ucr val)
      (record u { usr = if has txc val then without txc val else val })

-- `SetUbrr` and `SetUbrrhi`.
unfoldable pub set_ubrr : ℕ → HwUart → HwUart
set_ubrr val u = record u { ubrr = bit_or (bit_and u.ubrr 0xff00) val }

unfoldable pub set_ubrrhi : ℕ → HwUart → HwUart
set_ubrrhi val u = record u { ubrr = bit_or (bit_and u.ubrr 0xff) (bit_and val 0xf <<< 8) }

-- `SetFrameLengthFromRegister`: one less than the number of data bits.
unfoldable pub set_frame_length : HwUart → HwUart
set_frame_length u = record u {
  frame_length =
      if has chr9 u.ucr
      then 8
      else if bit_and u.ucsrc 0x06 == 0
      then 4
      else if bit_and u.ucsrc 0x06 == 0x02
      then 5
      else if bit_and u.ucsrc 0x06 == 0x04
      then 6
      else 7;
}

abbrev pub idle_before_start : TxState → Bool
idle_before_start tx_first_run = true
idle_before_start tx_send_startbit = true
idle_before_start _ = false

-- The pins in `SetUcr`.
abbrev pub connect_pins : HwUart → HwUart
connect_pins u =
    let on = has txen u.ucr in
    record u {
      pin_tx = record u.pin_tx {
        alternate_port =
            if on && idle_before_start u.tx_state then true else u.pin_tx.alternate_port;
        alternate_ddr = if on then true else u.pin_tx.alternate_ddr;
        use_alternate_port = on;
        use_alternate_ddr = on;
      };
      pin_rx = record u.pin_rx {
        use_alternate_ddr = if has rxen u.ucr then true else u.pin_rx.use_alternate_ddr;
        alternate_ddr = if has rxen u.ucr then false else u.pin_rx.alternate_ddr;
      };
    }

-- `SetUcr`.
unfoldable pub set_ucr : ℕ → HwUart → HwUart
unfolding check_for_new_set_irq check_for_new_clear_irq set_frame_length
set_ucr val u =
    check_irqs (bit_and u.ucr u.usr) (bit_and val u.usr)
      (connect_pins (set_frame_length (record u { ucr = val })))

-- `GetUdr`: the value that is read, and the UART.
unfoldable pub get_udr : HwUart → ℕ × HwUart
get_udr u = (
  u.udr_read,
  record u {
    usr = if has rxc u.usr then without rxc u.usr else u.usr;
    irq_rx = if has rxc u.usr && has rxc u.ucr then false else u.irq_rx;
  },
)

-- `GetUbrr` and `GetUbrrhi`.
unfoldable pub get_ubrr : HwUart → ℕ
get_ubrr u = bit_and u.ubrr 0xff

unfoldable pub get_ubrrhi : HwUart → ℕ
get_ubrrhi u = bit_and u.ubrr 0xff00 >>> 8

-- `ClearIrqFlag`, where `is_tx` tells whether the vector is that of the transmitter.
unfoldable pub clear_irq_flag : Bool → HwUart → HwUart
clear_irq_flag is_tx u = record u {
  usr = if is_tx then without txc u.usr else u.usr;
  irq_tx = if is_tx then false else u.irq_tx;
}

-- `Reset`.
unfoldable pub reset : HwUart → HwUart
unfolding set_frame_length
reset u = set_frame_length (record u {
  udr_write = 0;
  udr_read = 0;
  usr = udre;
  ucr = 0;
  ucsrc = 0x06;
  ubrr = 0;
  baud_cnt = 0;
  baud_cnt16 = 0;
  reg_seq = 0;
  rx_state = rx_wait_for_lowedge;
  tx_state = tx_first_run;
})

-- `HWUsart::SetUcsrc`, and the register that it shares with the high byte of UBRR.
unfoldable pub set_ucsrc : ℕ → HwUart → HwUart
unfolding set_frame_length
set_ucsrc val u = set_frame_length (record u { ucsrc = val })

unfoldable pub set_ucsrc_ubrrh : ℕ → HwUart → HwUart
unfolding set_ucsrc set_ubrrhi
set_ucsrc_ubrrh val u =
    if bit_and val ursel == ursel then set_ucsrc (bit_and val 0x7f) u else set_ubrrhi val u

unfoldable pub get_ucsrc_ubrrh : HwUart → ℕ × HwUart
unfolding get_ubrrhi
get_ucsrc_ubrrh u =
    if u.reg_seq == 0
    then (get_ubrrhi u, record u { reg_seq = 2 })
    else (u.ucsrc, record u { reg_seq = 0 })
