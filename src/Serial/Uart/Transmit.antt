-- ===== src/Serial/Uart/Transmit.antt =====
-- The transmitter, `HWUart::CpuCycleTx` (src/hwuart.cpp).
use simulavr.Prelude.{
  ◌+◌, bit_and, bit_or, Bool, true, false, not, ◌&&◌, ◌||◌, ltb, leb, if◌then◌else◌, xor,
}
use simulavr.Prelude.Bits.{◌<<<◌, u8}
use simulavr.Serial.Uart.{
  HwUart, TxState, tx_send_startbit, tx_send_databit, tx_send_parity, tx_send_stopbit,
  tx_send_stopbit2, tx_after_stopbit, tx_first_run, tx_finish, txc, udre, txen, txb8, upm0, usbs,
  has, without, check_irqs, check_for_new_set_irq, check_for_new_clear_irq,
}

-- UDR goes to the shift register, which is an `unsigned char`.
unfoldable pub load_shift_register : HwUart → HwUart
load_shift_register u = record u {
  tx_data_tmp = if has txb8 u.ucr then u8 (bit_or u.udr_write 0x100) else u.udr_write;
  usr = bit_or u.usr udre;
  tx_state = tx_send_startbit;
}

abbrev pub is_at_rest : TxState → Bool
is_at_rest tx_first_run = true
is_at_rest tx_finish = true
is_at_rest _ = false

-- New data for an empty transmitter.
unfoldable pub take_new_data : HwUart → HwUart
unfolding load_shift_register
take_new_data u =
    if not (has udre u.usr) && (has txc u.usr || is_at_rest u.tx_state)
    then (let v = load_shift_register u in record v { usr = without txc v.usr })
    else u

-- The level of the pin.
abbrev pub send : Bool → HwUart → HwUart
send level u = record u { pin_tx = record u.pin_tx { alternate_port = level } }

-- A data bit.
unfoldable pub send_databit : HwUart → HwUart
send_databit u =
    let level = has (1 <<< u.tx_bit_cnt) u.tx_data_tmp in
    let cnt = u.tx_bit_cnt + 1 in
    record (send level u) {
      write_parity = xor u.write_parity level;
      tx_bit_cnt = cnt;
      tx_state =
          if ltb u.frame_length cnt
          then (if has 0x30 u.ucsrc then tx_send_parity else tx_send_stopbit)
          else tx_send_databit;
    }

-- The last stop bit: new data follow at once, if there are any.
unfoldable pub after_last_stopbit : HwUart → HwUart
unfolding load_shift_register
after_last_stopbit u =
    if has udre u.usr then record u { tx_state = tx_after_stopbit } else load_shift_register u

-- The `switch` of `CpuCycleTx`.
unfoldable pub transmit : TxState → HwUart → HwUart
unfolding send_databit after_last_stopbit
transmit tx_send_startbit u = record (send false u) { tx_state = tx_send_databit; tx_bit_cnt = 0 }
transmit tx_send_databit u = send_databit u
transmit tx_send_parity u =
    record (send (if has upm0 u.ucsrc then u.write_parity else not u.write_parity) u) {
      tx_state = tx_send_stopbit;
    }
transmit tx_send_stopbit u =
    if has usbs u.ucsrc
    then record (send true u) { tx_state = tx_send_stopbit2 }
    else after_last_stopbit (send true u)
transmit tx_send_stopbit2 u = after_last_stopbit (send true u)
transmit tx_after_stopbit u = record u { usr = bit_or u.usr txc; tx_state = tx_finish }
transmit _ u = u

-- The part of `CpuCycleTx` for one time of a bit.
unfoldable pub bit_time : HwUart → HwUart
unfolding take_new_data transmit check_for_new_set_irq check_for_new_clear_irq
bit_time u =
    if has txen u.ucr
    then (let v = take_new_data u in
        let w = transmit v.tx_state v in check_irqs (bit_and w.ucr u.usr) (bit_and w.ucr w.usr) w)
    else u

-- `CpuCycleTx`.
unfoldable pub cpu_cycle_tx : HwUart → HwUart
unfolding bit_time
cpu_cycle_tx u =
    if leb 16 (u.baud_cnt16 + 1)
    then bit_time (record u { baud_cnt16 = 0 })
    else record u { baud_cnt16 = u.baud_cnt16 + 1 }
