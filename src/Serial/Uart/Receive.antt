-- ===== src/Serial/Uart/Receive.antt =====
-- The receiver, `HWUart::CpuCycleRx` (src/hwuart.cpp). The level of the pin comes from outside.
use simulavr.Prelude.{◌+◌, bit_and, bit_or, Bool, not, ◌&&◌, ◌||◌, ltb, leb, if◌then◌else◌, xor}
use simulavr.Prelude.Bits.{◌<<<◌}
use simulavr.Serial.Uart.{
  HwUart, RxState, rx_disabled, rx_wait_for_high, rx_wait_for_lowedge, rx_read_startbit,
  rx_read_databit, rx_read_parity, rx_read_stopbit, rx_read_stopbit2, rxc, fe, overrun, upe, rxen,
  chr9, rxb8, upm1, upm0, usbs, has, without, check_irqs, check_for_new_set_irq,
  check_for_new_clear_irq,
}

-- A sample of a bit: those with the numbers 8, 9 and 10 vote.
unfoldable pub sampled : Bool → HwUart → HwUart
sampled level u =
    let cnt = u.cnt_rx_samples + 1 in
    let votes = leb 8 cnt && leb cnt 10 in
    record u {
      cnt_rx_samples = cnt;
      rx_low_cnt = if votes && not level then u.rx_low_cnt + 1 else u.rx_low_cnt;
      rx_high_cnt = if votes && level then u.rx_high_cnt + 1 else u.rx_high_cnt;
    }

-- The counters for the next bit.
abbrev pub restart : HwUart → HwUart
restart u = record u { cnt_rx_samples = 0; rx_low_cnt = 0; rx_high_cnt = 0 }

abbrev pub is_high : HwUart → Bool
is_high u = ltb u.rx_low_cnt u.rx_high_cnt

-- The end of the start bit.
unfoldable pub read_startbit : Bool → HwUart → HwUart
unfolding sampled
read_startbit level u =
    let v = sampled level u in
    if ltb 15 v.cnt_rx_samples
    then (if ltb v.rx_high_cnt v.rx_low_cnt
        then record (restart v) { rx_state = rx_read_databit; rx_data_tmp = 0; rx_bit_cnt = 0 }
        else record v { rx_state = rx_wait_for_high })
    else v

-- A data bit.
unfoldable pub read_databit : Bool → HwUart → HwUart
unfolding sampled
read_databit level u =
    let v = sampled level u in
    let high = is_high v in
    let cnt = v.rx_bit_cnt + 1 in
    if ltb 15 v.cnt_rx_samples
    then record (restart v) {
      rx_data_tmp = if high then bit_or v.rx_data_tmp (1 <<< v.rx_bit_cnt) else v.rx_data_tmp;
      read_parity = if high then not v.read_parity else v.read_parity;
      rx_bit_cnt = cnt;
      rx_state =
          if ltb v.frame_length cnt
          then (if has upm1 v.ucsrc then rx_read_parity else rx_read_stopbit)
          else rx_read_databit;
    }
    else v

-- The parity bit: the state stays.
unfoldable pub read_parity_bit : Bool → HwUart → HwUart
unfolding sampled
read_parity_bit level u =
    let v = sampled level u in
    let parity = if has upm0 v.ucsrc then not (is_high v) else is_high v in
    if ltb 15 v.cnt_rx_samples
    then record v { usr = if xor v.read_parity parity then bit_or v.usr upe else without upe v.usr }
    else v

-- The data and the framing error at the first stop bit.
abbrev pub frame_read : HwUart → HwUart
frame_read v =
    let high = is_high v in
    record v {
      udr_read = bit_and v.rx_data_tmp 0xff;
      usr = if high then without fe v.usr else bit_or v.usr fe;
      ucr =
          if high && has chr9 v.ucr
          then (if has 0x100 v.rx_data_tmp then bit_or v.ucr rxb8 else without rxb8 v.ucr)
          else v.ucr;
    }

-- The end of the reception.
abbrev pub frame_done : HwUart → HwUart
frame_done v = record v {
  usr = bit_or v.usr rxc;
  rx_state = if is_high v then rx_wait_for_lowedge else rx_wait_for_high;
}

unfoldable pub read_stopbit : Bool → HwUart → HwUart
unfolding sampled
read_stopbit level u =
    let v = sampled level u in
    let two = has usbs v.ucsrc in
    if (two && ltb 16 v.cnt_rx_samples) || (not two && ltb 10 v.cnt_rx_samples)
    then (let w = frame_read v in
        if two
        then record (restart w) { rx_state = rx_read_stopbit2 }
        else frame_done (record w { usr = if has rxc w.usr then bit_or w.usr overrun else w.usr }))
    else v

-- The second stop bit.
unfoldable pub read_stopbit2 : Bool → HwUart → HwUart
unfolding sampled
read_stopbit2 level u =
    let v = sampled level u in
    if ltb 10 v.cnt_rx_samples
    then frame_done (record v { usr = if is_high v then without fe v.usr else bit_or v.usr fe })
    else v

-- The `switch` of `CpuCycleRx`.
unfoldable pub receive : RxState → Bool → HwUart → HwUart
unfolding read_startbit read_databit read_parity_bit read_stopbit read_stopbit2
receive rx_wait_for_high level u = record u {
  rx_state = if level then rx_wait_for_lowedge else rx_wait_for_high;
}
receive rx_wait_for_lowedge level u = record (restart u) {
  rx_state = if level then rx_wait_for_lowedge else rx_read_startbit;
}
receive rx_read_startbit level u = read_startbit level u
receive rx_read_databit level u = read_databit level u
receive rx_read_parity level u = read_parity_bit level u
receive rx_read_stopbit level u = read_stopbit level u
receive rx_read_stopbit2 level u = read_stopbit2 level u
receive rx_disabled level u = u

-- `CpuCycleRx`.
unfoldable pub cpu_cycle_rx : Bool → HwUart → HwUart
unfolding receive check_for_new_set_irq check_for_new_clear_irq
cpu_cycle_rx level u =
    if has rxen u.ucr
    then (let v = receive u.rx_state level u in
        check_irqs (bit_and v.ucr u.usr) (bit_and v.ucr v.usr) v)
    else u
