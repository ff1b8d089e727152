-- ===== src/Serial/Uart/Cycle.antt =====
-- The cycle of the UART (src/hwuart.cpp).
use simulavr.Prelude.{◌+◌, ◌-◌, Bool, ltb, leb, if◌then◌else◌}
use simulavr.Serial.Uart.{HwUart}
use simulavr.Serial.Uart.Receive.{cpu_cycle_rx}
use simulavr.Serial.Uart.Transmit.{cpu_cycle_tx}

-- `CpuCycle`.
unfoldable pub cpu_cycle : Bool → HwUart → HwUart
unfolding cpu_cycle_rx cpu_cycle_tx
cpu_cycle level u =
    let v =
      if leb (u.ubrr + 1) (u.baud_cnt + 1)
      then cpu_cycle_tx (cpu_cycle_rx level (record u { baud_cnt = 0 }))
      else record u { baud_cnt = u.baud_cnt + 1 } in
    record v { reg_seq = if ltb 0 v.reg_seq then v.reg_seq - 1 else v.reg_seq }
