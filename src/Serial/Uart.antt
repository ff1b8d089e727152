-- ===== src/Serial/Uart.antt =====
-- The state of `HWUart` and its interrupts (src/hwuart.h, src/hwuart.cpp).
pub mod Registers
pub mod Receive
pub mod Transmit
pub mod Cycle
pub mod Frames
pub mod Votes
pub mod Reception
use simulavr.Prelude.{
  ℕ, ◌+◌, ◌-◌, bit_and, bit_or, bit_xor, Bool, true, false, not, ◌&&◌, ◌||◌, ltb, ◌==◌,
  if◌then◌else◌,
}
use simulavr.Prelude.Bits.{◌<<<◌, ◌>>>◌, not32}

-- `T_RxState`.
pub data RxState : Type 0 where
  rx_disabled rx_wait_for_high rx_wait_for_lowedge rx_read_startbit rx_read_databit rx_read_parity :
      RxState
  rx_read_stopbit rx_read_stopbit2 : RxState

-- `T_TxState`.
pub data TxState : Type 0 where
  tx_disabled tx_send_startbit tx_send_databit tx_send_parity tx_send_stopbit tx_send_stopbit2 :
      TxState
  tx_after_stopbit tx_first_run tx_finish : TxState

-- What a pin was told through `PinAtPort`.
pub record PinAtPort : Type 0 where
  pub alternate_port : Bool
  pub alternate_ddr : Bool
  pub use_alternate_port : Bool
  pub use_alternate_ddr : Bool

-- `HWUart`. `irq_rx`, `irq_udre` and `irq_tx` tell whether the flags of its vectors, which the
-- constructor has checked, are set in the interrupt system.
pub record HwUart : Type 0 where
  pub udr_write : ℕ
  pub udr_read : ℕ
  pub usr : ℕ
  pub ucr : ℕ
  pub ucsrc : ℕ
  pub ubrr : ℕ
  pub read_parity : Bool
  pub write_parity : Bool
  pub frame_length : ℕ
  pub irq_rx : Bool
  pub irq_udre : Bool
  pub irq_tx : Bool
  pub pin_tx : PinAtPort
  pub pin_rx : PinAtPort
  pub reg_seq : ℕ
  pub baud_cnt : ℕ
  pub rx_state : RxState
  pub tx_state : TxState
  pub cnt_rx_samples : ℕ
  pub rx_low_cnt : ℕ
  pub rx_high_cnt : ℕ
  pub rx_data_tmp : ℕ
  pub rx_bit_cnt : ℕ
  pub baud_cnt16 : ℕ
  pub tx_data_tmp : ℕ
  pub tx_bit_cnt : ℕ

-- The bits of USR or UCSRA.
abbrev pub rxc : ℕ
rxc = 0x80

abbrev pub txc : ℕ
txc = 0x40

abbrev pub udre : ℕ
udre = 0x20

abbrev pub fe : ℕ
fe = 0x10

abbrev pub overrun : ℕ
overrun = 0x08

abbrev pub upe : ℕ
upe = 0x04

-- The bits of UCR or UCSRB.
abbrev pub rxen : ℕ
rxen = 0x10

abbrev pub txen : ℕ
txen = 0x08

abbrev pub chr9 : ℕ
chr9 = 0x04

abbrev pub rxb8 : ℕ
rxb8 = 0x02

abbrev pub txb8 : ℕ
txb8 = 0x01

-- The bits of UCSRC.
abbrev pub ursel : ℕ
ursel = 0x80

abbrev pub upm1 : ℕ
upm1 = 0x20

abbrev pub upm0 : ℕ
upm0 = 0x10

abbrev pub usbs : ℕ
usbs = 0x08

-- A test of bits, and a register with bits cleared.
abbrev pub has : ℕ → ℕ → Bool
has mask val = not (bit_and val mask == 0)

abbrev pub without : ℕ → ℕ → ℕ
without mask val = bit_and val (0xff - mask)

-- `CheckForNewSetIrq`.
unfoldable pub check_for_new_set_irq : ℕ → HwUart → HwUart
check_for_new_set_irq val u = record u {
  irq_rx = if has rxc val then true else u.irq_rx;
  irq_udre = if has udre val then true else u.irq_udre;
  irq_tx = if has txc val then true else u.irq_tx;
}

-- `CheckForNewClearIrq`.
unfoldable pub check_for_new_clear_irq : ℕ → HwUart → HwUart
check_for_new_clear_irq val u = record u {
  irq_rx = if has rxc val then false else u.irq_rx;
  irq_udre = if has udre val then false else u.irq_udre;
  irq_tx = if has txc val then false else u.irq_tx;
}

-- The changes of the interrupts, from the bits that were enabled and set before and that are now.
abbrev pub check_irqs : ℕ → ℕ → HwUart → HwUart
unfolding check_for_new_set_irq check_for_new_clear_irq
check_irqs irqold irqnew u =
    let changed = bit_xor irqold irqnew in
    check_for_new_clear_irq (bit_and changed (not32 irqnew))
      (check_for_new_set_irq (bit_and changed irqnew) u)
