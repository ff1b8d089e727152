-- ===== src/Serial/Uart/Reception/Frame.antt =====
-- The frames that the receiver takes (src/hwuart.cpp).
use simulavr.Prelude.{
  ℕ, zero, suc, ◌+◌, ◌≤◌, ◌<◌, bit_and, bit_or, Bool, true, false, not, ltb, if◌then◌else◌, ◌≡◌,
  refl, ap, ◌∙◌, arith, all_below, all_below_sound,
}
use simulavr.Prelude.Bits.{◌<<<◌}
use simulavr.Serial.Uart.{
  HwUart, RxState, rx_wait_for_lowedge, rx_read_startbit, rx_read_databit, rx_read_stopbit, rxc, fe,
  overrun, rxen, usbs, upm1, chr9, has, without,
}
use simulavr.Serial.Uart.Receive.{receive, read_startbit, read_databit, read_stopbit, sampled}
use simulavr.Serial.Uart.Votes.{majority}
use simulavr.Serial.Uart.Reception.{
  sample, samples_of, votes_of, Waits, samples-votes, startbit-Waits, databit-Waits, stopbit-Waits,
}

-- A receiver at the start of a bit.
started : RxState → HwUart → HwUart
started s v = record v { cnt_rx_samples = 0; rx_low_cnt = 0; rx_high_cnt = 0; rx_state = s }

-- A receiver that has read `k` data bits, without parity, with one stop bit and no ninth bit.
pub record Reading (f k x : ℕ) (v : HwUart) : Type 0 where
  enabled : has rxen v.ucr ≡ true
  no_parity : has upm1 v.ucsrc ≡ false
  one_stop : has usbs v.ucsrc ≡ false
  eight : has chr9 v.ucr ≡ false
  length : v.frame_length ≡ f
  count : v.rx_bit_cnt ≡ k
  data_bits : v.rx_data_tmp ≡ x
  byte : v.usr < 0x100
  bit_start : v ≡ started (if ltb f k then rx_read_stopbit else rx_read_databit) v

-- The samples of a bit up to number `n`, which is not the last.
bit-votes :
    {last : ℕ} (s : RxState) (w : Waits s last) (n : ℕ) (level : ℕ → Bool) (v : HwUart)
    → has rxen v.ucr ≡ true
    → has usbs v.ucsrc ≡ false
    → n ≤ last
    → samples_of n 1 level (started s v) ≡ votes_of n 1 level (started s v)
unfolding started
bit-votes s w n level v on one small =
    samples-votes w n 1 level (started s v) (record { enabled = on; one_stop = one; state = refl })
      (omega (arith, small))

-- The data with one more bit.
abbrev pub voted : ℕ → ℕ → Bool → ℕ
voted k x high = if high then bit_or x (1 <<< k) else x

-- The last sample of a data bit.
data_bit :
    {f k x : ℕ} (level : ℕ → Bool) {v : HwUart}
    → k ≤ f
    → Reading f k x v
    → Reading f
        (suc k)
        (voted k x (majority (level 8) (level 9) (level 10)))
        (sample (level 16) (votes_of 15 1 level (started rx_read_databit v)))
unfolding sample receive read_databit sampled started
data_bit {f} {k} {x} level {v} more s = record {
  enabled = ground (arith, s.enabled);
  no_parity = ground (arith, s.enabled, s.no_parity);
  one_stop = ground (arith, s.enabled, s.one_stop);
  eight = ground (arith, s.enabled, s.eight);
  length = ground (arith, s.enabled, s.length);
  count = ground (arith, s.enabled, s.count);
  data_bits = ground (arith, s.enabled, s.count, s.data_bits);
  byte = ground (arith, s.enabled, s.byte);
  bit_start = ground (arith, s.enabled, s.no_parity, s.length, s.count);
}

cell-Reading :
    {f k x : ℕ} (level : ℕ → Bool) {v : HwUart}
    → k ≤ f
    → Reading f k x v
    → Reading f
        (suc k)
        (voted k x (majority (level 8) (level 9) (level 10)))
        (samples_of 16 1 level v)
cell-Reading {f} {k} {x} level {v} more s =
    let begin : v ≡ started rx_read_databit v = ground (arith, more, s.bit_start) in
    let votes =
      bit-votes rx_read_databit databit-Waits 15 level v s.enabled s.one_stop (omega arith) in
    let shown = ap (samples_of 16 1 level) begin ∙ ap (sample (level 16)) votes in
    rw shown (data_bit level more s)

-- The samples of `k` data bits.
abbrev pub cells : ℕ → (ℕ → ℕ → Bool) → HwUart → HwUart
cells zero levels u = u
cells (suc k) levels u = samples_of 16 1 (levels k) (cells k levels u)

-- The bits that the samples of each cell vote for, and the data that they make up.
abbrev pub bits_of : (ℕ → ℕ → Bool) → ℕ → Bool
bits_of levels k = majority (levels k 8) (levels k 9) (levels k 10)

abbrev pub assembled : ℕ → (ℕ → Bool) → ℕ
assembled zero bits = 0
assembled (suc k) bits = voted k (assembled k bits) (bits k)

pub cells-Reading :
    {f : ℕ} (k : ℕ) (levels : ℕ → ℕ → Bool) {v : HwUart}
    → k ≤ f + 1
    → Reading f 0 0 v
    → Reading f k (assembled k (bits_of levels)) (cells k levels v)
cells-Reading zero levels small s = s
cells-Reading (suc k) levels small s =
    cell-Reading (levels k) (omega arith) (cells-Reading k levels (omega arith) s)

-- An enabled receiver that waits for a frame without parity, with one stop bit and no ninth bit.
pub record Waiting (u : HwUart) : Type 0 where
  pub enabled : has rxen u.ucr ≡ true
  pub waits : u.rx_state ≡ rx_wait_for_lowedge
  pub no_parity : has upm1 u.ucsrc ≡ false
  pub one_stop : has usbs u.ucsrc ≡ false
  pub eight : has chr9 u.ucr ≡ false
  pub byte : u.usr < 0x100

edge-started : (u : HwUart) → Waiting u → sample false u ≡ started rx_read_startbit u
unfolding sample receive started
edge-started u w = ground (arith, w.enabled, w.waits)

start_bit :
    (level : ℕ → Bool) {u : HwUart}
    → Waiting u
    → majority (level 8) (level 9) (level 10) ≡ false
    → Reading u.frame_length 0 0
        (sample (level 16) (votes_of 15 1 level (started rx_read_startbit u)))
unfolding sample receive read_startbit sampled started
start_bit level {u} w low = record {
  enabled = ground (arith, w.enabled);
  no_parity = ground (arith, w.enabled, w.no_parity);
  one_stop = ground (arith, w.enabled, w.one_stop);
  eight = ground (arith, w.enabled, w.eight);
  length = ground (arith, w.enabled);
  count = ground (arith, w.enabled, low);
  data_bits = ground (arith, w.enabled, low);
  byte = ground (arith, w.enabled, w.byte);
  bit_start = ground (arith, w.enabled, low);
}

pub start-Reading :
    (level : ℕ → Bool) (u : HwUart)
    → Waiting u
    → majority (level 8) (level 9) (level 10) ≡ false
    → Reading u.frame_length 0 0 (samples_of 16 1 level (sample false u))
start-Reading level u w low =
    let votes =
      bit-votes rx_read_startbit startbit-Waits 15 level u w.enabled w.one_stop (omega arith) in
    let shown = ap (samples_of 16 1 level) (edge-started u w) ∙ ap (sample (level 16)) votes in
    rw shown (start_bit level w low)

-- The stop bit.
pub record Taken (x : ℕ) (u : HwUart) : Type 0 where
  pub read : u.udr_read ≡ bit_and x 0xff
  pub complete : has rxc u.usr ≡ true
  pub ok_frame : has fe u.usr ≡ false

-- USR after a frame with a stop bit that is high.
usr_after : ℕ → ℕ
usr_after v = let w = without fe v in bit_or (if has rxc w then bit_or w overrun else w) rxc

usr_after-bits :
    (v : ℕ) → v < 0x100 → (has rxc (usr_after v) ≡ true) × (has fe (usr_after v) ≡ false)
unfolding all_below usr_after
usr_after-bits v small = (
  all_below_sound 0x100 (λ v. has rxc (usr_after v)) v refl small,
  ground (arith, all_below_sound 0x100 (λ v. not (has fe (usr_after v))) v refl small),
)

usr-stop_bit :
    {f x : ℕ} (level : ℕ → Bool) {v : HwUart}
    → Reading f (suc f) x v
    → majority (level 8) (level 9) (level 10) ≡ true
    → (sample (level 11) (votes_of 10 1 level (started rx_read_stopbit v))).usr ≡ usr_after v.usr
unfolding sample receive read_stopbit sampled started usr_after
usr-stop_bit level s high = ground (arith, s.enabled, s.one_stop, high)

read-stop_bit :
    {f x : ℕ} (level : ℕ → Bool) {v : HwUart}
    → Reading f (suc f) x v
    → (sample (level 11) (votes_of 10 1 level (started rx_read_stopbit v))).udr_read
      ≡ bit_and x 0xff
unfolding sample receive read_stopbit sampled started
read-stop_bit level s = ground (arith, s.enabled, s.one_stop, s.data_bits)

pub stop-Taken :
    {f x : ℕ} (level : ℕ → Bool) {v : HwUart}
    → Reading f (suc f) x v
    → majority (level 8) (level 9) (level 10) ≡ true
    → Taken x (samples_of 11 1 level v)
stop-Taken {f} {x} level {v} s high =
    let begin : v ≡ started rx_read_stopbit v = ground (arith, s.bit_start) in
    let votes =
      bit-votes rx_read_stopbit stopbit-Waits 10 level v s.enabled s.one_stop (omega arith) in
    let shown = ap (samples_of 11 1 level) begin ∙ ap (sample (level 11)) votes in
    let bits = usr_after-bits v.usr s.byte in
    let usr = usr-stop_bit level s high in
    rw shown (record {
      read = read-stop_bit level s;
      complete = ap (has rxc) usr ∙ bits.0;
      ok_frame = ap (has fe) usr ∙ bits.1;
    })
