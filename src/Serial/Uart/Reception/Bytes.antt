-- ===== src/Serial/Uart/Reception/Bytes.antt =====
-- The bytes that the receiver takes from the frames of a transmitter (src/hwuart.cpp).
use simulavr.Prelude.{
  ℕ, zero, suc, ◌<◌, bit_and, Bool, true, false, ◌==◌, ◌≡◌, refl, ap, ◌∙◌, arith, all_below,
  all_below_sound, ==_iff,
}
use simulavr.Prelude.Bits.{◌<<<◌}
use simulavr.Serial.Uart.{HwUart, rxc, fe, has}
use simulavr.Serial.Uart.Receive.{cpu_cycle_rx}
use simulavr.Serial.Uart.Votes.{majority}
use simulavr.Serial.Uart.Reception.{
  run_samples, calm, calm-run_samples, calm-cpu_cycle_rx, samples_of, sample,
}
use simulavr.Serial.Uart.Reception.Frame.{
  cells, bits_of, assembled, voted, cells-Reading, Waiting, start-Reading, stop-Taken,
}

-- The samples of `k` data bits.
abbrev pub run_cells : ℕ → (ℕ → ℕ → Bool) → HwUart → HwUart
run_cells zero levels u = u
run_cells (suc k) levels u = run_samples 16 1 (levels k) (run_cells k levels u)

calm-run_cells :
    (k : ℕ) (levels : ℕ → ℕ → Bool) (u : HwUart)
    → calm (run_cells k levels u) ≡ cells k levels (calm u)
calm-run_cells zero levels u = refl
calm-run_cells (suc k) levels u =
    calm-run_samples 16 1 (levels k) (run_cells k levels u)
    ∙ ap (samples_of 16 1 (levels k)) (calm-run_cells k levels u)

-- A frame of eight data bits: the first low sample, the other samples of the start bit with the first
-- of the next, the data bits in the same way, and the stop bit up to its vote.
abbrev pub received : (ℕ → Bool) → (ℕ → ℕ → Bool) → (ℕ → Bool) → HwUart → HwUart
received start levels stop u =
    run_samples 11 1 stop (run_cells 8 levels (run_samples 16 1 start (cpu_cycle_rx false u)))

calm-received :
    (start : ℕ → Bool) (levels : ℕ → ℕ → Bool) (stop : ℕ → Bool) (u : HwUart)
    → calm (received start levels stop u)
      ≡ samples_of 11 1 stop (cells 8 levels (samples_of 16 1 start (sample false (calm u))))
calm-received start levels stop u =
    let first = cpu_cycle_rx false u in
    let begun = run_samples 16 1 start first in
    calm-run_samples 11 1 stop (run_cells 8 levels begun)
    ∙ ap (samples_of 11 1 stop) (
        calm-run_cells 8 levels begun
        ∙ ap (cells 8 levels) (
            calm-run_samples 16 1 start first
            ∙ ap (samples_of 16 1 start) (calm-cpu_cycle_rx false u)))

-- The data depend on the bits only.
assembled-same :
    (n : ℕ) (a b : ℕ → Bool) → ((k : ℕ) → k < n → a k ≡ b k) → assembled n a ≡ assembled n b
assembled-same zero a b same = refl
assembled-same (suc n) a b same =
    ap (λ x. voted n x (a n)) (assembled-same n a b (λ k small. same k (omega arith)))
    ∙ ap (voted n (assembled n b)) (same n (omega arith))

assembled-byte : (d : ℕ) → d < 0x100 → bit_and (assembled 8 (λ k. has (1 <<< k) d)) 0xff ≡ d
unfolding all_below
assembled-byte d small = (==_iff _ _).0 (
    all_below_sound 0x100 (λ d. bit_and (assembled 8 (λ k. has (1 <<< k) d)) 0xff == d) d refl
      small)

-- An enabled receiver that waits for a frame of eight data bits without parity and with one stop bit
-- takes the byte `d` from a frame in which, of each three samples that vote, two at least are low in
-- the start bit, high in the stop bit, and equal to the bit of `d` in each data bit, the lowest first.
-- UDR then holds `d`, the reception is complete, and there is no framing error.
pub received-byte :
    (d : ℕ) (start : ℕ → Bool) (levels : ℕ → ℕ → Bool) (stop : ℕ → Bool) (u : HwUart)
    → Waiting u
    → u.frame_length ≡ 7
    → d < 0x100
    → majority (start 8) (start 9) (start 10) ≡ false
    → ((k : ℕ) → k < 8 → bits_of levels k ≡ has (1 <<< k) d)
    → majority (stop 8) (stop 9) (stop 10) ≡ true
    → ((received start levels stop u).udr_read ≡ d)
      × (has rxc (received start levels stop u).usr ≡ true)
      × (has fe (received start levels stop u).usr ≡ false)
received-byte d start levels stop u w eight small low bits high =
    let begun : Waiting (calm u) = record {
      enabled = w.enabled;
      waits = w.waits;
      no_parity = w.no_parity;
      one_stop = w.one_stop;
      eight = w.eight;
      byte = w.byte;
    } in
    let data_read =
      cells-Reading 8 levels (omega (arith, eight)) (start-Reading start (calm u) begun low) in
    let last : suc u.frame_length ≡ 8 = omega (arith, eight) in
    let taken = stop-Taken {f = u.frame_length} stop (rw last data_read) high in
    let shown = calm-received start levels stop u in
    let value = assembled-same 8 (bits_of levels) (λ k. has (1 <<< k) d) bits in
    (
      ap (λ v. v.udr_read) shown
          ∙ taken.read
          ∙ ap (λ x. bit_and x 0xff) value
          ∙ assembled-byte d small,
      ap (λ v. has rxc v.usr) shown ∙ taken.complete,
      ap (λ v. has fe v.usr) shown ∙ taken.ok_frame,
    )
