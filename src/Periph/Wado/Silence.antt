-- ===== src/Periph/Wado/Silence.antt =====
-- The watchdog over a run: the core resets it, writes its register, executes WDR and lets cycles
-- pass.
use simulavr.Prelude.{ℕ, ◌%◌, ◌≡◌, ◌≢◌, refl, ap, ◌∙◌, arith, bit_and}
use simulavr.Prelude.{false}
use simulavr.Prelude.Bits.{bit_and-halves}
use Prim.Native.Nat.{bit_and-bitwise}
use simulavr.Periph.Wado.{Wado, set_wdtcr, cpu_cycle, reset, wdr}

even_mask : (x m : ℕ) → m % 2 ≡ 0 → bit_and x m ≢ 1
even_mask x m h e = omega (arith, bit_and-halves x m, h, e)

-- `SetWdtcr` changes nothing, whatever is written and whatever the register holds: it compares the
-- masked bits 0x08 and 0x10 with 1, which they never are.
pub set_wdtcr-unchanged : (val : ℕ) (w : Wado) → set_wdtcr val w ≡ w
unfolding set_wdtcr
set_wdtcr-unchanged val w =
    ground (arith, even_mask val 8 refl, even_mask val 16 refl, even_mask w.wdtcr 16 refl)

-- What happens to a watchdog: the operations that its component offers.
pub data Step : Wado → Wado → Type 0 where
  written : (val : ℕ) {w : Wado} → Step w (set_wdtcr val w)
  restarted : (now : ℕ) {w : Wado} → Step w (wdr now w)
  cycled : (now : ℕ) {w : Wado} → Step w (cpu_cycle now w).0
  started : {w : Wado} → Step w (reset w)

pub data Reachable : Wado → Wado → Type 0 where
  here : {w : Wado} → Reachable w w
  after : {w w' w'' : Wado} → Reachable w w' → Step w' w'' → Reachable w w''

zero_mask : (m : ℕ) → bit_and 0 m ≡ 0
zero_mask m = simp bit_and-bitwise refl

quiet-Step : {w w' : Wado} → Step w w' → w.wdtcr ≡ 0 → w'.wdtcr ≡ 0
unfolding set_wdtcr wdr cpu_cycle reset
quiet-Step (written val) h = ap (λ (x : Wado). x.wdtcr) (set_wdtcr-unchanged val _) ∙ h
quiet-Step (restarted now) h = h
quiet-Step {w} (cycled now) h =
    let masked : bit_and w.wdtcr 0xef ≡ 0 = ap (λ x. bit_and x 0xef) h ∙ zero_mask 0xef in
    ground (arith, h, masked)
quiet-Step started h = refl

quiet : {w w' : Wado} → Reachable w w' → w.wdtcr ≡ 0 → w'.wdtcr ≡ 0
quiet here h = h
quiet (after path step) h = quiet-Step step (quiet path h)

-- Once it has been reset, the watchdog never resets the core, at any time and after any operations.
pub reset-Silent : (w w' : Wado) → Reachable (reset w) w' → (now : ℕ) → (cpu_cycle now w').1 ≡ false
unfolding cpu_cycle reset
reset-Silent w w' path now =
    let zero_register = quiet path refl in
    let masked = zero_mask 0xef in
    let enabled = zero_mask 0x08 in ground (arith, zero_register, masked, enabled)
