-- ===== src/Machine/Periphery.antt =====
-- The peripherals of the cycle list that neither hold the core nor change it: what their cycles do in
-- `AvrDevice::Step` (src/avrdevice.cpp).
use simulavr.Prelude.{ℕ, zero, suc, ◌+◌, ◌<◌, ◌≡◌, ap, ◌∙◌, arith}
use simulavr.Prelude.{false, ltb, Option, List, [], ◌∷◌, length}
use simulavr.Core.Result.{ok, ◌>>=◌}
use simulavr.Irq.{Hardware, HwIrqSystem}
use simulavr.Machine.{Machine, at_index, cycle_hardware}
use simulavr.Machine.Cycles.{at-end, at-some}
use simulavr.Periph.Spm.{FlashProgramming}
use simulavr.Periph.Wado.{Wado}

-- The state of the peripherals and of the interrupt system.
pub record Periphery {ℓ} (H W : Type ℓ) : Type ℓ where
  pub wado : Option Wado
  pub spm_register : Option FlashProgramming
  pub irq_system : HwIrqSystem H
  pub hardware : W

module _ {ℓ} {H W : Type ℓ} where
  abbrev pub periphery : Machine H W → Periphery H W
  periphery m = record {
    wado = m.device.wado;
    spm_register = m.device.spm_register;
    irq_system = m.irq_system;
    hardware = m.hardware;
  }

  abbrev pub with_periphery : Periphery H W → Machine H W → Machine H W
  with_periphery s m = record m {
    device = record m.device { wado = s.wado; spm_register = s.spm_register };
    irq_system = s.irq_system;
    hardware = s.hardware;
  }

  -- The cycles of a list of peripherals at the time `now`, in order.
  abbrev pub round :
      (ℕ → H → Periphery H W → Periphery H W) → ℕ → List H → Periphery H W → Periphery H W
  round tick now [] s = s
  round tick now (p ∷ ps) s = round tick now ps (tick now p s)

  -- The cycles of `n` steps, at the times `times`, the last step first.
  abbrev pub rounds :
      (ℕ → H → Periphery H W → Periphery H W) → List H → ℕ → (ℕ → ℕ) → Periphery H W → Periphery H W
  rounds tick ps zero times s = s
  rounds tick ps (suc n) times s = rounds tick ps n times (round tick (times n) ps s)

module _ {ℓ} {H W : Type ℓ} (hw : Hardware H (Machine H W))
    (tick : ℕ → H → Periphery H W → Periphery H W) (Calm : Periphery H W → Type 0) where
  -- Where the state of the peripherals is calm, the cycle of `p` does not hold the core, changes
  -- nothing but that state, and leaves it calm.
  pub record Ticks (p : H) : Type ℓ where
    pub cycle :
        (m : Machine H W)
        → Calm (periphery m)
        → hw.cpu_cycle p m ≡ ok (with_periphery (tick m.device.now p (periphery m)) m, 0)
    pub kept : (now : ℕ) (s : Periphery H W) → Calm s → Calm (tick now p s)

  abbrev pub AllTick : List H → Type ℓ
  AllTick [] = Unit
  AllTick (p ∷ ps) = Ticks p × AllTick ps

  pub round-Calm :
      (ps : List H) (now : ℕ) (s : Periphery H W) → AllTick ps → Calm s → Calm (round tick now ps s)
  round-Calm [] now s all calm = calm
  round-Calm (p ∷ ps) now s all calm =
      round-Calm ps now (tick now p s) all.1 (all.0.kept now s calm)

  from-round :
      (ps : List H) (bound i : ℕ) (m : Machine H W)
      → length ps < bound
      → ((k : ℕ) → at_index (i + k) m.hw_cycle_list ≡ at_index k ps)
      → AllTick ps
      → Calm (periphery m)
      → cycle_hardware hw bound i false m
        ≡ ok (with_periphery (round tick m.device.now ps (periphery m)) m, false)
  from-round ps zero i m enough rest all calm = absurd (omega arith)
  from-round [] (suc bound) i m enough rest all calm =
      at-end hw bound i false m
        (ap (λ j. at_index j m.hw_cycle_list) {y = i + 0} (omega arith) ∙ rest 0)
  from-round (p ∷ ps) (suc bound) i m enough rest all calm =
      let s = tick m.device.now p (periphery m) in
      at-some hw bound i false m p
        (ap (λ j. at_index j m.hw_cycle_list) {y = i + 0} (omega arith) ∙ rest 0)
      ∙ ap (λ r. r >>= λ r. cycle_hardware hw bound (i + 1) (ltb 0 (r.1)) (r.0))
          (all.0.cycle m calm)
      ∙ from-round ps bound (i + 1) (with_periphery s m) (omega (arith, enough))
          (λ k. ap (λ j. at_index j m.hw_cycle_list) {y = i + suc k} (omega arith) ∙ rest (suc k))
          all.1 (all.0.kept m.device.now (periphery m) calm)

  -- Where the peripherals of the list are calm, `Step` lets each of them take its cycle, in order,
  -- and goes on.
  pub cycle_hardware-round :
      (bound : ℕ) (m : Machine H W)
      → length m.hw_cycle_list < bound
      → AllTick m.hw_cycle_list
      → Calm (periphery m)
      → cycle_hardware hw bound 0 false m
        ≡ ok (with_periphery (round tick m.device.now m.hw_cycle_list (periphery m)) m, false)
  cycle_hardware-round bound m enough all calm =
      from-round m.hw_cycle_list bound 0 m enough
        (λ k. ap (λ j. at_index j m.hw_cycle_list) (omega arith)) all calm
