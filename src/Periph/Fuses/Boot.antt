-- ===== src/Periph/Fuses/Boot.antt =====
-- Where the boot section starts, and where the core starts after a reset (src/flashprog.cpp).
use simulavr.Prelude.{ℕ, ◌+◌, ◌*◌, ◌/◌, ◌≤◌, ◌≡◌, ◌⊎◌, inl, inr, refl, arith}
use simulavr.Prelude.{Bool-cases, ◌==◌, if◌then◌else◌}
use simulavr.Periph.Fuses.{AvrFuses, get_bls_start, get_reset_addr}

-- The size of the boot section, by the fuse bits BOOTSZ.
abbrev pub boot_size : ℕ → ℕ → ℕ
boot_size size bootsz =
    if bootsz == 0
    then size
    else if bootsz == 1
    then size / 2
    else if bootsz == 2
    then size / 4
    else size / 8

-- The boot section lies at the end of the section NRWW: on a device with a section NRWW that does
-- not start at 0 and whose size is a multiple of 8, it ends where that ends, and each step of BOOTSZ
-- up to 3 halves it. A reset goes to its start or to 0.
pub get_bls_start-boot_size :
    (f : AvrFuses) (eighth : ℕ)
    → 1 ≤ f.nrww_addr
    → f.nrww_size ≡ 8 * eighth
    → (get_bls_start f + boot_size f.nrww_size f.value_bootsz ≡ f.nrww_addr + f.nrww_size)
      × (f.nrww_addr ≤ get_bls_start f)
      × ((get_reset_addr f ≡ 0) ⊎ (get_reset_addr f ≡ get_bls_start f))
unfolding get_bls_start get_reset_addr
get_bls_start-boot_size f eighth addr size = (
  ground (arith, addr, size),
  ground (arith, addr, size),
  elim (Bool-cases f.flag_bootrst) [
    | inl start ↦ inl (rw start refl)
    | inr boot ↦ inr (rw boot refl)
  ],
)
