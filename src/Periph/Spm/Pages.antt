-- ===== src/Periph/Spm/Pages.antt =====
-- The write of a page of the flash by SPM.
use simulavr.Prelude.{ℕ, ◌+◌, ◌*◌, ◌%◌, ◌≤◌, ◌<◌, ◌≡◌, bit_or, refl}
use simulavr.Prelude.{Bool, true, false, ◌&&◌, ltb, if◌then◌else◌}
use simulavr.Core.Result.{ok}
use simulavr.Decode.Case.{CoreFlags}
use simulavr.Flash.{AvrFlash}
use simulavr.Flash.Coherence.{IsCoherent, write_mem-IsCoherent}
use simulavr.Periph.Spm.{FlashProgramming, lockcpu, set_rww_lock, store_page, spm_timeout}

-- What a page write leaves: coherent instructions, the buffer in the flash with the bytes of each word
-- swapped, and a CPU that is held until the time is over.
pub record IsWritten (flags : CoreFlags) (now addr : ℕ) (p : FlashProgramming)
    (q : FlashProgramming) (f : AvrFlash) : Type 0 where
  pub coherent : IsCoherent flags f
  pub high_bytes : (i : ℕ) → i < p.page_size → f.memory (addr + i * 2) ≡ p.temp_buffer (i * 2 + 1)
  pub low_bytes : (i : ℕ) → i < p.page_size → f.memory (addr + i * 2 + 1) ≡ p.temp_buffer (i * 2)
  pub locked : q.action ≡ lockcpu
  pub until : q.timeout ≡ now + spm_timeout

abbrev chosen :
    Bool → FlashProgramming × AvrFlash → FlashProgramming × AvrFlash → FlashProgramming × AvrFlash
chosen test x y = if test then x else y

set_rww_lock-IsWritten :
    (flags : CoreFlags) (now addr at : ℕ) (p q : FlashProgramming) (f : AvrFlash)
    → IsWritten flags now addr p q f
    → IsWritten flags now addr p (set_rww_lock at q f).0 (set_rww_lock at q f).1
unfolding set_rww_lock IsCoherent
set_rww_lock-IsWritten flags now addr at p q f w =
    either
      (record q { spmcr_val = bit_or q.spmcr_val 0x40 }, record f { rww_lock = q.nrww_addr * 2 })
      (q, f) (q.is_at_mega && ltb at (q.nrww_addr * 2))
      (record {
        coherent = w.coherent;
        high_bytes = w.high_bytes;
        low_bytes = w.low_bytes;
        locked = w.locked;
        until = w.until;
      })
      w
  where
    either :
        (x y : FlashProgramming × AvrFlash) (test : Bool)
        → IsWritten flags now addr p x.0 x.1
        → IsWritten flags now addr p y.0 y.1
        → IsWritten flags now addr p (chosen test x y).0 (chosen test x y).1
    either x y true one other = one
    either x y false one other = other

-- On a flash whose instructions are coherent, the write of the page buffer to an even address with
-- room for a page succeeds: the flash holds the buffer with the bytes of each word swapped, every
-- instruction is coherent with its bytes, and the engine is to hold the CPU until 4 ms later.
pub store_page-IsWritten :
    (flags : CoreFlags) (now addr : ℕ) (p : FlashProgramming) (f : AvrFlash)
    → addr % 2 ≡ 0
    → addr + p.page_size * 2 ≤ f.size
    → IsCoherent flags f
    → (q : FlashProgramming) × (f' : AvrFlash) × (store_page flags now addr p f ≡ ok (q, f', 0))
      × IsWritten flags now addr p q f'
unfolding store_page
store_page-IsWritten flags now addr p f even room coherent =
    let written = write_mem-IsCoherent flags p.temp_buffer addr p.page_size f even room coherent in
    let q = record p { timeout = now + spm_timeout; action = lockcpu } in
    (
      (set_rww_lock addr q written.0).0,
      (set_rww_lock addr q written.0).1,
      rw written.1 refl,
      set_rww_lock-IsWritten flags now addr addr p q written.0 (record {
        coherent = written.2;
        high_bytes = λ i h. (written.3 i h).0;
        low_bytes = λ i h. (written.3 i h).1;
        locked = refl;
        until = refl;
      }),
    )
