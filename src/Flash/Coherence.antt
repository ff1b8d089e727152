-- ===== src/Flash/Coherence.antt =====
-- The instructions that are kept beside the bytes of the flash are those that the bytes encode.
use simulavr.Prelude.{
  ℕ, ◌+◌, ◌*◌, ◌/◌, ◌%◌, ◌≤◌, ◌<◌, ◌≡◌, ◌⊎◌, inl, inr, refl, ap, ◌∙◌, sym, arith,
}
use simulavr.Prelude.{true, some, Bool-cases, ltb, leb, ◌||◌}
use simulavr.Core.Result.{ok}
use simulavr.Decode.Case.{CoreFlags}
use simulavr.Decode.Lookup.{lookup_opcode}
use simulavr.Flash.{AvrFlash, word_at, decode_block, copy, write_mem}
use simulavr.Flash.Blocks.{Copied, Decoded, copy-Copied, decode_block-Decoded}

-- Every word of the flash is decoded, and from the bytes that it has now.
unfoldable pub IsCoherent : CoreFlags → AvrFlash → Type 0
IsCoherent flags f =
    (w : ℕ)
    → w * 2 + 1 < f.size
    → f.decoded w ≡ some (lookup_opcode flags (word_at f.memory (w * 2)))

IsCoherent-kept :
    (flags : CoreFlags) (src : ℕ → ℕ) (n offset : ℕ) (f f1 f2 : AvrFlash)
    → offset % 2 ≡ 0
    → IsCoherent flags f
    → Copied src n 0 offset f f1
    → Decoded flags n offset f1 f2
    → IsCoherent flags f2
unfolding IsCoherent
IsCoherent-kept flags src n offset f f1 f2 even coherent copied block w room =
    let memory2 : f2.memory ≡ f1.memory = ap (λ (g : AvrFlash). g.memory) block.rest in
    let new_bytes = ap (λ m. some (lookup_opcode flags (word_at m (w * 2)))) (sym memory2) in
    let size2 : f2.size ≡ f.size =
      ap (λ (g : AvrFlash). g.size) block.rest ∙ ap (λ (g : AvrFlash). g.size) copied.rest in
    elim (Bool-cases (ltb (w * 2) offset || leb (offset + n * 2) (w * 2))) [
      | inl outside ↦
          let apart : (w * 2 < offset) ⊎ (offset + n * 2 ≤ w * 2) = ground (arith, outside) in
          let high = copied.others (w * 2) (ground (arith, apart)) in
          let low = copied.others (w * 2 + 1) (ground (arith, apart, even)) in
          block.others w apart
          ∙ ap (λ (g : AvrFlash). g.decoded w) copied.rest
          ∙ coherent w (omega (arith, size2, room))
          ∙ ap (λ x. some (lookup_opcode flags x)) (omega (arith, high, low))
          ∙ new_bytes
      | inr inside ↦ block.words w (ground (arith, inside)) (ground (arith, inside)) ∙ new_bytes
    ]

write_mem-steps :
    (flags : CoreFlags) (src : ℕ → ℕ) (offset n : ℕ) (f f1 f2 : AvrFlash)
    → copy src n 0 offset f ≡ ok f1
    → decode_block flags n offset f1 ≡ ok f2
    → write_mem flags src offset (n * 2) f ≡ ok (record f2 { flash_loaded = true })
unfolding write_mem
write_mem-steps flags src offset n f f1 f2 copied block =
    let rounds : (n * 2 + 1) / 2 ≡ n = omega arith in rw rounds (rw copied (rw block refl))

-- On a flash whose instructions are coherent with its bytes, `WriteMem` of whole words inside the
-- flash, to an even address, succeeds and keeps every instruction coherent; it stores the two bytes
-- of each word swapped and leaves the other bytes as they were.
pub write_mem-IsCoherent :
    (flags : CoreFlags) (src : ℕ → ℕ) (offset n : ℕ) (f : AvrFlash)
    → offset % 2 ≡ 0
    → offset + n * 2 ≤ f.size
    → IsCoherent flags f
    → (f' : AvrFlash) × (write_mem flags src offset (n * 2) f ≡ ok f')
      × IsCoherent flags f'
      × ((i : ℕ)
          → i < n
          → (f'.memory (offset + i * 2) ≡ src (i * 2 + 1))
            × (f'.memory (offset + i * 2 + 1) ≡ src (i * 2)))
      × ((a : ℕ) → (a < offset) ⊎ (offset + n * 2 ≤ a) → f'.memory a ≡ f.memory a)
unfolding IsCoherent
write_mem-IsCoherent flags src offset n f even room coherent =
    let copied = copy-Copied src n 0 offset f (omega arith) in
    let f1 = copied.0 in
    let size1 : f1.size ≡ f.size = ap (λ (g : AvrFlash). g.size) copied.2.rest in
    let block = decode_block-Decoded flags n offset f1 even (omega (arith, size1)) in
    let f2 = block.0 in
    let memory2 : f2.memory ≡ f1.memory = ap (λ (g : AvrFlash). g.memory) block.2.rest in
    (
      record f2 { flash_loaded = true },
      write_mem-steps flags src offset n f f1 f2 copied.1 block.1,
      IsCoherent-kept flags src n offset f f1 f2 even coherent copied.2 block.2,
      λ i h. (
        ap (λ m. m (offset + i * 2)) memory2
            ∙ ap f1.memory {y = 0 + offset + i * 2} (omega arith)
            ∙ copied.2.first i h
            ∙ ap src (omega arith),
        ap (λ m. m (offset + i * 2 + 1)) memory2
            ∙ ap f1.memory {y = 0 + offset + i * 2 + 1} (omega arith)
            ∙ copied.2.second i h
            ∙ ap src (omega arith),
      ),
      λ a h. ap (λ m. m a) memory2 ∙ copied.2.others a (ground (arith, h)),
    )
