-- ===== src/Flash/Blocks.antt =====
-- What `WriteMem` and `Decode` leave of a block of words: the loops of src/flash.cpp.
use simulavr.Prelude.{update_same, update_other}
use simulavr.Prelude.{
  ℕ, zero, suc, ◌+◌, ◌*◌, ◌/◌, ◌%◌, ◌≤◌, ◌<◌, ◌≡◌, ◌⊎◌, inl, inr, refl, ap, ◌∙◌, sym, arith,
}
use simulavr.Prelude.{true, some, update, Bool-cases, ltb, ◌==◌}
use simulavr.Core.Result.{ok}
use simulavr.Decode.Case.{CoreFlags}
use simulavr.Decode.Lookup.{lookup_opcode}
use simulavr.Flash.{AvrFlash, word_at, decode, decode_block, copy}

-- What the copy of `n` words leaves: the two bytes of each word, swapped, and the rest of the flash.
pub record Copied (src : ℕ → ℕ) (n t offset : ℕ) (f f' : AvrFlash) : Type 0 where
  pub first : (i : ℕ) → i < n → f'.memory (t + offset + i * 2) ≡ src (t + i * 2 + 1)
  pub second : (i : ℕ) → i < n → f'.memory (t + offset + i * 2 + 1) ≡ src (t + i * 2)
  pub others : (a : ℕ) → (a < t + offset) ⊎ (t + offset + n * 2 ≤ a) → f'.memory a ≡ f.memory a
  pub rest : record f' { memory = f.memory } ≡ f

abbrev put : (ℕ → ℕ) → ℕ → ℕ → AvrFlash → AvrFlash
put src t offset f = record f {
  memory = update (update f.memory (t + offset) (src (t + 1))) (t + 1 + offset) (src t);
}

first_word :
    (n t offset : ℕ) (src : ℕ → ℕ) (f f' : AvrFlash)
    → Copied src n (t + 2) offset (put src t offset f) f'
    → (i : ℕ) → i < suc n
    → f'.memory (t + offset + i * 2) ≡ src (t + i * 2 + 1)
first_word n t offset src f f' copied zero h =
    copied.others (t + offset + 0 * 2) (inl (omega arith))
    ∙ ap (put src t offset f).memory {y = t + offset} (omega arith)
    ∙ update_other (update f.memory (t + offset) (src (t + 1))) (t + 1 + offset) (src t)
        (t + offset) (λ e. omega arith)
    ∙ update_same f.memory (t + offset) (src (t + 1))
    ∙ ap src (omega arith)
first_word n t offset src f f' copied (suc i) h =
    ap f'.memory {y = t + 2 + offset + i * 2} (omega arith)
    ∙ copied.first i (omega arith)
    ∙ ap src (omega arith)

second_word :
    (n t offset : ℕ) (src : ℕ → ℕ) (f f' : AvrFlash)
    → Copied src n (t + 2) offset (put src t offset f) f'
    → (i : ℕ) → i < suc n
    → f'.memory (t + offset + i * 2 + 1) ≡ src (t + i * 2)
second_word n t offset src f f' copied zero h =
    copied.others (t + offset + 0 * 2 + 1) (inl (omega arith))
    ∙ ap (put src t offset f).memory {y = t + 1 + offset} (omega arith)
    ∙ update_same (update f.memory (t + offset) (src (t + 1))) (t + 1 + offset) (src t)
    ∙ ap src (omega arith)
second_word n t offset src f f' copied (suc i) h =
    ap f'.memory {y = t + 2 + offset + i * 2 + 1} (omega arith)
    ∙ copied.second i (omega arith)
    ∙ ap src (omega arith)

put_other :
    (src : ℕ → ℕ) (t offset n a : ℕ) (f : AvrFlash)
    → (a < t + offset) ⊎ (t + offset + suc n * 2 ≤ a)
    → (put src t offset f).memory a ≡ f.memory a
put_other src t offset n a f h = ground (arith, h)

pub copy-Copied :
    (src : ℕ → ℕ) (n t offset : ℕ) (f : AvrFlash)
    → t + offset + n * 2 ≤ f.size
    → (f' : AvrFlash) × (copy src n t offset f ≡ ok f') × Copied src n t offset f f'
unfolding copy
copy-Copied src zero t offset f room = (
  f,
  refl,
  record {
    first = λ i h. absurd (omega arith);
    second = λ i h. absurd (omega arith);
    others = λ a h. refl;
    rest = refl;
  },
)
copy-Copied src (suc n) t offset f room =
    let inside : ltb (t + offset) f.size ≡ true = ground arith in
    let inside' : ltb (t + offset + 1) f.size ≡ true = ground arith in
    let rest = copy-Copied src n (t + 2) offset (put src t offset f) (omega arith) in
    (
      rest.0,
      rw (inside, copy) (rw inside' rest.1),
      record {
        first = first_word n t offset src f rest.0 rest.2;
        second = second_word n t offset src f rest.0 rest.2;
        others = λ a h. rest.2.others a (ground arith) ∙ put_other src t offset n a f h;
        rest = ap (λ (g : AvrFlash). record g { memory = f.memory }) rest.2.rest;
      },
    )

-- What decoding `n` words leaves.
pub record Decoded (flags : CoreFlags) (n offset : ℕ) (f f' : AvrFlash) : Type 0 where
  pub words :
      (w : ℕ)
      → offset ≤ w * 2
      → w * 2 < offset + n * 2
      → f'.decoded w ≡ some (lookup_opcode flags (word_at f.memory (w * 2)))
  pub others : (w : ℕ) → (w * 2 < offset) ⊎ (offset + n * 2 ≤ w * 2) → f'.decoded w ≡ f.decoded w
  pub rest : record f' { decoded = f.decoded } ≡ f

abbrev decoded_once : CoreFlags → ℕ → AvrFlash → AvrFlash
decoded_once flags offset f = record f {
  decoded = update f.decoded (offset / 2) (some (lookup_opcode flags (word_at f.memory offset)));
}

decode-decoded_once :
    (flags : CoreFlags) (offset : ℕ) (f : AvrFlash)
    → offset % 2 ≡ 0
    → offset < f.size
    → decode flags offset f ≡ ok (decoded_once flags offset f)
unfolding decode
decode-decoded_once flags offset f even room =
    let inside : ltb offset f.size ≡ true = ground arith in
    let aligned : (offset % 2 == 0) ≡ true = ground (arith, even) in rw inside (rw aligned refl)

first_instruction :
    (flags : CoreFlags) (n offset w : ℕ) (f f' : AvrFlash)
    → offset % 2 ≡ 0
    → Decoded flags n (offset + 2) (decoded_once flags offset f) f'
    → offset ≤ w * 2
    → w * 2 < offset + suc n * 2
    → f'.decoded w ≡ some (lookup_opcode flags (word_at f.memory (w * 2)))
first_instruction flags n offset w f f' even d low high =
    elim (Bool-cases (ltb (w * 2) (offset + 2))) [
      | inl here ↦
          let same : w * 2 ≡ offset = ground (arith, here, even, low) in
          d.others w (inl (omega (arith, same)))
          ∙ ap (decoded_once flags offset f).decoded {y = offset / 2} (omega (arith, same))
          ∙ update_same f.decoded (offset / 2) _
          ∙ ap (λ x. some (lookup_opcode flags (word_at f.memory x))) (sym same)
      | inr later ↦ d.words w (ground (arith, later)) (omega arith)
    ]

pub decode_block-Decoded :
    (flags : CoreFlags) (n offset : ℕ) (f : AvrFlash)
    → offset % 2 ≡ 0
    → offset + n * 2 ≤ f.size
    → (f' : AvrFlash) × (decode_block flags n offset f ≡ ok f') × Decoded flags n offset f f'
unfolding decode_block
decode_block-Decoded flags zero offset f even room =
    (f, refl, record { words = λ w h k. absurd (omega arith); others = λ w h. refl; rest = refl })
decode_block-Decoded flags (suc n) offset f even room =
    let inside : ltb offset f.size ≡ true = ground arith in
    let rest =
      decode_block-Decoded flags n (offset + 2) (decoded_once flags offset f) (omega arith)
        (omega arith) in
    (
      rest.0,
      rw (inside, decode_block) (rw (decode-decoded_once flags offset f even (omega arith)) rest.1),
      record {
        words = λ w h k. first_instruction flags n offset w f rest.0 even rest.2 h k;
        others = λ w h.
            rest.2.others w (ground arith)
            ∙ update_other f.decoded (offset / 2) _ w (λ e. ground (arith, e, h));
        rest = ap (λ (g : AvrFlash). record g { decoded = f.decoded }) rest.2.rest;
      },
    )
