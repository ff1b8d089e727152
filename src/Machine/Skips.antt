-- ===== src/Machine/Skips.antt =====
-- The instructions that skip the next one, by a test of registers (`operator()` of their classes in
-- src/decoder.cpp), on a flash whose instructions are those of its bytes.
use simulavr.Prelude.{ℕ, ◌+◌, ◌*◌, ◌^◌, bit_and, ◌<◌, ◌≡◌, ◌≢◌, ap, ◌∙◌, arith, Option, some, none}
use simulavr.Prelude.{Bool, true, false, not, ◌==◌, if◌then◌else◌}
use simulavr.Prelude.Bits.{◌<<<◌, nth_bit, power_zero}
use simulavr.Prelude.Int.{pos}
use simulavr.Core.Device.{Device}
use simulavr.Core.Execute.{execute}
use simulavr.Core.Execute.Common.{Run}
use simulavr.Core.Execute.Jump.{run_cpse, run_sbrc, run_sbrs, skip_clocks, skip_if}
use simulavr.Core.Result.{ok, deref, ◌>>=◌}
use simulavr.Decode.Encode.{has_two_words}
use simulavr.Decode.Instruction.{
  Instruction, avr_op_cpse, avr_op_illegal, avr_op_sbrc, avr_op_sbrs, is_instruction_2_words,
}
use simulavr.Decode.Lookup.{lookup_opcode}
use simulavr.Decode.Width.{is_instruction_2_words-lookup_opcode}
use simulavr.Flash.{word_at}
use simulavr.Flash.Coherence.{IsCoherent}
use simulavr.Machine.{next_pc}

-- What an instruction that skips tests: two registers that are equal, or a bit of a register that is
-- clear or set.
abbrev pub skip_test : Instruction → Device → Option Bool
skip_test (avr_op_cpse r1 r2) d = some (d.cells r1 == d.cells r2)
skip_test (avr_op_sbrc r k) d = some (nth_bit k (d.cells r) == 0)
skip_test (avr_op_sbrs r k) d = some (not (nth_bit k (d.cells r) == 0))
skip_test _ d = none

-- The word of the flash behind the one at PC.
abbrev pub next_opcode : Device → ℕ
next_opcode d = word_at d.flash.memory ((d.pc + 1) * 2)

-- The words that a skip passes over, besides its own.
abbrev pub passed : Bool → ℕ → ℕ
passed test opcode = if test then (if has_two_words opcode then 2 else 1) else 0

-- The next word is in the flash, which is coherent, and it is the first one of a legal instruction.
-- PC does not wrap behind it.
pub record HasNext (d : Device) : Type 0 where
  pub coherent : IsCoherent d.flags d.flash
  pub inside : (d.pc + 1) * 2 + 1 < d.flash.size
  pub no_wrap : d.pc + 3 < 65536
  pub word : next_opcode d < 65536
  pub legal : lookup_opcode d.flags (next_opcode d) ≢ avr_op_illegal

skip_clocks-next :
    (d : Device) → HasNext d → skip_clocks d ≡ ok (if has_two_words (next_opcode d) then 3 else 2)
unfolding IsCoherent
skip_clocks-next d next =
    ap (λ i. deref i >>= λ i. ok (if is_instruction_2_words i then 3 else 2))
      (next.coherent (d.pc + 1) next.inside)
    ∙ ap (λ b. ok (if b then 3 else 2))
        (is_instruction_2_words-lookup_opcode d.flags (next_opcode d) next.word next.legal)

-- The device and the clocks of a skip over `n` words.
abbrev skipped : ℕ → Device → Run
skipped n d = ok (record d { pc = d.pc + n }, pos (1 + n))

skip_if-length :
    (test two : Bool) (d : Device)
    → d.pc + 3 < 65536
    → skip_if test (if two then 3 else 2) 0 d
      ≡ skipped (if test then (if two then 2 else 1) else 0) d
skip_if-length true true d small = ap (λ p. ok (record d { pc = p }, pos 3)) (omega arith)
skip_if-length true false d small = ap (λ p. ok (record d { pc = p }, pos 2)) (omega arith)
skip_if-length false two d small = ap (λ p. ok (record d { pc = p }, pos 1)) (omega arith)

-- A skip whose clocks are known, with a test that is the one expected.
skip-skipped :
    (tested test : Bool) (d : Device)
    → HasNext d
    → tested ≡ test
    → (skip_clocks d >>= λ skip. skip_if tested skip 0 d) ≡ skipped (passed test (next_opcode d)) d
skip-skipped tested test d next same =
    ap (λ r. r >>= λ skip. skip_if tested skip 0 d) (skip_clocks-next d next)
    ∙ skip_if-length tested (has_two_words (next_opcode d)) d next.no_wrap
    ∙ ap (λ b. skipped (passed b (next_opcode d)) d) same

same_test : (a b : ℕ) → (a ≡ 0 → b ≡ 0) → (b ≡ 0 → a ≡ 0) → (a == 0) ≡ (b == 0)
same_test a b f g = ground (arith, f, g)

bit_and-nth_bit : (k v : ℕ) → (bit_and v (1 <<< k) == 0) ≡ (nth_bit k v == 0)
bit_and-nth_bit k v =
    let test = power_zero k v in
    ap (λ m. bit_and v m == 0) {y = 2 ^ k} (omega arith)
    ∙ same_test (bit_and v (2 ^ k)) (nth_bit k v) test.0 test.1

some-injective : (a b : Bool) → some a ≡ some b → a ≡ b
some-injective a b e = cc

execute-skipped :
    (i : Instruction) (test : Bool) (d : Device)
    → HasNext d
    → skip_test i d ≡ some test
    → execute i d ≡ skipped (passed test (next_opcode d)) d
unfolding execute run_cpse run_sbrc run_sbrs
execute-skipped (avr_op_cpse r1 r2) test d next e =
    skip-skipped (d.cells r1 == d.cells r2) test d next (some-injective _ _ e)
execute-skipped (avr_op_sbrc r k) test d next e =
    skip-skipped _ test d next (bit_and-nth_bit k (d.cells r) ∙ some-injective _ _ e)
execute-skipped (avr_op_sbrs r k) test d next e =
    skip-skipped _ test d next (ap not (bit_and-nth_bit k (d.cells r)) ∙ some-injective _ _ e)
execute-skipped _ test d next e = cc

next_pc-skipped :
    (n : ℕ) (d : Device)
    → d.pc + n + 1 < 65536
    → next_pc (record d { pc = d.pc + n }) ≡ record d { pc = d.pc + 1 + n }
unfolding next_pc
next_pc-skipped n d small = ap (λ p. record d { pc = p }) (omega arith)

passed-le : (test : Bool) (opcode pc : ℕ) → pc + 3 < 65536 → pc + passed test opcode + 1 < 65536
passed-le test opcode pc small = ground (arith, small)

-- On a flash whose instructions are coherent, where the word behind PC starts a legal instruction
-- and PC does not wrap behind it, CPSE, SBRC and SBRS go on behind that instruction when their test
-- holds, and at it otherwise: when the registers are equal, the bit is clear, or the bit is set. The
-- instruction has two words if the bits of its opcode are those of LDS, STS, JMP or CALL, and else
-- one. Each word that is skipped takes a clock more, and nothing but PC changes.
pub execute-next_pc :
    (i : Instruction) (test : Bool) (d : Device)
    → HasNext d
    → skip_test i d ≡ some test
    → (d' : Device) × (execute i d ≡ ok (d', pos (1 + passed test (next_opcode d))))
      × (next_pc d' ≡ record d { pc = d.pc + 1 + passed test (next_opcode d) })
execute-next_pc i test d next e =
    let n = passed test (next_opcode d) in
    (
      record d { pc = d.pc + n },
      execute-skipped i test d next e,
      next_pc-skipped n d (passed-le test (next_opcode d) d.pc next.no_wrap),
    )
