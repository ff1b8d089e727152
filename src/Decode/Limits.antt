-- ===== src/Decode/Limits.antt =====
-- What the flags of a core do to the decoder: they only replace instructions by
-- `avr_op_ILLEGAL`.
use simulavr.Prelude.{ℕ, ◌<◌, ◌≡◌, ◌≢◌, ◌⊎◌, inl, inr, refl, true, Option, none, some}
use simulavr.Prelude.{List, [], ◌∷◌, arith, Bool-cases, ◌&&◌, not, bit_or}
use simulavr.Decode.Case.{Case, case, CoreFlags, full, switch, ◌orelse◌}
use simulavr.Decode.Cases.{
  cases_no_operand, cases_rd_5_rr_5, cases_rd_5, cases_rd_4_k_8, cases_rd_5_reg_bit,
  cases_k_7_reg_bit, cases_q_displ_rd_5, cases_k_22, cases_sreg_bit, cases_k_6_rd_2,
  cases_a_5_reg_bit, cases_a_6_rd_5, cases_k_12, cases_rd_4_rr_4, cases_rd_3_rr_3,
}
use simulavr.Decode.Encode.{encode}
use simulavr.Decode.Fields.{
  mask_rd_2, mask_rd_3, mask_rd_4, mask_rd_5, mask_rr_3, mask_rr_4, mask_rr_5,
}
use simulavr.Decode.Fields.{
  mask_const_8, mask_const_6, mask_k_7, mask_k_12, mask_k_22, mask_reg_bit,
}
use simulavr.Decode.Fields.{mask_sreg_bit, mask_q_displ, mask_a_5, mask_a_6}
use simulavr.Decode.Instruction.{Instruction, avr_op_illegal}
use simulavr.Decode.Lookup.{without, lookup_opcode, lookup_rest, lookup_q_displ_rd_5}
use simulavr.Decode.Lookup.{
  lookup_no_operand, lookup_rd_5_rr_5, lookup_rd_5, lookup_rd_4_k_8, lookup_rd_5_reg_bit,
  lookup_k_7_reg_bit, lookup_k_22, lookup_sreg_bit, lookup_k_6_rd_2, lookup_a_5_reg_bit,
  lookup_a_6_rd_5, lookup_k_12, lookup_rd_4_rr_4, lookup_rd_3_rr_3,
}
use simulavr.Decode.Table.{checked_all}
use simulavr.Decode.Table.Check.{checked, is_last}

-- The result of a `switch` is that of the full core, or illegal where that one found a case.
abbrev Limits : Option Instruction → Option Instruction → Type 0
Limits a b = (a ≡ b) ⊎ ((a ≡ some avr_op_illegal) × (b ≢ none))

-- The instruction is illegal, or that of the full core.
abbrev pub Weaker : Instruction → Instruction → Type 0
Weaker i j = (i ≡ avr_op_illegal) ⊎ (i ≡ j)

abbrev AllFull : List Case → Type 0
AllFull [] = Unit
AllFull (case label needs make ∷ cases) = (needs full ≡ true) × AllFull cases

switch-Limits :
    (f : CoreFlags) (decode opcode : ℕ) (cases : List Case)
    → AllFull cases
    → Limits (switch f decode opcode cases) (switch full decode opcode cases)
unfolding switch
switch-Limits f decode opcode [] h = inl refl
switch-Limits f decode opcode (case label needs make ∷ cases) h =
    ground (arith, switch-Limits f decode opcode cases h.1)

orelse-Weaker :
    (a b : Option Instruction) (k l : Instruction)
    → Limits a b
    → Weaker k l
    → Weaker (a orelse k) (b orelse l)
orelse-Weaker a b k l h w = ground arith

lookup_no_operand-Limits :
    (f : CoreFlags) (opcode : ℕ)
    → Limits (lookup_no_operand f opcode) (lookup_no_operand full opcode)
unfolding lookup_no_operand
lookup_no_operand-Limits f opcode = switch-Limits f opcode opcode cases_no_operand (ground arith)

lookup_rd_5_rr_5-Limits :
    (f : CoreFlags) (opcode : ℕ) → Limits (lookup_rd_5_rr_5 f opcode) (lookup_rd_5_rr_5 full opcode)
unfolding lookup_rd_5_rr_5
lookup_rd_5_rr_5-Limits f opcode =
    switch-Limits f (without opcode (bit_or mask_rd_5 mask_rr_5)) opcode cases_rd_5_rr_5
      (ground arith)

lookup_rd_5-Limits :
    (f : CoreFlags) (opcode : ℕ) → Limits (lookup_rd_5 f opcode) (lookup_rd_5 full opcode)
unfolding lookup_rd_5
lookup_rd_5-Limits f opcode =
    switch-Limits f (without opcode mask_rd_5) opcode cases_rd_5 (ground arith)

lookup_rd_4_k_8-Limits :
    (f : CoreFlags) (opcode : ℕ) → Limits (lookup_rd_4_k_8 f opcode) (lookup_rd_4_k_8 full opcode)
unfolding lookup_rd_4_k_8
lookup_rd_4_k_8-Limits f opcode =
    switch-Limits f (without opcode (bit_or mask_rd_4 mask_const_8)) opcode cases_rd_4_k_8
      (ground arith)

lookup_rd_5_reg_bit-Limits :
    (f : CoreFlags) (opcode : ℕ)
    → Limits (lookup_rd_5_reg_bit f opcode) (lookup_rd_5_reg_bit full opcode)
unfolding lookup_rd_5_reg_bit
lookup_rd_5_reg_bit-Limits f opcode =
    switch-Limits f (without opcode (bit_or mask_rd_5 mask_reg_bit)) opcode cases_rd_5_reg_bit
      (ground arith)

lookup_k_7_reg_bit-Limits :
    (f : CoreFlags) (opcode : ℕ)
    → Limits (lookup_k_7_reg_bit f opcode) (lookup_k_7_reg_bit full opcode)
unfolding lookup_k_7_reg_bit
lookup_k_7_reg_bit-Limits f opcode =
    switch-Limits f (without opcode (bit_or mask_k_7 mask_reg_bit)) opcode cases_k_7_reg_bit
      (ground arith)

lookup_k_22-Limits :
    (f : CoreFlags) (opcode : ℕ) → Limits (lookup_k_22 f opcode) (lookup_k_22 full opcode)
unfolding lookup_k_22
lookup_k_22-Limits f opcode =
    switch-Limits f (without opcode mask_k_22) opcode cases_k_22 (ground arith)

lookup_sreg_bit-Limits :
    (f : CoreFlags) (opcode : ℕ) → Limits (lookup_sreg_bit f opcode) (lookup_sreg_bit full opcode)
unfolding lookup_sreg_bit
lookup_sreg_bit-Limits f opcode =
    switch-Limits f (without opcode mask_sreg_bit) opcode cases_sreg_bit (ground arith)

lookup_k_6_rd_2-Limits :
    (f : CoreFlags) (opcode : ℕ) → Limits (lookup_k_6_rd_2 f opcode) (lookup_k_6_rd_2 full opcode)
unfolding lookup_k_6_rd_2
lookup_k_6_rd_2-Limits f opcode =
    switch-Limits f (without opcode (bit_or mask_const_6 mask_rd_2)) opcode cases_k_6_rd_2
      (ground arith)

lookup_a_5_reg_bit-Limits :
    (f : CoreFlags) (opcode : ℕ)
    → Limits (lookup_a_5_reg_bit f opcode) (lookup_a_5_reg_bit full opcode)
unfolding lookup_a_5_reg_bit
lookup_a_5_reg_bit-Limits f opcode =
    switch-Limits f (without opcode (bit_or mask_a_5 mask_reg_bit)) opcode cases_a_5_reg_bit
      (ground arith)

lookup_a_6_rd_5-Limits :
    (f : CoreFlags) (opcode : ℕ) → Limits (lookup_a_6_rd_5 f opcode) (lookup_a_6_rd_5 full opcode)
unfolding lookup_a_6_rd_5
lookup_a_6_rd_5-Limits f opcode =
    switch-Limits f (without opcode (bit_or mask_a_6 mask_rd_5)) opcode cases_a_6_rd_5
      (ground arith)

lookup_k_12-Limits :
    (f : CoreFlags) (opcode : ℕ) → Limits (lookup_k_12 f opcode) (lookup_k_12 full opcode)
unfolding lookup_k_12
lookup_k_12-Limits f opcode =
    switch-Limits f (without opcode mask_k_12) opcode cases_k_12 (ground arith)

lookup_rd_4_rr_4-Limits :
    (f : CoreFlags) (opcode : ℕ) → Limits (lookup_rd_4_rr_4 f opcode) (lookup_rd_4_rr_4 full opcode)
unfolding lookup_rd_4_rr_4
lookup_rd_4_rr_4-Limits f opcode =
    switch-Limits f (without opcode (bit_or mask_rd_4 mask_rr_4)) opcode cases_rd_4_rr_4
      (ground arith)

lookup_rd_3_rr_3-Limits :
    (f : CoreFlags) (opcode : ℕ) → Limits (lookup_rd_3_rr_3 f opcode) (lookup_rd_3_rr_3 full opcode)
unfolding lookup_rd_3_rr_3
lookup_rd_3_rr_3-Limits f opcode =
    switch-Limits f (without opcode (bit_or mask_rd_3 mask_rr_3)) opcode cases_rd_3_rr_3
      (ground arith)

lookup_rest-Weaker :
    (f : CoreFlags) (opcode : ℕ) → Weaker (lookup_rest f opcode) (lookup_rest full opcode)
unfolding lookup_rest
lookup_rest-Weaker f opcode =
    orelse-Weaker (lookup_k_22 f opcode) (lookup_k_22 full opcode) _ _ (lookup_k_22-Limits f opcode)
      (orelse-Weaker (lookup_sreg_bit f opcode) (lookup_sreg_bit full opcode) _ _
        (lookup_sreg_bit-Limits f opcode)
        (orelse-Weaker (lookup_k_6_rd_2 f opcode) (lookup_k_6_rd_2 full opcode) _ _
          (lookup_k_6_rd_2-Limits f opcode)
          (orelse-Weaker (lookup_a_5_reg_bit f opcode) (lookup_a_5_reg_bit full opcode) _ _
            (lookup_a_5_reg_bit-Limits f opcode)
            (orelse-Weaker (lookup_a_6_rd_5 f opcode) (lookup_a_6_rd_5 full opcode) _ _
              (lookup_a_6_rd_5-Limits f opcode)
              (orelse-Weaker (lookup_k_12 f opcode) (lookup_k_12 full opcode) _ _
                (lookup_k_12-Limits f opcode)
                (orelse-Weaker (lookup_rd_4_rr_4 f opcode) (lookup_rd_4_rr_4 full opcode) _ _
                  (lookup_rd_4_rr_4-Limits f opcode)
                  (orelse-Weaker (lookup_rd_3_rr_3 f opcode) (lookup_rd_3_rr_3 full opcode) _ _
                    (lookup_rd_3_rr_3-Limits f opcode) (inr refl))))))))

-- The skipped `switch` falls through to cases that do not fit either.
skipped-Weaker :
    (a b : Option Instruction) (k l : Instruction)
    → (a ≡ none) ⊎ Limits a b
    → Weaker k l
    → (b ≢ none → l ≡ avr_op_illegal)
    → Weaker (a orelse k) (b orelse l)
skipped-Weaker none none k l c w h = w
skipped-Weaker none (some i) k l c w h = inl (ground (arith, h (λ e. cc)))
skipped-Weaker (some i) b k l c w h = ground arith

lookup_q_displ_rd_5-cases :
    (f : CoreFlags) (opcode : ℕ)
    → (lookup_q_displ_rd_5 f opcode ≡ none)
      ⊎ Limits (lookup_q_displ_rd_5 f opcode) (lookup_q_displ_rd_5 full opcode)
unfolding lookup_q_displ_rd_5
lookup_q_displ_rd_5-cases f opcode = elim (Bool-cases (not f.tiny10 && not f.tiny1x)) [
  | inl on ↦ inr (
      rw on (
        switch-Limits f (without opcode (bit_or mask_rd_5 mask_q_displ)) opcode cases_q_displ_rd_5
          (ground arith)))
  | inr off ↦ inl (rw off)
]

pub encode-eq-none : (i : Instruction) → encode i ≡ none → i ≡ avr_op_illegal
unfolding encode
encode-eq-none avr_op_illegal h = refl
encode-eq-none _ h = cc

checked-is_last :
    (opcode : ℕ)
    → checked opcode ≡ true
    → is_last (lookup_q_displ_rd_5 full opcode) (encode (lookup_rest full opcode)) ≡ true
unfolding checked
checked-is_last opcode h = ground arith

last_case :
    (opcode : ℕ)
    → opcode < 65536
    → lookup_q_displ_rd_5 full opcode ≢ none
    → lookup_rest full opcode ≡ avr_op_illegal
last_case opcode h found =
    encode-eq-none _ (ground (arith, checked-is_last opcode (checked_all opcode h)))

-- The flags of a core replace instructions by `avr_op_ILLEGAL`, and never by another instruction:
-- of every opcode, a core decodes the instruction of the full core or an illegal one.
pub lookup_opcode-Weaker :
    (f : CoreFlags) (opcode : ℕ)
    → opcode < 65536
    → Weaker (lookup_opcode f opcode) (lookup_opcode full opcode)
unfolding lookup_opcode
lookup_opcode-Weaker f opcode h =
    orelse-Weaker (lookup_no_operand f opcode) (lookup_no_operand full opcode) _ _
      (lookup_no_operand-Limits f opcode)
      (orelse-Weaker (lookup_rd_5_rr_5 f opcode) (lookup_rd_5_rr_5 full opcode) _ _
        (lookup_rd_5_rr_5-Limits f opcode)
        (orelse-Weaker (lookup_rd_5 f opcode) (lookup_rd_5 full opcode) _ _
          (lookup_rd_5-Limits f opcode)
          (orelse-Weaker (lookup_rd_4_k_8 f opcode) (lookup_rd_4_k_8 full opcode) _ _
            (lookup_rd_4_k_8-Limits f opcode)
            (orelse-Weaker (lookup_rd_5_reg_bit f opcode) (lookup_rd_5_reg_bit full opcode) _ _
              (lookup_rd_5_reg_bit-Limits f opcode)
              (orelse-Weaker (lookup_k_7_reg_bit f opcode) (lookup_k_7_reg_bit full opcode) _ _
                (lookup_k_7_reg_bit-Limits f opcode)
                (skipped-Weaker _ _ _ _ (lookup_q_displ_rd_5-cases f opcode)
                  (lookup_rest-Weaker f opcode) (last_case opcode h)))))))
