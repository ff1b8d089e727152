-- ===== src/Decode/Case.antt =====
-- One `case` of a `switch` in `lookup_opcode` (src/decoder.cpp), and the `switch` over its cases.
use simulavr.Prelude.{ℕ, Bool, true, false, not, Option, none, some, List, [], ◌∷◌}
use simulavr.Prelude.{◌==◌, if◌then◌else◌}
use simulavr.Decode.Instruction.{Instruction, avr_op_illegal}

-- The flags of `AvrDevice` that say which instructions the core has.
pub record CoreFlags : Type 0 where
  pub iw_instructions : Bool
  pub jmp_instructions : Bool
  pub ijmp_instructions : Bool
  pub eijmp_instructions : Bool
  pub lpm_instructions : Bool
  pub elpm_instructions : Bool
  pub mul_instructions : Bool
  pub movw_instruction : Bool
  pub tiny10 : Bool
  pub tiny1x : Bool
  pub xmega : Bool

-- A core that has all instructions.
abbrev pub full : CoreFlags
full = record {
  iw_instructions = true;
  jmp_instructions = true;
  ijmp_instructions = true;
  eijmp_instructions = true;
  lpm_instructions = true;
  elpm_instructions = true;
  mul_instructions = true;
  movw_instruction = true;
  tiny10 = false;
  tiny1x = false;
  xmega = false;
}

-- `case label: if(needs) return new ...; else return new avr_op_ILLEGAL;`
pub data Case : Type 0 where
  case : (label : ℕ) (needs : CoreFlags → Bool) (make : ℕ → Instruction) → Case

abbrev pub always : CoreFlags → Bool
always f = true

abbrev pub if_eijmp_instructions : CoreFlags → Bool
if_eijmp_instructions f = f.eijmp_instructions

abbrev pub if_elpm_instructions : CoreFlags → Bool
if_elpm_instructions f = f.elpm_instructions

abbrev pub if_ijmp_instructions : CoreFlags → Bool
if_ijmp_instructions f = f.ijmp_instructions

abbrev pub if_iw_instructions : CoreFlags → Bool
if_iw_instructions f = f.iw_instructions

abbrev pub if_jmp_instructions : CoreFlags → Bool
if_jmp_instructions f = f.jmp_instructions

abbrev pub if_lpm_instructions : CoreFlags → Bool
if_lpm_instructions f = f.lpm_instructions

abbrev pub if_movw_instruction : CoreFlags → Bool
if_movw_instruction f = f.movw_instruction

abbrev pub if_mul_instructions : CoreFlags → Bool
if_mul_instructions f = f.mul_instructions

abbrev pub unless_tiny10 : CoreFlags → Bool
unless_tiny10 f = not f.tiny10

abbrev pub unless_tiny1x : CoreFlags → Bool
unless_tiny1x f = not f.tiny1x

-- `switch (decode)`: `none` where no label fits, so that control goes on behind it.
unfoldable pub switch : CoreFlags → ℕ → ℕ → List Case → Option Instruction
switch f decode opcode [] = none
switch f decode opcode (case label needs make ∷ cases) =
    let rest = switch f decode opcode cases in
    if decode == label then some (if needs f then make opcode else avr_op_illegal) else rest

-- The first result, else what follows.
infixr 5 ◌orelse◌
abbrev pub ◌orelse◌ : Option Instruction → Instruction → Instruction
some i orelse k = i
none orelse k = k
