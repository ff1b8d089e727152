-- ===== src/Core/Result.antt =====
-- What an operation of the simulator comes to: a value, or the end of the program.
use simulavr.Prelude.{Bool, true, false, Option, none, some}

pub data Abort : Type 0 where
  -- An `assert` fails.
  assertion : Abort
  -- A pointer that is NULL is followed.
  null_pointer : Abort
  -- `avr_error` is called: for an illegal instruction, for an instruction whose result is
  -- undefined, for an invalid access, for a fetch from
  -- flash that is locked.
  illegal_instruction : Abort
  undefined_result : Abort
  invalid_access : Abort
  flash_locked : Abort
  -- A vector is read outside its bounds.
  out_of_bounds : Abort
  -- `avr_error` is called for a clock selection that there is not.
  wrong_value : Abort
  -- An iterator is used whose element was erased.
  dangling_iterator : Abort
  -- The program counter leaves the flash.
  out_of_flash : Abort
  -- A loop of the model has used up its rounds; the theorems on loops show that it does not.
  out_of_rounds : Abort

pub data Result {ℓ} (A : Type ℓ) : Type ℓ where
  ok : A → Result A
  abort : Abort → Result A

infixl 5 ◌>>=◌ ◌>>◌
abbrev pub ◌>>=◌ {ℓ κ} : {A : Type ℓ} {B : Type κ} → Result A → (A → Result B) → Result B
ok a >>= f = f a
abort e >>= f = abort e

abbrev pub ◌>>◌ {ℓ} : {B : Type ℓ} → Result (Unit {0}) → Result B → Result B
m >> k = m >>= λ _. k

-- `assert(b)`.
abbrev pub assert : Bool → Result (Unit {0})
assert true = ok tt
assert false = abort assertion

-- A pointer that may be NULL is followed.
abbrev pub deref {ℓ} : {A : Type ℓ} → Option A → Result A
deref none = abort null_pointer
deref (some a) = ok a
