-- ===== src/Sreg.antt =====
-- The status register: `HWSreg` and `RWSreg` of src/hwsreg.h and src/hwsreg.cpp.
pub mod Bits
use simulavr.Prelude.{ℕ, ◌+◌, ◌-◌, ◌*◌, ◌/◌, ◌^◌, bit_and, Bool, true, false, not, ◌==◌, ltb}
use simulavr.Prelude.Bits.{◌<<<◌}

-- `HWSreg_bool`: one `bool` for each flag.
pub record Sreg : Type 0 where
  pub i : Bool
  pub t : Bool
  pub h : Bool
  pub s : Bool
  pub v : Bool
  pub n : Bool
  pub z : Bool
  pub c : Bool

-- A `bool` in an integer expression.
abbrev pub bit : Bool → ℕ
bit true = 1
bit false = 0

-- `operator int`.
unfoldable pub to_int : Sreg → ℕ
to_int r =
    bit r.c
    + (bit r.z <<< 1)
    + (bit r.n <<< 2)
    + (bit r.v <<< 3)
    + (bit r.s <<< 4)
    + (bit r.h <<< 5)
    + (bit r.t <<< 6)
    + (bit r.i <<< 7)

-- `operator =(const int)`.
unfoldable pub from_int : ℕ → Sreg
from_int x = record {
  c = not (bit_and x 0x01 == 0);
  z = ltb 1 (bit_and x 0x02);
  n = ltb 2 (bit_and x 0x04);
  v = ltb 3 (bit_and x 0x08);
  s = ltb 4 (bit_and x 0x10);
  h = ltb 5 (bit_and x 0x20);
  t = ltb 6 (bit_and x 0x40);
  i = ltb 7 (bit_and x 0x80);
}

-- `HWSreg_bool()`: all flags are 0.
abbrev pub clear : Sreg
clear = record {
  i = false;
  t = false;
  h = false;
  s = false;
  v = false;
  n = false;
  z = false;
  c = false;
}
