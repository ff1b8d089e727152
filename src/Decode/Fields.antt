-- ===== src/Decode/Fields.antt =====
-- The operands of an opcode: the static functions at the end of src/decoder.cpp, with the masks of
-- `decoder_operand_masks`. An opcode is a `word`; an `int` here is never negative.
use simulavr.Prelude.{ℕ, ◌+◌, ◌-◌, ◌*◌, bit_and, ◌==◌, if◌then◌else◌}
use simulavr.Prelude.Bits.{◌<<<◌, ◌>>>◌, not32, u8}
use simulavr.Prelude.Int.{ℤ, pos, negsuc}

abbrev pub mask_rd_2 : ℕ
mask_rd_2 = 0x0030

abbrev pub mask_rd_3 : ℕ
mask_rd_3 = 0x0070

abbrev pub mask_rd_4 : ℕ
mask_rd_4 = 0x00f0

abbrev pub mask_rd_5 : ℕ
mask_rd_5 = 0x01f0

abbrev pub mask_rr_3 : ℕ
mask_rr_3 = 0x0007

abbrev pub mask_rr_4 : ℕ
mask_rr_4 = 0x000f

abbrev pub mask_rr_5 : ℕ
mask_rr_5 = 0x020f

abbrev pub mask_const_8 : ℕ
mask_const_8 = 0x0f0f

abbrev pub mask_const_6 : ℕ
mask_const_6 = 0x00cf

abbrev pub mask_k_7 : ℕ
mask_k_7 = 0x03f8

abbrev pub mask_k_12 : ℕ
mask_k_12 = 0x0fff

abbrev pub mask_k_22 : ℕ
mask_k_22 = 0x01f1

abbrev pub mask_reg_bit : ℕ
mask_reg_bit = 0x0007

abbrev pub mask_sreg_bit : ℕ
mask_sreg_bit = 0x0070

abbrev pub mask_q_displ : ℕ
mask_q_displ = 0x2c07

abbrev pub mask_a_5 : ℕ
mask_a_5 = 0x00f8

abbrev pub mask_a_6 : ℕ
mask_a_6 = 0x060f

-- `n_bit_unsigned_to_signed`: the negative result is `-1 * ((~val & mask) + 1)`.
unfoldable pub n_bit_unsigned_to_signed : ℕ → ℕ → ℤ
n_bit_unsigned_to_signed val n =
    if bit_and val (1 <<< (n - 1)) == 0
    then pos val
    else negsuc (bit_and (not32 val) ((1 <<< n) - 1))

unfoldable pub get_rd_2 : ℕ → ℕ
get_rd_2 opcode = let reg = bit_and (bit_and opcode mask_rd_2 >>> 4) 0x3 in reg * 2 + 24

unfoldable pub get_rd_3 : ℕ → ℕ
get_rd_3 opcode = let reg = bit_and opcode mask_rd_3 in bit_and (reg >>> 4) 0x7 + 16

unfoldable pub get_rd_4 : ℕ → ℕ
get_rd_4 opcode = let reg = bit_and opcode mask_rd_4 in bit_and (reg >>> 4) 0xf + 16

unfoldable pub get_rd_5 : ℕ → ℕ
get_rd_5 opcode = let reg = bit_and opcode mask_rd_5 in bit_and (reg >>> 4) 0x1f

unfoldable pub get_rr_3 : ℕ → ℕ
get_rr_3 opcode = bit_and opcode mask_rr_3 + 16

unfoldable pub get_rr_4 : ℕ → ℕ
get_rr_4 opcode = bit_and opcode mask_rr_4 + 16

unfoldable pub get_rr_5 : ℕ → ℕ
get_rr_5 opcode = let reg = bit_and opcode mask_rr_5 in bit_and reg 0xf + bit_and (reg >>> 5) 0x10

-- `get_K_8` and `get_K_6` return a `byte`.
unfoldable pub get_k_8 : ℕ → ℕ
get_k_8 opcode = let k = bit_and opcode mask_const_8 in u8 (bit_and (k >>> 4) 0xf0 + bit_and k 0xf)

unfoldable pub get_k_6 : ℕ → ℕ
get_k_6 opcode =
    let k = bit_and opcode mask_const_6 in u8 (bit_and (k >>> 2) 0x0030 + bit_and k 0xf)

unfoldable pub get_k_7 : ℕ → ℕ
get_k_7 opcode = bit_and (bit_and opcode mask_k_7 >>> 3) 0x7f

unfoldable pub get_k_12 : ℕ → ℕ
get_k_12 opcode = bit_and opcode mask_k_12

unfoldable pub get_k_22 : ℕ → ℕ
get_k_22 opcode = let k = bit_and opcode mask_k_22 in bit_and (k >>> 3) 0x003e + bit_and k 0x1

unfoldable pub get_reg_bit : ℕ → ℕ
get_reg_bit opcode = bit_and opcode mask_reg_bit

unfoldable pub get_sreg_bit : ℕ → ℕ
get_sreg_bit opcode = bit_and opcode mask_sreg_bit >>> 4

unfoldable pub get_q : ℕ → ℕ
get_q opcode =
    let q = bit_and opcode mask_q_displ in
    let qq = (bit_and (q >>> 1) 0x1000 + bit_and q 0x0c00) >>> 7 in
    bit_and qq 0x0038 + bit_and q 0x7

unfoldable pub get_a_5 : ℕ → ℕ
get_a_5 opcode = bit_and opcode mask_a_5 >>> 3

unfoldable pub get_a_6 : ℕ → ℕ
get_a_6 opcode = let a = bit_and opcode mask_a_6 in bit_and (a >>> 5) 0x0030 + bit_and a 0xf
