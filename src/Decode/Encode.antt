-- ===== src/Decode/Encode.antt =====
-- The opcode of an instruction, after the bit patterns in the comments of src/decoder.h.
use simulavr.Prelude.{ℕ, ◌+◌, ◌-◌, ◌*◌, ◌/◌, ◌%◌, Option, none, some, ◌==◌, if◌then◌else◌}
use simulavr.Prelude.{Bool, ◌||◌, bit_and}
use simulavr.Prelude.Int.{ℤ, pos, negsuc}
use simulavr.Decode.Instruction.{Instruction}

-- `xxxx xxrd dddd rrrr`.
two_registers : ℕ → ℕ → ℕ → ℕ
two_registers base d r = base + r / 16 * 512 + d * 16 + r % 16

-- `xxxx xxxd dddd xxxx`.
one_register : ℕ → ℕ → ℕ
one_register base d = base + d * 16

-- `xxxx KKKK dddd KKKK`.
immediate : ℕ → ℕ → ℕ → ℕ
immediate base d k = base + k / 16 * 256 + (d - 16) * 16 + k % 16

-- `xxxx xxxd dddd xbbb`.
register_bit : ℕ → ℕ → ℕ → ℕ
register_bit base d b = base + d * 16 + b

-- A number modulo `m`.
residue : ℕ → ℤ → ℕ
residue m (pos k) = k
residue m (negsuc k) = m - (k + 1)

-- The number of the bit that a mask selects.
bit_number : ℕ → ℕ
bit_number m =
    if m == 1
    then 0
    else if m == 2
    then 1
    else if m == 4
    then 2
    else if m == 8
    then 3
    else if m == 16
    then 4
    else if m == 32
    then 5
    else if m == 64
    then 6
    else 7

-- `xxxx xxkk kkkk kbbb`.
branch : ℕ → ℕ → ℤ → ℕ
unfolding residue bit_number
branch base m o = base + residue 128 o * 8 + bit_number m

-- `xxqx qqxd dddd xqqq`.
displaced : ℕ → ℕ → ℕ → ℕ
displaced base d q = base + q / 32 * 8192 + q / 8 % 4 * 1024 + d * 16 + q % 8

-- `xxxx xxxk kkkk xxxk`, with the high bits of the address.
absolute : ℕ → ℕ → ℕ
absolute base k = base + k / 2 * 16 + k % 2

-- `xxxx xxxx xsss xxxx`.
sreg_bit : ℕ → ℕ → ℕ
sreg_bit base b = base + b * 16

-- `xxxx xxxx KKdd KKKK`.
word_immediate : ℕ → ℕ → ℕ → ℕ
word_immediate base d k = base + k / 16 * 64 + (d - 24) / 2 * 16 + k % 16

-- `xxxx xxxx AAAA Abbb`.
io_bit : ℕ → ℕ → ℕ → ℕ
io_bit base a b = base + a * 8 + b

-- `xxxx xAAd dddd AAAA`.
io_register : ℕ → ℕ → ℕ → ℕ
io_register base a d = base + a / 16 * 512 + d * 16 + a % 16

-- `xxxx kkkk kkkk kkkk`.
relative : ℕ → ℤ → ℕ
unfolding residue
relative base k = base + residue 4096 k

-- `xxxx xxxx dddd rrrr`, registers from R16 on.
upper_registers : ℕ → ℕ → ℕ → ℕ
upper_registers base d r = base + (d - 16) * 16 + (r - 16)

-- `none`: there is no opcode of `avr_op_ILLEGAL`.
unfoldable pub encode : Instruction → Option ℕ
unfolding two_registers one_register immediate register_bit branch displaced absolute sreg_bit
    word_immediate io_bit io_register relative upper_registers
encode (Instruction.avr_op_adc d r) = some (two_registers 0x1c00 d r)
encode (Instruction.avr_op_add d r) = some (two_registers 0x0c00 d r)
encode (Instruction.avr_op_adiw d _ k) = some (word_immediate 0x9600 d k)
encode (Instruction.avr_op_and d r) = some (two_registers 0x2000 d r)
encode (Instruction.avr_op_andi d k) = some (immediate 0x7000 d k)
encode (Instruction.avr_op_asr d) = some (one_register 0x9405 d)
encode (Instruction.avr_op_bclr b) = some (sreg_bit 0x9488 b)
encode (Instruction.avr_op_bld d b) = some (register_bit 0xf800 d b)
encode (Instruction.avr_op_brbc m o) = some (branch 0xf400 m o)
encode (Instruction.avr_op_brbs m o) = some (branch 0xf000 m o)
encode (Instruction.avr_op_bset b) = some (sreg_bit 0x9408 b)
encode (Instruction.avr_op_bst d b) = some (register_bit 0xfa00 d b)
encode (Instruction.avr_op_call k) = some (absolute 0x940e k)
encode (Instruction.avr_op_cbi a b) = some (io_bit 0x9800 a b)
encode (Instruction.avr_op_com d) = some (one_register 0x9400 d)
encode (Instruction.avr_op_cp d r) = some (two_registers 0x1400 d r)
encode (Instruction.avr_op_cpc d r) = some (two_registers 0x0400 d r)
encode (Instruction.avr_op_cpi d k) = some (immediate 0x3000 d k)
encode (Instruction.avr_op_cpse d r) = some (two_registers 0x1000 d r)
encode (Instruction.avr_op_dec d) = some (one_register 0x940a d)
encode Instruction.avr_op_eicall = some (0x9519)
encode Instruction.avr_op_eijmp = some (0x9419)
encode (Instruction.avr_op_elpm_z d) = some (one_register 0x9006 d)
encode (Instruction.avr_op_elpm_z_incr d) = some (one_register 0x9007 d)
encode Instruction.avr_op_elpm = some (0x95d8)
encode (Instruction.avr_op_eor d r) = some (two_registers 0x2400 d r)
encode Instruction.avr_op_espm = some (0x95f8)
encode (Instruction.avr_op_fmul d r) = some (upper_registers 0x0308 d r)
encode (Instruction.avr_op_fmuls d r) = some (upper_registers 0x0380 d r)
encode (Instruction.avr_op_fmulsu d r) = some (upper_registers 0x0388 d r)
encode Instruction.avr_op_icall = some (0x9509)
encode Instruction.avr_op_ijmp = some (0x9409)
encode (Instruction.avr_op_in d a) = some (io_register 0xb000 a d)
encode (Instruction.avr_op_inc d) = some (one_register 0x9403 d)
encode (Instruction.avr_op_jmp k) = some (absolute 0x940c k)
encode (Instruction.avr_op_ldd_y d q) = some (displaced 0x8008 d q)
encode (Instruction.avr_op_ldd_z d q) = some (displaced 0x8000 d q)
encode (Instruction.avr_op_ldi d k) = some (immediate 0xe000 d k)
encode (Instruction.avr_op_lds d) = some (one_register 0x9000 d)
encode (Instruction.avr_op_ld_x d) = some (one_register 0x900c d)
encode (Instruction.avr_op_ld_x_decr d) = some (one_register 0x900e d)
encode (Instruction.avr_op_ld_x_incr d) = some (one_register 0x900d d)
encode (Instruction.avr_op_ld_y_decr d) = some (one_register 0x900a d)
encode (Instruction.avr_op_ld_y_incr d) = some (one_register 0x9009 d)
encode (Instruction.avr_op_ld_z_incr d) = some (one_register 0x9001 d)
encode (Instruction.avr_op_ld_z_decr d) = some (one_register 0x9002 d)
encode (Instruction.avr_op_lpm_z d) = some (one_register 0x9004 d)
encode Instruction.avr_op_lpm = some (0x95c8)
encode (Instruction.avr_op_lpm_z_incr d) = some (one_register 0x9005 d)
encode (Instruction.avr_op_lsr d) = some (one_register 0x9406 d)
encode (Instruction.avr_op_mov d r) = some (two_registers 0x2c00 d r)
encode (Instruction.avr_op_movw d r) = some (0x0100 + d / 2 * 16 + r / 2)
encode (Instruction.avr_op_mul d r) = some (two_registers 0x9c00 d r)
encode (Instruction.avr_op_muls d r) = some (upper_registers 0x0200 d r)
encode (Instruction.avr_op_mulsu d r) = some (upper_registers 0x0300 d r)
encode (Instruction.avr_op_neg d) = some (one_register 0x9401 d)
encode Instruction.avr_op_nop = some (0x0000)
encode (Instruction.avr_op_or d r) = some (two_registers 0x2800 d r)
encode (Instruction.avr_op_ori d k) = some (immediate 0x6000 d k)
encode (Instruction.avr_op_out a d) = some (io_register 0xb800 a d)
encode (Instruction.avr_op_pop d) = some (one_register 0x900f d)
encode (Instruction.avr_op_push d) = some (one_register 0x920f d)
encode (Instruction.avr_op_rcall k) = some (relative 0xd000 k)
encode Instruction.avr_op_ret = some (0x9508)
encode Instruction.avr_op_reti = some (0x9518)
encode (Instruction.avr_op_rjmp k) = some (relative 0xc000 k)
encode (Instruction.avr_op_ror d) = some (one_register 0x9407 d)
encode (Instruction.avr_op_sbc d r) = some (two_registers 0x0800 d r)
encode (Instruction.avr_op_sbci d k) = some (immediate 0x4000 d k)
encode (Instruction.avr_op_sbi a b) = some (io_bit 0x9a00 a b)
encode (Instruction.avr_op_sbic a b) = some (io_bit 0x9900 a b)
encode (Instruction.avr_op_sbis a b) = some (io_bit 0x9b00 a b)
encode (Instruction.avr_op_sbiw d k) = some (word_immediate 0x9700 d k)
encode (Instruction.avr_op_sbrc d b) = some (register_bit 0xfc00 d b)
encode (Instruction.avr_op_sbrs d b) = some (register_bit 0xfe00 d b)
encode Instruction.avr_op_sleep = some (0x9588)
encode Instruction.avr_op_spm = some (0x95e8)
encode (Instruction.avr_op_std_y d q) = some (displaced 0x8208 d q)
encode (Instruction.avr_op_std_z d q) = some (displaced 0x8200 d q)
encode (Instruction.avr_op_sts d) = some (one_register 0x9200 d)
encode (Instruction.avr_op_st_x d) = some (one_register 0x920c d)
encode (Instruction.avr_op_st_x_decr d) = some (one_register 0x920e d)
encode (Instruction.avr_op_st_x_incr d) = some (one_register 0x920d d)
encode (Instruction.avr_op_st_y_decr d) = some (one_register 0x920a d)
encode (Instruction.avr_op_st_y_incr d) = some (one_register 0x9209 d)
encode (Instruction.avr_op_st_z_decr d) = some (one_register 0x9202 d)
encode (Instruction.avr_op_st_z_incr d) = some (one_register 0x9201 d)
encode (Instruction.avr_op_sub d r) = some (two_registers 0x1800 d r)
encode (Instruction.avr_op_subi d k) = some (immediate 0x5000 d k)
encode (Instruction.avr_op_swap d) = some (one_register 0x9402 d)
encode Instruction.avr_op_wdr = some (0x95a8)
encode Instruction.avr_op_break = some (0x9598)
encode Instruction.avr_op_illegal = none

-- The opcodes that the next word belongs to: `1001 00xd dddd 0000` of LDS and STS, and
-- `1001 010k kkkk 11xk` of JMP and CALL.
abbrev pub has_two_words : ℕ → Bool
has_two_words opcode = (bit_and opcode 0xfc0f == 0x9000) || (bit_and opcode 0xfe0c == 0x940c)
