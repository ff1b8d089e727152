-- ===== src/Periph/Fuses.antt =====
-- Fuses and lock bits: `AvrFuses` and `AvrLockBits` (src/flashprog.h, src/flashprog.cpp).
pub mod Boot
use simulavr.Prelude.{ℕ, zero, suc, ◌+◌, ◌-◌, ◌*◌, ◌/◌, ◌%◌, ◌^◌, bit_and, bit_or}
use simulavr.Prelude.{Bool, true, false, not, ◌==◌, ltb, if◌then◌else◌, Option, none, some}
use simulavr.Prelude.Bits.{◌<<<◌, ◌>>>◌, u8}

-- A bit position of -1 is `none`. `fuse_bits` is an `unsigned long` of 64 bits.
pub record AvrFuses : Type 0 where
  pub fuse_bits_size : ℕ
  pub fuse_bits : ℕ
  pub nrww_addr : ℕ
  pub nrww_size : ℕ
  pub bit_pos_bootsz : Option ℕ
  pub bit_pos_bootrst : Option ℕ
  pub flag_bootrst : Bool
  pub value_bootsz : ℕ

-- The constructor.
unfoldable pub create : AvrFuses
create = record {
  fuse_bits_size = 2;
  fuse_bits = 0xffff_fffd;
  nrww_addr = 0;
  nrww_size = 0;
  bit_pos_bootsz = none;
  bit_pos_bootrst = none;
  flag_bootrst = true;
  value_bootsz = 0;
}

-- `SetFuseConfiguration`.
unfoldable pub set_fuse_configuration : ℕ → ℕ → AvrFuses → AvrFuses
set_fuse_configuration size defvalue f = record f { fuse_bits_size = size; fuse_bits = defvalue }

-- The loop of `LoadFuses`, over the bytes from the last to the first.
unfoldable pub collect : (ℕ → ℕ) → ℕ → ℕ → ℕ
collect buffer zero bits = bits
collect buffer (suc i) bits = collect buffer i (bit_or ((bits <<< 8) % 2 ^ 64) (buffer i))

-- What the bit at a position in the fuses sets.
unfoldable pub field_of : Option ℕ → ℕ → ℕ → ℕ → ℕ → ℕ
field_of none size bits mask old = old
field_of (some pos) size bits mask old = if ltb pos size then bit_and (bits >>> pos) mask else old

abbrev flag : Bool → ℕ
flag true = 1
flag false = 0

-- `LoadFuses`, for fuses of at least one bit: whether the size is right, and the fuses.
unfoldable pub load_fuses : (ℕ → ℕ) → ℕ → AvrFuses → Bool × AvrFuses
load_fuses buffer size f =
    let f_size = (f.fuse_bits_size - 1) / 8 + 1 in
    let bits = collect buffer f_size 0 in
    let rst = field_of f.bit_pos_bootrst f.fuse_bits_size bits 0x1 (flag f.flag_bootrst) in
    if f_size == size
    then (
      true,
      record f {
        fuse_bits = bits;
        flag_bootrst = rst == 1;
        value_bootsz = field_of f.bit_pos_bootsz f.fuse_bits_size bits 0x3 f.value_bootsz;
      },
    )
    else (false, f)

-- `SetBootloaderConfig`.
unfoldable pub set_bootloader_config : ℕ → ℕ → Option ℕ → Option ℕ → AvrFuses → AvrFuses
set_bootloader_config addr size bootsz bootrst f = record f {
  nrww_addr = addr;
  nrww_size = size;
  bit_pos_bootsz = bootsz;
  bit_pos_bootrst = bootrst;
}

-- `GetBLSStart`, without the wrap-around of an address of 32 bits.
unfoldable pub get_bls_start : AvrFuses → ℕ
get_bls_start f =
    let addr = f.nrww_addr in
    let half = f.nrww_size >>> 1 in
    let quarter = half >>> 1 in
    let eighth = quarter >>> 1 in
    if addr == 0
    then 0
    else if f.value_bootsz == 0
    then addr
    else if f.value_bootsz == 1
    then addr + half
    else if f.value_bootsz == 2
    then addr + half + quarter
    else addr + half + quarter + eighth

-- `GetResetAddr`.
unfoldable pub get_reset_addr : AvrFuses → ℕ
get_reset_addr f = if f.flag_bootrst then 0 else get_bls_start f

-- `GetFuseByte`, `GetFuseBit` and `GetFuseByteSize`.
unfoldable pub get_fuse_byte : ℕ → AvrFuses → ℕ
get_fuse_byte index f = bit_and (f.fuse_bits >>> (index * 8)) 0xff

unfoldable pub get_fuse_bit : ℕ → AvrFuses → Bool
get_fuse_bit index f = bit_and (f.fuse_bits >>> index) 0x1 == 0

unfoldable pub get_fuse_byte_size : AvrFuses → ℕ
get_fuse_byte_size f = f.fuse_bits_size / 8 + 1

pub record AvrLockBits : Type 0 where
  pub lock_bits_size : ℕ
  pub lock_bits : ℕ

-- `SetLockBitsConfiguration`.
unfoldable pub set_lock_bits_configuration : ℕ → AvrLockBits → AvrLockBits
set_lock_bits_configuration size l = record l { lock_bits_size = size }

-- `LoadLockBits`.
unfoldable pub load_lock_bits : (ℕ → ℕ) → ℕ → AvrLockBits → Bool × AvrLockBits
load_lock_bits buffer size l =
    if size == 1 then (true, record l { lock_bits = buffer 0 }) else (false, l)

-- `SetLockBits`: the unused bits of the byte, from `lockBitsSize` on, are set.
unfoldable pub set_lock_bits : ℕ → AvrLockBits → AvrLockBits
set_lock_bits bits l = record l {
  lock_bits = u8 (bit_or (bit_and l.lock_bits bits) (0x1_0000_0000 - 2 ^ l.lock_bits_size));
}
