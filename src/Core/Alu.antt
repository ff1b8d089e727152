-- ===== src/Core/Alu.antt =====
-- The flags that arithmetic sets: the static functions `get_add_carry` to `get_compare_overflow` of
-- src/decoder.cpp, and the assignments to `status` that the instructions share. A single bit of the
-- source, `res >> b & 0x1` or its complement under `&`, is a Bool.
pub mod Add
pub mod Sub
use simulavr.Prelude.{ℕ, ◌/◌, ◌%◌, ◌^◌, Bool, true, false, not, ◌&&◌, ◌||◌, xor, ◌==◌}
use simulavr.Prelude.Bits.{◌>>>◌}
use simulavr.Sreg.{Sreg}

-- `x >> b & 0x1`.
abbrev pub bit_at : ℕ → ℕ → Bool
bit_at x b = (x >>> b) % 2 == 1

unfoldable pub get_add_carry : ℕ → ℕ → ℕ → ℕ → Bool
get_add_carry res rd rr b =
    let resb = bit_at res b in
    let rdb = bit_at rd b in
    let rrb = bit_at rr b in (rdb && rrb) || (rrb && not resb) || (not resb && rdb)

unfoldable pub get_add_overflow : ℕ → ℕ → ℕ → Bool
get_add_overflow res rd rr =
    let res7 = bit_at res 7 in
    let rd7 = bit_at rd 7 in
    let rr7 = bit_at rr 7 in (rd7 && rr7 && not res7) || (not rd7 && not rr7 && res7)

unfoldable pub get_sub_carry : ℕ → ℕ → ℕ → ℕ → Bool
get_sub_carry res rd rr b =
    let resb = bit_at res b in
    let rdb = bit_at rd b in
    let rrb = bit_at rr b in (not rdb && rrb) || (rrb && resb) || (resb && not rdb)

unfoldable pub get_sub_overflow : ℕ → ℕ → ℕ → Bool
get_sub_overflow res rd rr =
    let res7 = bit_at res 7 in
    let rd7 = bit_at rd 7 in
    let rr7 = bit_at rr 7 in (rd7 && not rr7 && not res7) || (not rd7 && rr7 && res7)

unfoldable pub get_compare_carry : ℕ → ℕ → ℕ → ℕ → Bool
get_compare_carry res rd rr b =
    let resb = bit_at res b in
    let rdb = bit_at rd b in
    let rrb = bit_at rr b in (not rdb && rrb) || (rrb && resb) || (resb && not rdb)

unfoldable pub get_compare_overflow : ℕ → ℕ → ℕ → Bool
get_compare_overflow res rd rr =
    let res7 = bit_at res 7 in
    let rd7 = bit_at rd 7 in
    let rr7 = bit_at rr 7 in (rd7 && not rr7 && not res7) || (not rd7 && rr7 && res7)

-- `N`, `S` and `Z` after a result of 8 bits, with the overflow that `S` takes into account.
abbrev pub result_flags : Sreg → ℕ → Bool → Sreg
result_flags st res overflow =
    let negative = bit_at res 7 in
    record st { v = overflow; n = negative; s = xor negative overflow; z = res == 0 }

-- ADD and ADC.
unfoldable pub add_status : Sreg → ℕ → ℕ → ℕ → Sreg
unfolding get_add_carry get_add_overflow
add_status st res rd rr =
    let st' = result_flags st res (get_add_overflow res rd rr) in
    record st' { h = get_add_carry res rd rr 3; c = get_add_carry res rd rr 7 }

-- SUB and SUBI.
unfoldable pub sub_status : Sreg → ℕ → ℕ → ℕ → Sreg
unfolding get_sub_carry get_sub_overflow
sub_status st res rd rr =
    let st' = result_flags st res (get_sub_overflow res rd rr) in
    record st' { h = get_sub_carry res rd rr 3; c = get_sub_carry res rd rr 7 }

-- CP and CPI.
unfoldable pub compare_status : Sreg → ℕ → ℕ → ℕ → Sreg
unfolding get_compare_carry get_compare_overflow
compare_status st res rd rr =
    let st' = result_flags st res (get_compare_overflow res rd rr) in
    record st' { h = get_compare_carry res rd rr 3; c = get_compare_carry res rd rr 7 }
