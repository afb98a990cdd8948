-- ===== src/Agreement.antt =====
-- The XOR metric of the DHT: `leading_agreement_bits_xor` and `count_leading_zero_bits` of
-- hashiverse-rust/hashiverse-lib/src/tools/tools.rs.
pub mod Bits
mod Tables
pub mod Laws
pub mod Zeros
mod Examples
use Prim.Native.Nat.{bit_and, bit_xor}
use hashiverse.Prelude.{ℕ, zero, suc, ◌+◌, ◌/◌, ltb, ◌==◌, if◌then◌else◌, List, [], ◌∷◌}

-- `u8::leading_zeros`.
unfoldable pub leading_zeros : ℕ → ℕ
leading_zeros x =
    if ltb x 1
    then 8
    else if ltb x 2
    then 7
    else if ltb x 4
    then 6
    else if ltb x 8
    then 5
    else if ltb x 16
    then 4
    else if ltb x 32
    then 3
    else if ltb x 64
    then 2
    else if ltb x 128
    then 1
    else 0

-- The loop over `0..min_len`: it ends with the shorter key. The count is at most 256, so `i32` holds.
leading_agreement_bits_loop : ℕ → List ℕ → List ℕ → ℕ
leading_agreement_bits_loop count [] ys = count
leading_agreement_bits_loop count (x ∷ xs) [] = count
leading_agreement_bits_loop count (x ∷ xs) (y ∷ ys) =
    let xor = bit_xor x y in
    let rest = leading_agreement_bits_loop (count + 8) xs ys in
    if xor == 0 then rest else count + leading_zeros xor

-- The count of the source is an `i32`: the two agree on strings of fewer than 2 ^ 28 bytes, and
-- identifiers have 32.
unfoldable pub leading_agreement_bits_xor : List ℕ → List ℕ → ℕ
unfolding leading_agreement_bits_loop leading_zeros
leading_agreement_bits_xor key1 key2 = leading_agreement_bits_loop 0 key1 key2

-- `while byte & mask == 0 { count += 1; mask >>= 1; }`. A byte that is not zero has one of eight
-- bits set, so eight rounds are enough.
pub mask_loop : ℕ → ℕ → ℕ → ℕ → ℕ
mask_loop zero byte mask count = count
mask_loop (suc rounds) byte mask count =
    let rest = mask_loop rounds byte (mask / 2) (count + 1) in
    if bit_and byte mask == 0 then rest else count

count_zero_bits_loop : ℕ → List ℕ → ℕ
count_zero_bits_loop count [] = count
count_zero_bits_loop count (byte ∷ bytes) =
    let rest = count_zero_bits_loop (count + 8) bytes in
    if byte == 0 then rest else mask_loop 8 byte 0x80 count

unfoldable pub count_leading_zero_bits : List ℕ → ℕ
unfolding count_zero_bits_loop mask_loop
count_leading_zero_bits bytes =
    let count = count_zero_bits_loop 0 bytes in if ltb count 256 then count else 255
