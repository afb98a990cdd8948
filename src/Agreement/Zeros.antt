-- ===== src/Agreement/Zeros.antt =====
-- `count_leading_zero_bits`, the measure of a proof of work, against the metric.
use hashiverse.Prelude.{
  ℕ, zero, suc, ◌+◌, ◌/◌, ◌≡◌, min, arith, List, [], ◌∷◌, length, replicate, All, IsByte,
}
use hashiverse.Agreement.{
  leading_agreement_bits_xor, count_leading_zero_bits, count_zero_bits_loop, mask_loop,
}
use hashiverse.Agreement.Bits.{byte_bits, bits, shared, shared-append, length-byte_bits}
use hashiverse.Agreement.Laws.{leading_agreement_bits_xor-shared}
use hashiverse.Agreement.Tables.{mask_loop_lem, zero-byte}

mask_loop-add :
    (rounds byte mask count : ℕ)
    → mask_loop rounds byte mask count ≡ count + mask_loop rounds byte mask 0
unfolding mask_loop
mask_loop-add zero byte mask count = omega arith
mask_loop-add (suc rounds) byte mask count = ground (
  arith,
  mask_loop-add rounds byte (mask / 2) (count + 1),
  mask_loop-add rounds byte (mask / 2) 1,
)

count_zero_bits_loop-shared :
    (count : ℕ) (bytes : List ℕ)
    → All IsByte bytes
    → count_zero_bits_loop count bytes
      ≡ count + shared (bits bytes) (bits (replicate (length bytes) 0))
unfolding count_zero_bits_loop bits
count_zero_bits_loop-shared count [] h = unfold shared in omega arith
count_zero_bits_loop-shared count (x ∷ bytes) h = ground (
  arith,
  mask_loop-add 8 x 0x80 count,
  mask_loop_lem x h.0,
  zero-byte x h.0,
  length-byte_bits x,
  length-byte_bits 0,
  shared-append (byte_bits x) (byte_bits 0) (bits bytes) (bits (replicate (length bytes) 0)),
  count_zero_bits_loop-shared (count + 8) bytes h.1,
)

replicate-IsByte : (n : ℕ) → All IsByte (replicate n 0)
replicate-IsByte zero = tt
replicate-IsByte (suc n) = (omega arith, replicate-IsByte n)

-- On byte strings `count_leading_zero_bits` is the agreement with the zero string of the same
-- length, cut off at 255.
pub count_leading_zero_bits_lem :
    (bytes : List ℕ)
    → All IsByte bytes
    → count_leading_zero_bits bytes
      ≡ min 255 (leading_agreement_bits_xor bytes (replicate (length bytes) 0))
unfolding count_leading_zero_bits
count_leading_zero_bits_lem bytes h = ground (
  arith,
  leading_agreement_bits_xor-shared bytes (replicate (length bytes) 0) h
      (replicate-IsByte (length bytes)),
  count_zero_bits_loop-shared 0 bytes h,
)
