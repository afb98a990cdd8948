-- ===== src/Agreement/Laws.antt =====
-- The metric laws of `leading_agreement_bits_xor`.
use Prim.Native.Nat.{bit_xor}
use hashiverse.Prelude.{
  ℕ, ◌+◌, ◌*◌, ◌≤◌, ◌<◌, ◌≡◌, refl, ◌∙◌, min, arith, List, [], ◌∷◌, length, All, IsByte,
}
use hashiverse.Agreement.{leading_agreement_bits_xor, leading_agreement_bits_loop}
use hashiverse.Agreement.Bits.{
  byte_bits, bits, shared, shared-append, shared_comm, shared_self, shared_ultra, shared_split,
  shared-le-length, length-bits, length-byte_bits, eq_of_shared,
}
use hashiverse.Agreement.Tables.{leading_zeros-bit_xor, leading_zeros-eq-8, byte_bits-injective}

loop-shared :
    (count : ℕ) (xs ys : List ℕ)
    → All IsByte xs
    → All IsByte ys
    → leading_agreement_bits_loop count xs ys ≡ count + shared (bits xs) (bits ys)
unfolding leading_agreement_bits_loop bits
loop-shared count [] ys hx hy = unfold shared in omega arith
loop-shared count (x ∷ xs) [] hx hy = unfold shared byte_bits in omega arith
loop-shared count (x ∷ xs) (y ∷ ys) hx hy = ground (
  arith,
  leading_zeros-bit_xor x y,
  leading_zeros-eq-8 (bit_xor x y),
  length-byte_bits x,
  length-byte_bits y,
  shared-append (byte_bits x) (byte_bits y) (bits xs) (bits ys),
  loop-shared (count + 8) xs ys,
)

-- On byte strings `leading_agreement_bits_xor` is the length of the longest shared prefix of the
-- two strings of bits, highest bit of a byte first.
pub leading_agreement_bits_xor-shared :
    (xs ys : List ℕ)
    → All IsByte xs
    → All IsByte ys
    → leading_agreement_bits_xor xs ys ≡ shared (bits xs) (bits ys)
unfolding leading_agreement_bits_xor
leading_agreement_bits_xor-shared xs ys hx hy = loop-shared 0 xs ys hx hy ∙ omega arith

pub agreement_comm :
    (a b : List ℕ)
    → All IsByte a
    → All IsByte b
    → leading_agreement_bits_xor a b ≡ leading_agreement_bits_xor b a
agreement_comm a b ha hb =
    rw (leading_agreement_bits_xor-shared a b ha hb, leading_agreement_bits_xor-shared b a hb ha)
      (shared_comm (bits a) (bits b))

module _ (a b c : List ℕ) (ha : All IsByte a) (hb : All IsByte b) (hc : All IsByte c) where
  -- The strong triangle inequality: two byte strings agree on at least as many leading bits as the
  -- worse of them agrees with a third one.
  pub agreement_ultra :
      min (leading_agreement_bits_xor a b) (leading_agreement_bits_xor b c)
      ≤ leading_agreement_bits_xor a c
  agreement_ultra =
      rw
        (
          leading_agreement_bits_xor-shared a b ha hb,
          leading_agreement_bits_xor-shared b c hb hc,
          leading_agreement_bits_xor-shared a c ha hc,
        )
        (shared_ultra (bits a) (bits b) (bits c))

  -- If two byte strings as long as `a` agree with `a` on the same number of leading bits, and on not
  -- all bits, then they agree with each other on more.
  pub agreement_split :
      length a ≡ length b
      → length a ≡ length c
      → leading_agreement_bits_xor a b ≡ leading_agreement_bits_xor a c
      → leading_agreement_bits_xor a b < 8 * length a
      → leading_agreement_bits_xor a b < leading_agreement_bits_xor b c
  agreement_split eb ec e h = ground (
    arith,
    leading_agreement_bits_xor-shared a b ha hb,
    leading_agreement_bits_xor-shared a c ha hc,
    leading_agreement_bits_xor-shared b c hb hc,
    length-bits a,
    length-bits b,
    length-bits c,
    shared_split (bits a) (bits b) (bits c),
  )

pub agreement-le :
    (a b : List ℕ) → All IsByte a → All IsByte b → leading_agreement_bits_xor a b ≤ 8 * length a
agreement-le a b ha hb = omega (
  arith,
  leading_agreement_bits_xor-shared a b ha hb,
  shared-le-length (bits a) (bits b),
  length-bits a,
)

pub agreement_self : (a : List ℕ) → All IsByte a → leading_agreement_bits_xor a a ≡ 8 * length a
agreement_self a h =
    leading_agreement_bits_xor-shared a a h h ∙ shared_self (bits a) ∙ length-bits a

eq_of_bits :
    (a b : List ℕ)
    → All IsByte a
    → All IsByte b
    → length a ≡ length b
    → 8 * length a ≤ shared (bits a) (bits b)
    → a ≡ b
unfolding bits
eq_of_bits [] [] ha hb e h = refl
eq_of_bits [] (y ∷ b) ha hb e h = absurd (omega arith)
eq_of_bits (x ∷ a) [] ha hb e h = absurd (omega arith)
eq_of_bits (x ∷ a) (y ∷ b) ha hb e h = ground (
  arith,
  length-byte_bits x,
  length-byte_bits y,
  shared-append (byte_bits x) (byte_bits y) (bits a) (bits b),
  shared-le-length (byte_bits x) (byte_bits y),
  shared-le-length (bits a) (bits b),
  length-bits a,
  eq_of_shared (byte_bits x) (byte_bits y),
  byte_bits-injective x y,
  eq_of_bits a b,
)

-- Two byte strings of the same length that agree on all of their bits are equal.
pub eq_of_agreement :
    (a b : List ℕ)
    → All IsByte a
    → All IsByte b
    → length a ≡ length b
    → 8 * length a ≤ leading_agreement_bits_xor a b
    → a ≡ b
eq_of_agreement a b ha hb e h =
    eq_of_bits a b ha hb e (omega (arith, leading_agreement_bits_xor-shared a b ha hb))
