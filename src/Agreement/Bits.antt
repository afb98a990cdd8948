-- ===== src/Agreement/Bits.antt =====
-- Byte strings as strings of bits, highest bit first: what the metric is about.
use hashiverse.Prelude.{
  ℕ, suc, ◌+◌, ◌*◌, ◌/◌, ◌%◌, ◌≤◌, ◌<◌, ◌≡◌, refl, min, arith, Bool, true, false, ◌==◌, ap,
  if◌then◌else◌, List, [], ◌∷◌, ◌++◌, length,
}

-- The eight bits of a byte.
unfoldable pub byte_bits : ℕ → List Bool
byte_bits b =
    (b / 128 == 1)
    ∷ (b / 64 % 2 == 1)
    ∷ (b / 32 % 2 == 1)
    ∷ (b / 16 % 2 == 1)
    ∷ (b / 8 % 2 == 1)
    ∷ (b / 4 % 2 == 1)
    ∷ (b / 2 % 2 == 1)
    ∷ (b % 2 == 1)
    ∷ []

unfoldable pub bits : List ℕ → List Bool
bits [] = []
bits (b ∷ bs) = byte_bits b ++ bits bs

-- How many bits two bit strings share at the front.
unfoldable pub shared : List Bool → List Bool → ℕ
shared [] ys = 0
shared (x ∷ xs) [] = 0
shared (true ∷ xs) (true ∷ ys) = suc (shared xs ys)
shared (false ∷ xs) (false ∷ ys) = suc (shared xs ys)
shared (true ∷ xs) (false ∷ ys) = 0
shared (false ∷ xs) (true ∷ ys) = 0

pub length-byte_bits : (b : ℕ) → length (byte_bits b) ≡ 8
unfolding byte_bits
length-byte_bits b = refl

pub length-bits : (bs : List ℕ) → length (bits bs) ≡ 8 * length bs
unfolding bits byte_bits
length-bits [] = refl
length-bits (b ∷ bs) = omega (arith, length-bits bs)

pub shared_comm : (xs ys : List Bool) → shared xs ys ≡ shared ys xs
unfolding shared
shared_comm [] [] = refl
shared_comm [] (y ∷ ys) = refl
shared_comm (x ∷ xs) [] = refl
shared_comm (true ∷ xs) (true ∷ ys) = ap suc (shared_comm xs ys)
shared_comm (false ∷ xs) (false ∷ ys) = ap suc (shared_comm xs ys)
shared_comm (true ∷ xs) (false ∷ ys) = refl
shared_comm (false ∷ xs) (true ∷ ys) = refl

pub shared_self : (xs : List Bool) → shared xs xs ≡ length xs
unfolding shared
shared_self [] = refl
shared_self (true ∷ xs) = ap suc (shared_self xs)
shared_self (false ∷ xs) = ap suc (shared_self xs)

pub shared-le-length : (xs ys : List Bool) → shared xs ys ≤ length xs
unfolding shared
shared-le-length [] ys = omega arith
shared-le-length (x ∷ xs) [] = omega arith
shared-le-length (true ∷ xs) (true ∷ ys) = omega (arith, shared-le-length xs ys)
shared-le-length (false ∷ xs) (false ∷ ys) = omega (arith, shared-le-length xs ys)
shared-le-length (true ∷ xs) (false ∷ ys) = omega arith
shared-le-length (false ∷ xs) (true ∷ ys) = omega arith

-- The strong triangle inequality.
pub shared_ultra : (xs ys zs : List Bool) → min (shared xs ys) (shared ys zs) ≤ shared xs zs
unfolding shared
shared_ultra [] ys zs = omega arith
shared_ultra (x ∷ xs) [] zs = omega arith
shared_ultra (x ∷ xs) (y ∷ ys) [] = ground arith
shared_ultra (x ∷ xs) (y ∷ ys) (z ∷ zs) = ground (arith, shared_ultra xs ys zs)

-- Two strings that leave a third at the same bit agree on that bit.
pub shared_split :
    (xs ys zs : List Bool)
    → shared xs ys ≡ shared xs zs
    → shared xs ys < length xs
    → shared xs ys < length ys
    → shared xs ys < length zs
    → shared xs ys < shared ys zs
unfolding shared
shared_split [] ys zs e hx hy hz = absurd (omega arith)
shared_split (x ∷ xs) [] zs e hx hy hz = absurd (omega arith)
shared_split (x ∷ xs) (y ∷ ys) [] e hx hy hz = absurd (omega arith)
shared_split (x ∷ xs) (y ∷ ys) (z ∷ zs) e hx hy hz = ground (arith, shared_split xs ys zs)

pub shared-append :
    (xs ys us vs : List Bool)
    → length xs ≡ length ys
    → shared (xs ++ us) (ys ++ vs)
      ≡ (if shared xs ys == length xs then length xs + shared us vs else shared xs ys)
unfolding shared
shared-append [] [] us vs e = omega arith
shared-append [] (y ∷ ys) us vs e = absurd (omega arith)
shared-append (x ∷ xs) [] us vs e = absurd (omega arith)
shared-append (x ∷ xs) (y ∷ ys) us vs e = ground (arith, shared-append xs ys us vs (omega arith))

-- Strings of one length that share all their bits are equal.
pub eq_of_shared : (xs ys : List Bool) → length xs ≡ length ys → length xs ≤ shared xs ys → xs ≡ ys
unfolding shared
eq_of_shared [] [] e h = refl
eq_of_shared [] (y ∷ ys) e h = absurd (omega arith)
eq_of_shared (x ∷ xs) [] e h = absurd (omega arith)
eq_of_shared (x ∷ xs) (y ∷ ys) e h = ground (arith, eq_of_shared xs ys (omega arith))
