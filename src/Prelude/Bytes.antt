-- ===== src/Prelude/Bytes.antt =====
-- Byte strings: `&[u8]`, `Vec<u8>`, `Bytes` and the fixed arrays behind `Id`, `Salt` and `Hash` of
-- hashiverse-rust/hashiverse-lib/src/tools/types.rs, as lists of numbers below 256.
use Prim.Native.Nat.{ℕ, zero, suc, ◌+◌, ◌*◌, ◌/◌, ◌%◌, ◌^◌, ◌<◌}
use mathlib.Core.Path.{◌≡◌, refl, ◌∙◌}
use mathlib.Core.Bool.{Bool, true, false, ◌&&◌}
use mathlib.Core.Logic.{◌↔◌}
use mathlib.Core.List.{List, [], ◌∷◌, ◌++◌}
use native.Mathlib.Omega.{arith}
use native.Mathlib.Nat.{pow-suc}
use hashiverse.Prelude.Tests.{◌==◌}
use hashiverse.Prelude.Lists.{length, length-append}

module _ {ℓ κ} {A : Type ℓ} (P : A → Type κ) where
  abbrev pub All : List A → Type κ
  All [] = Unit
  All (a ∷ rest) = P a × All rest

  pub All-append : (front back : List A) → All front → All back → All (front ++ back)
  All-append [] back _ there = there
  All-append (a ∷ front) back here there = (here.0, All-append front back here.1 there)

abbrev pub IsByte : ℕ → Type 0
IsByte b = b < 256

-- Equality of two byte strings, `==` on slices and on identifiers.
unfoldable pub bytes_eq : List ℕ → List ℕ → Bool
bytes_eq [] [] = true
bytes_eq [] (y ∷ ys) = false
bytes_eq (x ∷ xs) [] = false
bytes_eq (x ∷ xs) (y ∷ ys) = (x == y) && bytes_eq xs ys

bytes_eq→eq : (xs ys : List ℕ) → bytes_eq xs ys ≡ true → xs ≡ ys
unfolding bytes_eq
bytes_eq→eq [] [] h = refl
bytes_eq→eq [] (y ∷ ys) h = cc
bytes_eq→eq (x ∷ xs) [] h = cc
bytes_eq→eq (x ∷ xs) (y ∷ ys) h = ground (arith, bytes_eq→eq xs ys)

pub bytes_eq_refl : (xs : List ℕ) → bytes_eq xs xs ≡ true
unfolding bytes_eq
bytes_eq_refl [] = refl
bytes_eq_refl (x ∷ xs) = ground (arith, bytes_eq_refl xs)

pub bytes_eq_iff : (xs ys : List ℕ) → (bytes_eq xs ys ≡ true) ↔ (xs ≡ ys)
bytes_eq_iff xs ys = (bytes_eq→eq xs ys, λ e. rw e (bytes_eq_refl ys))

-- `to_be_bytes` on `k` bytes, highest first, and `from_be_bytes`.
unfoldable pub to_be_bytes : ℕ → ℕ → List ℕ
to_be_bytes zero n = []
to_be_bytes (suc k) n = to_be_bytes k (n / 256) ++ n % 256 ∷ []

unfoldable pub from_be_bytes_loop : ℕ → List ℕ → ℕ
from_be_bytes_loop acc [] = acc
from_be_bytes_loop acc (b ∷ bs) = from_be_bytes_loop (acc * 256 + b) bs

unfoldable pub from_be_bytes : List ℕ → ℕ
unfolding from_be_bytes_loop
from_be_bytes = from_be_bytes_loop 0

from_be_bytes_loop-append :
    (acc : ℕ) (xs ys : List ℕ)
    → from_be_bytes_loop acc (xs ++ ys) ≡ from_be_bytes_loop (from_be_bytes_loop acc xs) ys
unfolding from_be_bytes_loop
from_be_bytes_loop-append acc [] ys = refl
from_be_bytes_loop-append acc (x ∷ xs) ys = from_be_bytes_loop-append (acc * 256 + x) xs ys

pub length-to_be_bytes : (k n : ℕ) → length (to_be_bytes k n) ≡ k
unfolding to_be_bytes
length-to_be_bytes zero n = refl
length-to_be_bytes (suc k) n =
    omega (
      arith,
      length-append (to_be_bytes k (n / 256)) (n % 256 ∷ []),
      length-to_be_bytes k (n / 256),
    )

pub to_be_bytes-IsByte : (k n : ℕ) → All IsByte (to_be_bytes k n)
unfolding to_be_bytes
to_be_bytes-IsByte zero n = tt
to_be_bytes-IsByte (suc k) n =
    All-append IsByte (to_be_bytes k (n / 256)) _ (to_be_bytes-IsByte k (n / 256)) (omega arith)

-- Decoding eight bytes gives back every `u64`.
pub from_be_bytes-to_be_bytes : (k n : ℕ) → n < 256 ^ k → from_be_bytes (to_be_bytes k n) ≡ n
unfolding from_be_bytes to_be_bytes
from_be_bytes-to_be_bytes zero n h = omega arith
from_be_bytes-to_be_bytes (suc k) n h =
    let ih = from_be_bytes-to_be_bytes k (n / 256) (omega (arith, pow-suc 256 k)) in
    from_be_bytes_loop-append 0 (to_be_bytes k (n / 256)) (n % 256 ∷ []) ∙ omega (arith, ih)
