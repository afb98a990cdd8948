-- ===== src/Buffer.antt =====
-- Reading from a buffer: `from_buf` of hashiverse-rust/hashiverse-lib/src/tools/types.rs, and the
-- calls of `bytes::Buf` that the decoders make. A read of a buffer that is too short panics, which
-- is why the decoders ask for the remaining length first.
use hashiverse.Prelude.{
  ℕ, zero, suc, ◌+◌, ◌^◌, ◌<◌, ◌≡◌, refl, sym, ap, ap₂, ◌∙◌, arith, leb, leb→le, Bool-cases, inl,
  inr, List, [], ◌∷◌, ◌++◌, length, length-append, take, drop, take-append-drop, length-take,
  length-drop, NoPanic, ◌≤◌, ◌+◌, get_or, Error, truncated, Result, ok, panic, ◌>>◌, ◌>>=◌,
  >>=-eq-ok, ensure, from_be_bytes, to_be_bytes, length-to_be_bytes, from_be_bytes-to_be_bytes,
  if◌then◌else◌,
}

unfoldable pub get_u8 : List ℕ → Result (ℕ × List ℕ)
get_u8 [] = panic
get_u8 (b ∷ bs) = ok (b, bs)

unfoldable pub copy_to_bytes : ℕ → List ℕ → Result (List ℕ × List ℕ)
copy_to_bytes n bs = if leb n (length bs) then ok (take n bs, drop n bs) else panic

unfoldable pub get_u64 : List ℕ → Result (ℕ × List ℕ)
get_u64 bs = if leb 8 (length bs) then ok (from_be_bytes (take 8 bs), drop 8 bs) else panic

unfoldable pub from_buf : ℕ → List ℕ → Result (List ℕ × List ℕ)
from_buf n bs = do ensure (leb n (length bs)) truncated; ok (take n bs, drop n bs)

-- The test and the read that stand together in the decoders.
unfoldable pub ensure_u8 : Error → List ℕ → Result (ℕ × List ℕ)
unfolding get_u8
ensure_u8 e bs = do ensure (leb 1 (length bs)) e; get_u8 bs

pub take-append : (n : ℕ) (xs ys : List ℕ) → length xs ≡ n → take n (xs ++ ys) ≡ xs
take-append zero [] ys e = refl
take-append (suc n) [] ys e = absurd (omega arith)
take-append zero (x ∷ xs) ys e = absurd (omega arith)
take-append (suc n) (x ∷ xs) ys e = ap (◌∷◌ x) (take-append n xs ys (omega arith))

pub drop-append : (n : ℕ) (xs ys : List ℕ) → length xs ≡ n → drop n (xs ++ ys) ≡ ys
drop-append zero [] ys e = refl
drop-append (suc n) [] ys e = absurd (omega arith)
drop-append zero (x ∷ xs) ys e = absurd (omega arith)
drop-append (suc n) (x ∷ xs) ys e = drop-append n xs ys (omega arith)

pub get_or-append :
    (n : ℕ) (xs : List ℕ) (y : ℕ) (ys : List ℕ) (d : ℕ)
    → length xs ≡ n
    → get_or (xs ++ y ∷ ys) n d ≡ y
get_or-append zero [] y ys d e = refl
get_or-append (suc n) [] y ys d e = absurd (omega arith)
get_or-append zero (x ∷ xs) y ys d e = absurd (omega arith)
get_or-append (suc n) (x ∷ xs) y ys d e = get_or-append n xs y ys d (omega arith)

-- What was written first is read first.
pub from_buf-append : (n : ℕ) (xs ys : List ℕ) → length xs ≡ n → from_buf n (xs ++ ys) ≡ ok (xs, ys)
unfolding from_buf
from_buf-append n xs ys e =
    rw (take-append n xs ys e, drop-append n xs ys e) (ground (arith, length-append xs ys))

pub copy_to_bytes-append :
    (n : ℕ) (xs ys : List ℕ) → length xs ≡ n → copy_to_bytes n (xs ++ ys) ≡ ok (xs, ys)
unfolding copy_to_bytes
copy_to_bytes-append n xs ys e =
    rw (take-append n xs ys e, drop-append n xs ys e) (ground (arith, length-append xs ys))

pub get_u64-append :
    (n : ℕ) (ys : List ℕ) → n < 2 ^ 64 → get_u64 (to_be_bytes 8 n ++ ys) ≡ ok (n, ys)
unfolding get_u64
get_u64-append n ys h =
    rw
      (
        take-append 8 (to_be_bytes 8 n) ys (length-to_be_bytes 8 n),
        drop-append 8 (to_be_bytes 8 n) ys (length-to_be_bytes 8 n),
        from_be_bytes-to_be_bytes 8 n (omega arith),
      )
      (ground (arith, length-append (to_be_bytes 8 n) ys, length-to_be_bytes 8 n))

-- A read that succeeds has split the buffer.
pub ensure_u8-ok :
    (e : Error) (bs rest : List ℕ) (b : ℕ) → ensure_u8 e bs ≡ ok (b, rest) → bs ≡ b ∷ rest
unfolding ensure_u8
ensure_u8-ok e [] rest b h = ground arith
ensure_u8-ok e (x ∷ bs) rest b h = ground arith

pub from_buf-ok :
    (n : ℕ) (bs a rest : List ℕ) → from_buf n bs ≡ ok (a, rest) → (bs ≡ a ++ rest) × (length a ≡ n)
unfolding from_buf
from_buf-ok n bs a rest h = elim (Bool-cases (leb n (length bs))) [
  | inl e ↦
      let front : take n bs ≡ a = ground (arith, e, h) in
      let back : drop n bs ≡ rest = ground (arith, e, h) in
      (
        sym (take-append-drop n bs) ∙ ap₂ ◌++◌ front back,
        omega (arith, sym (ap length front), length-take n bs, leb→le n (length bs) e),
      )
  | inr e ↦ absurd (ground arith)
]

pub copy_to_bytes-ok :
    (n : ℕ) (bs a rest : List ℕ)
    → copy_to_bytes n bs ≡ ok (a, rest)
    → (bs ≡ a ++ rest) × (length a ≡ n)
unfolding copy_to_bytes from_buf
copy_to_bytes-ok n bs a rest h = from_buf-ok n bs a rest (ground arith)

-- The same under a bind.
module _ {B : Type 0} {r : B} where
  pub ensure_u8->>= :
      (e : Error) (bs : List ℕ) (next : ℕ × List ℕ → Result B)
      → (ensure_u8 e bs >>= next) ≡ ok r
      → (b : ℕ) × (rest : List ℕ) × (bs ≡ b ∷ rest) × (next (b, rest) ≡ ok r)
  ensure_u8->>= e bs next h =
      let (x, e1, h1) = >>=-eq-ok (ensure_u8 e bs) next h in
      (x.0, x.1, ensure_u8-ok e bs x.1 x.0 e1, h1)

  pub from_buf->>= :
      (n : ℕ) (bs : List ℕ) (next : List ℕ × List ℕ → Result B)
      → (from_buf n bs >>= next) ≡ ok r
      → (a : List ℕ) × (rest : List ℕ) × (bs ≡ a ++ rest) × (length a ≡ n) × (next (a, rest) ≡ ok r)
  from_buf->>= n bs next h =
      let (x, e1, h1) = >>=-eq-ok (from_buf n bs) next h in
      let (e2, size) = from_buf-ok n bs x.0 x.1 e1 in (x.0, x.1, e2, size, h1)

-- The reads behind a test do not panic, and say how much is left.
pub ensure_u8-NoPanic : (e : Error) (bs : List ℕ) → NoPanic (ensure_u8 e bs)
unfolding ensure_u8
ensure_u8-NoPanic e [] = λ h. ground arith
ensure_u8-NoPanic e (b ∷ bs) = λ h. ground arith

pub from_buf-NoPanic : (n : ℕ) (bs : List ℕ) → NoPanic (from_buf n bs)
unfolding from_buf
from_buf-NoPanic n bs = λ h. ground arith

pub get_u64-NoPanic : (bs : List ℕ) → 8 ≤ length bs → NoPanic (get_u64 bs)
unfolding get_u64
get_u64-NoPanic bs h = λ k. ground arith

pub get_u64-ok :
    (bs rest : List ℕ) (n : ℕ) → get_u64 bs ≡ ok (n, rest) → length bs ≡ length rest + 8
unfolding get_u64
get_u64-ok bs rest n h = ground (arith, length-drop 8 bs)

pub copy_to_bytes-NoPanic : (n : ℕ) (bs : List ℕ) → n ≤ length bs → NoPanic (copy_to_bytes n bs)
unfolding copy_to_bytes
copy_to_bytes-NoPanic n bs h = λ k. ground arith

pub ensure_u8-cons : (e : Error) (b : ℕ) (bs : List ℕ) → ensure_u8 e (b ∷ bs) ≡ ok (b, bs)
unfolding ensure_u8
ensure_u8-cons e b bs = ground arith
