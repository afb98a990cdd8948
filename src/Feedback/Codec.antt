-- ===== src/Feedback/Codec.antt =====
-- Round trips of the encoding of a vote, and that the view and the decoder read the same.
use hashiverse.Prelude.{
  ℕ, zero, suc, ◌+◌, ◌≡◌, refl, ap, ◌∙◌, subst, arith, List, [], ◌∷◌, ◌++◌, length, length-append,
  take, drop, get_or, ◌==◌, Result, ok, ensure-eq-ok, missing, wrong_version,
}
use mathlib.Core.List.{append_assoc}
use native.Mathlib.Nat.{zero-add, suc-add}
use hashiverse.Buffer.{
  from_buf-append, ensure_u8->>=, from_buf->>=, ensure_u8-cons, take-append, get_or-append,
}
use hashiverse.Feedback.{
  id_bytes, salt_bytes_size, EncodedPostFeedback, encode_to_bytes, decode_from_bytes, from_slice,
  post_id_bytes, view_feedback_type, salt_bytes, view_pow,
}

-- The arrays of the Rust type have their lengths.
pub record IsFeedback (f : EncodedPostFeedback) : Type 0 where
  pub post_id_size : length f.post_id ≡ 32
  pub salt_size : length f.salt ≡ 8

-- Decoding what was encoded, with any bytes behind it, gives the entry and leaves those bytes.
pub decode_from_bytes-encode_to_bytes :
    (f : EncodedPostFeedback) (rest : List ℕ)
    → IsFeedback f
    → decode_from_bytes (encode_to_bytes f ++ rest) ≡ ok (f, rest)
unfolding decode_from_bytes encode_to_bytes
decode_from_bytes-encode_to_bytes f rest h =
    rw
      (
        ensure_u8-cons,
        append_assoc f.post_id,
        from_buf-append id_bytes f.post_id _ h.post_id_size,
        append_assoc f.salt,
        ensure_u8-cons,
        from_buf-append salt_bytes_size f.salt _ h.salt_size,
        ensure_u8-cons,
      )
      refl

pub length-encode_to_bytes :
    (f : EncodedPostFeedback) → IsFeedback f → length (encode_to_bytes f) ≡ 43
unfolding encode_to_bytes
length-encode_to_bytes f h = omega (
  arith,
  h.post_id_size,
  h.salt_size,
  length-append f.post_id (f.feedback_type ∷ (f.salt ++ (f.pow ∷ []))),
  length-append f.salt (f.pow ∷ []),
)

canonical_parts :
    {bytes bytes1 bytes2 bytes3 bytes4 bytes5 rest post_id salt : List ℕ}
    {version feedback_type pow : ℕ} {f : EncodedPostFeedback}
    → bytes ≡ version ∷ bytes1
    → bytes1 ≡ post_id ++ bytes2
    → bytes2 ≡ feedback_type ∷ bytes3
    → bytes3 ≡ salt ++ bytes4
    → bytes4 ≡ pow ∷ bytes5
    → version ≡ 1
    → length post_id ≡ 32
    → length salt ≡ 8
    → ◌≡◌ {A = Result (EncodedPostFeedback × List ℕ)}
        (ok (
          record { post_id = post_id; feedback_type = feedback_type; salt = salt; pow = pow },
          bytes5,
        ))
        (ok (f, rest))
    → (bytes ≡ encode_to_bytes f ++ rest) × IsFeedback f
unfolding encode_to_bytes
canonical_parts {bytes = bytes} {bytes5 = bytes5} {rest = rest} {post_id = post_id} {salt = salt}
      {feedback_type = feedback_type} {pow = pow} {f = f} e1 e2 e3 e4 e5 ev s1 s2 h =
    let read : EncodedPostFeedback = record {
      post_id = post_id;
      feedback_type = feedback_type;
      salt = salt;
      pow = pow;
    } in
    let same : ◌≡◌ {A = EncodedPostFeedback × List ℕ} (read, bytes5) (f, rest) = cc h in
    subst
      (λ (x : EncodedPostFeedback × List ℕ). (bytes ≡ encode_to_bytes x.0 ++ x.1) × IsFeedback x.0)
      same
      (
        rw (append_assoc post_id, append_assoc salt, e1, ev, e2, e3, e4, e5) refl,
        record { post_id_size = s1; salt_size = s2 },
      )

-- When decoding succeeds, the bytes are the encoding of the entry with the rest behind it, and the
-- arrays of the entry have their lengths.
pub decode_from_bytes-canonical :
    (bytes rest : List ℕ) (f : EncodedPostFeedback)
    → decode_from_bytes bytes ≡ ok (f, rest)
    → (bytes ≡ encode_to_bytes f ++ rest) × IsFeedback f
unfolding decode_from_bytes encode_to_bytes
decode_from_bytes-canonical bytes rest f h =
    let (version, bytes1, e1, h1) = ensure_u8->>= missing bytes _ h in
    let (e0, h2) = ensure-eq-ok (1 == version) wrong_version _ h1 in
    let (post_id, bytes2, e2, size2, h3) = from_buf->>= id_bytes bytes1 _ h2 in
    let (feedback_type, bytes3, e3, h4) = ensure_u8->>= missing bytes2 _ h3 in
    let (salt, bytes4, e4, size4, h5) = from_buf->>= salt_bytes_size bytes3 _ h4 in
    let (pow, bytes5, e5, h6) = ensure_u8->>= missing bytes4 _ h5 in
    canonical_parts e1 e2 e3 e4 e5 (ground (arith, e0)) size2 size4 h6

drop-snoc :
    (n : ℕ) (xs : List ℕ) (y : ℕ) (ys : List ℕ) → length xs ≡ n → drop (suc n) (xs ++ (y ∷ ys)) ≡ ys
drop-snoc zero [] y ys e = refl
drop-snoc (suc n) [] y ys e = absurd (omega arith)
drop-snoc zero (x ∷ xs) y ys e = absurd (omega arith)
drop-snoc (suc n) (x ∷ xs) y ys e = drop-snoc n xs y ys (omega arith)

get_or-skip :
    (n i : ℕ) (xs ys : List ℕ) (d : ℕ) → length xs ≡ n → get_or (xs ++ ys) (n + i) d ≡ get_or ys i d
get_or-skip zero i [] ys d e = rw (zero-add i) refl
get_or-skip (suc n) i [] ys d e = absurd (omega arith)
get_or-skip zero i (x ∷ xs) ys d e = absurd (omega arith)
get_or-skip (suc n) i (x ∷ xs) ys d e = rw (suc-add n i) (get_or-skip n i xs ys d (omega arith))

module _ (f : EncodedPostFeedback) (h : IsFeedback f) where
  -- The view reads from an entry what was written.
  pub from_slice-encode_to_bytes : from_slice (encode_to_bytes f) ≡ ok (encode_to_bytes f)
  unfolding from_slice encode_to_bytes
  from_slice-encode_to_bytes = ground (arith, length-encode_to_bytes f h)

  pub post_id_bytes-encode_to_bytes : post_id_bytes (encode_to_bytes f) ≡ f.post_id
  unfolding post_id_bytes encode_to_bytes
  post_id_bytes-encode_to_bytes = take-append 32 f.post_id _ h.post_id_size

  pub feedback_type-encode_to_bytes : view_feedback_type (encode_to_bytes f) ≡ f.feedback_type
  unfolding view_feedback_type encode_to_bytes
  feedback_type-encode_to_bytes = get_or-append 32 f.post_id f.feedback_type _ 0 h.post_id_size

  pub salt_bytes-encode_to_bytes : salt_bytes (encode_to_bytes f) ≡ f.salt
  unfolding salt_bytes encode_to_bytes
  salt_bytes-encode_to_bytes =
      ap (take 8) (drop-snoc 32 f.post_id f.feedback_type _ h.post_id_size)
      ∙ take-append 8 f.salt _ h.salt_size

  pub view_pow-encode_to_bytes : view_pow (encode_to_bytes f) ≡ f.pow
  unfolding view_pow encode_to_bytes
  view_pow-encode_to_bytes =
      get_or-skip 32 9 f.post_id _ 0 h.post_id_size ∙ get_or-append 8 f.salt f.pow [] 0 h.salt_size
