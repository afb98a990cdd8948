-- ===== src/ServerId/Codec.antt =====
-- The bytes of a server identity on disk.
use mathlib.Core.List.{append_assoc}
use hashiverse.Prelude.{
  ℕ, zero, suc, some, get_elem?, ◌+◌, ◌≤◌, ◌<◌, ◌≡◌, refl, sym, ap, ◌∙◌, arith, le→leb, ◌==◌,
  ==_iff, List, [], ◌∷◌, ◌++◌, length, length-append, take, drop, flatten, wrong_length, Error, err,
  ◌-◌, ◌≢◌, ◌⊎◌, inl, inr, true, Bool-cases, length-drop, length-take, get_elem?-some, Result-cases,
  ok, ◌>>=◌, NoPanic,
}
use hashiverse.Prelude.Int.{IsI64}
use hashiverse.Time.{encode_be, time_millis_bytes, timestamp_decode_be}
use hashiverse.Time.Laws.{timestamp_decode_be-encode_be, length-encode_be}
use hashiverse.Gatherer.Contents.{flatten-append}
use hashiverse.Buffer.{take-append, drop-append}
use hashiverse.Crypto.{Crypto, hash_from_slice, byte_at}
use hashiverse.FeedbackBundle.{array_from_slice}
use hashiverse.PostBundle.{slice}
use hashiverse.Peer.{Signer}
use hashiverse.ServerId.{ServerId, server_bytes, encode, decode}

-- What the file format relies on of the keys: their bytes are 32, and are read as the keys.
pub record Keeps (C : Crypto) (S : Signer C) : Type 0 where
  pub secret_size : (k : S.SignatureKey) → length (S.signature_key_bytes k) ≡ 32
  pub secret_reads : (k : S.SignatureKey) → S.signature_key_from_bytes (S.signature_key_bytes k) ≡ k
  pub public_size : (k : C.VerificationKey) → length (S.key_bytes k) ≡ 32
  pub public_reads : (k : C.VerificationKey) → C.key_from_bytes (S.key_bytes k) ≡ ok k

-- The sizes of the arrays in an identity.
pub record IsSized {C : Crypto} {S : Signer C} (s : ServerId C S) : Type 0 where
  pub time : IsI64 s.timestamp
  pub pq : length s.keys.pq_commitment_bytes ≡ 32
  pub sponsor : length s.sponsor_id ≡ 32
  pub content : length s.hash ≡ 32
  pub salted : length s.salt ≡ 8
  pub named : length s.id ≡ 32
  pub key : s.keys.verification_key_bytes ≡ S.key_bytes s.keys.verification_key

-- A part stands behind the parts before it.
slice-parts :
    (xs mid ys : List ℕ) (from to : ℕ)
    → length xs ≡ from
    → length xs + length mid ≡ to
    → slice (xs ++ (mid ++ ys)) from to ≡ ok mid
unfolding slice
slice-parts xs mid ys from to e1 e2 =
    let split : xs ++ (mid ++ ys) ≡ (xs ++ mid) ++ ys = sym (append_assoc xs mid ys) in
    let front = take-append to (xs ++ mid) ys (omega (arith, length-append xs mid)) in
    let inside =
      le→leb to (length ((xs ++ mid) ++ ys))
        (omega (arith, length-append (xs ++ mid) ys, length-append xs mid)) in
    rw (split, le→leb from to (omega arith), inside, front, drop-append from xs mid e1) refl

get_elem?-parts :
    (xs : List ℕ) (b : ℕ) (ys : List ℕ) (i : ℕ)
    → length xs ≡ i
    → get_elem? (xs ++ b ∷ ys) i ≡ some b
get_elem?-parts [] b ys zero e = refl
get_elem?-parts [] b ys (suc i) e = absurd (omega arith)
get_elem?-parts (x ∷ xs) b ys zero e = absurd (omega arith)
get_elem?-parts (x ∷ xs) b ys (suc i) e = get_elem?-parts xs b ys i (omega arith)

abbrev total : List (List ℕ) → ℕ
total [] = 0
total (part ∷ parts) = length part + total parts

length-flatten : (parts : List (List ℕ)) → length (flatten parts) ≡ total parts
unfolding flatten
length-flatten [] = refl
length-flatten (part ∷ parts) =
    omega (arith, length-flatten parts, length-append part (flatten parts))

slice-flatten :
    (pre : List (List ℕ)) (mid : List ℕ) (post : List (List ℕ)) (from to : ℕ)
    → total pre ≡ from
    → total pre + length mid ≡ to
    → slice (flatten (pre ++ mid ∷ post)) from to ≡ ok mid
unfolding flatten
slice-flatten pre mid post from to e1 e2 = rw (flatten-append pre (mid ∷ post)) (
    slice-parts (flatten pre) mid (flatten post) from to (length-flatten pre ∙ e1)
      (omega (arith, length-flatten pre)))

byte_at-flatten :
    (C : Crypto) (pre : List (List ℕ)) (b : ℕ) (post : List (List ℕ)) (i : ℕ)
    → total pre ≡ i
    → byte_at C (flatten (pre ++ (b ∷ []) ∷ post)) i ≡ ok b
unfolding flatten byte_at
byte_at-flatten C pre b post i e =
    rw
      (
        flatten-append pre ((b ∷ []) ∷ post),
        byte_at,
        get_elem?-parts (flatten pre) b (flatten post) i (length-flatten pre ∙ e),
      )
      refl

module _ {C : Crypto} {S : Signer C} (keeps : Keeps C S) where
  -- What stands where in the bytes.
  slice-server_bytes :
      (s : ServerId C S)
      → IsSized s
      → (length (server_bytes C S s) ≡ 209)
        × (slice (server_bytes C S s) 0 32 ≡ ok (S.signature_key_bytes s.keys.signature_key))
        × (slice (server_bytes C S s) 32 64 ≡ ok (S.key_bytes s.keys.verification_key))
        × (slice (server_bytes C S s) 64 96 ≡ ok s.keys.pq_commitment_bytes)
        × (slice (server_bytes C S s) 96 128 ≡ ok s.sponsor_id)
        × (slice (server_bytes C S s) 128 136 ≡ ok (encode_be s.timestamp))
        × (slice (server_bytes C S s) 136 168 ≡ ok s.hash)
        × (slice (server_bytes C S s) 168 176 ≡ ok s.salt)
        × (byte_at C (server_bytes C S s) 176 ≡ ok s.pow)
        × (slice (server_bytes C S s) 177 209 ≡ ok s.id)
  unfolding server_bytes
  slice-server_bytes s is =
      let a = S.signature_key_bytes s.keys.signature_key in
      let b = S.key_bytes s.keys.verification_key in
      let c = s.keys.pq_commitment_bytes in
      let t = encode_be s.timestamp in
      let p = s.pow ∷ [] in
      let size_a = keeps.secret_size s.keys.signature_key in
      let size_b = keeps.public_size s.keys.verification_key in
      let size_t : length t ≡ 8 = length-encode_be s.timestamp in
      let size_c = is.pq in
      let size_d = is.sponsor in
      let size_h = is.content in
      let size_s = is.salted in
      let size_i = is.named in
      (
        length-flatten _ ∙ omega arith,
        slice-flatten [] a _ 0 32 (omega arith) (omega arith),
        slice-flatten (a ∷ []) b _ 32 64 (omega arith) (omega arith),
        slice-flatten (a ∷ b ∷ []) c _ 64 96 (omega arith) (omega arith),
        slice-flatten (a ∷ b ∷ c ∷ []) s.sponsor_id _ 96 128 (omega arith) (omega arith),
        slice-flatten (a ∷ b ∷ c ∷ s.sponsor_id ∷ []) t _ 128 136 (omega arith) (omega arith),
        slice-flatten (a ∷ b ∷ c ∷ s.sponsor_id ∷ t ∷ []) s.hash _ 136 168 (omega arith)
            (omega arith),
        slice-flatten (a ∷ b ∷ c ∷ s.sponsor_id ∷ t ∷ s.hash ∷ []) s.salt _ 168 176 (omega arith)
            (omega arith),
        byte_at-flatten C (a ∷ b ∷ c ∷ s.sponsor_id ∷ t ∷ s.hash ∷ s.salt ∷ []) s.pow _ 176
            (omega arith),
        slice-flatten (a ∷ b ∷ c ∷ s.sponsor_id ∷ t ∷ s.hash ∷ s.salt ∷ p ∷ []) s.id [] 177 209
            (omega arith) (omega arith),
      )

  -- An identity whose arrays have their sizes, and whose time is in the range of `i64`, is encoded
  -- without an error in 209 bytes, which `decode` reads as that identity.
  pub decode-encode :
      (s : ServerId C S)
      → IsSized s
      → (bytes : List ℕ) × (encode C S s ≡ ok bytes)
        × (length bytes ≡ 209)
        × (decode C S bytes ≡ ok s)
  unfolding encode decode array_from_slice hash_from_slice
  decode-encode s is =
      let (size, sk, vk, pq, sponsor, time, content, salted, work, named) =
        slice-server_bytes s is in
      let (time_size, time_reads) = timestamp_decode_be-encode_be s.timestamp is.time in
      let whole = (==_iff (length (server_bytes C S s)) 209).1 size in
      (
        server_bytes C S s,
        rw whole refl,
        size,
        rw
            (
              whole,
              sk,
              vk,
              pq,
              sponsor,
              time,
              content,
              salted,
              work,
              named,
              (==_iff _ 32).1 is.sponsor,
              time_size,
              (==_iff _ 32).1 is.content,
              (==_iff _ 8).1 is.salted,
              (==_iff _ 32).1 (keeps.secret_size s.keys.signature_key),
              (==_iff _ 32).1 (keeps.public_size s.keys.verification_key),
              keeps.public_reads s.keys.verification_key,
              (==_iff _ 32).1 is.pq,
              (==_iff _ 32).1 is.named,
              keeps.secret_reads s.keys.signature_key,
              time_reads,
            )
            (ap (λ k. ok (record s { keys = record s.keys { verification_key_bytes = k } }))
              (sym is.key)),
      )

slice-inside :
    (bytes : List ℕ) (from to : ℕ)
    → from ≤ to
    → to ≤ length bytes
    → (slice bytes from to ≡ ok (drop from (take to bytes)))
      × (length (drop from (take to bytes)) ≡ to - from)
unfolding slice
slice-inside bytes from to h k =
    let size : length (drop from (take to bytes)) ≡ to - from =
      omega (arith, length-drop from (take to bytes), length-take to bytes) in
    (rw (le→leb from to h, le→leb to (length bytes) k) refl, size)

-- `try_into` on a slice of the right length.
part-of :
    (n : ℕ) (bytes : List ℕ) (from to : ℕ)
    → from ≤ to
    → to ≤ length bytes
    → to - from ≡ n
    → (part : List ℕ) × (slice bytes from to ≡ ok part) × ((length part == n) ≡ true)
part-of n bytes from to h k e =
    let (there, size) = slice-inside bytes from to h k in
    (drop from (take to bytes), there, (==_iff _ n).1 (size ∙ e))

byte_at-inside :
    (C : Crypto) (bytes : List ℕ) (i : ℕ) → i < length bytes → (b : ℕ) × (byte_at C bytes i ≡ ok b)
unfolding byte_at
byte_at-inside C bytes i h = let (b, e) = get_elem?-some bytes i h in (b, rw (byte_at, e) refl)

-- Of 209 bytes only the public key can be refused.
decode-whole :
    (C : Crypto) (S : Signer C) (bytes : List ℕ)
    → length bytes ≡ 209
    → (key : List ℕ) × (build : C.VerificationKey → ServerId C S) × (slice bytes 32 64 ≡ ok key)
      × (decode C S bytes ≡ (C.key_from_bytes key >>= λ k. ok (build k)))
unfolding decode array_from_slice hash_from_slice time_millis_bytes
decode-whole C S bytes size =
    let e = (==_iff (length bytes) 209).1 size in
    let (sk, e1, f1) = part-of 32 bytes 0 32 (omega arith) (omega arith) refl in
    let (vk, e2, f2) = part-of 32 bytes 32 64 (omega arith) (omega arith) refl in
    let (pq, e3, f3) = part-of 32 bytes 64 96 (omega arith) (omega arith) refl in
    let (sp, e4, f4) = part-of 32 bytes 96 128 (omega arith) (omega arith) refl in
    let (ts, e5, f5) = part-of 8 bytes 128 136 (omega arith) (omega arith) refl in
    let (hs, e6, f6) = part-of 32 bytes 136 168 (omega arith) (omega arith) refl in
    let (sa, e7, f7) = part-of 8 bytes 168 176 (omega arith) (omega arith) refl in
    let (id, e9, f9) = part-of 32 bytes 177 209 (omega arith) (omega arith) refl in
    let (b, e8) = byte_at-inside C bytes 176 (omega arith) in
    (
      vk,
      λ k. record {
        keys = record {
          signature_key = S.signature_key_from_bytes sk;
          verification_key = k;
          verification_key_bytes = S.key_bytes k;
          pq_commitment_bytes = pq;
        };
        sponsor_id = sp;
        timestamp = timestamp_decode_be ts;
        hash = hs;
        salt = sa;
        pow = b;
        id = id;
      },
      e2,
      rw (e, e1, e2, e3, e4, e5, e6, e7, e8, e9, f1, f2, f3, f4, f5, f6, f7, f9) refl,
    )

-- If no bytes of a key make reading it panic, then `decode` never panics; it refuses bytes that are
-- not 209 for their length, and 209 bytes only with the error of reading the public key, which
-- stands in the bytes 32 to 63.
pub decode_cases :
    (C : Crypto) (S : Signer C) (bytes : List ℕ)
    → ((key : List ℕ) → NoPanic (C.key_from_bytes key))
    → ((s : ServerId C S) × (decode C S bytes ≡ ok s))
      ⊎ (length bytes ≢ 209 × (decode C S bytes ≡ err wrong_length))
      ⊎ ((key : List ℕ) × (e : Error) × (slice bytes 32 64 ≡ ok key)
          × (C.key_from_bytes key ≡ err e)
          × (decode C S bytes ≡ err e))
unfolding decode
decode_cases C S bytes reads = elim (Bool-cases (length bytes == 209)) [
  | inl e ↦
      let (key, build, there, is) = decode-whole C S bytes ((==_iff (length bytes) 209).0 e) in
      elim (Result-cases (C.key_from_bytes key)) [
        | inl (k, f) ↦ inl (build k, rw (is, f) refl)
        | inr (inl (error, f)) ↦ inr (inr (key, error, there, f, rw (is, f) refl))
        | inr (inr f) ↦ absurd (reads key f)
      ]
  | inr e ↦ inr (inl (λ h. cc ((==_iff (length bytes) 209).1 h), rw e refl))
]
