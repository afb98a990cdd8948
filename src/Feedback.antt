-- ===== src/Feedback.antt =====
-- A vote on a post, hashiverse-rust/hashiverse-lib/src/protocol/posting/encoded_post_feedback.rs:
-- its encoding, its decoder, and the view that reads it in place.
pub mod Codec
pub mod Entries
use hashiverse.Prelude.{
  ℕ, zero, suc, ◌/◌, ◌≡◌, leb, ◌==◌, if◌then◌else◌, bytes_eq, List, [], ◌∷◌, ◌++◌, length, take,
  drop, get_or, map, Error, missing, wrong_version, wrong_length, mismatch, Result, ok, ◌>>=◌, ◌>>◌,
  ensure,
}
use hashiverse.Buffer.{ensure_u8, from_buf}
use hashiverse.Crypto.{Crypto, pow_measure}

-- The sizes of `Id` and `Salt` in tools/types.rs, and of an entry.
abbrev pub id_bytes : ℕ
id_bytes = 32

abbrev pub salt_bytes_size : ℕ
salt_bytes_size = 8

abbrev pub entry_size : ℕ
entry_size = 43

pub record EncodedPostFeedback : Type 0 where
  pub post_id : List ℕ
  pub feedback_type : ℕ
  pub salt : List ℕ
  pub pow : ℕ

unfoldable pub encode_to_bytes : EncodedPostFeedback → List ℕ
encode_to_bytes f = 1 ∷ (f.post_id ++ (f.feedback_type ∷ (f.salt ++ (f.pow ∷ []))))

unfoldable pub append_encode_direct_to_bytes : List ℕ → List ℕ → ℕ → List ℕ → ℕ → Result (List ℕ)
append_encode_direct_to_bytes bytes post_id feedback_type salt pow = do
  ensure (length post_id == id_bytes) mismatch
  ensure (length salt == salt_bytes_size) mismatch
  ok (bytes ++ (1 ∷ (post_id ++ (feedback_type ∷ (salt ++ (pow ∷ []))))))

unfoldable pub append_encode_to_bytes : EncodedPostFeedback → List ℕ → Result (List ℕ)
unfolding append_encode_direct_to_bytes
append_encode_to_bytes f bytes =
    append_encode_direct_to_bytes bytes f.post_id f.feedback_type f.salt f.pow

-- What follows the entry is left in the buffer.
unfoldable pub decode_from_bytes : List ℕ → Result (EncodedPostFeedback × List ℕ)
decode_from_bytes bytes = do
  (version, bytes1) ← ensure_u8 missing bytes
  ensure (1 == version) wrong_version
  (post_id, bytes2) ← from_buf id_bytes bytes1
  (feedback_type, bytes3) ← ensure_u8 missing bytes2
  (salt, bytes4) ← from_buf salt_bytes_size bytes3
  (pow, bytes5) ← ensure_u8 missing bytes4
  ok (record { post_id = post_id; feedback_type = feedback_type; salt = salt; pow = pow }, bytes5)

unfoldable pub pow_verify : Crypto → EncodedPostFeedback → Result (Unit {0})
pow_verify C f = do
  (pow, final) ← pow_measure C (f.post_id ∷ (f.feedback_type ∷ []) ∷ []) f.salt
  ensure (pow == f.pow) mismatch

-- `EncodedPostFeedbackViewV1`: a slice whose length and version have been tested, so that the reads
-- by offset are in range.
abbrev pub View : Type 0
View = List ℕ

unfoldable pub from_slice : List ℕ → Result View
from_slice bytes = do
  ensure (length bytes == entry_size) wrong_length
  ensure (get_or bytes 0 0 == 1) wrong_version
  ok bytes

unfoldable pub post_id_bytes : View → List ℕ
post_id_bytes v = take 32 (drop 1 v)

unfoldable pub view_feedback_type : View → ℕ
view_feedback_type v = get_or v 33 0

unfoldable pub salt_bytes : View → List ℕ
salt_bytes v = take 8 (drop 34 v)

unfoldable pub view_pow : View → ℕ
view_pow v = get_or v 42 0

-- `chunks_exact`, which passes over a last chunk that is too short.
unfoldable pub chunks : ℕ → List ℕ → List (List ℕ)
chunks zero bytes = []
chunks (suc n) bytes = take entry_size bytes ∷ chunks n (drop entry_size bytes)

unfoldable pub iter : List ℕ → List (Result View)
unfolding chunks from_slice
iter bytes = map from_slice (chunks (length bytes / entry_size) bytes)
