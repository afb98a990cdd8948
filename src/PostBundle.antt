-- ===== src/PostBundle.antt =====
-- The signed bundle of the posts of a bucket,
-- hashiverse-rust/hashiverse-lib/src/protocol/posting/encoded_post_bundle.rs. Additions of `usize`
-- wrap around, as in a build without overflow checks.
pub mod Frame
pub mod Healed
pub mod Posts
mod Examples
use hashiverse.Prelude.{
  ℕ, zero, suc, ◌+◌, ◌%◌, ◌^◌, ltb, leb, ◌==◌, if◌then◌else◌, Bool, true, false, ◌&&◌, ◌||◌,
  bytes_eq, List, [], ◌∷◌, ◌++◌, map, length, take, drop, Error, missing, wrong_version, truncated,
  overflow, excess, mismatch, unknown, Result, ok, err, panic, ◌>>=◌, ◌>>◌, ensure, to_be_bytes,
}
use hashiverse.Prelude.Int.{ℤ}
use hashiverse.Time.{encode_be}
use hashiverse.Buffer.{ensure_u8, get_u64, copy_to_bytes}
use hashiverse.Crypto.{Crypto, hash_multiple}
use hashiverse.FeedbackBundle.{Json}
use hashiverse.Store.{bytes_lt}

-- Of `Peer` (protocol/peer.rs) and of `EncodedPostV1` (protocol/posting/encoded_post.rs) the bundle
-- uses these.
pub record Parts : Type 1 where
  pub Peer : Type 0
  pub signature_hash_generate : Peer → Result (List ℕ)
  pub verification_key_bytes : Peer → List ℕ
  pub decode_post : List ℕ → List ℕ → Result (Unit {0})

-- A `HashSet` is the list of its elements, in some order.
pub record Header (Peer : Type 0) : Type 0 where
  pub time_millis : ℤ
  pub location_id : List ℕ
  pub overflowed : Bool
  pub sealed : Bool
  pub num_posts : ℕ
  pub encoded_post_ids : List (List ℕ)
  pub encoded_post_lengths : List ℕ
  pub encoded_post_healed : List (List ℕ)
  pub peer : Peer
  pub signature : List ℕ

pub record Bundle (Peer : Type 0) : Type 0 where
  pub header : Header Peer
  pub encoded_posts_bytes : List ℕ

abbrev pub bool_byte : Bool → ℕ
bool_byte true = 1
bool_byte false = 0

-- `healed_ids_sorted.sort()`
unfoldable pub sort_insert : List ℕ → List (List ℕ) → List (List ℕ)
sort_insert x [] = x ∷ []
sort_insert x (y ∷ ys) =
    let rest = sort_insert x ys in if bytes_lt y x then y ∷ rest else x ∷ y ∷ ys

unfoldable pub sort_ids : List (List ℕ) → List (List ℕ)
unfolding sort_insert
sort_ids [] = []
sort_ids (x ∷ xs) = sort_insert x (sort_ids xs)

unfoldable pub contains : List (List ℕ) → List ℕ → Bool
contains [] id = false
contains (x ∷ xs) id = bytes_eq x id || contains xs id

unfoldable pub healed_loop : List (List ℕ) → List (List ℕ) → Result (Unit {0})
healed_loop ids [] = ok tt
healed_loop ids (h ∷ hs) = do ensure (contains ids h) unknown; healed_loop ids hs

unfoldable pub sum : List ℕ → ℕ
sum [] = 0
sum (l ∷ ls) = l + sum ls

unfoldable pub zip : List ℕ → List (List ℕ) → List (ℕ × List ℕ)
zip [] ids = []
zip (l ∷ ls) [] = []
zip (l ∷ ls) (id ∷ ids) = (l, id) ∷ zip ls ids

-- `Bytes::slice`.
unfoldable pub slice : List ℕ → ℕ → ℕ → Result (List ℕ)
slice bytes from to =
    if leb from to && leb to (length bytes) then ok (drop from (take to bytes)) else panic

module _ (P : Parts) (C : Crypto) where
  open P use {Peer, signature_hash_generate, verification_key_bytes, decode_post}

  unfoldable pub get_hash_for_signing : Header Peer → Result (List ℕ)
  get_hash_for_signing h = do
    peer_hash ← signature_hash_generate h.peer
    ok (
        hash_multiple C (
          (encode_be h.time_millis
            ∷ h.location_id
            ∷ (bool_byte h.overflowed ∷ [])
            ∷ (bool_byte h.sealed ∷ [])
            ∷ (h.num_posts ∷ [])
            ∷ [])
          ++ h.encoded_post_ids
          ++ map (to_be_bytes 8) h.encoded_post_lengths
          ++ sort_ids h.encoded_post_healed
          ++ (peer_hash ∷ [])))

  unfoldable pub signature_verify : Header Peer → Result (Unit {0})
  signature_verify h = do
    hash ← get_hash_for_signing h
    key ← C.key_from_bytes (verification_key_bytes h.peer)
    C.verify key h.signature hash

  -- The lengths are compared `as u8`.
  unfoldable pub verify_header : Header Peer → Result (Unit {0})
  verify_header h = do
    ensure (h.num_posts == length h.encoded_post_lengths % 256) mismatch
    ensure (h.num_posts == length h.encoded_post_ids % 256) mismatch
    healed_loop h.encoded_post_ids h.encoded_post_healed
    signature_verify h

  -- One post of the body, from its offset on.
  unfoldable pub verify_post : List ℕ → List ℕ → ℕ → ℕ → List ℕ → Result (Unit {0})
  verify_post base_id bytes offset len expected = do
    post_bytes ← slice bytes offset ((offset + len) % 2 ^ 64)
    ensure (leb 32 (length post_bytes)) truncated
    ensure (bytes_eq (take 32 post_bytes) expected) mismatch
    decode_post post_bytes base_id

  unfoldable pub posts_loop : List ℕ → List ℕ → ℕ → List (ℕ × List ℕ) → Result (Unit {0})
  posts_loop base_id bytes offset [] = ok tt
  posts_loop base_id bytes offset (p ∷ ps) = do
    verify_post base_id bytes offset p.0 p.1
    posts_loop base_id bytes ((offset + p.0) % 2 ^ 64) ps

  unfoldable pub verify : Bundle Peer → List ℕ → Result (Unit {0})
  verify b base_id = do
    verify_header b.header
    ensure (sum b.header.encoded_post_lengths % 2 ^ 64 == length b.encoded_posts_bytes) mismatch
    posts_loop base_id b.encoded_posts_bytes 0
        (zip b.header.encoded_post_lengths b.header.encoded_post_ids)

module _ {Peer : Type 0} (J : Json (Header Peer)) where
  open J use {struct_to_bytes, bytes_to_struct}

  unfoldable pub to_bytes : Bundle Peer → Result (List ℕ)
  to_bytes b = do
    header ← struct_to_bytes b.header
    ok (
        1
        ∷ (to_be_bytes 8 (length header)
            ++ (to_be_bytes 8 (length b.encoded_posts_bytes) ++ (header ++ b.encoded_posts_bytes))))

  unfoldable pub read_body : Bool → ℕ → List ℕ → Result (List ℕ)
  read_body true body_len bytes = do
    (body, rest) ← copy_to_bytes body_len bytes
    ensure (length rest == 0) excess
    ok body
  read_body false body_len bytes = ok []

  unfoldable pub from_bytes : List ℕ → Bool → Result (Bundle Peer)
  from_bytes bytes decode_body = do
    (version, bytes1) ← ensure_u8 missing bytes
    ensure (1 == version) wrong_version
    ensure (leb 8 (length bytes1)) missing
    (header_len, bytes2) ← get_u64 bytes1
    ensure (leb 8 (length bytes2)) missing
    (body_len, bytes3) ← get_u64 bytes2
    ensure (ltb (header_len + body_len) (2 ^ 64)) overflow
    ensure (leb (header_len + body_len) (length bytes3)) truncated
    (header_bytes, bytes4) ← copy_to_bytes header_len bytes3
    header ← bytes_to_struct header_bytes
    body ← read_body decode_body body_len bytes4
    ok (record { header = header; encoded_posts_bytes = body })
