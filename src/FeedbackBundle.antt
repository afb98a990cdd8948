-- ===== src/FeedbackBundle.antt =====
-- The signed bundle of the votes on the posts of a bucket,
-- hashiverse-rust/hashiverse-lib/src/protocol/posting/encoded_post_bundle_feedback.rs.
pub mod Frame
pub mod Verify
pub mod Lookup
pub mod Merge
pub mod Union
mod Examples
use mathlib.Core.List.{Perm}
use hashiverse.Prelude.{
  ℕ, zero, suc, ◌+◌, ◌*◌, ◌/◌, ◌%◌, ◌^◌, ◌≡◌, ltb, leb, ◌==◌, if◌then◌else◌, Bool, ◌&&◌, bytes_eq,
  Option, none, some, List, [], ◌∷◌, ◌++◌, length, take, drop, set, replicate, Error, missing,
  wrong_version, wrong_length, truncated, overflow, mismatch, Result, ok, err, panic, ◌>>=◌, ◌>>◌,
  ensure, to_be_bytes,
}
use hashiverse.Prelude.Int.{ℤ, leb_ℤ}
use hashiverse.Time.{encode_be}
use hashiverse.Buffer.{ensure_u8, get_u64, copy_to_bytes}
use hashiverse.Crypto.{Crypto, hash, hash_multiple}
use hashiverse.Feedback.{
  EncodedPostFeedback, View, id_bytes, entry_size, decode_from_bytes, pow_verify,
  append_encode_to_bytes, iter, post_id_bytes, view_feedback_type, salt_bytes, view_pow,
}

-- Of `Peer` (protocol/peer.rs) the bundle reads two fields, and serde_json writes and reads headers.
pub record Peers : Type 1 where
  pub Peer : Type 0
  pub peer_signature : Peer → List ℕ
  pub verification_key_bytes : Peer → List ℕ

pub record Header (Peer : Type 0) : Type 0 where
  pub time_millis : ℤ
  pub location_id : List ℕ
  pub feedbacks_bytes_hash : List ℕ
  pub peer : Peer
  pub signature : List ℕ

pub record Json (A : Type 0) : Type 0 where
  pub struct_to_bytes : A → Result (List ℕ)
  pub bytes_to_struct : List ℕ → Result A

pub record Bundle (Peer : Type 0) : Type 0 where
  pub header : Header Peer
  pub feedbacks_bytes : List ℕ

module _ (P : Peers) (C : Crypto) where
  open P use {Peer, peer_signature, verification_key_bytes}

  unfoldable pub get_hash_for_signing : Header Peer → List ℕ
  get_hash_for_signing h = hash_multiple C (
      encode_be h.time_millis ∷ h.location_id ∷ h.feedbacks_bytes_hash ∷ peer_signature h.peer ∷ [])

  unfoldable pub signature_verify : Header Peer → Result (Unit {0})
  signature_verify h = do
    key ← C.key_from_bytes (verification_key_bytes h.peer)
    C.verify key h.signature (get_hash_for_signing h)

  -- The loop over the entries of the body.
  unfoldable pub entries_loop : ℕ → List ℕ → Result (Unit {0})
  entries_loop zero bytes = ok tt
  entries_loop (suc n) bytes = do
    (feedback, rest) ← decode_from_bytes (take entry_size bytes)
    pow_verify C feedback
    entries_loop n (drop entry_size bytes)

  unfoldable pub verify : Bundle Peer → Result (Unit {0})
  verify b = do
    signature_verify b.header
    ensure (length b.feedbacks_bytes % entry_size == 0) wrong_length
    ensure (bytes_eq (hash C b.feedbacks_bytes) b.header.feedbacks_bytes_hash) mismatch
    entries_loop (length b.feedbacks_bytes / entry_size) b.feedbacks_bytes

module _ {Peer : Type 0} (J : Json (Header Peer)) where
  open J use {struct_to_bytes, bytes_to_struct}

  unfoldable pub to_bytes : Bundle Peer → Result (List ℕ)
  to_bytes b = do
    header ← struct_to_bytes b.header
    ok (
        1
        ∷ (to_be_bytes 8 (length header)
            ++ (to_be_bytes 8 (length b.feedbacks_bytes) ++ (header ++ b.feedbacks_bytes))))

  -- Lengths are read as `u64` and added with `checked_add`; what follows the body is passed over.
  unfoldable pub from_bytes : List ℕ → Result (Bundle Peer)
  from_bytes bytes = do
    (version, bytes1) ← ensure_u8 missing bytes
    ensure (1 == version) wrong_version
    ensure (leb 16 (length bytes1)) missing
    (header_len, bytes2) ← get_u64 bytes1
    (body_len, bytes3) ← get_u64 bytes2
    ensure (ltb (header_len + body_len) (2 ^ 64)) overflow
    ensure (leb (header_len + body_len) (length bytes3)) truncated
    (header_bytes, bytes4) ← copy_to_bytes header_len bytes3
    (body_bytes, bytes5) ← copy_to_bytes body_len bytes4
    header ← bytes_to_struct header_bytes
    ok (record { header = header; feedbacks_bytes = body_bytes })

-- `view.feedback_type() == feedback_type && view.post_id_bytes() == post_id`
unfoldable pub is_vote : List ℕ → ℕ → View → Bool
is_vote post_id feedback_type v =
    (view_feedback_type v == feedback_type) && bytes_eq (post_id_bytes v) post_id

-- `iter(..).flatten()` passes over the entries that are no views.
unfoldable pub pow_loop : List ℕ → ℕ → List (Result View) → ℕ
pow_loop post_id feedback_type [] = 0
pow_loop post_id feedback_type (ok v ∷ vs) =
    let rest = pow_loop post_id feedback_type vs in
    if is_vote post_id feedback_type v then view_pow v else rest
pow_loop post_id feedback_type (err e ∷ vs) = pow_loop post_id feedback_type vs
pow_loop post_id feedback_type (panic ∷ vs) = pow_loop post_id feedback_type vs

unfoldable pub get_post_pow_for_feedback_type : {Peer : Type 0} → Bundle Peer → List ℕ → ℕ → ℕ
get_post_pow_for_feedback_type b post_id feedback_type =
    pow_loop post_id feedback_type (iter b.feedbacks_bytes)

-- `[Pow; 256]`, indexed by a byte.
unfoldable pub pows_loop : List ℕ → List ℕ → List (Result View) → List ℕ
pows_loop post_id result [] = result
pows_loop post_id result (ok v ∷ vs) =
    let with = pows_loop post_id (set result (view_feedback_type v) (view_pow v)) vs in
    let without = pows_loop post_id result vs in
    if bytes_eq (post_id_bytes v) post_id then with else without
pows_loop post_id result (err e ∷ vs) = pows_loop post_id result vs
pows_loop post_id result (panic ∷ vs) = pows_loop post_id result vs

unfoldable pub get_post_pows : {Peer : Type 0} → Bundle Peer → List ℕ → List ℕ
get_post_pows b post_id = pows_loop post_id (replicate 256 0) (iter b.feedbacks_bytes)

-- `max_by_key` gives the last of several maxima.
unfoldable pub latest_loop : {Peer : Type 0} → Bundle Peer → List (Bundle Peer) → Bundle Peer
latest_loop best [] = best
latest_loop best (b ∷ bs) =
    let newer = latest_loop b bs in
    let same = latest_loop best bs in
    if leb_ℤ best.header.time_millis b.header.time_millis then newer else same

-- `Id::from_slice` and `Salt::from_slice`.
unfoldable pub array_from_slice : ℕ → List ℕ → Result (List ℕ)
array_from_slice n bytes = do ensure (length bytes == n) wrong_length; ok bytes

unfoldable pub salt_or_zero : Result (List ℕ) → List ℕ
salt_or_zero (ok salt) = salt
salt_or_zero (err e) = replicate 8 0
salt_or_zero panic = replicate 8 0

-- The map has the key of an entry in the entry, so it is the list of its values.
unfoldable pub same_key : List ℕ → ℕ → EncodedPostFeedback → Bool
same_key post_id feedback_type f = (f.feedback_type == feedback_type) && bytes_eq f.post_id post_id

-- `entry(key).or_insert_with(..)`, and the overwriting of a weaker vote.
unfoldable pub upsert : List EncodedPostFeedback → List ℕ → View → List EncodedPostFeedback
upsert [] post_id v =
    record {
      post_id = post_id;
      feedback_type = view_feedback_type v;
      salt = salt_or_zero (array_from_slice 8 (salt_bytes v));
      pow = view_pow v;
    }
    ∷ []
upsert (f ∷ fs) post_id v =
    let rest = upsert fs post_id v in
    if same_key post_id (view_feedback_type v) f
    then (if ltb f.pow (view_pow v)
        then record f { salt = salt_or_zero (array_from_slice 8 (salt_bytes v)); pow = view_pow v }
          ∷ fs
        else f ∷ fs)
    else f ∷ rest

unfoldable pub merge_view : List EncodedPostFeedback → Result View → List EncodedPostFeedback
merge_view fs (ok v) = elim (array_from_slice 32 (post_id_bytes v)) [
  | ok post_id ↦ upsert fs post_id v
  | err e ↦ fs
  | panic ↦ fs
]
merge_view fs (err e) = fs
merge_view fs panic = fs

unfoldable pub merge_views :
    List EncodedPostFeedback → List (Result View) → List EncodedPostFeedback
merge_views fs [] = fs
merge_views fs (v ∷ vs) = merge_views (merge_view fs v) vs

unfoldable pub merge_bundles :
    {Peer : Type 0} → List EncodedPostFeedback → List (Bundle Peer) → List EncodedPostFeedback
merge_bundles fs [] = fs
merge_bundles fs (b ∷ bs) = merge_bundles (merge_views fs (iter b.feedbacks_bytes)) bs

-- `let _ = feedback.append_encode_to_bytes(..)`: a failure leaves the bytes as they are.
unfoldable pub append_all : List ℕ → List EncodedPostFeedback → List ℕ
append_all bytes [] = bytes
append_all bytes (f ∷ fs) =
    append_all
      (elim (append_encode_to_bytes f bytes) [ ok bytes' ↦ bytes' | err e ↦ bytes | panic ↦ bytes ])
      fs

-- In which order a hash map lists its values is not said.
pub record HashOrder : Type 0 where
  pub values : List EncodedPostFeedback → List EncodedPostFeedback
  pub values-perm : (fs : List EncodedPostFeedback) → Perm (values fs) fs

unfoldable pub merge : {Peer : Type 0} → HashOrder → List (Bundle Peer) → Option (Bundle Peer)
merge O [] = none
merge O (b ∷ bs) = some (record {
  header = (latest_loop b bs).header;
  feedbacks_bytes = append_all [] (O.values (merge_bundles [] (b ∷ bs)));
})
