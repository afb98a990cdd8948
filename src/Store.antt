-- ===== src/Store.antt =====
-- The environment store in memory,
-- hashiverse-rust/hashiverse-server-lib/src/environment/mem_environment_store.rs. A call holds the
-- locks of the maps it touches for as long as it runs, so a call is one step on the state.
pub mod Feedbacks
pub mod Delete
pub mod Order
mod Examples
use hashiverse.Prelude.{
  ℕ, zero, suc, ◌+◌, leb, ltb, ◌==◌, if◌then◌else◌, Bool, true, false, not, ◌&&◌, bytes_eq, Option,
  none, some, List, [], ◌∷◌, ◌++◌, length, Error, Result, ok, err, panic, ◌>>=◌,
}
use hashiverse.Prelude.Int.{ℤ}
use hashiverse.Time.{encode_be}
use hashiverse.Assoc.{Map, get, insert, remove, or_default}
use hashiverse.Feedback.{EncodedPostFeedback, append_encode_to_bytes}
use hashiverse.FeedbackBundle.{same_key}

-- postcard writes and reads the metadata of a bundle.
pub record Postcard : Type 1 where
  pub Metadata : Type 0
  pub to_stdvec : Metadata → Result (List ℕ)
  pub from_bytes : List ℕ → Result Metadata

-- `env_id` of `new` goes to the log only.
pub record MemEnvironmentStore : Type 0 where
  pub config : Map (List ℕ)
  pub post_bundle_metadata : Map (List ℕ)
  pub post_bundle_last_accessed : Map (List ℕ)
  pub post_bundle_bytes : Map (List ℕ)
  pub post_bundle_feedbacks : Map (List EncodedPostFeedback)

pub new : MemEnvironmentStore
new = record {
  config = [];
  post_bundle_metadata = [];
  post_bundle_last_accessed = [];
  post_bundle_bytes = [];
  post_bundle_feedbacks = [];
}

pub post_bundle_count : MemEnvironmentStore → ℕ
post_bundle_count s = length s.post_bundle_last_accessed

pub sum_lengths : Map (List EncodedPostFeedback) → ℕ
sum_lengths [] = 0
sum_lengths (x ∷ m) = length x.1 + sum_lengths m

pub post_bundle_feedback_count : MemEnvironmentStore → ℕ
unfolding sum_lengths
post_bundle_feedback_count s = sum_lengths s.post_bundle_feedbacks

module _ (C : Postcard) where
  open C use {Metadata, to_stdvec, from_bytes}

  pub read_metadata : Option (List ℕ) → Result (Option Metadata)
  read_metadata none = ok none
  read_metadata (some bytes) = do metadata ← from_bytes bytes; ok (some metadata)

  pub post_bundle_metadata_get : MemEnvironmentStore → List ℕ → Result (Option Metadata)
  unfolding read_metadata
  post_bundle_metadata_get s location_id = read_metadata (get s.post_bundle_metadata location_id)

  pub post_bundle_metadata_put :
      MemEnvironmentStore → List ℕ → Metadata → Result MemEnvironmentStore
  post_bundle_metadata_put s location_id metadata = do
    bytes ← to_stdvec metadata
    ok (record s { post_bundle_metadata = insert s.post_bundle_metadata location_id bytes })

pub post_bundle_bytes_get : MemEnvironmentStore → List ℕ → Option (List ℕ)
post_bundle_bytes_get s location_id = get s.post_bundle_bytes location_id

pub post_bundle_bytes_put : MemEnvironmentStore → List ℕ → List ℕ → MemEnvironmentStore
post_bundle_bytes_put s location_id bytes = record s {
  post_bundle_bytes = insert s.post_bundle_bytes location_id bytes;
}

-- The order of `[u8; 32]`, by which a `BTreeMap` is sorted.
unfoldable pub bytes_lt : List ℕ → List ℕ → Bool
bytes_lt [] [] = false
bytes_lt [] (y ∷ ys) = true
bytes_lt (x ∷ xs) [] = false
bytes_lt (x ∷ xs) (y ∷ ys) = let rest = bytes_lt xs ys in if x == y then rest else ltb x y

pub btree_insert : Map (List ℕ) → List ℕ → List ℕ → Map (List ℕ)
unfolding bytes_lt
btree_insert [] key v = (key, v) ∷ []
btree_insert (x ∷ m) key v =
    let rest = btree_insert m key v in
    if bytes_eq x.0 key
    then (key, v) ∷ m
    else if bytes_lt key x.0
    then (key, v) ∷ x ∷ m
    else x ∷ rest

pub flush_loop : Map (List ℕ) → List (List ℕ × ℤ) → Map (List ℕ)
unfolding btree_insert
flush_loop m [] = m
flush_loop m (x ∷ xs) = flush_loop (btree_insert m x.0 (encode_be x.1)) xs

pub post_bundles_last_accessed_flush : MemEnvironmentStore → List (List ℕ × ℤ) → MemEnvironmentStore
unfolding flush_loop
post_bundles_last_accessed_flush s accessed = record s {
  post_bundle_last_accessed = flush_loop s.post_bundle_last_accessed accessed;
}

pub delete_one : MemEnvironmentStore → List ℕ → MemEnvironmentStore
delete_one s location_id = record s {
  post_bundle_metadata = remove s.post_bundle_metadata location_id;
  post_bundle_last_accessed = remove s.post_bundle_last_accessed location_id;
  post_bundle_bytes = remove s.post_bundle_bytes location_id;
  post_bundle_feedbacks = remove s.post_bundle_feedbacks location_id;
}

pub post_bundles_delete : MemEnvironmentStore → List (List ℕ) → MemEnvironmentStore
unfolding delete_one
post_bundles_delete s [] = s
post_bundles_delete s (location_id ∷ location_ids) =
    post_bundles_delete (delete_one s location_id) location_ids

-- `range(location_id..)` and `range(..location_id)`.
pub range_from : Map (List ℕ) → List ℕ → Map (List ℕ)
unfolding bytes_lt
range_from [] location_id = []
range_from (x ∷ m) location_id =
    let rest = range_from m location_id in if bytes_lt x.0 location_id then rest else x ∷ rest

pub range_to : Map (List ℕ) → List ℕ → Map (List ℕ)
unfolding bytes_lt
range_to [] location_id = []
range_to (x ∷ m) location_id =
    let rest = range_to m location_id in if bytes_lt x.0 location_id then x ∷ rest else rest

pub post_bundles_last_accessed_iter : MemEnvironmentStore → List ℕ → Map (List ℕ)
unfolding range_from range_to
post_bundles_last_accessed_iter s location_id =
    range_from s.post_bundle_last_accessed location_id
    ++ range_to s.post_bundle_last_accessed location_id

pub config_get_bytes : MemEnvironmentStore → List ℕ → Option (List ℕ)
config_get_bytes s key = get s.config key

pub config_put_bytes : MemEnvironmentStore → List ℕ → List ℕ → MemEnvironmentStore
config_put_bytes s key v = record s { config = insert s.config key v }

pub encode_loop : List ℕ → List EncodedPostFeedback → Result (List ℕ)
encode_loop bytes [] = ok bytes
encode_loop bytes (f ∷ fs) = do bytes' ← append_encode_to_bytes f bytes; encode_loop bytes' fs

pub post_bundle_feedbacks_bytes_get : MemEnvironmentStore → List ℕ → Result (List ℕ)
unfolding encode_loop
post_bundle_feedbacks_bytes_get s location_id =
    encode_loop [] (or_default (get s.post_bundle_feedbacks location_id) [])

-- The first entry for the post and the kind is overwritten if it is weaker.
pub put_entry : List EncodedPostFeedback → EncodedPostFeedback → List EncodedPostFeedback
put_entry [] new_entry = new_entry ∷ []
put_entry (f ∷ fs) new_entry =
    let rest = put_entry fs new_entry in
    if same_key new_entry.post_id new_entry.feedback_type f
    then (if leb new_entry.pow f.pow then f ∷ fs else new_entry ∷ fs)
    else f ∷ rest

pub post_feedback_put_if_more_powerful :
    MemEnvironmentStore → List ℕ → EncodedPostFeedback → MemEnvironmentStore
unfolding put_entry
post_feedback_put_if_more_powerful s location_id f = record s {
  post_bundle_feedbacks =
      insert s.post_bundle_feedbacks location_id
        (put_entry (or_default (get s.post_bundle_feedbacks location_id) []) f);
}
