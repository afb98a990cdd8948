-- ===== src/Store/Delete.antt =====
-- That deletion takes every trace of a location away, and nothing else.
use hashiverse.Prelude.{
  ℕ, ◌≡◌, refl, ◌∙◌, if◌then◌else◌, Bool, true, false, bytes_eq, none, List, [], ◌∷◌, ◌||◌,
}
use hashiverse.Assoc.{get}
use hashiverse.Assoc.Laws.{get-remove}
use hashiverse.Store.{MemEnvironmentStore, delete_one, post_bundles_delete}

abbrev pub contains : List (List ℕ) → List ℕ → Bool
contains [] key = false
contains (x ∷ xs) key = bytes_eq x key || contains xs key

-- What a store holds of a location, of the four maps that are by location.
pub record Traces (s t : MemEnvironmentStore) (gone : Bool) (key : List ℕ) : Type 0 where
  pub metadata :
      get t.post_bundle_metadata key ≡ (if gone then none else get s.post_bundle_metadata key)
  pub last_accessed :
      get t.post_bundle_last_accessed key
      ≡ (if gone then none else get s.post_bundle_last_accessed key)
  pub bytes : get t.post_bundle_bytes key ≡ (if gone then none else get s.post_bundle_bytes key)
  pub feedbacks :
      get t.post_bundle_feedbacks key ≡ (if gone then none else get s.post_bundle_feedbacks key)
  pub config : t.config ≡ s.config

delete_one-Traces :
    (s : MemEnvironmentStore) (location_id key : List ℕ)
    → Traces s (delete_one s location_id) (bytes_eq location_id key) key
unfolding delete_one
delete_one-Traces s location_id key = record {
  metadata = get-remove s.post_bundle_metadata location_id key;
  last_accessed = get-remove s.post_bundle_last_accessed location_id key;
  bytes = get-remove s.post_bundle_bytes location_id key;
  feedbacks = get-remove s.post_bundle_feedbacks location_id key;
  config = refl;
}

if_or {ℓ} :
    {A : Type ℓ} (a b : Bool) (x y : A)
    → (if b then x else if a then x else y) ≡ (if a || b then x else y)
if_or true true x y = refl
if_or true false x y = refl
if_or false true x y = refl
if_or false false x y = refl

Traces-trans :
    {s t u : MemEnvironmentStore} {a b : Bool} {key : List ℕ}
    → Traces s t a key
    → Traces t u b key
    → Traces s u (a || b) key
Traces-trans {a = a} {b = b} p q = record {
  metadata = q.metadata ∙ rw p.metadata (if_or a b none _);
  last_accessed = q.last_accessed ∙ rw p.last_accessed (if_or a b none _);
  bytes = q.bytes ∙ rw p.bytes (if_or a b none _);
  feedbacks = q.feedbacks ∙ rw p.feedbacks (if_or a b none _);
  config = q.config ∙ p.config;
}

-- After `post_bundles_delete` no map holds anything for the locations that were given, and all that
-- the maps and the configuration hold besides is as before.
pub post_bundles_delete-Traces :
    (s : MemEnvironmentStore) (location_ids : List (List ℕ)) (key : List ℕ)
    → Traces s (post_bundles_delete s location_ids) (contains location_ids key) key
unfolding post_bundles_delete
post_bundles_delete-Traces s [] key = record {
  metadata = refl;
  last_accessed = refl;
  bytes = refl;
  feedbacks = refl;
  config = refl;
}
post_bundles_delete-Traces s (location_id ∷ location_ids) key =
    Traces-trans (delete_one-Traces s location_id key)
      (post_bundles_delete-Traces (delete_one s location_id) location_ids key)
