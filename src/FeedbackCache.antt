-- ===== src/FeedbackCache.antt =====
-- The cache of feedback bundles on a server that is not responsible for them,
-- hashiverse-rust/hashiverse-server-lib/src/server/post_bundle_feedback_caching.rs: one bundle for a
-- location, in the terms of the cache of post bundles.
mod Upload
mod Examples
use hashiverse.Prelude.{
  ℕ, ◌+◌, ◌*◌, ◌%◌, ◌^◌, leb, if◌then◌else◌, Bool, ◌&&◌, not, true, false, Option, none, some, List,
  [], ◌∷◌, map, length,
}
use hashiverse.Prelude.Int.{ℤ, pos}
use hashiverse.Assoc.{Map, get, insert, or_default}
use hashiverse.Time.{add_duration}
use hashiverse.Buckets.{BucketLocation}
use hashiverse.Crypto.{Crypto}
use hashiverse.Cache.{
  CachedBundle, GetCacheResult, Signer, cache_hit_threshold, cache_request_token_ttl, contains_key,
  expiry, fresh_items, new_token,
}

abbrev pub placeholder_weight : ℕ
placeholder_weight = 8 * 1024

pub record FeedbackLocationEntry : Type 0 where
  pub bundle : Option (List ℕ × CachedBundle)
  pub hit_count : ℕ

unfoldable pub placeholder : FeedbackLocationEntry
placeholder = record { bundle = none; hit_count = 0 }

unfoldable pub weight_of : Option (List ℕ × CachedBundle) → ℕ
weight_of none = placeholder_weight
weight_of (some x) = length x.1.bytes % 2 ^ 32

unfoldable pub weight : FeedbackLocationEntry → ℕ
weight entry = weight_of entry.bundle

pub record PostBundleFeedbackCache : Type 0 where
  pub bundles : Map FeedbackLocationEntry
  pub inflight : Map (Unit {0})

unfoldable pub new_cache : PostBundleFeedbackCache
new_cache = record { bundles = []; inflight = [] }

-- `Option::iter`.
unfoldable pub entries : Option (List ℕ × CachedBundle) → Map CachedBundle
entries none = []
entries (some x) = x ∷ []

unfoldable pub counted : FeedbackLocationEntry → FeedbackLocationEntry
counted entry = record entry { hit_count = (entry.hit_count + 1) % 2 ^ 32 }

unfoldable pub should_issue_token : PostBundleFeedbackCache → FeedbackLocationEntry → List ℕ → Bool
should_issue_token s entry location_id =
    leb cache_hit_threshold entry.hit_count && not (contains_key s.inflight location_id)

module _ (C : Crypto) (S : Signer) where
  -- A get that no other call comes between.
  unfoldable pub on_get :
      PostBundleFeedbackCache
      → BucketLocation
      → List (List ℕ)
      → S.Peer
      → S.SignatureKey
      → ℤ
      → PostBundleFeedbackCache × GetCacheResult S.Peer
  on_get s location already_retrieved peer_self key now =
      let id = location.location_id in
      let entry = counted (or_default (get s.bundles id) placeholder) in
      let s' = record s { bundles = insert s.bundles id entry } in
      let items = fresh_items (entries entry.bundle) already_retrieved now in
      if should_issue_token s entry id
      then (
        record s' { inflight = insert s.inflight id tt },
        record {
          cached_items = items;
          cache_request_token = some (
              new_token C S peer_self location (add_duration now (pos cache_request_token_ttl))
                (map (λ (x : List ℕ × CachedBundle). x.0) (entries entry.bundle)) key);
        },
      )
      else (s', record { cached_items = items; cache_request_token = none })

unfoldable pub upload_to :
    PostBundleFeedbackCache
    → Option FeedbackLocationEntry
    → List ℕ
    → List ℕ
    → CachedBundle
    → PostBundleFeedbackCache × Bool
upload_to s none location_id originator bundle = (s, false)
upload_to s (some entry) location_id originator bundle = (
  record s {
    bundles = insert s.bundles location_id (record entry { bundle = some (originator, bundle) });
  },
  true,
)

unfoldable pub on_upload :
    PostBundleFeedbackCache → List ℕ → List ℕ → List ℕ → ℤ → Bool → PostBundleFeedbackCache × Bool
on_upload s location_id originator bytes server_time is_sealed =
    upload_to s (get s.bundles location_id) location_id originator
      (record { bytes = bytes; expires_at = expiry is_sealed server_time })
