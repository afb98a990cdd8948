-- ===== src/Cache/Examples.antt =====
-- A cache of one location with room for one bundle, and the theorems at it.
use mathlib.Core.List.Perm
use hashiverse.Prelude.{
  ℕ, ◌≤◌, ◌≡◌, ◌⊎◌, bytes_eq, refl, false, none, some, List, [], ◌∷◌, length, replicate,
}
use hashiverse.Prelude.Int.{pos, saturate, ◌+ℤ◌}
use hashiverse.Time.{add_duration}
use hashiverse.Assoc.{Map, get, insert, or_default}
use hashiverse.Crypto.Toy.{toy}
use hashiverse.Buckets.{BucketType, BucketLocation}
use hashiverse.Cache.{
  CachedBundle, LocationEntry, PostBundleCache, CacheRequestToken, HashOrder, Signer,
  should_issue_token, counted, is_some, Looked, GetCacheResult, look, answer, on_upload,
  contains_key, expiry, new_token,
}
use hashiverse.Cache.Evict.{LeftOf, on_upload-IsBounded}
use hashiverse.Cache.Tokens.{Calls, no_second_token}

abbrev in_order : HashOrder
in_order = record { iter = λ m. m; iter-perm = λ m. Perm.refl m }

abbrev signer : Signer
signer = record { Peer = List ℕ; peer_id = λ p. p; SignatureKey = ℕ; sign = λ key hash. key ∷ hash }

abbrev place : BucketLocation
place = record {
  bucket_type = BucketType.user;
  base_id = replicate 32 9;
  duration = 3600000;
  bucket_time_millis = pos 7200000;
  location_id = 7 ∷ [];
}

abbrev stored : CachedBundle
stored = record { bytes = 1 ∷ 2 ∷ []; expires_at = none }

abbrev hot : LocationEntry
hot = record { bundles = ((6 ∷ []), stored) ∷ []; hit_count = 9 }

abbrev cache : PostBundleCache
cache = record { max_originators_per_location = 1; bundles = ((7 ∷ []), hot) ∷ []; inflight = [] }

held : get cache.bundles (7 ∷ []) ≡ some hot
unfolding get bytes_eq
held = refl

-- The uploaded bundle is of a peer further from the location, and is evicted itself.
on_upload-IsBounded_example :
    (m : Map CachedBundle) × (get
        (on_upload in_order cache (7 ∷ []) (200 ∷ []) (5 ∷ []) (pos 0) false).0.bundles
        (7 ∷ [])
      ≡ some (record hot { bundles = m }))
    × ((on_upload in_order cache (7 ∷ []) (200 ∷ []) (5 ∷ []) (pos 0) false).1
        ≡ contains_key m (200 ∷ []))
    × (length m ≤ 1)
    × LeftOf m (
        insert hot.bundles
          (200 ∷ [])
          (record { bytes = 5 ∷ []; expires_at = expiry false (pos 0) }))
    × ((1 ≤ length hot.bundles)
        ⊎ (m
            ≡ insert hot.bundles
                (200 ∷ [])
                (record { bytes = 5 ∷ []; expires_at = expiry false (pos 0) })))
on_upload-IsBounded_example =
    on_upload-IsBounded in_order cache (7 ∷ []) (200 ∷ []) (5 ∷ []) (pos 0) false hot held

abbrev issued : CacheRequestToken (List ℕ)
issued = new_token toy signer (3 ∷ []) place (pos 1030000) ((6 ∷ []) ∷ []) 4

abbrev seen : PostBundleCache × Looked
seen = look toy signer in_order cache (7 ∷ []) [] (pos 1000000)

tenth_hit :
    (answer toy signer in_order seen.0 place seen.1 (3 ∷ []) 4 (pos 1000000)).1.cache_request_token
    ≡ some issued
unfolding look answer should_issue_token counted get bytes_eq or_default contains_key is_some
    add_duration saturate ◌+ℤ◌
tenth_hit = refl

no_second_token_example :
    (answer toy signer in_order
      (answer toy signer in_order seen.0 place seen.1 (3 ∷ []) 4 (pos 1000000)).0
      place
      (look toy signer in_order
        (answer toy signer in_order seen.0 place seen.1 (3 ∷ []) 4 (pos 1000000)).0
        (7 ∷ [])
        []
        (pos 1000001)).1
      (3 ∷ [])
      4
      (pos 1000001)).1.cache_request_token
    ≡ none
no_second_token_example =
    no_second_token toy signer in_order seen.0
      (answer toy signer in_order seen.0 place seen.1 (3 ∷ []) 4 (pos 1000000)).0
      (answer toy signer in_order seen.0 place seen.1 (3 ∷ []) 4 (pos 1000000)).0 place place seen.1
      [] (3 ∷ []) (3 ∷ []) 4 4 (pos 1000000) (pos 1000001) (pos 1000001) issued tenth_hit Calls.done
      refl

-- Two gets, the second of which looks before the first answers: both issue the token.
abbrev overlapping : PostBundleCache × Looked
overlapping = look toy signer in_order seen.0 (7 ∷ []) [] (pos 1000000)

abbrev first_answer : PostBundleCache × GetCacheResult (List ℕ)
first_answer = answer toy signer in_order overlapping.0 place seen.1 (3 ∷ []) 4 (pos 1000000)

both_issue :
    (first_answer.1.cache_request_token ≡ some issued)
    × ((answer toy signer in_order first_answer.0 place overlapping.1
          (3 ∷ [])
          4
          (pos 1000000)).1.cache_request_token
        ≡ some issued)
unfolding look answer should_issue_token counted get insert bytes_eq or_default contains_key is_some
    add_duration saturate ◌+ℤ◌
both_issue = (refl, refl)
