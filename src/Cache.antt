-- ===== src/Cache.antt =====
-- The cache of bundles on a server that is not responsible for them,
-- hashiverse-rust/hashiverse-server-lib/src/server/post_bundle_caching.rs and
-- post_bundle_caching_shared.rs. The two moka caches are maps from which any entry may go at any
-- time. A get is two steps, since it lets the lock of the entry go before it marks the location: other
-- calls may come between. An upload holds that lock to its end, and is one step.
pub mod Evict
pub mod Tokens
mod Examples
use mathlib.Core.List.{Perm}
use hashiverse.Prelude.{
  ℕ, zero, suc, ◌+◌, ◌*◌, ◌%◌, ◌^◌, ltb, leb, ◌==◌, if◌then◌else◌, Bool, ◌&&◌, not, true, false,
  bytes_eq, Option, none, some, List, [], ◌∷◌, ◌++◌, map, length,
}
use hashiverse.Prelude.Int.{ℤ, pos, i64_max, ltb_ℤ, leb_ℤ}
use hashiverse.Agreement.{leading_agreement_bits_xor}
use hashiverse.Assoc.{Map, get, insert, remove, or_default}
use hashiverse.Time.{encode_be, add_duration, millis_in_minute, millis_in_second}
use hashiverse.Buckets.{BucketLocation, get_hash_for_signing}
use hashiverse.Crypto.{Crypto, hash_multiple}

abbrev pub cache_hit_threshold : ℕ
cache_hit_threshold = 10

abbrev pub cache_request_token_ttl : ℕ
cache_request_token_ttl = 30 * millis_in_second

abbrev pub placeholder_weight : ℕ
placeholder_weight = 4 * 1024 * 1024

pub record CachedBundle : Type 0 where
  pub bytes : List ℕ
  pub expires_at : Option ℤ

unfoldable pub is_stale_at : Option ℤ → ℤ → Bool
is_stale_at none now = false
is_stale_at (some expires_at) now = leb_ℤ expires_at now

unfoldable pub is_stale : CachedBundle → ℤ → Bool
is_stale b now = is_stale_at b.expires_at now

pub record LocationEntry : Type 0 where
  pub bundles : Map CachedBundle
  pub hit_count : ℕ

unfoldable pub placeholder : LocationEntry
placeholder = record { bundles = []; hit_count = 0 }

unfoldable pub sum_of_sizes : Map CachedBundle → ℕ
sum_of_sizes [] = 0
sum_of_sizes (x ∷ m) = (length x.1.bytes % 2 ^ 32 + sum_of_sizes m) % 2 ^ 32

unfoldable pub weight : LocationEntry → ℕ
weight entry =
    let total = sum_of_sizes entry.bundles in if total == 0 then placeholder_weight else total

pub record PostBundleCache : Type 0 where
  pub max_originators_per_location : ℕ
  pub bundles : Map LocationEntry
  pub inflight : Map (Unit {0})

unfoldable pub new_cache : ℕ → PostBundleCache
new_cache max = record { max_originators_per_location = max; bundles = []; inflight = [] }

unfoldable pub is_some {ℓ} : {A : Type ℓ} → Option A → Bool
is_some none = false
is_some (some a) = true

unfoldable pub contains_key {ℓ} : {V : Type ℓ} → Map V → List ℕ → Bool
contains_key m key = is_some (get m key)

unfoldable pub contains_id : List (List ℕ) → List ℕ → Bool
contains_id [] id = false
contains_id (x ∷ xs) id = let rest = contains_id xs id in if bytes_eq x id then true else rest

-- The order in which a hash map lists its entries.
pub record HashOrder : Type 1 where
  pub iter : Map CachedBundle → Map CachedBundle
  pub iter-perm : (m : Map CachedBundle) → Perm (iter m) m

-- The server itself, and the signature of its key.
pub record Signer : Type 1 where
  pub Peer : Type 0
  pub peer_id : Peer → List ℕ
  pub SignatureKey : Type 0
  pub sign : SignatureKey → List ℕ → List ℕ

pub record CacheRequestToken (Peer : Type 0) : Type 0 where
  pub peer : Peer
  pub bucket_location : BucketLocation
  pub expires_at : ℤ
  pub already_cached_peer_ids : List (List ℕ)
  pub token_signature : List ℕ

pub record GetCacheResult (Peer : Type 0) : Type 0 where
  pub cached_items : List (List ℕ)
  pub cache_request_token : Option (CacheRequestToken Peer)

-- What a get takes along from the entry.
pub record Looked : Type 0 where
  pub cached_items : List (List ℕ)
  pub already_cached_peer_ids : List (List ℕ)
  pub should_issue : Bool

-- The filter and the map of `on_get`.
unfoldable pub fresh_items : Map CachedBundle → List (List ℕ) → ℤ → List (List ℕ)
fresh_items [] already_retrieved now = []
fresh_items (x ∷ m) already_retrieved now =
    let rest = fresh_items m already_retrieved now in
    if not (contains_id already_retrieved x.0) && not (is_stale x.1 now)
    then x.1.bytes ∷ rest
    else rest

module _ (C : Crypto) (S : Signer) where
  -- "CacheRequestToken" stands in the bytes that are hashed.
  unfoldable pub token_hash : List ℕ → BucketLocation → ℤ → List (List ℕ) → List ℕ
  token_hash peer_id location expires_at ids = hash_multiple C (
      (peer_id
        ∷ get_hash_for_signing C location
        ∷ encode_be expires_at
        ∷ (67 ∷ 97 ∷ 99 ∷ 104 ∷ 101 ∷ 82 ∷ 101 ∷ 113 ∷ 117 ∷ 101 ∷ 115 ∷ 116 ∷ 84 ∷ 111 ∷ 107 ∷ 101
            ∷ 110 ∷ [])
        ∷ [])
      ++ ids)

  unfoldable pub new_token :
      S.Peer → BucketLocation → ℤ → List (List ℕ) → S.SignatureKey → CacheRequestToken S.Peer
  new_token peer location expires_at ids key = record {
    peer = peer;
    bucket_location = location;
    expires_at = expires_at;
    already_cached_peer_ids = ids;
    token_signature = S.sign key (token_hash (S.peer_id peer) location expires_at ids);
  }

  -- `now` is after `expires_at`.
  unfoldable pub is_expired : CacheRequestToken S.Peer → ℤ → Bool
  is_expired token now = ltb_ℤ token.expires_at now

  module _ (H : HashOrder) where
    -- The entry after its hit is counted; `u32` wraps around.
    unfoldable pub counted : LocationEntry → LocationEntry
    counted entry = record entry { hit_count = (entry.hit_count + 1) % 2 ^ 32 }

    unfoldable pub should_issue_token : PostBundleCache → LocationEntry → List ℕ → Bool
    should_issue_token s entry location_id =
        leb cache_hit_threshold entry.hit_count && not (contains_key s.inflight location_id)

    -- Under the lock of the entry.
    unfoldable pub look : PostBundleCache → List ℕ → List (List ℕ) → ℤ → PostBundleCache × Looked
    look s id already_retrieved now =
        let entry = counted (or_default (get s.bundles id) placeholder) in
        (
          record s { bundles = insert s.bundles id entry },
          record {
            cached_items = fresh_items (H.iter entry.bundles) already_retrieved now;
            already_cached_peer_ids =
                map (λ (x : List ℕ × CachedBundle). x.0) (H.iter entry.bundles);
            should_issue = should_issue_token s entry id;
          },
        )

    -- After it: the mark, and the token.
    unfoldable pub answer :
        PostBundleCache
        → BucketLocation
        → Looked
        → S.Peer
        → S.SignatureKey
        → ℤ
        → PostBundleCache × GetCacheResult S.Peer
    answer s location looked peer_self key now =
        if looked.should_issue
        then (
          record s { inflight = insert s.inflight location.location_id tt },
          record {
            cached_items = looked.cached_items;
            cache_request_token = some (
                new_token peer_self location (add_duration now (pos cache_request_token_ttl))
                  looked.already_cached_peer_ids key);
          },
        )
        else (s, record { cached_items = looked.cached_items; cache_request_token = none })

    -- A get that no other call comes between.
    unfoldable pub on_get :
        PostBundleCache
        → BucketLocation
        → List (List ℕ)
        → S.Peer
        → S.SignatureKey
        → ℤ
        → PostBundleCache × GetCacheResult S.Peer
    on_get s location already_retrieved peer_self key now =
        let (s', looked) = look s location.location_id already_retrieved now in
        answer s' location looked peer_self key now

-- `min_by`: less agreement with the location first, then the earlier expiry.
unfoldable pub is_worse : List ℕ → List ℕ × CachedBundle → List ℕ × CachedBundle → Bool
is_worse location_id a b =
    let distance_a = leading_agreement_bits_xor a.0 location_id in
    let distance_b = leading_agreement_bits_xor b.0 location_id in
    if distance_a == distance_b
    then ltb_ℤ (or_default a.1.expires_at i64_max) (or_default b.1.expires_at i64_max)
    else ltb distance_a distance_b

unfoldable pub min_loop : List ℕ → List ℕ × CachedBundle → Map CachedBundle → List ℕ × CachedBundle
min_loop location_id best [] = best
min_loop location_id best (x ∷ m) =
    min_loop location_id (if is_worse location_id x best then x else best) m

unfoldable pub evict_key : List ℕ → Map CachedBundle → Option (List ℕ)
evict_key location_id [] = none
evict_key location_id (x ∷ m) = some (min_loop location_id x m).0

unfoldable pub remove_key : Map CachedBundle → Option (List ℕ) → Map CachedBundle
remove_key m none = m
remove_key m (some key) = remove m key

unfoldable pub expiry : Bool → ℤ → Option ℤ
expiry true server_time = none
expiry false server_time = some (add_duration server_time (pos (5 * millis_in_minute)))

module _ (H : HashOrder) where
  -- A round for each entry is enough.
  unfoldable pub evict_loop : ℕ → List ℕ → ℕ → Map CachedBundle → Map CachedBundle
  evict_loop zero location_id max m = m
  evict_loop (suc rounds) location_id max m =
      let rest =
        evict_loop rounds location_id max (remove_key m (evict_key location_id (H.iter m))) in
      if ltb max (length m) then rest else m

  unfoldable pub uploaded : ℕ → LocationEntry → List ℕ → List ℕ → CachedBundle → Map CachedBundle
  uploaded max entry location_id originator bundle =
      let m = insert entry.bundles originator bundle in evict_loop (length m) location_id max m

  unfoldable pub upload_to :
      PostBundleCache
      → Option LocationEntry
      → List ℕ
      → List ℕ
      → CachedBundle
      → PostBundleCache × Bool
  upload_to s none location_id originator bundle = (s, false)
  upload_to s (some entry) location_id originator bundle =
      let m = uploaded s.max_originators_per_location entry location_id originator bundle in
      (
        record s { bundles = insert s.bundles location_id (record entry { bundles = m }) },
        contains_key m originator,
      )

  unfoldable pub on_upload :
      PostBundleCache → List ℕ → List ℕ → List ℕ → ℤ → Bool → PostBundleCache × Bool
  on_upload s location_id originator bytes server_time is_sealed =
      upload_to s (get s.bundles location_id) location_id originator
        (record { bytes = bytes; expires_at = expiry is_sealed server_time })

-- moka lets an entry go, or a mark whose time has come.
unfoldable pub forget_bundles : PostBundleCache → List ℕ → PostBundleCache
forget_bundles s location_id = record s { bundles = remove s.bundles location_id }

unfoldable pub forget_inflight : PostBundleCache → List ℕ → PostBundleCache
forget_inflight s location_id = record s { inflight = remove s.inflight location_id }
