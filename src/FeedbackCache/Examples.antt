-- ===== src/FeedbackCache/Examples.antt =====
-- A sealed bundle that is uploaded to a location that was asked for.
use hashiverse.Prelude.{ℕ, none, List, [], ◌∷◌, replicate}
use hashiverse.Prelude.Int.{pos}
use hashiverse.Buckets.{BucketType, BucketLocation}
use hashiverse.Cache.{Signer}
use hashiverse.FeedbackCache.{PostBundleFeedbackCache, FeedbackLocationEntry}

abbrev signer : Signer
signer = record { Peer = List ℕ; peer_id = λ p. p; SignatureKey = ℕ; sign = λ key hash. key ∷ hash }

abbrev place : BucketLocation
place = record {
  bucket_type = BucketType.user;
  base_id = replicate 32 9;
  duration = 3600000;
  bucket_time_millis = pos 7200000;
  location_id = 7 ∷ [];
}

abbrev asked : FeedbackLocationEntry
asked = record { bundle = none; hit_count = 10 }

abbrev cache : PostBundleFeedbackCache
cache = record { bundles = ((7 ∷ []), asked) ∷ []; inflight = [] }
