-- ===== src/Rpc.antt =====
-- The frames of the calls between peers, hashiverse-rust/hashiverse-lib/src/protocol/rpc: the kinds of
-- requests and responses (protocol/payload/payload.rs) and the reads that both decoders make.
-- `slice(..n)` with `advance(n)` is one read here.
pub mod Request
pub mod RequestTrip
pub mod RequestChecked
pub mod RequestPassed
pub mod Response
pub mod ResponseTrip
pub mod ResponseRead
pub mod ResponsePassed
mod RequestExamples
mod ResponseExamples
use hashiverse.Prelude.{
  ℕ, ◌+◌, ◌≡◌, leb, ◌==◌, if◌then◌else◌, List, [], ◌∷◌, ◌++◌, length, take, drop, get_elem?, Error,
  unknown, Result, ok, panic, ◌>>=◌, or_fail,
}
use hashiverse.Buffer.{copy_to_bytes}
use hashiverse.Compression.{from_le_bytes}
use hashiverse.FeedbackBundle.{array_from_slice}

pub data PayloadRequestKind : Type 0 where
  error_v1 ping_v1 bootstrap_v1 announce_v1 get_post_bundle_v1 : PayloadRequestKind
  get_post_bundle_feedback_v1 submit_post_claim_v1 submit_post_commit_v1 : PayloadRequestKind
  submit_post_feedback_v1 heal_post_bundle_claim_v1 heal_post_bundle_commit_v1 : PayloadRequestKind
  heal_post_bundle_feedback_v1 cache_post_bundle_v1 cache_post_bundle_feedback_v1 :
      PayloadRequestKind
  fetch_url_preview_v1 trending_hashtags_fetch_v1 peer_stats_request_v1 : PayloadRequestKind
  announce_v2 : PayloadRequestKind

-- `as u16`, the place among the variants.
unfoldable pub request_kind_number : PayloadRequestKind → ℕ
request_kind_number PayloadRequestKind.error_v1 = 0
request_kind_number PayloadRequestKind.ping_v1 = 1
request_kind_number PayloadRequestKind.bootstrap_v1 = 2
request_kind_number PayloadRequestKind.announce_v1 = 3
request_kind_number PayloadRequestKind.get_post_bundle_v1 = 4
request_kind_number PayloadRequestKind.get_post_bundle_feedback_v1 = 5
request_kind_number PayloadRequestKind.submit_post_claim_v1 = 6
request_kind_number PayloadRequestKind.submit_post_commit_v1 = 7
request_kind_number PayloadRequestKind.submit_post_feedback_v1 = 8
request_kind_number PayloadRequestKind.heal_post_bundle_claim_v1 = 9
request_kind_number PayloadRequestKind.heal_post_bundle_commit_v1 = 10
request_kind_number PayloadRequestKind.heal_post_bundle_feedback_v1 = 11
request_kind_number PayloadRequestKind.cache_post_bundle_v1 = 12
request_kind_number PayloadRequestKind.cache_post_bundle_feedback_v1 = 13
request_kind_number PayloadRequestKind.fetch_url_preview_v1 = 14
request_kind_number PayloadRequestKind.trending_hashtags_fetch_v1 = 15
request_kind_number PayloadRequestKind.peer_stats_request_v1 = 16
request_kind_number PayloadRequestKind.announce_v2 = 17

abbrev pub request_kinds : List PayloadRequestKind
request_kinds =
    PayloadRequestKind.error_v1 ∷ PayloadRequestKind.ping_v1 ∷ PayloadRequestKind.bootstrap_v1
    ∷ PayloadRequestKind.announce_v1 ∷ PayloadRequestKind.get_post_bundle_v1
    ∷ PayloadRequestKind.get_post_bundle_feedback_v1 ∷ PayloadRequestKind.submit_post_claim_v1
    ∷ PayloadRequestKind.submit_post_commit_v1 ∷ PayloadRequestKind.submit_post_feedback_v1
    ∷ PayloadRequestKind.heal_post_bundle_claim_v1 ∷ PayloadRequestKind.heal_post_bundle_commit_v1
    ∷ PayloadRequestKind.heal_post_bundle_feedback_v1 ∷ PayloadRequestKind.cache_post_bundle_v1
    ∷ PayloadRequestKind.cache_post_bundle_feedback_v1 ∷ PayloadRequestKind.fetch_url_preview_v1
    ∷ PayloadRequestKind.trending_hashtags_fetch_v1 ∷ PayloadRequestKind.peer_stats_request_v1
    ∷ PayloadRequestKind.announce_v2 ∷ []

unfoldable pub request_kind_from_u16 : ℕ → Result PayloadRequestKind
request_kind_from_u16 value = or_fail (get_elem? request_kinds value) unknown

pub data PayloadResponseKind : Type 0 where
  error_response_v1 ping_response_v1 : PayloadResponseKind
  bootstrap_response_v1 announce_response_v1 : PayloadResponseKind
  get_post_bundle_response_v1 get_post_bundle_feedback_response_v1 : PayloadResponseKind
  submit_post_claim_response_v1 submit_post_commit_response_v1 : PayloadResponseKind
  submit_post_feedback_response_v1 heal_post_bundle_claim_response_v1 : PayloadResponseKind
  heal_post_bundle_commit_response_v1 heal_post_bundle_feedback_response_v1 : PayloadResponseKind
  cache_post_bundle_response_v1 cache_post_bundle_feedback_response_v1 : PayloadResponseKind
  fetch_url_preview_response_v1 trending_hashtags_fetch_response_v1 : PayloadResponseKind
  peer_stats_response_v1 announce_response_v2 : PayloadResponseKind

unfoldable pub response_kind_number : PayloadResponseKind → ℕ
response_kind_number PayloadResponseKind.error_response_v1 = 0
response_kind_number PayloadResponseKind.ping_response_v1 = 1
response_kind_number PayloadResponseKind.bootstrap_response_v1 = 2
response_kind_number PayloadResponseKind.announce_response_v1 = 3
response_kind_number PayloadResponseKind.get_post_bundle_response_v1 = 4
response_kind_number PayloadResponseKind.get_post_bundle_feedback_response_v1 = 5
response_kind_number PayloadResponseKind.submit_post_claim_response_v1 = 6
response_kind_number PayloadResponseKind.submit_post_commit_response_v1 = 7
response_kind_number PayloadResponseKind.submit_post_feedback_response_v1 = 8
response_kind_number PayloadResponseKind.heal_post_bundle_claim_response_v1 = 9
response_kind_number PayloadResponseKind.heal_post_bundle_commit_response_v1 = 10
response_kind_number PayloadResponseKind.heal_post_bundle_feedback_response_v1 = 11
response_kind_number PayloadResponseKind.cache_post_bundle_response_v1 = 12
response_kind_number PayloadResponseKind.cache_post_bundle_feedback_response_v1 = 13
response_kind_number PayloadResponseKind.fetch_url_preview_response_v1 = 14
response_kind_number PayloadResponseKind.trending_hashtags_fetch_response_v1 = 15
response_kind_number PayloadResponseKind.peer_stats_response_v1 = 16
response_kind_number PayloadResponseKind.announce_response_v2 = 17

abbrev pub response_kinds : List PayloadResponseKind
response_kinds =
    PayloadResponseKind.error_response_v1 ∷ PayloadResponseKind.ping_response_v1
    ∷ PayloadResponseKind.bootstrap_response_v1 ∷ PayloadResponseKind.announce_response_v1
    ∷ PayloadResponseKind.get_post_bundle_response_v1
    ∷ PayloadResponseKind.get_post_bundle_feedback_response_v1
    ∷ PayloadResponseKind.submit_post_claim_response_v1
    ∷ PayloadResponseKind.submit_post_commit_response_v1
    ∷ PayloadResponseKind.submit_post_feedback_response_v1
    ∷ PayloadResponseKind.heal_post_bundle_claim_response_v1
    ∷ PayloadResponseKind.heal_post_bundle_commit_response_v1
    ∷ PayloadResponseKind.heal_post_bundle_feedback_response_v1
    ∷ PayloadResponseKind.cache_post_bundle_response_v1
    ∷ PayloadResponseKind.cache_post_bundle_feedback_response_v1
    ∷ PayloadResponseKind.fetch_url_preview_response_v1
    ∷ PayloadResponseKind.trending_hashtags_fetch_response_v1
    ∷ PayloadResponseKind.peer_stats_response_v1 ∷ PayloadResponseKind.announce_response_v2 ∷ []

unfoldable pub response_kind_from_u16 : ℕ → Result PayloadResponseKind
response_kind_from_u16 value = or_fail (get_elem? response_kinds value) unknown

-- `get_u16_le` and `get_u32_le` panic on a buffer that is too short.
unfoldable pub get_le : ℕ → List ℕ → Result (ℕ × List ℕ)
unfolding from_le_bytes
get_le n bytes =
    if leb n (length bytes) then ok (from_le_bytes (take n bytes), drop n bytes) else panic

-- `from_slice` of the next `n` bytes.
unfoldable pub read_array : ℕ → List ℕ → Result (List ℕ × List ℕ)
unfolding copy_to_bytes array_from_slice
read_array n bytes = do
  (slice, rest) ← copy_to_bytes n bytes
  array ← array_from_slice n slice
  ok (array, rest)
