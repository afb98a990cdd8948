-- ===== src/Buckets.antt =====
-- The places at which posts are stored, hashiverse-rust/hashiverse-lib/src/tools/buckets.rs.
pub mod Start
mod Examples
use hashiverse.Prelude.{
  ℕ, zero, ◌*◌, ◌==◌, if◌then◌else◌, bytes_eq, List, [], ◌∷◌, Result, ok, err, panic, mismatch,
  ◌>>=◌, ◌>>◌, ensure,
}
use hashiverse.Prelude.Int.{ℤ, pos, negsuc, ◌*ℤ◌}
use hashiverse.Time.{
  encode_be, div_trunc, millis_in_year, millis_in_month, millis_in_week, millis_in_day,
  millis_in_hour, millis_in_minute,
}
use hashiverse.Crypto.{Crypto, hash_multiple}

pub data BucketType : Type 0 where
  user hashtag mention reply_to_post sequel : BucketType

unfoldable pub type_byte : BucketType → ℕ
type_byte BucketType.user = 0
type_byte BucketType.hashtag = 1
type_byte BucketType.mention = 2
type_byte BucketType.reply_to_post = 3
type_byte BucketType.sequel = 4

pub record BucketLocation : Type 0 where
  pub bucket_type : BucketType
  pub base_id : List ℕ
  pub duration : ℕ
  pub bucket_time_millis : ℤ
  pub location_id : List ℕ

-- Durations of buckets are positive; a division by zero panics.
unfoldable pub round_down_to_bucket_start : ℤ → ℕ → Result ℤ
round_down_to_bucket_start timestamp duration =
    if duration == 0 then panic else ok (div_trunc timestamp duration *ℤ pos duration)

module _ (C : Crypto) where
  unfoldable pub get_hash_for_signing : BucketLocation → List ℕ
  get_hash_for_signing b = hash_multiple C (
      (type_byte b.bucket_type ∷ [])
      ∷ b.base_id
      ∷ encode_be (pos b.duration)
      ∷ encode_be b.bucket_time_millis
      ∷ [])

  unfoldable pub new : BucketType → List ℕ → ℕ → ℤ → Result BucketLocation
  new bucket_type base_id duration timestamp = do
    start ← round_down_to_bucket_start timestamp duration
    ok (record {
      bucket_type = bucket_type;
      base_id = base_id;
      duration = duration;
      bucket_time_millis = start;
      location_id = hash_multiple C (
          (type_byte bucket_type ∷ []) ∷ base_id ∷ encode_be (pos duration) ∷ encode_be start ∷ []);
    })

  unfoldable pub validate : BucketLocation → Result (Unit {0})
  validate b = do
    other ← new b.bucket_type b.base_id b.duration b.bucket_time_millis
    ensure (bytes_eq b.location_id other.location_id) mismatch

unfoldable pub bucket_durations : List ℕ
bucket_durations =
    millis_in_year
    ∷ millis_in_month
    ∷ millis_in_week
    ∷ millis_in_day
    ∷ 6 * millis_in_hour
    ∷ millis_in_hour
    ∷ 15 * millis_in_minute
    ∷ 5 * millis_in_minute
    ∷ millis_in_minute
    ∷ []

unfoldable pub tail : List ℕ → List ℕ
tail [] = []
tail (x ∷ xs) = xs

-- All but sequels begin at a month.
unfoldable pub bucket_durations_for_type : BucketType → List ℕ
unfolding bucket_durations tail
bucket_durations_for_type BucketType.user = tail bucket_durations
bucket_durations_for_type BucketType.hashtag = tail bucket_durations
bucket_durations_for_type BucketType.mention = tail bucket_durations
bucket_durations_for_type BucketType.reply_to_post = tail bucket_durations
bucket_durations_for_type BucketType.sequel = bucket_durations
