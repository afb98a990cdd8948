-- ===== src/Buckets/Examples.antt =====
-- Buckets at concrete durations and time stamps.
use hashiverse.Prelude.{ℕ, ◌+◌, ◌≤◌, ◌<◌, ◌≡◌, refl, [], ◌∷◌, ◌++◌, ok, replicate}
use hashiverse.Prelude.Int.{pos, negsuc, ◌*ℤ◌, ◌-ℤ◌}
use hashiverse.Time.{div_trunc, encode_be}
use hashiverse.Crypto.{hash_multiple}
use hashiverse.Crypto.Toy.{toy}
use hashiverse.Buckets.{
  bucket_durations, tail, BucketType, BucketLocation, round_down_to_bucket_start, type_byte, new,
  bucket_durations_for_type,
}
use hashiverse.Buckets.Start.{finer_within_coarser}

-- Rounding is towards zero, so before 1970 the start is after the time stamp.
rounded_before_1970 : round_down_to_bucket_start (negsuc 59) 100 ≡ ok (pos 0)
unfolding round_down_to_bucket_start ◌*ℤ◌ div_trunc ◌-ℤ◌
rounded_before_1970 = refl

abbrev in_a_week : BucketLocation
in_a_week = record {
  bucket_type = BucketType.hashtag;
  base_id = replicate 32 7;
  duration = 604800000;
  bucket_time_millis = pos 604800000;
  location_id =
      hash_multiple toy
        ((1 ∷ []) ∷ replicate 32 7 ∷ encode_be (pos 604800000) ∷ encode_be (pos 604800000) ∷ []);
}

new_week : new toy BucketType.hashtag (replicate 32 7) 604800000 (pos 700000000) ≡ ok in_a_week
unfolding new round_down_to_bucket_start ◌*ℤ◌ div_trunc type_byte
new_week = refl

month_to_week :
    bucket_durations_for_type BucketType.mention
    ≡ [] ++ (2419200000 ∷ 604800000 ∷ tail (tail (tail bucket_durations)))
unfolding bucket_durations_for_type bucket_durations tail
month_to_week = refl

finer_within_coarser_example :
    (a : ℕ) × (b : ℕ) × (round_down_to_bucket_start (pos 5000000000) 2419200000 ≡ ok (pos a))
    × (round_down_to_bucket_start (pos 5000000000) 604800000 ≡ ok (pos b))
    × (round_down_to_bucket_start (pos b) 2419200000 ≡ ok (pos a))
    × (a ≤ b)
    × (b ≤ 5000000000)
    × (5000000000 < b + 604800000)
    × (b + 604800000 ≤ a + 2419200000)
finer_within_coarser_example =
    finer_within_coarser BucketType.mention [] (tail (tail (tail bucket_durations))) 2419200000
      604800000 5000000000 month_to_week
