-- ===== src/Pen/Examples.antt =====
-- A post for a hashtag, written half a minute ago.
use hashiverse.Prelude.{◌≡◌, refl, true, [], ◌∷◌, ◌++◌, replicate}
use hashiverse.Prelude.Int.{pos, leb_ℤ, saturate, ◌-ℤ◌}
use hashiverse.Time.{sub_duration}
use hashiverse.Buckets.{BucketType, BucketLocation}
use hashiverse.Pen.{add_all, get_matching_posts, recent_posts_pen_ttl}
use hashiverse.Pen.Added.{posts_of, get_matching_posts-add_all}

abbrev place : BucketLocation
place = record {
  bucket_type = BucketType.hashtag;
  base_id = replicate 32 9;
  duration = 3600000;
  bucket_time_millis = pos 7200000;
  location_id = replicate 32 1;
}

recent : leb_ℤ (sub_duration (pos 7330000) (pos recent_posts_pen_ttl)) (pos 7300000) ≡ true
unfolding sub_duration saturate ◌-ℤ◌
recent = refl

get_matching_posts-add_all_example :
    (get_matching_posts
      (add_all [] ((place, 4 ∷ []) ∷ []) (1 ∷ 2 ∷ []) (pos 7300000))
      BucketType.hashtag
      (replicate 32 9)
      []
      (pos 7330000)).1
    ≡ (get_matching_posts [] BucketType.hashtag (replicate 32 9) [] (pos 7330000)).1
      ++ posts_of ((place, 4 ∷ []) ∷ []) (1 ∷ 2 ∷ []) BucketType.hashtag (replicate 32 9) []
get_matching_posts-add_all_example =
    get_matching_posts-add_all [] ((place, 4 ∷ []) ∷ []) (1 ∷ 2 ∷ []) (pos 7300000) (pos 7330000)
      BucketType.hashtag (replicate 32 9) [] recent
