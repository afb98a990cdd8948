-- ===== src/Pen.antt =====
-- The posts that the client has just written,
-- hashiverse-rust/hashiverse-lib/src/client/timeline/recent_posts_pen.rs. A set of ids is the list of
-- them.
mod Added
mod Examples
use hashiverse.Prelude.{ℕ, ◌*◌, ◌==◌, if◌then◌else◌, Bool, ◌&&◌, not, bytes_eq, List, [], ◌∷◌, ◌++◌}
use hashiverse.Prelude.Int.{ℤ, pos, leb_ℤ}
use hashiverse.Time.{sub_duration, millis_in_minute}
use hashiverse.Buckets.{BucketType, BucketLocation, type_byte}
use hashiverse.Cache.{contains_id}

abbrev pub recent_posts_pen_ttl : ℕ
recent_posts_pen_ttl = 10 * millis_in_minute

pub record PenEntry : Type 0 where
  pub bucket_location : BucketLocation
  pub post_id : List ℕ
  pub encoded_post_bytes : List ℕ
  pub time_millis : ℤ

abbrev pub RecentPostsPen : Type 0
RecentPostsPen = List PenEntry

abbrev pub Post : Type 0
Post = BucketLocation × List ℕ × List ℕ

unfoldable pub add_all :
    RecentPostsPen → List (BucketLocation × List ℕ) → List ℕ → ℤ → RecentPostsPen
add_all pen [] bytes t = pen
add_all pen (p ∷ ps) bytes t =
    add_all
      (pen
        ++ (record {
          bucket_location = p.0;
          post_id = p.1;
          encoded_post_bytes = bytes;
          time_millis = t;
        }
            ∷ []))
      ps bytes t

-- `retain`.
unfoldable pub retain_recent : RecentPostsPen → ℤ → RecentPostsPen
retain_recent [] cutoff = []
retain_recent (e ∷ pen) cutoff =
    let rest = retain_recent pen cutoff in if leb_ℤ cutoff e.time_millis then e ∷ rest else rest

-- Types of buckets are compared by their numbers, which are different.
unfoldable pub is_match : PenEntry → BucketType → List ℕ → List (List ℕ) → Bool
is_match e bucket_type base_id seen =
    type_byte e.bucket_location.bucket_type == type_byte bucket_type
    && bytes_eq e.bucket_location.base_id base_id
    && not (contains_id seen e.post_id)

unfoldable pub matching_loop : RecentPostsPen → BucketType → List ℕ → List (List ℕ) → List Post
matching_loop [] bucket_type base_id seen = []
matching_loop (e ∷ pen) bucket_type base_id seen =
    let rest = matching_loop pen bucket_type base_id seen in
    if is_match e bucket_type base_id seen
    then (e.bucket_location, e.encoded_post_bytes, e.post_id) ∷ rest
    else rest

unfoldable pub get_matching_posts :
    RecentPostsPen → BucketType → List ℕ → List (List ℕ) → ℤ → RecentPostsPen × List Post
get_matching_posts pen bucket_type base_id seen now =
    let kept = retain_recent pen (sub_duration now (pos recent_posts_pen_ttl)) in
    (kept, matching_loop kept bucket_type base_id seen)
