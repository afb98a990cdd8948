-- ===== src/Pen/Added.antt =====
-- That a timeline shows the posts that were just written.
use mathlib.Core.List.{append-nil, append_assoc}
use hashiverse.Prelude.{
  ℕ, ◌==◌, ◌≡◌, refl, sym, ap, ◌∙◌, true, Bool-cases, inl, inr, if◌then◌else◌, ◌&&◌, not, bytes_eq,
  List, [], ◌∷◌, ◌++◌,
}
use hashiverse.Prelude.Int.{ℤ, pos, leb_ℤ}
use hashiverse.Time.{sub_duration}
use hashiverse.Buckets.{BucketType, BucketLocation, type_byte}
use hashiverse.Cache.{contains_id}
use hashiverse.Pen.{
  RecentPostsPen, PenEntry, Post, add_all, retain_recent, is_match, matching_loop,
  get_matching_posts, recent_posts_pen_ttl,
}

-- The posts of a timeline among those that a call adds, read off the call's arguments.
pub posts_of :
    List (BucketLocation × List ℕ) → List ℕ → BucketType → List ℕ → List (List ℕ) → List Post
posts_of [] bytes bucket_type base_id seen = []
posts_of (p ∷ ps) bytes bucket_type base_id seen =
    let rest = posts_of ps bytes bucket_type base_id seen in
    if type_byte p.0.bucket_type == type_byte bucket_type
      && bytes_eq p.0.base_id base_id
      && not (contains_id seen p.1)
    then (p.0, bytes, p.1) ∷ rest
    else rest

retain_recent-append :
    (a b : RecentPostsPen) (cutoff : ℤ)
    → retain_recent (a ++ b) cutoff ≡ retain_recent a cutoff ++ retain_recent b cutoff
unfolding retain_recent
retain_recent-append [] b cutoff = refl
retain_recent-append (e ∷ a) b cutoff = elim (Bool-cases (leb_ℤ cutoff e.time_millis)) [
  | inl h ↦ rw (h, retain_recent-append a b cutoff) refl
  | inr h ↦ rw (h, retain_recent-append a b cutoff) refl
]

matching_loop-append :
    (a b : RecentPostsPen) (bucket_type : BucketType) (base_id : List ℕ) (seen : List (List ℕ))
    → matching_loop (a ++ b) bucket_type base_id seen
      ≡ matching_loop a bucket_type base_id seen ++ matching_loop b bucket_type base_id seen
unfolding matching_loop
matching_loop-append [] b bucket_type base_id seen = refl
matching_loop-append (e ∷ a) b bucket_type base_id seen =
    elim (Bool-cases (is_match e bucket_type base_id seen)) [
      | inl h ↦ rw (h, matching_loop-append a b bucket_type base_id seen) refl
      | inr h ↦ rw (h, matching_loop-append a b bucket_type base_id seen) refl
    ]

-- The posts of a pen that are not too old.
abbrev recent_posts : RecentPostsPen → ℤ → BucketType → List ℕ → List (List ℕ) → List Post
recent_posts pen cutoff bucket_type base_id seen =
    matching_loop (retain_recent pen cutoff) bucket_type base_id seen

recent_posts-append :
    (a b : RecentPostsPen) (cutoff : ℤ) (bucket_type : BucketType) (base_id : List ℕ)
    (seen : List (List ℕ))
    → recent_posts (a ++ b) cutoff bucket_type base_id seen
      ≡ recent_posts a cutoff bucket_type base_id seen
        ++ recent_posts b cutoff bucket_type base_id seen
recent_posts-append a b cutoff bucket_type base_id seen = rw (retain_recent-append a b cutoff) (
    matching_loop-append (retain_recent a cutoff) (retain_recent b cutoff) bucket_type base_id seen)

abbrev entry_for : BucketLocation × List ℕ → List ℕ → ℤ → PenEntry
entry_for p bytes t = record {
  bucket_location = p.0;
  post_id = p.1;
  encoded_post_bytes = bytes;
  time_millis = t;
}

one_post :
    (p : BucketLocation × List ℕ) (ps : List (BucketLocation × List ℕ)) (bytes : List ℕ)
    (t cutoff : ℤ) (bucket_type : BucketType) (base_id : List ℕ) (seen : List (List ℕ))
    → leb_ℤ cutoff t ≡ true
    → recent_posts (entry_for p bytes t ∷ []) cutoff bucket_type base_id seen
        ++ posts_of ps bytes bucket_type base_id seen
      ≡ posts_of (p ∷ ps) bytes bucket_type base_id seen
unfolding posts_of retain_recent matching_loop is_match
one_post p ps bytes t cutoff bucket_type base_id seen h =
    rw h (elim (Bool-cases (is_match (entry_for p bytes t) bucket_type base_id seen)) [
      | inl e ↦ rw e refl
      | inr e ↦ rw e refl
    ])

recent_posts-add_all :
    (pen : RecentPostsPen) (ps : List (BucketLocation × List ℕ)) (bytes : List ℕ) (t cutoff : ℤ)
    (bucket_type : BucketType) (base_id : List ℕ) (seen : List (List ℕ))
    → leb_ℤ cutoff t ≡ true
    → recent_posts (add_all pen ps bytes t) cutoff bucket_type base_id seen
      ≡ recent_posts pen cutoff bucket_type base_id seen
        ++ posts_of ps bytes bucket_type base_id seen
unfolding add_all posts_of
recent_posts-add_all pen [] bytes t cutoff bucket_type base_id seen h = sym (append-nil _)
recent_posts-add_all pen (p ∷ ps) bytes t cutoff bucket_type base_id seen h =
    recent_posts-add_all _ ps bytes t cutoff bucket_type base_id seen h
    ∙ rw (recent_posts-append pen (entry_for p bytes t ∷ []) cutoff bucket_type base_id seen) (
        append_assoc (recent_posts pen cutoff bucket_type base_id seen) _ _
        ∙ ap (λ (z : List Post). recent_posts pen cutoff bucket_type base_id seen ++ z)
            (one_post p ps bytes t cutoff bucket_type base_id seen h))

-- While the posts that a call of `add_all` adds are no older than the time to live, the timeline of
-- a type and an id gets, in order, what it got before and then those of the added posts that are
-- for it and that it has not seen.
pub get_matching_posts-add_all :
    (pen : RecentPostsPen) (ps : List (BucketLocation × List ℕ)) (bytes : List ℕ) (t now : ℤ)
    (bucket_type : BucketType) (base_id : List ℕ) (seen : List (List ℕ))
    → leb_ℤ (sub_duration now (pos recent_posts_pen_ttl)) t ≡ true
    → (get_matching_posts (add_all pen ps bytes t) bucket_type base_id seen now).1
      ≡ (get_matching_posts pen bucket_type base_id seen now).1
        ++ posts_of ps bytes bucket_type base_id seen
unfolding get_matching_posts
get_matching_posts-add_all pen ps bytes t now bucket_type base_id seen h =
    recent_posts-add_all pen ps bytes t (sub_duration now (pos recent_posts_pen_ttl)) bucket_type
      base_id seen h
