-- ===== src/FeedbackBundle/Merge.antt =====
-- What the union of bundles holds.
use hashiverse.Prelude.{
  ℕ, ltb, ◌≤◌, max, ◌≡◌, refl, sym, ap₂, ◌∙◌, arith, ◌==◌, ==_iff, if◌then◌else◌, Bool, true, false,
  Bool-cases, inl, inr, ◌&&◌, bytes_eq, bytes_eq_iff, List, [], ◌∷◌, length, Result, ok, err, panic,
  All, length-take, length-drop, drop,
}
use hashiverse.Feedback.{
  EncodedPostFeedback, View, view_feedback_type, post_id_bytes, salt_bytes, view_pow, iter,
}
use hashiverse.Feedback.Codec.{IsFeedback}
use hashiverse.FeedbackBundle.{
  Bundle, is_vote, same_key, upsert, merge_view, merge_views, array_from_slice, salt_or_zero,
}
use hashiverse.FeedbackBundle.Lookup.{first_pow, count}

-- The slices that `iter` hands out are as long as an entry.
salt_or_zero-size : (bytes : List ℕ) → length (salt_or_zero (array_from_slice 8 bytes)) ≡ 8
unfolding salt_or_zero array_from_slice
salt_or_zero-size bytes = elim (Bool-cases (length bytes == 8)) [
  | inl e ↦ rw e ((==_iff (length bytes) 8).0 e)
  | inr e ↦ rw e refl
]

-- The key of a map, and what a vote adds to it.
pub upsert-IsFeedback :
    (fs : List EncodedPostFeedback) (p : List ℕ) (v : View)
    → length p ≡ 32
    → All IsFeedback fs
    → All IsFeedback (upsert fs p v)
unfolding upsert
upsert-IsFeedback [] p v h a =
    (record { post_id_size = h; salt_size = salt_or_zero-size (salt_bytes v) }, tt)
upsert-IsFeedback (f ∷ fs) p v h a = elim (Bool-cases (same_key p (view_feedback_type v) f)) [
  | inl e ↦ rw e (elim (Bool-cases (ltb f.pow (view_pow v))) [
    | inl e' ↦ rw e' (
      record { post_id_size = a.0.post_id_size; salt_size = salt_or_zero-size (salt_bytes v) },
      a.1,
    )
    | inr e' ↦ rw e' a
  ])
  | inr e ↦ rw e (a.0, upsert-IsFeedback fs p v h a.1)
]

module _ (post_id : List ℕ) (feedback_type : ℕ) where
  unfoldable pub is_key : List ℕ → ℕ → Bool
  is_key p t = (t == feedback_type) && bytes_eq p post_id

  pub same_key-is_key :
      (p : List ℕ) (t : ℕ) (f : EncodedPostFeedback)
      → same_key p t f ≡ true
      → same_key post_id feedback_type f ≡ is_key p t
  unfolding same_key is_key
  same_key-is_key p t f h =
      let et : f.feedback_type ≡ t = ground arith in
      let ep = (bytes_eq_iff f.post_id p).0 (ground arith) in
      ap₂ (λ q u. (u == feedback_type) && bytes_eq q post_id) ep et

  pub same_key-other :
      (p : List ℕ) (t : ℕ) (f : EncodedPostFeedback)
      → same_key p t f ≡ false
      → is_key p t ≡ true
      → same_key post_id feedback_type f ≡ false
  unfolding same_key is_key
  same_key-other p t f h k =
      let et : t ≡ feedback_type = ground arith in
      let ep = (bytes_eq_iff p post_id).0 (ground arith) in
      ap₂ (λ q u. (f.feedback_type == u) && bytes_eq f.post_id q) (sym ep) (sym et) ∙ h

  -- A weaker vote that is overwritten keeps its key, and a new one has the key of the view.
  same_key-overwritten :
      (f : EncodedPostFeedback) (salt : List ℕ) (pow : ℕ)
      → same_key post_id feedback_type (record f { salt = salt; pow = pow })
        ≡ same_key post_id feedback_type f
  unfolding same_key
  same_key-overwritten f salt pow = refl

  same_key-new :
      (p : List ℕ) (t : ℕ) (salt : List ℕ) (pow : ℕ)
      → same_key post_id feedback_type
          (record { post_id = p; feedback_type = t; salt = salt; pow = pow })
        ≡ is_key p t
  unfolding same_key is_key
  same_key-new p t salt pow = refl

  upsert-first_pow :
      (fs : List EncodedPostFeedback) (p : List ℕ) (v : View)
      → first_pow post_id feedback_type (upsert fs p v)
        ≡ max
            (first_pow post_id feedback_type fs)
            (if is_key p (view_feedback_type v) then view_pow v else 0)
  unfolding upsert first_pow
  upsert-first_pow [] p v =
      rw
        (same_key-new p (view_feedback_type v) (salt_or_zero (array_from_slice 8 (salt_bytes v)))
          (view_pow v))
        (ground arith)
  upsert-first_pow (f ∷ fs) p v = ground (
    arith,
    same_key-overwritten f (salt_or_zero (array_from_slice 8 (salt_bytes v))) (view_pow v),
    same_key-is_key p (view_feedback_type v) f,
    same_key-other p (view_feedback_type v) f,
    upsert-first_pow fs p v,
  )

  upsert-count :
      (fs : List EncodedPostFeedback) (p : List ℕ) (v : View)
      → count post_id feedback_type (upsert fs p v) ≡ (
          if is_key p (view_feedback_type v)
          then max 1 (count post_id feedback_type fs)
          else count post_id feedback_type fs)
  unfolding upsert count
  upsert-count [] p v =
      rw
        (same_key-new p (view_feedback_type v) (salt_or_zero (array_from_slice 8 (salt_bytes v)))
          (view_pow v))
        (ground arith)
  upsert-count (f ∷ fs) p v = ground (
    arith,
    same_key-overwritten f (salt_or_zero (array_from_slice 8 (salt_bytes v))) (view_pow v),
    same_key-is_key p (view_feedback_type v) f,
    same_key-other p (view_feedback_type v) f,
    upsert-count fs p v,
  )

  -- The greatest pow of the votes of a kind on a post, in any views.
  unfoldable pub peak : List (Result View) → ℕ
  peak [] = 0
  peak (ok v ∷ vs) = if is_vote post_id feedback_type v then max (view_pow v) (peak vs) else peak vs
  peak (err e ∷ vs) = peak vs
  peak (panic ∷ vs) = peak vs

  unfoldable pub peak_of_bundles : {Peer : Type 0} → List (Bundle Peer) → ℕ
  peak_of_bundles [] = 0
  peak_of_bundles (b ∷ bs) = max (peak (iter b.feedbacks_bytes)) (peak_of_bundles bs)

  -- Every view of the list is as long as an entry.
  abbrev pub AreViews : List (Result View) → Type 0
  AreViews = All (λ r. (v : View) → r ≡ ok v → length v ≡ 43)

  view_key :
      (v : View) → length v ≡ 43 → array_from_slice 32 (post_id_bytes v) ≡ ok (post_id_bytes v)
  unfolding array_from_slice post_id_bytes
  view_key v h = ground (arith, length-take 32 (drop 1 v), length-drop 1 v)

  merge_view-first_pow :
      (fs : List EncodedPostFeedback) (v : View)
      → length v ≡ 43
      → first_pow post_id feedback_type (merge_view fs (ok v))
        ≡ max
            (first_pow post_id feedback_type fs)
            (if is_vote post_id feedback_type v then view_pow v else 0)
  unfolding merge_view is_vote is_key
  merge_view-first_pow fs v h =
      rw (view_key v h, merge_view) (upsert-first_pow fs (post_id_bytes v) v)

  pub merge_views-first_pow :
      (fs : List EncodedPostFeedback) (vs : List (Result View))
      → AreViews vs
      → first_pow post_id feedback_type (merge_views fs vs)
        ≡ max (first_pow post_id feedback_type fs) (peak vs)
  unfolding merge_views peak merge_view
  merge_views-first_pow fs [] a = ground arith
  merge_views-first_pow fs (ok v ∷ vs) a =
      merge_views-first_pow (merge_view fs (ok v)) vs a.1
      ∙ ground (arith, merge_view-first_pow fs v (a.0 v refl))
  merge_views-first_pow fs (err e ∷ vs) a = merge_views-first_pow fs vs a.1
  merge_views-first_pow fs (panic ∷ vs) a = merge_views-first_pow fs vs a.1

  merge_view-count :
      (fs : List EncodedPostFeedback) (r : Result View)
      → count post_id feedback_type fs ≤ 1
      → count post_id feedback_type (merge_view fs r) ≤ 1
  unfolding merge_view
  merge_view-count fs (ok v) h =
      elim (array_from_slice 32 (post_id_bytes v))
        as (λ r.
          count post_id feedback_type (elim r as (λ x. List EncodedPostFeedback) [
            | ok p ↦ upsert fs p v
            | err e ↦ fs
            | panic ↦ fs
          ])
          ≤ 1) [ ok p ↦ ground (arith, upsert-count fs p v) | err e ↦ h | panic ↦ h ]
  merge_view-count fs (err e) h = h
  merge_view-count fs panic h = h

  pub merge_views-count :
      (fs : List EncodedPostFeedback) (vs : List (Result View))
      → count post_id feedback_type fs ≤ 1
      → count post_id feedback_type (merge_views fs vs) ≤ 1
  unfolding merge_views
  merge_views-count fs [] h = h
  merge_views-count fs (r ∷ vs) h = merge_views-count (merge_view fs r) vs (merge_view-count fs r h)
