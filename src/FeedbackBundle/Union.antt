-- ===== src/FeedbackBundle/Union.antt =====
-- The union of bundles holds the strongest vote of every kind on every post.
use mathlib.Core.Logic.Or
use mathlib.Core.List.{
  Mem-prop, Mem, mem-cons_self, mem-cons_of_mem, mem-cons, Perm, Permᴰ, append_assoc, append-nil,
}
use mathlib.Core.List.Perm
use mathlib.Core.HLevel.{×_prop}
use mathlib.Core.Logic.{∥∥₁_elim}
use native.Mathlib.Nat.{ℕ_set}
use hashiverse.Prelude.{
  ℕ, leb→le, zero, suc, ◌/◌, ◌≤◌, max, ◌≡◌, refl, sym, ap, ◌∙◌, subst, arith, ◌==◌, ==_iff,
  if◌then◌else◌, Bool-cases, inl, inr, List, [], ◌∷◌, ◌++◌, map, length, some, Result, ok, err,
  panic, All, All-mem, All-of_mem, All-map_mono, wrong_length, wrong_version, ensure-eq-ok, get_or,
}
use hashiverse.Prelude.Int.{leb_ℤ, ◌≤ℤ◌}
use hashiverse.Feedback.{
  EncodedPostFeedback, View, encode_to_bytes, append_encode_to_bytes, append_encode_direct_to_bytes,
  from_slice, chunks, iter, post_id_bytes,
}
use hashiverse.Feedback.Codec.{IsFeedback}
use hashiverse.Feedback.Entries.{encode_all}
use hashiverse.FeedbackBundle.{
  Bundle, HashOrder, merge_view, merge_views, merge_bundles, merge, append_all, upsert,
  get_post_pow_for_feedback_type, latest_loop, array_from_slice,
}
use hashiverse.FeedbackBundle.Lookup.{first_pow, count, get_post_pow_for_feedback_type-first_pow}
use hashiverse.FeedbackBundle.Merge.{
  AreViews, peak_of_bundles, merge_views-first_pow, merge_views-count, upsert-IsFeedback,
}

from_slice-ok : (bytes v : List ℕ) → from_slice bytes ≡ ok v → length v ≡ 43
unfolding from_slice
from_slice-ok bytes v h =
    let (e1, h1) = ensure-eq-ok (length bytes == 43) wrong_length _ h in
    let (e2, h2) = ensure-eq-ok (get_or bytes 0 0 == 1) wrong_version _ h1 in
    let same : bytes ≡ v = cc h2 in
    subst (λ w. length w ≡ 43) same ((==_iff (length bytes) 43).0 e1)

array_from_slice-ok : (n : ℕ) (bytes p : List ℕ) → array_from_slice n bytes ≡ ok p → length p ≡ n
unfolding array_from_slice
array_from_slice-ok n bytes p h =
    let (e1, h1) = ensure-eq-ok (length bytes == n) wrong_length _ h in
    let same : bytes ≡ p = cc h1 in subst (λ w. length w ≡ n) same ((==_iff (length bytes) n).0 e1)

merge_view-IsFeedback :
    (fs : List EncodedPostFeedback) (r : Result View)
    → All IsFeedback fs
    → All IsFeedback (merge_view fs r)
unfolding merge_view
merge_view-IsFeedback fs (ok v) h = go (array_from_slice 32 (post_id_bytes v)) refl
  where
    go :
        (r : Result (List ℕ))
        → array_from_slice 32 (post_id_bytes v) ≡ r
        → All IsFeedback (elim r as (λ x. List EncodedPostFeedback) [
          | ok p ↦ upsert fs p v
          | err e ↦ fs
          | panic ↦ fs
        ])
    go (ok p) e = upsert-IsFeedback fs p v (array_from_slice-ok 32 (post_id_bytes v) p e) h
    go (err x) e = h
    go panic e = h
merge_view-IsFeedback fs (err e) h = h
merge_view-IsFeedback fs panic h = h

merge_views-IsFeedback :
    (fs : List EncodedPostFeedback) (vs : List (Result View))
    → All IsFeedback fs
    → All IsFeedback (merge_views fs vs)
unfolding merge_views
merge_views-IsFeedback fs [] h = h
merge_views-IsFeedback fs (r ∷ vs) h =
    merge_views-IsFeedback (merge_view fs r) vs (merge_view-IsFeedback fs r h)

merge_bundles-IsFeedback :
    {Peer : Type 0} (fs : List EncodedPostFeedback) (bs : List (Bundle Peer))
    → All IsFeedback fs
    → All IsFeedback (merge_bundles fs bs)
unfolding merge_bundles
merge_bundles-IsFeedback fs [] h = h
merge_bundles-IsFeedback fs (b ∷ bs) h =
    merge_bundles-IsFeedback (merge_views fs (iter b.feedbacks_bytes)) bs
      (merge_views-IsFeedback fs (iter b.feedbacks_bytes) h)

append_all-encode_all :
    (bytes : List ℕ) (fs : List EncodedPostFeedback)
    → All IsFeedback fs
    → append_all bytes fs ≡ bytes ++ encode_all fs
unfolding append_all encode_all append_encode_to_bytes append_encode_direct_to_bytes encode_to_bytes
append_all-encode_all bytes [] h = sym (append-nil bytes)
append_all-encode_all bytes (f ∷ fs) h =
    rw
      (
        (==_iff (length f.post_id) 32).1 h.0.post_id_size,
        (==_iff (length f.salt) 8).1 h.0.salt_size,
      )
      (append_all-encode_all (bytes ++ encode_to_bytes f) fs h.1
        ∙ append_assoc bytes (encode_to_bytes f) (encode_all fs))

All-perm : {fs gs : List EncodedPostFeedback} → Perm fs gs → All IsFeedback gs → All IsFeedback fs
All-perm {fs} {gs} p h = All-of_mem fs (λ f m.
    let sizes =
      All-mem {P = λ f. (length f.post_id ≡ 32) × (length f.salt ≡ 8)}
        (λ f. ×_prop (ℕ_set _ _) (ℕ_set _ _)) gs
        (All-map_mono gs (λ f i. (i.post_id_size, i.salt_size)) h) ((Perm.mem_iff p).0 m) in
    record { post_id_size = sizes.0; salt_size = sizes.1 })

module _ (post_id : List ℕ) (feedback_type : ℕ) where
  chunks-AreViews :
      (n : ℕ) (bytes : List ℕ) → AreViews post_id feedback_type (map from_slice (chunks n bytes))
  unfolding chunks
  chunks-AreViews zero bytes = tt
  chunks-AreViews (suc n) bytes = ((λ v e. from_slice-ok _ v e), chunks-AreViews n _)

  merge_bundles-first_pow :
      {Peer : Type 0} (fs : List EncodedPostFeedback) (bs : List (Bundle Peer))
      → first_pow post_id feedback_type (merge_bundles fs bs)
        ≡ max (first_pow post_id feedback_type fs) (peak_of_bundles post_id feedback_type bs)
  unfolding merge_bundles peak_of_bundles iter
  merge_bundles-first_pow fs [] = omega arith
  merge_bundles-first_pow fs (b ∷ bs) =
      merge_bundles-first_pow (merge_views fs (iter b.feedbacks_bytes)) bs
      ∙ omega (
        arith,
        merge_views-first_pow post_id feedback_type fs (iter b.feedbacks_bytes)
            (chunks-AreViews (length b.feedbacks_bytes / 43) b.feedbacks_bytes),
      )

  merge_bundles-count :
      {Peer : Type 0} (fs : List EncodedPostFeedback) (bs : List (Bundle Peer))
      → count post_id feedback_type fs ≤ 1
      → count post_id feedback_type (merge_bundles fs bs) ≤ 1
  unfolding merge_bundles
  merge_bundles-count fs [] h = h
  merge_bundles-count fs (b ∷ bs) h =
      merge_bundles-count (merge_views fs (iter b.feedbacks_bytes)) bs
        (merge_views-count post_id feedback_type fs (iter b.feedbacks_bytes) h)

  permᴰ-first_pow :
      {fs gs : List EncodedPostFeedback}
      → Permᴰ fs gs
      → (count post_id feedback_type fs ≡ count post_id feedback_type gs)
        × (count post_id feedback_type gs ≤ 1
            → first_pow post_id feedback_type fs ≡ first_pow post_id feedback_type gs)
  unfolding count first_pow
  permᴰ-first_pow Permᴰ.nil = (refl, λ h. refl)
  permᴰ-first_pow (Permᴰ.cons e p) =
      let (n, i) = permᴰ-first_pow p in rw e (ground (arith, n), λ h. ground (arith, i))
  permᴰ-first_pow (Permᴰ.swap e e') = rw (e, e') (ground arith, λ h. ground arith)
  permᴰ-first_pow (Permᴰ.trans p q) =
      let (n, i) = permᴰ-first_pow p in
      let (m, j) = permᴰ-first_pow q in (n ∙ m, λ h. i (omega (arith, m)) ∙ j h)

  -- Whatever order the hash map lists its values in, the union of bundles, of any bytes, has for
  -- every kind of vote on every post the greatest pow that an entry of a bundle has for it, and 0 if
  -- there is none.
  pub merge-peak_of_bundles :
      {Peer : Type 0} (O : HashOrder) (b : Bundle Peer) (bs : List (Bundle Peer))
      → (m : Bundle Peer) × (merge O (b ∷ bs) ≡ some m)
        × (get_post_pow_for_feedback_type m post_id feedback_type
            ≡ peak_of_bundles post_id feedback_type (b ∷ bs))
  unfolding merge
  merge-peak_of_bundles O b bs =
      let fs = merge_bundles [] (b ∷ bs) in
      let p = O.values-perm fs in
      let are = All-perm p (merge_bundles-IsFeedback [] (b ∷ bs) tt) in
      let one = merge_bundles-count [] (b ∷ bs) (unfold count in omega arith) in
      (
        _,
        refl,
        get_post_pow_for_feedback_type-first_pow post_id feedback_type _ (O.values fs) are
              (append_all-encode_all [] (O.values fs) are)
            ∙ ∥∥₁_elim p (ℕ_set _ _) (λ d. (permᴰ-first_pow d).1 one)
            ∙ merge_bundles-first_pow [] (b ∷ bs)
            ∙ unfold first_pow in omega arith,
      )

module _ {Peer : Type 0} where
  -- That a bundle is one of several and none of them is newer.
  abbrev pub IsNewest : List (Bundle Peer) → Bundle Peer → Type 0
  IsNewest bs x = All (λ c. c.header.time_millis ≤ℤ x.header.time_millis) bs × Mem x bs

  latest_loop_lem :
      (b : Bundle Peer) (bs : List (Bundle Peer)) → IsNewest (b ∷ bs) (latest_loop b bs)
  unfolding latest_loop
  latest_loop_lem b [] = ((omega arith, tt), mem-cons_self)
  latest_loop_lem b (c ∷ cs) = elim (Bool-cases (leb_ℤ b.header.time_millis c.header.time_millis)) [
    | inl e ↦
        let (newest, from) = latest_loop_lem c cs in
        subst (IsNewest (b ∷ c ∷ cs))
          (sym (ap (λ t. if t then latest_loop c cs else latest_loop b cs) e))
          ((omega (arith, leb→le _ _ e, newest.0), newest), mem-cons_of_mem b from)
    | inr e ↦
        let (newest, from) = latest_loop_lem b cs in
        subst (IsNewest (b ∷ c ∷ cs))
          (sym (ap (λ t. if t then latest_loop c cs else latest_loop b cs) e))
          (
            (newest.0, (ground (arith, newest.0), newest.1)),
            Or.elim Mem-prop (mem-cons.0 from) (λ here. rw here mem-cons_self)
                (λ there. mem-cons_of_mem b (mem-cons_of_mem c there)),
          )
  ]

  -- The union of bundles has the header of a bundle that no other is newer than.
  pub merge-IsNewest :
      (O : HashOrder) (b : Bundle Peer) (bs : List (Bundle Peer))
      → (m x : Bundle Peer) × (merge O (b ∷ bs) ≡ some m)
        × (m.header ≡ x.header)
        × IsNewest (b ∷ bs) x
  unfolding merge
  merge-IsNewest O b bs = (_, latest_loop b bs, refl, refl, latest_loop_lem b bs)
