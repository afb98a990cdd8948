-- ===== src/Store/Feedbacks.antt =====
-- That a store keeps the strongest vote of every kind on every post.
use hashiverse.Prelude.{
  ℕ, max, ◌≡◌, refl, sym, ap, ◌∙◌, arith, ==_iff, if◌then◌else◌, Bool-cases, inl, inr, ◌&&◌,
  bytes_eq, bytes_eq_iff, List, [], ◌∷◌, ◌++◌, length, ok, All,
}
use mathlib.Core.List.{append_assoc, append-nil}
use hashiverse.Assoc.{get, or_default}
use hashiverse.Assoc.Laws.{get-insert}
use hashiverse.Feedback.{
  EncodedPostFeedback, encode_to_bytes, append_encode_to_bytes, append_encode_direct_to_bytes,
}
use hashiverse.Feedback.Codec.{IsFeedback}
use hashiverse.Feedback.Entries.{encode_all}
use hashiverse.FeedbackBundle.{same_key}
use hashiverse.FeedbackBundle.Lookup.{first_pow}
use hashiverse.FeedbackBundle.Merge.{is_key, same_key-is_key, same_key-other}
use hashiverse.Store.{
  MemEnvironmentStore, put_entry, post_feedback_put_if_more_powerful, encode_loop,
  post_bundle_feedbacks_bytes_get,
}

unfoldable pub entries : MemEnvironmentStore → List ℕ → List EncodedPostFeedback
entries s location_id = or_default (get s.post_bundle_feedbacks location_id) []

module _ (post_id : List ℕ) (feedback_type : ℕ) where
  pub strength : MemEnvironmentStore → List ℕ → ℕ
  unfolding entries
  strength s location_id = first_pow post_id feedback_type (entries s location_id)

  is_key-same_key :
      (f : EncodedPostFeedback)
      → is_key post_id feedback_type f.post_id f.feedback_type ≡ same_key post_id feedback_type f
  unfolding is_key same_key
  is_key-same_key f = refl

  put_entry-first_pow :
      (fs : List EncodedPostFeedback) (f : EncodedPostFeedback)
      → first_pow post_id feedback_type (put_entry fs f) ≡ (
          if same_key post_id feedback_type f
          then max (first_pow post_id feedback_type fs) f.pow
          else first_pow post_id feedback_type fs)
  unfolding put_entry first_pow
  put_entry-first_pow [] f = ground arith
  put_entry-first_pow (g ∷ fs) f = ground (
    arith,
    same_key-is_key post_id feedback_type f.post_id f.feedback_type g,
    same_key-other post_id feedback_type f.post_id f.feedback_type g,
    is_key-same_key f,
    put_entry-first_pow fs f,
  )

  -- After `post_feedback_put_if_more_powerful`, the pow that a location has for a kind of vote on a
  -- post is the greater of what it was and the new one, if the vote is of that kind on that post at
  -- that location, and is as before everywhere else.
  pub strength-put_if_more_powerful :
      (s : MemEnvironmentStore) (location_id : List ℕ) (f : EncodedPostFeedback) (other : List ℕ)
      → strength (post_feedback_put_if_more_powerful s location_id f) other ≡ (
          if bytes_eq location_id other && same_key post_id feedback_type f
          then max (strength s other) f.pow
          else strength s other)
  unfolding strength entries post_feedback_put_if_more_powerful or_default
  strength-put_if_more_powerful s location_id f other =
      rw
        (get-insert s.post_bundle_feedbacks location_id
          (put_entry (or_default (get s.post_bundle_feedbacks location_id) []) f) other)
        (elim (Bool-cases (bytes_eq location_id other)) [
          | inl e ↦
              rw (e, or_default, ← (bytes_eq_iff location_id other).0 e)
                (put_entry-first_pow (or_default (get s.post_bundle_feedbacks location_id) []) f)
          | inr e ↦ rw e refl
        ])

encode_loop-ok :
    (bytes : List ℕ) (fs : List EncodedPostFeedback)
    → All IsFeedback fs
    → encode_loop bytes fs ≡ ok (bytes ++ encode_all fs)
unfolding encode_loop encode_all append_encode_to_bytes append_encode_direct_to_bytes
    encode_to_bytes
encode_loop-ok bytes [] h = ap ok (sym (append-nil bytes))
encode_loop-ok bytes (f ∷ fs) h =
    rw
      (
        (==_iff (length f.post_id) 32).1 h.0.post_id_size,
        (==_iff (length f.salt) 8).1 h.0.salt_size,
      )
      (encode_loop-ok (bytes ++ encode_to_bytes f) fs h.1
        ∙ ap ok (append_assoc bytes (encode_to_bytes f) (encode_all fs)))

-- If the arrays of the stored votes have their lengths, `post_bundle_feedbacks_bytes_get` does not
-- fail, and its bytes are the encodings of the votes of the location, in their order.
pub feedbacks_bytes_get-encode_all :
    (s : MemEnvironmentStore) (location_id : List ℕ)
    → All IsFeedback (entries s location_id)
    → post_bundle_feedbacks_bytes_get s location_id ≡ ok (encode_all (entries s location_id))
unfolding post_bundle_feedbacks_bytes_get entries
feedbacks_bytes_get-encode_all s location_id h = encode_loop-ok [] (entries s location_id) h
