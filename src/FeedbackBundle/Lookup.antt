-- ===== src/FeedbackBundle/Lookup.antt =====
-- The two ways to read the votes on a post, on a body of whole votes.
use hashiverse.Prelude.{
  ℕ, zero, suc, ◌≤◌, ◌<◌, ◌≡◌, refl, ap, ◌∙◌, arith, ◌==◌, if◌then◌else◌, List, [], ◌∷◌, length,
  get_or, set, replicate, length-replicate, length-set, All,
}
use hashiverse.Feedback.{EncodedPostFeedback, encode_to_bytes}
use hashiverse.Feedback.Codec.{
  IsFeedback, post_id_bytes-encode_to_bytes, feedback_type-encode_to_bytes,
  view_pow-encode_to_bytes,
}
use hashiverse.Feedback.Entries.{encode_all, views, iter-encode_all}
use hashiverse.FeedbackBundle.{
  Bundle, is_vote, pow_loop, pows_loop, get_post_pow_for_feedback_type, get_post_pows, same_key,
}

module _ (post_id : List ℕ) (feedback_type : ℕ) where
  -- The pow of the first vote of a kind on a post, and that of the last one; 0 if there is none.
  unfoldable pub first_pow : List EncodedPostFeedback → ℕ
  first_pow [] = 0
  first_pow (f ∷ fs) = if same_key post_id feedback_type f then f.pow else first_pow fs

  unfoldable pub last_pow : ℕ → List EncodedPostFeedback → ℕ
  last_pow before [] = before
  last_pow before (f ∷ fs) =
      last_pow (if same_key post_id feedback_type f then f.pow else before) fs

  -- How many votes of the kind there are.
  unfoldable pub count : List EncodedPostFeedback → ℕ
  count [] = 0
  count (f ∷ fs) = if same_key post_id feedback_type f then suc (count fs) else count fs

  is_vote-encode_to_bytes :
      (f : EncodedPostFeedback)
      → IsFeedback f
      → is_vote post_id feedback_type (encode_to_bytes f) ≡ same_key post_id feedback_type f
  unfolding is_vote same_key
  is_vote-encode_to_bytes f h =
      rw (post_id_bytes-encode_to_bytes f h, feedback_type-encode_to_bytes f h) refl

  pow_loop-first_pow :
      (fs : List EncodedPostFeedback)
      → All IsFeedback fs
      → pow_loop post_id feedback_type (views fs) ≡ first_pow fs
  unfolding pow_loop views first_pow
  pow_loop-first_pow [] h = refl
  pow_loop-first_pow (f ∷ fs) h =
      rw (is_vote-encode_to_bytes f h.0, view_pow-encode_to_bytes f h.0, pow_loop-first_pow fs h.1)
        refl

  -- On a body of whole votes `get_post_pow_for_feedback_type` is the pow of the first vote of that
  -- kind on that post, and 0 if there is none.
  pub get_post_pow_for_feedback_type-first_pow :
      {Peer : Type 0} (b : Bundle Peer) (fs : List EncodedPostFeedback)
      → All IsFeedback fs
      → b.feedbacks_bytes ≡ encode_all fs
      → get_post_pow_for_feedback_type b post_id feedback_type ≡ first_pow fs
  unfolding get_post_pow_for_feedback_type
  get_post_pow_for_feedback_type-first_pow b fs h e =
      rw (e, iter-encode_all fs h) (pow_loop-first_pow fs h)

  get_or-set :
      (xs : List ℕ) (i : ℕ) (v : ℕ)
      → i < length xs
      → get_or (set xs i v) feedback_type 0
        ≡ (if i == feedback_type then v else get_or xs feedback_type 0)
  get_or-set xs i v h = go xs i feedback_type h
    where
      go :
          (xs : List ℕ) (i j : ℕ)
          → i < length xs
          → get_or (set xs i v) j 0 ≡ (if i == j then v else get_or xs j 0)
      go [] i j h = absurd (omega arith)
      go (x ∷ xs) zero zero h = refl
      go (x ∷ xs) zero (suc j) h = ground arith
      go (x ∷ xs) (suc i) zero h = ground arith
      go (x ∷ xs) (suc i) (suc j) h = go xs i j (omega arith) ∙ ground arith

  pows_loop-last_pow :
      (result : List ℕ) (fs : List EncodedPostFeedback)
      → All IsFeedback fs
      → All (λ f. f.feedback_type < 256) fs
      → length result ≡ 256
      → get_or (pows_loop post_id result (views fs)) feedback_type 0
        ≡ last_pow (get_or result feedback_type 0) fs
  unfolding pows_loop views last_pow same_key
  pows_loop-last_pow result [] h t n = refl
  pows_loop-last_pow result (f ∷ fs) h t n =
      rw
        (
          post_id_bytes-encode_to_bytes f h.0,
          feedback_type-encode_to_bytes f h.0,
          view_pow-encode_to_bytes f h.0,
        )
        (ground (
          arith,
          get_or-set result f.feedback_type f.pow (omega (arith, n, t.0)),
          length-set result f.feedback_type f.pow,
          pows_loop-last_pow (set result f.feedback_type f.pow) fs h.1 t.1,
          pows_loop-last_pow result fs h.1 t.1 n,
        ))

  get_or-replicate : (n i : ℕ) → get_or {A = ℕ} (replicate n 0) i 0 ≡ 0
  get_or-replicate zero i = refl
  get_or-replicate (suc n) zero = refl
  get_or-replicate (suc n) (suc i) = get_or-replicate n i

  -- Where no two votes are of one kind on one post, the last is the first.
  last_pow-first_pow :
      (before : ℕ) (fs : List EncodedPostFeedback)
      → (count fs ≤ 1)
      → last_pow before fs ≡ (if count fs == 0 then before else first_pow fs)
  unfolding last_pow count first_pow
  last_pow-first_pow before [] h = refl
  last_pow-first_pow before (f ∷ fs) h =
      ground (arith, last_pow-first_pow before fs, last_pow-first_pow f.pow fs)

  first_pow-none : (fs : List EncodedPostFeedback) → count fs ≡ 0 → first_pow fs ≡ 0
  unfolding count first_pow
  first_pow-none [] h = refl
  first_pow-none (f ∷ fs) h = ground (arith, first_pow-none fs)

  -- On a body of whole votes of which at most one is of a given kind on a given post, the entry of
  -- `get_post_pows` for the kind is what `get_post_pow_for_feedback_type` gives.
  pub get_post_pows_agrees :
      {Peer : Type 0} (b : Bundle Peer) (fs : List EncodedPostFeedback)
      → All IsFeedback fs
      → All (λ f. f.feedback_type < 256) fs
      → b.feedbacks_bytes ≡ encode_all fs
      → count fs ≤ 1
      → get_or (get_post_pows b post_id) feedback_type 0
        ≡ get_post_pow_for_feedback_type b post_id feedback_type
  unfolding get_post_pows
  get_post_pows_agrees b fs h t e one =
      rw (get_post_pow_for_feedback_type-first_pow b fs h e, e, iter-encode_all fs h)
        (pows_loop-last_pow (replicate 256 0) fs h t (length-replicate {A = ℕ} 256 0)
          ∙ ap (λ before. last_pow before fs) (get_or-replicate 256 feedback_type)
          ∙ last_pow-first_pow 0 fs one
          ∙ ground (arith, first_pow-none fs))
