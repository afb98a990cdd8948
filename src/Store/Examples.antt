-- ===== src/Store/Examples.antt =====
-- Runs of the store, and its theorems at them.
use hashiverse.Prelude.{ℕ, max, ◌≡◌, if◌then◌else◌, bytes_eq, ◌&&◌, List, [], ◌∷◌, replicate}
use hashiverse.Prelude.Int.{ℤ, pos}
use hashiverse.Feedback.{EncodedPostFeedback}
use hashiverse.FeedbackBundle.{same_key}
use hashiverse.Store.{
  MemEnvironmentStore, new, post_feedback_put_if_more_powerful, post_bundles_last_accessed_flush,
  post_bundles_delete, post_bundle_bytes_put,
}
use hashiverse.Store.Feedbacks.{strength, strength-put_if_more_powerful}
use hashiverse.Store.Delete.{contains, Traces, post_bundles_delete-Traces}
use hashiverse.Store.Order.{IsSorted}

abbrev here : List ℕ
here = 5 ∷ []

abbrev vote : ℕ → EncodedPostFeedback
vote pow = record { post_id = replicate 32 10; feedback_type = 1; salt = replicate 8 3; pow = pow }

abbrev voted : MemEnvironmentStore
voted =
    post_feedback_put_if_more_powerful (post_bundle_bytes_put new here (1 ∷ 2 ∷ [])) here (vote 5)

abbrev visited : List (List ℕ × ℤ)
visited = (9 ∷ [], pos 1) ∷ (2 ∷ [], pos 2) ∷ (5 ∷ [], pos 3) ∷ []

abbrev flushed : MemEnvironmentStore
flushed = post_bundles_last_accessed_flush new visited

new-IsSorted : IsSorted new.post_bundle_last_accessed
unfolding new
new-IsSorted = tt

strength-put_if_more_powerful_example :
    strength (replicate 32 10) 1 (post_feedback_put_if_more_powerful voted here (vote 7)) here ≡ (
      if bytes_eq here here && same_key (replicate 32 10) 1 (vote 7)
      then max (strength (replicate 32 10) 1 voted here) 7
      else strength (replicate 32 10) 1 voted here)
strength-put_if_more_powerful_example =
    strength-put_if_more_powerful (replicate 32 10) 1 voted here (vote 7) here

post_bundles_delete-Traces_example :
    Traces voted (post_bundles_delete voted (here ∷ [])) (contains (here ∷ []) here) here
post_bundles_delete-Traces_example = post_bundles_delete-Traces voted (here ∷ []) here
