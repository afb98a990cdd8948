-- ===== src/Visitor/Examples.antt =====
-- A walk that asks for all children of a month and then stops.
use hashiverse.Prelude.{
  ℕ, ◌+◌, ◌*◌, ◌/◌, ◌≤◌, ◌≡◌, refl, arith, List, [], ◌∷◌, Bool, some, Result, ok, All,
}
use hashiverse.Prelude.Int.{ℤ, pos}
use hashiverse.Buckets.{BucketType, bucket_durations_for_type, bucket_durations, tail}
use hashiverse.Visitor.{OpenResult, CloseResult, Callbacks, visit}
use hashiverse.Visitor.Walk.{walk_all}
use hashiverse.Visitor.Ends.{visit-walk_all}
use hashiverse.Visitor.Opened.{Post, IsVisible, visit-Post}

-- The callbacks count the buckets and never stop.
abbrev counting : Callbacks ℕ
counting = record {
  on_open = λ s t d. ok (s + 1, OpenResult.continue_without_children);
  on_close = λ s t d. ok (s, CloseResult.continue);
}

visit-walk_all_example :
    (k : ℕ) × ((rounds : ℕ)
      → k ≤ rounds
      → visit
          (bucket_durations_for_type BucketType.hashtag)
          (pos 5000000000)
          counting
          rounds
          (pos 1000)
          0
        ≡ some (walk_all counting 5000000000 (bucket_durations_for_type BucketType.hashtag) 1000 0))
visit-walk_all_example = visit-walk_all counting BucketType.hashtag 5000000000 1000 0 (omega arith)

ladder : bucket_durations_for_type BucketType.hashtag ≡ 2419200000 ∷ tail (tail bucket_durations)
unfolding bucket_durations_for_type bucket_durations tail
ladder = refl

-- The callbacks write down what they are asked about, and ask for all children.
abbrev recording : Callbacks (List (ℤ × ℕ))
recording = record {
  on_open = λ s t d. ok ((t, d) ∷ s, OpenResult.continue_with_children);
  on_close = λ s t d. ok (s, CloseResult.continue);
}

abbrev AllVisible : List (ℤ × ℕ) → Type 0
AllVisible = All (λ (x : ℤ × ℕ).
    (t : ℕ) × (x.0 ≡ pos t) × IsVisible 5000000000 (1000 / 2419200000 * 2419200000) t x.1)

visit-Post_example :
    (k : ℕ) × (r : Result (List (ℤ × ℕ) × Bool)) × ((rounds : ℕ)
      → k ≤ rounds
      → visit
          (bucket_durations_for_type BucketType.hashtag)
          (pos 5000000000)
          recording
          rounds
          (pos 1000)
          []
        ≡ some r)
    × Post AllVisible r
visit-Post_example =
    visit-Post recording AllVisible BucketType.hashtag 2419200000 (tail (tail bucket_durations))
      5000000000 1000 [] ladder (λ s t d h v. ((t, refl, v), h)) (λ s t d h v. h) (omega arith)
      (omega arith) tt
