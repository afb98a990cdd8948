-- ===== src/Visitor/Ends.antt =====
-- That `visit` ends, for the ladder of each type of bucket.
use native.Mathlib.Nat.{div-mul-le_self}
use hashiverse.Prelude.{
  ℕ, zero, suc, ◌+◌, ◌-◌, ◌*◌, ◌/◌, ◌^◌, ◌≤◌, ◌<◌, ◌≡◌, refl, ap, ◌∙◌, arith, Bool, true, false,
  panic, some, List, [], ◌∷◌, Result, ok, err,
}
use hashiverse.Prelude.Int.{ℤ, pos}
use hashiverse.Buckets.{BucketType, bucket_durations_for_type, bucket_durations, tail}
use hashiverse.Buckets.Start.{start_pos, Nested, MultipleOf, year-Nested, month-Nested}
use hashiverse.Visitor.{Callbacks, open_frame, pump, primed, started, visit, index, is_empty_list}
use hashiverse.Visitor.Walk.{walk_all}
use hashiverse.Visitor.Steps.{Comes, finish, rounds_and}
use hashiverse.Visitor.Levels.{walk-Comes}
use hashiverse.Visitor.Ladder.{Falls}

add_one_times : (k d : ℕ) → suc k * d ≡ k * d + d
add_one_times k d = ground arith

multiple-le : (d d' : ℕ) → MultipleOf d d' → d' ≤ d
multiple-le d d' (zero, p, e) = absurd (omega (arith, p))
multiple-le d d' (suc k, p, e) = rw (e, add_one_times k d') (omega arith)

Nested-Falls :
    (max : ℕ) (d : ℕ) (ds : List ℕ)
    → Nested (d ∷ ds)
    → 0 < d
    → max + d < 2 ^ 63
    → Falls max (d ∷ ds)
unfolding Falls
Nested-Falls max d [] n p h = (p, h)
Nested-Falls max d (d' ∷ ds) n p h =
    let le = multiple-le d d' n.1 in (p, h, le, Nested-Falls max d' ds n.2 n.0 (omega arith))

rounds_and-add : (k f : ℕ) → rounds_and k f ≡ k + f
rounds_and-add zero f = omega arith
rounds_and-add (suc k) f = omega (arith, rounds_and-add k f)

module _ {St : Type 0} (C : Callbacks St) (s : St) where
  primed_pos :
      (ds : List ℕ) (max min d : ℕ)
      → 0 < d
      → primed (d ∷ ds) (pos max) C (pos min)
        ≡ ok (open_frame (pos (max / d * d)) 0 (pos (min / d * d)) ∷ [])
  unfolding primed is_empty_list index
  primed_pos ds max min d h = rw (start_pos max d h, start_pos min d h) refl

  finish_empty :
      (ds : List ℕ) (max : ℤ) (w : Result (St × Bool)) (f : ℕ)
      → finish ds max C w [] (suc f) ≡ some w
  unfolding finish pump
  finish_empty ds max panic f = refl
  finish_empty ds max (err e) f = refl
  finish_empty ds max (ok (s', false)) f = refl
  finish_empty ds max (ok (s', true)) f = refl

  enough : (k rounds : ℕ) → suc k ≤ rounds → rounds ≡ rounds_and k (suc (rounds - suc k))
  enough k rounds h = omega (arith, rounds_and-add k (suc (rounds - suc k)))

  ladder_ends :
      (ds : List ℕ) (max min d : ℕ)
      → Falls max (d ∷ ds)
      → 0 < d
      → (k : ℕ) × ((rounds : ℕ)
          → k ≤ rounds
          → visit (d ∷ ds) (pos max) C rounds (pos min) s ≡ some (walk_all C max (d ∷ ds) min s))
  unfolding visit started walk_all Comes
  ladder_ends ds max min d f p =
      let c =
        walk-Comes (d ∷ ds) max C ds ((max / d * d - min / d * d) / d) (max / d * d) (min / d * d) 0
          d [] s refl f (div-mul-le_self max d) refl in
      (
        suc c.0,
        λ rounds h. rw (primed_pos ds max min d p) (
            ap
              (λ (n : ℕ).
                pump (d ∷ ds) (pos max) C n
                  (open_frame (pos (max / d * d)) 0 (pos (min / d * d)) ∷ []) s)
              (enough c.0 rounds h)
            ∙ c.1 (suc (rounds - suc c.0))
            ∙ finish_empty (d ∷ ds) (pos max) _ (rounds - suc c.0)),
      )

  of_year :
      (max min : ℕ)
      → max + 29030400000 < 2 ^ 63
      → (k : ℕ) × ((rounds : ℕ)
          → k ≤ rounds
          → visit bucket_durations (pos max) C rounds (pos min) s
            ≡ some (walk_all C max bucket_durations min s))
  unfolding bucket_durations tail
  of_year max min h =
      ladder_ends (tail bucket_durations) max min 29030400000
        (Nested-Falls max 29030400000 (tail bucket_durations) year-Nested (omega arith) h)
        (omega arith)

  of_month :
      (max min : ℕ)
      → max + 2419200000 < 2 ^ 63
      → (k : ℕ) × ((rounds : ℕ)
          → k ≤ rounds
          → visit (tail bucket_durations) (pos max) C rounds (pos min) s
            ≡ some (walk_all C max (tail bucket_durations) min s))
  unfolding bucket_durations tail
  of_month max min h =
      ladder_ends (tail (tail bucket_durations)) max min 2419200000
        (Nested-Falls max 2419200000 (tail (tail bucket_durations)) month-Nested (omega arith) h)
        (omega arith)

-- For the ladder of every type of bucket, and times from 1970 on that end a year before the range of
-- `i64` does: whatever the callbacks answer, change or fail with, the loop ends after a number of
-- rounds, and any more change nothing; `visit` then gives what the recursion over the ladder gives,
-- which opens the buckets of a level from the newest to the oldest and walks through the children of
-- each between its opening and its closing.
pub visit-walk_all :
    {St : Type 0} (C : Callbacks St) (ty : BucketType) (max min : ℕ) (s : St)
    → max + 29030400000 < 2 ^ 63
    → (k : ℕ) × ((rounds : ℕ)
        → k ≤ rounds
        → visit (bucket_durations_for_type ty) (pos max) C rounds (pos min) s
          ≡ some (walk_all C max (bucket_durations_for_type ty) min s))
unfolding bucket_durations_for_type bucket_durations tail
visit-walk_all C BucketType.user max min s h = of_month C s max min (omega arith)
visit-walk_all C BucketType.hashtag max min s h = of_month C s max min (omega arith)
visit-walk_all C BucketType.mention max min s h = of_month C s max min (omega arith)
visit-walk_all C BucketType.reply_to_post max min s h = of_month C s max min (omega arith)
visit-walk_all C BucketType.sequel max min s h = of_year C s max min h
