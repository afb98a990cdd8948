-- ===== src/Visitor/Opened.antt =====
-- Which buckets the callbacks are asked about.
use native.Mathlib.Nat.{
  div-mul-le_self, mul_assoc, add-mul, mul-le-mul_right, le-div_iff_mul-le, mul-pos,
}
use hashiverse.Prelude.{
  ℕ, zero, suc, ◌+◌, ◌-◌, ◌*◌, ◌/◌, ◌^◌, ◌≤◌, ◌<◌, ◌≡◌, refl, sym, ap, ◌∙◌, subst, min, arith, leb,
  Bool, true, false, Bool-cases, inl, inr, List, [], ◌∷◌, some, Result, ok, err, panic,
}
use hashiverse.Prelude.Int.{pos}
use hashiverse.Buckets.Start.{Nested, MultipleOf, durations-Nested}
use hashiverse.Buckets.{BucketType, bucket_durations_for_type}
use hashiverse.Visitor.Ends.{visit-walk_all}
use hashiverse.Visitor.{OpenResult, CloseResult, Callbacks, visit}
use hashiverse.Visitor.Walk.{
  first_child, more_children, and_then, after_open, after_close, walk, walk_all,
}

-- A result after which `P` holds of the state, if there is one.
abbrev pub Post : {A St : Type 0} → (St → Type 0) → Result (St × A) → Type 0
Post P panic = Unit {0}
Post P (err e) = Unit {0}
Post P (ok r) = P r.0

-- The callbacks keep `P` on the buckets that begin before `max`, from `low` on, at a multiple of
-- their duration.
abbrev pub IsVisible : ℕ → ℕ → ℕ → ℕ → Type 0
IsVisible max low t d = (t < max) × (low ≤ t) × ((q : ℕ) × (t ≡ q * d))

module _ {St : Type 0} (P : St → Type 0) where
  and_then-Post :
      (w : Result (St × Bool)) (next : St → Result (St × Bool))
      → Post P w
      → ((s : St) → P s → Post P (next s))
      → Post P (and_then w next)
  unfolding and_then
  and_then-Post panic next h k = tt
  and_then-Post (err e) next h k = tt
  and_then-Post (ok (s, false)) next h k = h
  and_then-Post (ok (s, true)) next h k = k s h

  after_close-Post : (r : Result (St × CloseResult)) → Post P r → Post P (after_close r)
  unfolding after_close
  after_close-Post panic h = tt
  after_close-Post (err e) h = tt
  after_close-Post (ok (s, CloseResult.stop)) h = h
  after_close-Post (ok (s, CloseResult.continue)) h = h

  after_open-Post :
      (r : Result (St × OpenResult)) (inner close : St → Result (St × Bool))
      → Post P r
      → ((s : St) → P s → Post P (inner s))
      → ((s : St) → P s → Post P (close s))
      → Post P (after_open r inner close)
  unfolding after_open
  after_open-Post panic inner close h i c = tt
  after_open-Post (err e) inner close h i c = tt
  after_open-Post (ok (s, OpenResult.stop)) inner close h i c = h
  after_open-Post (ok (s, OpenResult.continue_without_children)) inner close h i c = c s h
  after_open-Post (ok (s, OpenResult.continue_with_children)) inner close h i c =
      and_then-Post (inner s) close (i s h) c

times_suc : (k d : ℕ) → suc k * d ≡ k * d + d
times_suc k d = ground arith

pred_lem : (q : ℕ) → suc q - 1 ≡ q
pred_lem q = omega arith

pred_multiple : (t q d : ℕ) → t ≡ q * d → t - d ≡ (q - 1) * d
pred_multiple t zero d e = omega (arith, e)
pred_multiple t (suc q) d e = rw (pred_lem q) (omega (arith, e, times_suc q d))

min_either : (a b d x y : ℕ) → a ≡ x * d → b ≡ y * d → (q : ℕ) × (min a b ≡ q * d)
min_either a b d x y p q = elim (Bool-cases (leb a b)) [
  | inl h ↦ (x, ground arith)
  | inr h ↦ (y, ground arith)
]

-- The newest child begins within its bucket, at a multiple of its own duration.
child_within :
    (max t d d' q : ℕ) (ds : List ℕ)
    → 0 < d'
    → MultipleOf d d'
    → t < max
    → t ≡ q * d
    → (t ≤ first_child max t d (d' ∷ ds)) × ((q' : ℕ) × (first_child max t d (d' ∷ ds) ≡ q' * d'))
unfolding first_child
child_within max t d d' q ds p (zero, z, e) h k = absurd (omega (arith, z))
child_within max t d d' q ds p (suc j, z, e) h k =
    let at : t ≡ q * suc j * d' = k ∙ ap (λ (x : ℕ). q * x) e ∙ sym (mul_assoc q (suc j) d') in
    let below =
      mul-le-mul_right d'
        ((le-div_iff_mul-le {k = d'} {x = q * suc j} {y = max} p).1 (omega (arith, at, h))) in
    let last : t + d - d' ≡ (q * suc j + j) * d' =
      omega (arith, at, e, times_suc j d', add-mul (q * suc j) j d') in
    (
      omega (arith, at, below, e, times_suc j d'),
      min_either (max / d' * d') (t + d - d') d' (max / d') (q * suc j + j) refl last,
    )

more_lem :
    (max t d d' : ℕ) (ds : List ℕ)
    → more_children max t d (d' ∷ ds) ≡ (first_child max t d (d' ∷ ds) - t) / d'
unfolding more_children
more_lem max t d d' ds = refl

-- The children begin no earlier than the bucket.
children_after :
    (low t c m d' : ℕ) → 0 < d' → low ≤ t → t ≤ c → m ≡ (c - t) / d' → low + suc m * d' ≤ c + d'
children_after low t c m d' p h k e =
    rw (times_suc m d', e) (omega (arith, div-mul-le_self (c - t) d'))

module _ {St : Type 0} (C : Callbacks St) (P : St → Type 0) (max low : ℕ)
    (keep_open : (s : St) (t d : ℕ) → P s → IsVisible max low t d → Post P (C.on_open s (pos t) d))
    (keep_close : (s : St) (t d : ℕ)
      → P s
      → IsVisible max low t d
      → Post P (C.on_close s (pos t) d)) where
  bucket-Post :
      (ds : List ℕ) (n t d q : ℕ) (s : St)
      → t ≡ q * d
      → low + suc n * d ≤ t + d
      → P s
      → (t < max
          → (s' : St) → P s'
          → Post P (walk C max ds (suc (more_children max t d ds)) (first_child max t d ds) s'))
      → ((s' : St) → P s' → Post P (walk C max (d ∷ ds) n (t - d) s'))
      → Post P (walk C max (d ∷ ds) (suc n) t s)
  unfolding walk
  bucket-Post ds n t d q s e b h inner older = elim (Bool-cases (leb max t)) [
    | inl l ↦ rw l (older s h)
    | inr l ↦
        let visible : IsVisible max low t d =
          (ground arith, omega (arith, b, times_suc n d), (q, e)) in
        rw l (
          and_then-Post P _ (walk C max (d ∷ ds) n (t - d))
            (after_open-Post P (C.on_open s (pos t) d) _ _ (keep_open s t d h visible)
              (inner (ground arith))
              (λ s' h'.
                after_close-Post P (C.on_close s' (pos t) d) (keep_close s' t d h' visible)))
            older)
  ]

  none-Post : (ds : List ℕ) (t d : ℕ) (s : St) → P s → Post P (walk C max (d ∷ ds) zero t s)
  unfolding walk
  none-Post ds t d s h = h

  last-Post : (n t : ℕ) (s : St) → P s → Post P (walk C max [] n t s)
  unfolding walk
  last-Post n t s h = h

  older_from : (n t d q : ℕ) → t ≡ q * d → low + suc n * d ≤ t + d → low + n * d ≤ t - d + d
  older_from n t d q e b = omega (arith, b, times_suc n d)

  walk-Post :
      (ds : List ℕ) (n t d q : ℕ) (s : St)
      → Nested (d ∷ ds)
      → 0 < d
      → t ≡ q * d
      → low + n * d ≤ t + d
      → P s
      → Post P (walk C max (d ∷ ds) n t s)
  walk-Post ds zero t d q s nest p e b h = none-Post ds t d s h
  walk-Post [] (suc n) t d q s nest p e b h =
      bucket-Post [] n t d q s e b h (λ l s' h'. last-Post _ _ s' h')
        (λ s' h'.
          walk-Post [] n (t - d) d (q - 1) s' nest p (pred_multiple t q d e)
            (older_from n t d q e b) h')
  walk-Post (d' ∷ ds) (suc n) t d q s nest p e b h =
      bucket-Post (d' ∷ ds) n t d q s e b h
        (λ l s' h'.
          let c = child_within max t d d' q ds nest.0 nest.1 l e in
          walk-Post ds (suc (more_children max t d (d' ∷ ds))) (first_child max t d (d' ∷ ds)) d'
            c.1.0 s' nest.2 nest.0 c.1.1
            (children_after low t (first_child max t d (d' ∷ ds)) (more_children max t d (d' ∷ ds))
              d' nest.0 (omega (arith, b, times_suc n d)) c.0 (more_lem max t d d' ds))
            h')
        (λ s' h'.
          walk-Post (d' ∷ ds) n (t - d) d (q - 1) s' nest p (pred_multiple t q d e)
            (older_from n t d q e b) h')

Nested-pos : (d : ℕ) (ds : List ℕ) → Nested (d ∷ ds) → 0 < d
Nested-pos d [] n = n
Nested-pos d (d' ∷ ds) n = let (k, p, e) = n.1 in rw e (mul-pos p n.0)

div_mono : (a b d : ℕ) → 0 < d → a ≤ b → a / d ≤ b / d
div_mono a b d p h =
    (le-div_iff_mul-le {k = d} {x = a / d} {y = b} p).1 (omega (arith, div-mul-le_self a d))

-- Let `min` be at most `max`. Whatever the callbacks keep on the buckets that begin before `max`, from
-- the start of the bucket of `min` on, at a multiple of their duration, `visit` keeps: it asks about
-- no other bucket. For every type of bucket and times from 1970 on, a year before the range of `i64`
-- ends, it comes to a result, and that holds of the state in it, whether the walk was stopped or not.
pub visit-Post :
    {St : Type 0} (C : Callbacks St) (P : St → Type 0) (ty : BucketType) (d : ℕ) (ds : List ℕ)
    (max min : ℕ) (s : St)
    → bucket_durations_for_type ty ≡ d ∷ ds
    → ((s : St) (t d' : ℕ)
        → P s
        → IsVisible max (min / d * d) t d'
        → Post P (C.on_open s (pos t) d'))
    → ((s : St) (t d' : ℕ)
        → P s
        → IsVisible max (min / d * d) t d'
        → Post P (C.on_close s (pos t) d'))
    → min ≤ max
    → max + 29030400000 < 2 ^ 63
    → P s
    → (k : ℕ) × (r : Result (St × Bool)) × ((rounds : ℕ)
        → k ≤ rounds
        → visit (bucket_durations_for_type ty) (pos max) C rounds (pos min) s ≡ some r)
      × Post P r
unfolding walk_all
visit-Post C P ty d ds max min s e keep_open keep_close b h p =
    let n = subst Nested e (durations-Nested ty) in
    let ends = visit-walk_all C ty max min s h in
    let w = walk_all C max (bucket_durations_for_type ty) min s in
    (
      ends.0,
      w,
      ends.1,
      rw e (
          walk-Post C P max (min / d * d) keep_open keep_close ds
            (suc ((max / d * d - min / d * d) / d)) (max / d * d) d (max / d) s n
            (Nested-pos d ds n) refl
            (children_after (min / d * d) (min / d * d) (max / d * d)
              ((max / d * d - min / d * d) / d) d (Nested-pos d ds n) (omega arith)
              (mul-le-mul_right d (div_mono min max d (Nested-pos d ds n) b)) refl)
            p),
    )
