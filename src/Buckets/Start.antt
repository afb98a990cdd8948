-- ===== src/Buckets/Start.antt =====
-- Where buckets begin, and that what `new` makes is valid.
use native.Mathlib.Nat.{
  mul-div_cancel, div-div-eq-div-mul, mul_comm, mul_assoc, add-mul, mul-le-mul_right, mul-pos,
  div-mul-le_self, lt-div-mul-add,
}
use hashiverse.Prelude.{
  ℕ, zero, suc, ◌+◌, ◌*◌, ◌/◌, ◌≤◌, ◌<◌, ◌≡◌, ◌≢◌, refl, sym, ap, ◌∙◌, arith, subst, bytes_eq_refl,
  List, [], ◌∷◌, ◌++◌, ok, >>=-eq-ok,
}
use hashiverse.Prelude.Int.{ℤ, pos, negsuc, ◌*ℤ◌, ◌-ℤ◌, sub_ℕ}
use hashiverse.Time.{div_trunc}
use hashiverse.Crypto.{Crypto}
use hashiverse.Buckets.{
  BucketType, BucketLocation, round_down_to_bucket_start, new, validate, get_hash_for_signing,
  bucket_durations_for_type, bucket_durations, tail,
}

round_down_some :
    (t : ℤ) (d : ℕ) → 0 < d → round_down_to_bucket_start t d ≡ ok (div_trunc t d *ℤ pos d)
unfolding round_down_to_bucket_start
round_down_some t d h = ground arith

pub start_pos : (n d : ℕ) → 0 < d → round_down_to_bucket_start (pos n) d ≡ ok (pos (n / d * d))
unfolding round_down_to_bucket_start div_trunc ◌*ℤ◌
start_pos n d h = ground arith

negated_start : (q d : ℕ) → (pos 0 -ℤ pos q) *ℤ pos d ≡ sub_ℕ 0 (q * d)
unfolding ◌-ℤ◌ ◌*ℤ◌
negated_start zero d = ground arith
negated_start (suc q) d = ground arith

start_negsuc :
    (n d : ℕ) → 0 < d → round_down_to_bucket_start (negsuc n) d ≡ ok (sub_ℕ 0 ((n + 1) / d * d))
unfolding div_trunc
start_negsuc n d h = round_down_some (negsuc n) d h ∙ ap ok (negated_start ((n + 1) / d) d)

negated_suc : (k : ℕ) → sub_ℕ 0 (suc k) ≡ negsuc k
negated_suc k = ground arith

add_one : (k : ℕ) → k + 1 ≡ suc k
add_one k = omega arith

start_negated :
    (k d : ℕ) → 0 < d → k / d * d ≡ k → round_down_to_bucket_start (sub_ℕ 0 k) d ≡ ok (sub_ℕ 0 k)
start_negated zero d h e = start_pos 0 d h ∙ ap (λ (x : ℕ). ok (pos x)) e
start_negated (suc k) d h e =
    rw (negated_suc k) (
      start_negsuc k d h
      ∙ ap (λ (x : ℕ). ok (sub_ℕ 0 x)) (rw (add_one k) e)
      ∙ ap ok (negated_suc k))

multiple : (n d : ℕ) → 0 < d → n / d * d / d * d ≡ n / d * d
multiple n d h = ap (λ (x : ℕ). x * d) (mul-div_cancel (n / d) h)

ok_injective {ℓ} : {A : Type ℓ} {a b : A} → ok a ≡ ok b → a ≡ b
ok_injective h = cc

-- A bucket's start is the start of its own bucket.
round_down_idem :
    (t r : ℤ) (d : ℕ)
    → 0 < d
    → round_down_to_bucket_start t d ≡ ok r
    → round_down_to_bucket_start r d ≡ ok r
round_down_idem (pos n) r d h e =
    let eq = ok_injective (sym (start_pos n d h) ∙ e) in
    rw (sym eq) (start_pos (n / d * d) d h ∙ ap (λ (x : ℕ). ok (pos x)) (multiple n d h))
round_down_idem (negsuc n) r d h e =
    let eq = ok_injective (sym (start_negsuc n d h) ∙ e) in
    rw (sym eq) (start_negated ((n + 1) / d * d) d h (multiple (n + 1) d h))

round_down_zero : (t r : ℤ) → round_down_to_bucket_start t 0 ≢ ok r
unfolding round_down_to_bucket_start
round_down_zero t r h = absurd cc

abbrev pub MultipleOf : ℕ → ℕ → Type 0
MultipleOf d d' = (k : ℕ) × (0 < k) × (d ≡ k * d')

-- Each duration is a multiple of the one after it.
abbrev pub Nested : List ℕ → Type 0
Nested [] = Unit {0}
Nested (d ∷ []) = 0 < d
Nested (d ∷ d' ∷ ds) = (0 < d') × MultipleOf d d' × Nested (d' ∷ ds)

pub month-Nested : Nested (tail bucket_durations)
unfolding bucket_durations tail
month-Nested = (
  ground arith,
  (4, ground arith, ground arith),
  (
    ground arith,
    (7, ground arith, ground arith),
    (
      ground arith,
      (4, ground arith, ground arith),
      (
        ground arith,
        (6, ground arith, ground arith),
        (
          ground arith,
          (4, ground arith, ground arith),
          (
            ground arith,
            (3, ground arith, ground arith),
            (ground arith, (5, ground arith, ground arith), ground arith),
          ),
        ),
      ),
    ),
  ),
)

pub year-Nested : Nested bucket_durations
unfolding bucket_durations tail
year-Nested = (ground arith, (12, ground arith, ground arith), month-Nested)

pub durations-Nested : (ty : BucketType) → Nested (bucket_durations_for_type ty)
unfolding bucket_durations_for_type
durations-Nested BucketType.user = month-Nested
durations-Nested BucketType.hashtag = month-Nested
durations-Nested BucketType.mention = month-Nested
durations-Nested BucketType.reply_to_post = month-Nested
durations-Nested BucketType.sequel = year-Nested

adjacent_durations :
    (xs ys : List ℕ) (d d' : ℕ) → Nested (xs ++ (d ∷ d' ∷ ys)) → (0 < d') × MultipleOf d d'
adjacent_durations [] ys d d' h = (h.0, h.1)
adjacent_durations (x ∷ []) ys d d' h = adjacent_durations [] ys d d' h.2
adjacent_durations (x ∷ y ∷ xs) ys d d' h = adjacent_durations (y ∷ xs) ys d d' h.2

coarser_start : (t k d : ℕ) → 0 < d → t / d * d / (k * d) ≡ t / (k * d)
coarser_start t k d h =
    rw (mul_comm k d, sym (div-div-eq-div-mul (t / d * d) d k), mul-div_cancel (t / d) h)
      (div-div-eq-div-mul t d k)

coarser_quotient : (t k d : ℕ) → t / d / k ≡ t / (k * d)
coarser_quotient t k d = rw (mul_comm k d) (div-div-eq-div-mul t d k)

one_more : (q d : ℕ) → (q + 1) * d ≡ q * d + d
one_more q d = ground arith

finer_end : (t k d : ℕ) → 0 < d → 0 < k → t / d * d + d ≤ t / (k * d) * (k * d) + k * d
finer_end t k d h p =
    rw (sym (coarser_quotient t k d), sym (mul_assoc (t / d / k) k d))
      (rw (sym (add-mul (t / d / k * k) k d), sym (one_more (t / d) d))
        (mul-le-mul_right d (omega (arith, lt-div-mul-add {a = t / d} p))))

coarser_before : (t k d : ℕ) → t / (k * d) * (k * d) ≤ t / d * d
coarser_before t k d =
    rw (sym (coarser_quotient t k d), sym (mul_assoc (t / d / k) k d))
      (mul-le-mul_right d (div-mul-le_self (t / d) k))

Within : ℕ → ℕ → ℕ → Type 0
Within t d d' =
    (a : ℕ) × (b : ℕ) × (round_down_to_bucket_start (pos t) d ≡ ok (pos a))
    × (round_down_to_bucket_start (pos t) d' ≡ ok (pos b))
    × (round_down_to_bucket_start (pos b) d ≡ ok (pos a))
    × (a ≤ b)
    × (b ≤ t)
    × (t < b + d')
    × (b + d' ≤ a + d)

multiple-Within : (t k d : ℕ) → 0 < d → 0 < k → Within t (k * d) d
unfolding Within
multiple-Within t k d h p =
    let q = (mul-pos p h) in
    (
      t / (k * d) * (k * d),
      t / d * d,
      start_pos t (k * d) q,
      start_pos t d h,
      start_pos (t / d * d) (k * d) q
          ∙ ap (λ (x : ℕ). ok (pos (x * (k * d)))) (coarser_start t k d h),
      coarser_before t k d,
      div-mul-le_self t d,
      lt-div-mul-add h,
      finer_end t k d h p,
    )

-- Where the durations of a type's ladder put a time stamp from 1970 on: with a duration and the
-- next finer one, the finer bucket holds the time stamp and lies within the coarser bucket, and
-- the coarser bucket of the finer one's start is the coarser bucket of the time stamp.
pub finer_within_coarser :
    (ty : BucketType) (xs ys : List ℕ) (d d' t : ℕ)
    → bucket_durations_for_type ty ≡ xs ++ (d ∷ d' ∷ ys)
    → (a : ℕ) × (b : ℕ) × (round_down_to_bucket_start (pos t) d ≡ ok (pos a))
      × (round_down_to_bucket_start (pos t) d' ≡ ok (pos b))
      × (round_down_to_bucket_start (pos b) d ≡ ok (pos a))
      × (a ≤ b)
      × (b ≤ t)
      × (t < b + d')
      × (b + d' ≤ a + d)
unfolding Within
finer_within_coarser ty xs ys d d' t e =
    let (p, (k, q, m)) = adjacent_durations xs ys d d' (subst Nested e (durations-Nested ty)) in
    subst (λ (x : ℕ). Within t x d') (sym m) (multiple-Within t k d' p q)

module _ (C : Crypto) where
  -- A bucket that `new` makes, for whatever time stamp, before 1970 too, has as its location the
  -- hash that is signed of it, and passes `validate`.
  pub validate-new :
      (ty : BucketType) (base : List ℕ) (d : ℕ) (t : ℤ) (b : BucketLocation)
      → new C ty base d t ≡ ok b
      → (b.location_id ≡ get_hash_for_signing C b) × (validate C b ≡ ok tt)
  unfolding new validate get_hash_for_signing
  validate-new ty base zero t b h =
      let (s, e, k) = >>=-eq-ok (round_down_to_bucket_start t 0) _ h in
      absurd (round_down_zero t s e)
  validate-new ty base (suc d) t b h =
      let (s, e, k) = >>=-eq-ok (round_down_to_bucket_start t (suc d)) _ h in
      let eq = ok_injective k in
      rw (sym eq, round_down_idem t s (suc d) (omega arith) e, bytes_eq_refl) (refl, refl)
