-- ===== src/Visitor/Ladder.antt =====
-- The arithmetic of the walk, where no time leaves the range of `i64`.
use native.Mathlib.Nat.{div-eq-sub-div, le-div_iff_mul-le, div-lt_iff_lt-mul}
use hashiverse.Prelude.{
  ℕ, zero, suc, ◌+◌, ◌-◌, ◌/◌, ◌^◌, ◌≤◌, ◌<◌, ◌≡◌, refl, min, arith, ltb, leb, true, false, List,
  [], ◌∷◌, length, drop, ok,
}
use hashiverse.Prelude.Int.{pos, leb_ℤ, saturate, ◌+ℤ◌, ◌-ℤ◌}
use hashiverse.Time.{add_duration, sub_duration}
use hashiverse.Visitor.{Frame, open_frame, sibling, min_ℤ, index}

pub not_before : (a b : ℕ) → leb_ℤ (pos a) (pos b) ≡ leb a b
not_before a b = ground arith

pub sub_duration-pos : (t d : ℕ) → d ≤ t → t < 2 ^ 63 → sub_duration (pos t) (pos d) ≡ pos (t - d)
unfolding sub_duration saturate ◌-ℤ◌
sub_duration-pos t d h k = ground arith

sub_duration-before :
    (o t d : ℕ) → t < o + d → d < 2 ^ 63 → leb_ℤ (pos o) (sub_duration (pos t) (pos d)) ≡ false
unfolding sub_duration saturate ◌-ℤ◌
sub_duration-before o t d h k = ground arith

pub add_duration-pos : (t d : ℕ) → t + d < 2 ^ 63 → add_duration (pos t) (pos d) ≡ pos (t + d)
unfolding add_duration saturate ◌+ℤ◌
add_duration-pos t d h = ground arith

pub sibling-some :
    (o t d i : ℕ) (frames : List Frame)
    → o + d ≤ t
    → t < 2 ^ 63
    → sibling (pos t) d i (pos o) frames ≡ open_frame (pos (t - d)) i (pos o) ∷ frames
unfolding sibling
sibling-some o t d i frames h k =
    rw (sub_duration-pos t d (omega arith) k, not_before o (t - d)) (ground arith)

pub sibling-none :
    (o t d i : ℕ) (frames : List Frame)
    → t < o + d
    → d < 2 ^ 63
    → sibling (pos t) d i (pos o) frames ≡ frames
unfolding sibling
sibling-none o t d i frames h k = rw (sub_duration-before o t d h k) refl

pub child_time :
    (top t d d' : ℕ)
    → t + d < 2 ^ 63
    → d' ≤ d
    → min_ℤ (pos top) (sub_duration (add_duration (pos t) (pos d)) (pos d'))
      ≡ pos (min top (t + d - d'))
child_time top t d d' h k =
    rw
      (
        add_duration-pos t d h,
        sub_duration-pos (t + d) d' (omega arith) h,
        not_before top (t + d - d'),
      )
      (ground arith)

-- How many durations lie between.
pub some_left : (t o d m : ℕ) → 0 < d → (t - o) / d ≡ suc m → o + d ≤ t
some_left t o d m h e =
    omega (arith, (le-div_iff_mul-le {k = d} {x = 1} {y = t - o} h).0 (omega arith), h)

pub none_left : (t o d : ℕ) → 0 < d → (t - o) / d ≡ 0 → t < o + d
none_left t o d h e =
    omega (arith, (div-lt_iff_lt-mul {k = d} {x = t - o} {y = 1} h).0 (omega arith), h)

swap_sub : (t d o : ℕ) → t - d - o ≡ t - o - d
swap_sub t d o = omega arith

pub one_fewer : (t o d m : ℕ) → 0 < d → (t - o) / d ≡ suc m → (t - d - o) / d ≡ m
one_fewer t o d m h e =
    rw (swap_sub t d o) (
      omega (arith, div-eq-sub-div {m = d} {n = t - o} h (omega (arith, some_left t o d m h e)), e))

-- The durations from an index on.
pub index-drop : (xs ds : List ℕ) (i d : ℕ) → drop i xs ≡ d ∷ ds → index xs i ≡ ok d
unfolding index
index-drop [] ds zero d h = absurd cc
index-drop [] ds (suc i) d h = absurd cc
index-drop (x ∷ xs) ds zero d h = ground arith
index-drop (x ∷ xs) ds (suc i) d h = index-drop xs ds i d h

pub drop-next : (xs ds : List ℕ) (i d : ℕ) → drop i xs ≡ d ∷ ds → drop (suc i) xs ≡ ds
drop-next [] ds zero d h = absurd cc
drop-next [] ds (suc i) d h = absurd cc
drop-next (x ∷ xs) ds zero d h = ground arith
drop-next (x ∷ xs) ds (suc i) d h = drop-next xs ds i d h

pub drop-in : (xs ds : List ℕ) (i d : ℕ) → drop i xs ≡ d ∷ ds → i < length xs
drop-in [] ds zero d h = absurd cc
drop-in [] ds (suc i) d h = absurd cc
drop-in (x ∷ xs) ds zero d h = omega arith
drop-in (x ∷ xs) ds (suc i) d h = omega (arith, drop-in xs ds i d h)

pub drop-out : (xs : List ℕ) (i : ℕ) → drop i xs ≡ [] → length xs ≤ i
drop-out [] i h = omega arith
drop-out (x ∷ xs) zero h = absurd cc
drop-out (x ∷ xs) (suc i) h = omega (arith, drop-out xs i h)

add_one : (i : ℕ) → i + 1 ≡ suc i
add_one i = omega arith

pub drop-next_one : (xs ds : List ℕ) (i d : ℕ) → drop i xs ≡ d ∷ ds → drop (i + 1) xs ≡ ds
drop-next_one xs ds i d h = rw (add_one i) (drop-next xs ds i d h)

pub is_last : (xs : List ℕ) (i d : ℕ) → drop i xs ≡ d ∷ [] → ltb (i + 1) (length xs) ≡ false
is_last xs i d h = ground (arith, drop-out xs (i + 1) (drop-next_one xs [] i d h))

pub is_not_last :
    (xs ds : List ℕ) (i d d' : ℕ) → drop i xs ≡ d ∷ d' ∷ ds → ltb (i + 1) (length xs) ≡ true
is_not_last xs ds i d d' h =
    ground (arith, drop-in xs ds (i + 1) d' (drop-next_one xs (d' ∷ ds) i d h))

-- What the recursion needs of a ladder: the durations fall, and stay in range behind `max`.
unfoldable pub Falls : ℕ → List ℕ → Type 0
Falls max [] = Unit {0}
Falls max (d ∷ []) = (0 < d) × (max + d < 2 ^ 63)
Falls max (d ∷ d' ∷ ds) = (0 < d) × (max + d < 2 ^ 63) × (d' ≤ d) × Falls max (d' ∷ ds)

pub Falls-head : (max d : ℕ) (ds : List ℕ) → Falls max (d ∷ ds) → (0 < d) × (max + d < 2 ^ 63)
unfolding Falls
Falls-head max d [] h = h
Falls-head max d (d' ∷ ds) h = (h.0, h.1)
