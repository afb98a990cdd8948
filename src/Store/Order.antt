-- ===== src/Store/Order.antt =====
-- The order in which the bundles are visited, from a location on and around.
use hashiverse.Prelude.{
  ℕ, ◌≡◌, refl, ap, arith, true, false, Bool-cases, inl, inr, bytes_eq, bytes_eq_iff, List, [], ◌∷◌,
  ◌++◌, All,
}
use hashiverse.Prelude.Int.{ℤ}
use hashiverse.Time.{encode_be}
use hashiverse.Assoc.{Map}
use hashiverse.Store.{
  MemEnvironmentStore, bytes_lt, btree_insert, flush_loop, post_bundles_last_accessed_flush,
  range_from, range_to, post_bundles_last_accessed_iter,
}

bytes_lt_trans : (a b c : List ℕ) → bytes_lt a b ≡ true → bytes_lt b c ≡ true → bytes_lt a c ≡ true
unfolding bytes_lt
bytes_lt_trans [] [] c h k = absurd cc
bytes_lt_trans [] (y ∷ b) [] h k = absurd cc
bytes_lt_trans [] (y ∷ b) (z ∷ c) h k = refl
bytes_lt_trans (x ∷ a) [] c h k = absurd cc
bytes_lt_trans (x ∷ a) (y ∷ b) [] h k = absurd cc
bytes_lt_trans (x ∷ a) (y ∷ b) (z ∷ c) h k = ground (arith, bytes_lt_trans a b c)

bytes_lt_total : (a b : List ℕ) → bytes_eq a b ≡ false → bytes_lt b a ≡ false → bytes_lt a b ≡ true
unfolding bytes_lt bytes_eq
bytes_lt_total [] [] h k = absurd cc
bytes_lt_total [] (y ∷ b) h k = refl
bytes_lt_total (x ∷ a) [] h k = absurd cc
bytes_lt_total (x ∷ a) (y ∷ b) h k = ground (arith, bytes_lt_total a b)

abbrev pub IsSorted : Map (List ℕ) → Type 0
IsSorted [] = Unit
IsSorted (x ∷ m) = All (λ y. bytes_lt x.0 y.0 ≡ true) m × IsSorted m

All-above :
    (a b : List ℕ) (m : Map (List ℕ))
    → bytes_lt a b ≡ true
    → All (λ y. bytes_lt b y.0 ≡ true) m
    → All (λ y. bytes_lt a y.0 ≡ true) m
All-above a b [] h k = tt
All-above a b (x ∷ m) h k = (bytes_lt_trans a b x.0 h k.0, All-above a b m h k.1)

All-btree_insert :
    (a key v : List ℕ) (m : Map (List ℕ))
    → bytes_lt a key ≡ true
    → All (λ y. bytes_lt a y.0 ≡ true) m
    → All (λ y. bytes_lt a y.0 ≡ true) (btree_insert m key v)
unfolding btree_insert
All-btree_insert a key v [] h k = (h, tt)
All-btree_insert a key v (x ∷ m) h k = elim (Bool-cases (bytes_eq x.0 key)) [
  | inl e ↦ rw e (h, k.1)
  | inr e ↦ rw e (elim (Bool-cases (bytes_lt key x.0)) [
    | inl l ↦ rw l (h, k)
    | inr l ↦ rw l (k.0, All-btree_insert a key v m h k.1)
  ])
]

btree_insert-IsSorted :
    (m : Map (List ℕ)) (key v : List ℕ) → IsSorted m → IsSorted (btree_insert m key v)
unfolding btree_insert
btree_insert-IsSorted [] key v h = (tt, tt)
btree_insert-IsSorted (x ∷ m) key v h = elim (Bool-cases (bytes_eq x.0 key)) [
  | inl e ↦ rw (e, ← (bytes_eq_iff x.0 key).0 e) h
  | inr e ↦ rw e (elim (Bool-cases (bytes_lt key x.0)) [
    | inl l ↦ rw l ((l, All-above key x.0 m l h.0), h)
    | inr l ↦ rw l (
      All-btree_insert x.0 key v m (bytes_lt_total x.0 key e l) h.0,
      btree_insert-IsSorted m key v h.1,
    )
  ])
]

flush_loop-IsSorted :
    (m : Map (List ℕ)) (accessed : List (List ℕ × ℤ))
    → IsSorted m
    → IsSorted (flush_loop m accessed)
unfolding flush_loop
flush_loop-IsSorted m [] h = h
flush_loop-IsSorted m (x ∷ xs) h =
    flush_loop-IsSorted (btree_insert m x.0 (encode_be x.1)) xs
      (btree_insert-IsSorted m x.0 (encode_be x.1) h)

-- `post_bundles_last_accessed_flush` keeps the entries in the order of their locations.
pub flush-IsSorted :
    (s : MemEnvironmentStore) (accessed : List (List ℕ × ℤ))
    → IsSorted s.post_bundle_last_accessed
    → IsSorted (post_bundles_last_accessed_flush s accessed).post_bundle_last_accessed
unfolding post_bundles_last_accessed_flush
flush-IsSorted s accessed h = flush_loop-IsSorted s.post_bundle_last_accessed accessed h

range_to-below :
    (m : Map (List ℕ)) (key : List ℕ) → All (λ y. bytes_lt y.0 key ≡ true) (range_to m key)
unfolding range_to
range_to-below [] key = tt
range_to-below (x ∷ m) key = elim (Bool-cases (bytes_lt x.0 key)) [
  | inl e ↦ rw e (e, range_to-below m key)
  | inr e ↦ rw e (range_to-below m key)
]

range_from-above :
    (m : Map (List ℕ)) (key : List ℕ) → All (λ y. bytes_lt y.0 key ≡ false) (range_from m key)
unfolding range_from
range_from-above [] key = tt
range_from-above (x ∷ m) key = elim (Bool-cases (bytes_lt x.0 key)) [
  | inl e ↦ rw e (range_from-above m key)
  | inr e ↦ rw e (e, range_from-above m key)
]

ranges_above :
    (x : List ℕ) (m : Map (List ℕ)) (key : List ℕ)
    → bytes_lt x key ≡ false
    → All (λ y. bytes_lt x y.0 ≡ true) m
    → (range_to m key ≡ []) × (range_from m key ≡ m)
unfolding range_to range_from
ranges_above x [] key h a = (refl, refl)
ranges_above x (y ∷ m) key h a = elim (Bool-cases (bytes_lt y.0 key)) [
  | inl e ↦ absurd (cc (bytes_lt_trans x y.0 key a.0 e, h))
  | inr e ↦ rw (e, (ranges_above x m key h a.1).0, (ranges_above x m key h a.1).1) (refl, refl)
]

ranges_split :
    (m : Map (List ℕ)) (key : List ℕ) → IsSorted m → m ≡ range_to m key ++ range_from m key
unfolding range_to range_from
ranges_split [] key h = refl
ranges_split (x ∷ m) key h = elim (Bool-cases (bytes_lt x.0 key)) [
  | inl e ↦ rw e (ap (◌∷◌ x) (ranges_split m key h.1))
  | inr e ↦ rw (e, (ranges_above x.0 m key e h.0).0, (ranges_above x.0 m key e h.0).1) refl
]

-- On a map in the order of its locations, `post_bundles_last_accessed_iter` visits every entry once:
-- first those from the given location on, in order, and then those before it, in order.
pub iter-rotation :
    (s : MemEnvironmentStore) (key : List ℕ)
    → IsSorted s.post_bundle_last_accessed
    → (front back : Map (List ℕ)) × (s.post_bundle_last_accessed ≡ front ++ back)
      × (post_bundles_last_accessed_iter s key ≡ back ++ front)
      × All (λ y. bytes_lt y.0 key ≡ true) front
      × All (λ y. bytes_lt y.0 key ≡ false) back
unfolding post_bundles_last_accessed_iter
iter-rotation s key h =
    let m = s.post_bundle_last_accessed in
    (
      range_to m key,
      range_from m key,
      ranges_split m key h,
      refl,
      range_to-below m key,
      range_from-above m key,
    )
