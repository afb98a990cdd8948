-- ===== src/Cache/Evict.antt =====
-- That the eviction loop of `on_upload` ends within the capacity, and what it leaves.
use mathlib.Core.List.{Mem, Perm, mem-cons, mem-cons_self, mem-cons_of_mem, not-mem-nil, Mem-prop}
use mathlib.Core.List.Perm
use mathlib.Core.Logic.Or
use native.Mathlib.Bridge.{le_prop}
use hashiverse.Assoc.Laws.{get-remove, get-insert}
use hashiverse.Prelude.{
  ℕ, zero, suc, ◌+◌, ◌≤◌, ◌<◌, ◌≡◌, ◌⊎◌, refl, sym, ◌∙◌, arith, ltb, leb, Bool, Bool-cases, inl,
  inr, bytes_eq, bytes_eq_refl, Option, none, some, List, [], ◌∷◌, length, length-perm,
}
use hashiverse.Prelude.Int.{ℤ}
use hashiverse.Assoc.{Map, get, insert, remove}
use hashiverse.Cache.{
  CachedBundle, LocationEntry, PostBundleCache, HashOrder, is_worse, min_loop, evict_key,
  remove_key, evict_loop, uploaded, upload_to, on_upload, contains_key, expiry,
}

min_loop-mem :
    (location_id : List ℕ) (best : List ℕ × CachedBundle) (m : Map CachedBundle)
    → Mem (min_loop location_id best m) (best ∷ m)
unfolding min_loop
min_loop-mem location_id best [] = mem-cons_self
min_loop-mem location_id best (x ∷ m) = elim (Bool-cases (is_worse location_id x best)) [
  | inl h ↦ rw h (mem-cons_of_mem best (min_loop-mem location_id x m))
  | inr h ↦ rw h (
      Or.elim Mem-prop (mem-cons.0 (min_loop-mem location_id best m)) (λ e. rw e mem-cons_self)
        (λ k. mem-cons_of_mem best (mem-cons_of_mem x k)))
]

remove-shorter : (m : Map CachedBundle) (key : List ℕ) → length (remove m key) ≤ length m
unfolding remove
remove-shorter [] key = ground arith
remove-shorter (x ∷ m) key = ground (arith, remove-shorter m key)

remove-shrinks :
    (m : Map CachedBundle) (x : List ℕ × CachedBundle) → Mem x m → length (remove m x.0) < length m
unfolding remove
remove-shrinks [] x h = absurd (not-mem-nil h)
remove-shrinks (y ∷ m) x h =
    Or.elim le_prop (mem-cons.0 h)
      (λ e. rw (sym e, bytes_eq_refl x.0) (ground (arith, remove-shorter m x.0)))
      (λ k. ground (arith, remove-shrinks m x k))

evict_from :
    (location_id : List ℕ) (m xs : Map CachedBundle)
    → Perm xs m
    → 0 < length m
    → length (remove_key m (evict_key location_id xs)) < length m
unfolding remove_key evict_key
evict_from location_id m [] p h = absurd (omega (arith, length-perm p, h))
evict_from location_id m (x ∷ xs) p h =
    remove-shrinks m (min_loop location_id x xs)
      ((Perm.mem_iff p).0 (min_loop-mem location_id x xs))

-- Under each key there is nothing, or what there was.
abbrev pub LeftOf : Map CachedBundle → Map CachedBundle → Type 0
LeftOf m' m = (key : List ℕ) → (get m' key ≡ none) ⊎ (get m' key ≡ get m key)

remove_key-LeftOf :
    (m : Map CachedBundle) (evicted : Option (List ℕ)) → LeftOf (remove_key m evicted) m
unfolding remove_key
remove_key-LeftOf m none key = inr refl
remove_key-LeftOf m (some k) key = elim (Bool-cases (bytes_eq k key)) [
  | inl e ↦ inl (get-remove m k key ∙ rw e refl)
  | inr e ↦ inr (get-remove m k key ∙ rw e refl)
]

LeftOf-trans : (a b c : Map CachedBundle) → LeftOf a b → LeftOf b c → LeftOf a c
LeftOf-trans a b c p q key = elim (p key) [
  | inl e ↦ inl e
  | inr e ↦ elim (q key) [ inl f ↦ inl (e ∙ f) | inr f ↦ inr (e ∙ f) ]
]

insert-longer :
    (m : Map CachedBundle) (key : List ℕ) (b : CachedBundle)
    → length (insert m key b) ≤ length m + 1
unfolding insert
insert-longer [] key b = ground arith
insert-longer (x ∷ m) key b = ground (arith, insert-longer m key b)

module _ (H : HashOrder) where
  -- The loop ends within the capacity.
  evict_loop-bounded :
      (rounds : ℕ) (location_id : List ℕ) (max : ℕ) (m : Map CachedBundle)
      → length m ≤ rounds
      → length (evict_loop H rounds location_id max m) ≤ max
  unfolding evict_loop
  evict_loop-bounded zero location_id max m h = omega arith
  evict_loop-bounded (suc rounds) location_id max m h = elim (Bool-cases (ltb max (length m))) [
    | inl e ↦ rw e (
        evict_loop-bounded rounds location_id max _
          (ground (arith, evict_from location_id m (H.iter m) (H.iter-perm m))))
    | inr e ↦ rw e (ground arith)
  ]

  evict_loop-LeftOf :
      (rounds : ℕ) (location_id : List ℕ) (max : ℕ) (m : Map CachedBundle)
      → LeftOf (evict_loop H rounds location_id max m) m
  unfolding evict_loop
  evict_loop-LeftOf zero location_id max m = λ key. inr refl
  evict_loop-LeftOf (suc rounds) location_id max m = elim (Bool-cases (ltb max (length m))) [
    | inl e ↦
        let m' = remove_key m (evict_key location_id (H.iter m)) in
        rw e (
          LeftOf-trans _ m' m (evict_loop-LeftOf rounds location_id max m')
            (remove_key-LeftOf m (evict_key location_id (H.iter m))))
    | inr e ↦ rw e (λ key. inr refl)
  ]

  evict_loop-fits :
      (rounds : ℕ) (location_id : List ℕ) (max : ℕ) (m : Map CachedBundle)
      → length m ≤ max
      → evict_loop H rounds location_id max m ≡ m
  unfolding evict_loop
  evict_loop-fits zero location_id max m h = refl
  evict_loop-fits (suc rounds) location_id max m h = ground (arith, h)

  room :
      (rounds : ℕ) (location_id : List ℕ) (max : ℕ) (before m : Map CachedBundle)
      → length m ≤ length before + 1
      → (max ≤ length before) ⊎ (evict_loop H rounds location_id max m ≡ m)
  room rounds location_id max before m h = elim (Bool-cases (leb max (length before))) [
    | inl e ↦ inl (ground arith)
    | inr e ↦ inr (evict_loop-fits rounds location_id max m (ground arith))
  ]

  -- On an upload to a location that the cache holds, the loop of evictions ends, whatever the
  -- order in which the hash map lists its entries: the entry of the location keeps its count of
  -- hits and has at most as many bundles as allowed, under each key none or the one that was there
  -- or was uploaded, and all of them if there was room; the answer tells whether the uploaded one
  -- is among them.
  pub on_upload-IsBounded :
      (s : PostBundleCache) (location_id originator bytes : List ℕ) (t : ℤ) (is_sealed : Bool)
      (entry : LocationEntry)
      → get s.bundles location_id ≡ some entry
      → (m : Map CachedBundle) × (get
            (on_upload H s location_id originator bytes t is_sealed).0.bundles
            location_id
          ≡ some (record entry { bundles = m }))
        × ((on_upload H s location_id originator bytes t is_sealed).1 ≡ contains_key m originator)
        × (length m ≤ s.max_originators_per_location)
        × LeftOf m (
            insert entry.bundles originator
              (record { bytes = bytes; expires_at = expiry is_sealed t }))
        × ((s.max_originators_per_location ≤ length entry.bundles)
            ⊎ (m
                ≡ insert entry.bundles originator
                    (record { bytes = bytes; expires_at = expiry is_sealed t })))
  unfolding on_upload upload_to uploaded
  on_upload-IsBounded s location_id originator bytes t is_sealed entry h =
      let max = s.max_originators_per_location in
      let bundle : CachedBundle = record { bytes = bytes; expires_at = expiry is_sealed t } in
      let m = insert entry.bundles originator bundle in
      rw h (
        evict_loop H (length m) location_id max m,
        get-insert s.bundles location_id _ location_id ∙ rw (bytes_eq_refl location_id) refl,
        refl,
        evict_loop-bounded (length m) location_id max m (omega arith),
        evict_loop-LeftOf (length m) location_id max m,
        room (length m) location_id max entry.bundles m
            (insert-longer entry.bundles originator bundle),
      )
