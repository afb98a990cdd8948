-- ===== src/Kademlia/Distinct.antt =====
-- Lists of keys no two of which are the same, under the writes that a bucket undergoes.
use hashiverse.Prelude.{
  ℕ, zero, suc, ◌≡◌, refl, sym, subst, ap, arith, false, Bool-cases, inl, inr, some, List, [], ◌∷◌,
  ◌++◌, map, get_elem?, set, bytes_eq, bytes_eq_iff, All, All-append,
}
use hashiverse.Kademlia.{split_last}
use hashiverse.Kademlia.Valid.{Absent, Distinct}

module _ {ℓ κ} {A : Type ℓ} (Q : A → Type κ) where
  pub All-set : (xs : List A) (i : ℕ) (v : A) → All Q xs → Q v → All Q (set xs i v)
  All-set [] i v h q = tt
  All-set (x ∷ xs) zero v h q = (q, h.1)
  All-set (x ∷ xs) (suc i) v h q = (h.0, All-set xs i v h.1 q)

  pub All-front : (xs ys : List A) → All Q (xs ++ ys) → All Q xs
  All-front [] ys h = tt
  All-front (x ∷ xs) ys h = (h.0, All-front xs ys h.1)

  pub All-get_elem? : (xs : List A) (i : ℕ) {x : A} → All Q xs → get_elem? xs i ≡ some x → Q x
  All-get_elem? [] i h e = cc
  All-get_elem? (y ∷ xs) zero h e = subst Q (ground (arith, e)) h.0
  All-get_elem? (y ∷ xs) (suc i) h e = All-get_elem? xs i h.1 e

  pub All-back : (xs ys : List A) → All Q (xs ++ ys) → All Q ys
  All-back [] ys h = h
  All-back (x ∷ xs) ys h = All-back xs ys h.1

abbrev Differs : List ℕ → List ℕ → Type 0
Differs key other = bytes_eq other key ≡ false

pub map-set {ℓ κ} :
    {A : Type ℓ} {B : Type κ} (f : A → B) (xs : List A) (i : ℕ) (v : A)
    → map f (set xs i v) ≡ set (map f xs) i (f v)
map-set f [] i v = refl
map-set f (x ∷ xs) zero v = refl
map-set f (x ∷ xs) (suc i) v = ap (◌∷◌ (f x)) (map-set f xs i v)

-- To write what stands there changes nothing.
pub set_same {ℓ} :
    {A : Type ℓ} (xs : List A) (i : ℕ) (v : A) → get_elem? xs i ≡ some v → set xs i v ≡ xs
set_same [] i v h = refl
set_same (x ∷ xs) zero v h = ground (arith, h)
set_same (x ∷ xs) (suc i) v h = ap (◌∷◌ x) (set_same xs i v h)

pub get_elem?-map {ℓ κ} :
    {A : Type ℓ} {B : Type κ} (f : A → B) (xs : List A) (i : ℕ) (v : A)
    → get_elem? xs i ≡ some v
    → get_elem? (map f xs) i ≡ some (f v)
get_elem?-map f [] i v h = cc
get_elem?-map f (x ∷ xs) zero v h = ground (arith, h)
get_elem?-map f (x ∷ xs) (suc i) v h = get_elem?-map f xs i v h

pub bytes_eq_sym : (xs ys : List ℕ) → bytes_eq xs ys ≡ false → bytes_eq ys xs ≡ false
bytes_eq_sym xs ys h = elim (Bool-cases (bytes_eq ys xs)) [
  | inl e ↦ cc (h, (bytes_eq_iff xs ys).1 (sym ((bytes_eq_iff ys xs).0 e)))
  | inr e ↦ e
]

pub Distinct-set :
    (keys : List (List ℕ)) (i : ℕ) (key : List ℕ)
    → Distinct keys
    → Absent key keys
    → Distinct (set keys i key)
Distinct-set [] i key d a = tt
Distinct-set (x ∷ keys) zero key d a = (a.1, d.1)
Distinct-set (x ∷ keys) (suc i) key d a = (
  All-set (λ y. bytes_eq y x ≡ false) keys i key d.0 (bytes_eq_sym x key a.0),
  Distinct-set keys i key d.1 a.1,
)

pub Distinct-snoc :
    (keys : List (List ℕ)) (key : List ℕ)
    → Distinct keys
    → Absent key keys
    → Distinct (keys ++ key ∷ [])
Distinct-snoc [] key d a = (tt, tt)
Distinct-snoc (x ∷ keys) key d a = (
  All-append (λ y. bytes_eq y x ≡ false) keys _ d.0 (bytes_eq_sym x key a.0, tt),
  Distinct-snoc keys key d.1 a.1,
)

pub Distinct-unsnoc :
    (keys : List (List ℕ)) (key : List ℕ)
    → Distinct (keys ++ key ∷ [])
    → Distinct keys × Absent key keys
Distinct-unsnoc [] key d = (tt, tt)
Distinct-unsnoc (x ∷ keys) key d =
    let rest = Distinct-unsnoc keys key d.1 in
    (
      (All-front (λ y. bytes_eq y x ≡ false) keys _ d.0, rest.0),
      (bytes_eq_sym key x (All-back (λ y. bytes_eq y x ≡ false) keys _ d.0).0, rest.1),
    )

pub split_last_lem {ℓ} :
    {A : Type ℓ} (x : A) (xs : List A) → (split_last x xs).0 ++ (split_last x xs).1 ∷ [] ≡ x ∷ xs
unfolding split_last
split_last_lem x [] = refl
split_last_lem x (y ∷ ys) = ap (◌∷◌ x) (split_last_lem y ys)

pub map-snoc {ℓ κ} :
    {A : Type ℓ} {B : Type κ} (f : A → B) (xs : List A) (v : A)
    → map f (xs ++ v ∷ []) ≡ map f xs ++ f v ∷ []
map-snoc f [] v = refl
map-snoc f (x ∷ xs) v = ap (◌∷◌ (f x)) (map-snoc f xs v)

-- Overwriting the place of a key with the last one takes the key away.
pub Absent-set :
    (keys : List (List ℕ)) (last : List ℕ) (i : ℕ) (key : List ℕ)
    → Distinct (keys ++ last ∷ [])
    → get_elem? (keys ++ last ∷ []) i ≡ some key
    → Absent key (set keys i last)
Absent-set [] last i key d e = tt
Absent-set (x ∷ keys) last zero key d e =
    subst (λ found. Absent found (last ∷ keys)) (ground (arith, e))
      ((All-back (Differs x) keys _ d.0).0, All-front (Differs x) keys _ d.0)
Absent-set (x ∷ keys) last (suc i) key d e = (
  bytes_eq_sym key x (All-get_elem? (Differs x) (keys ++ last ∷ []) i d.0 e),
  Absent-set keys last i key d.1 e,
)
