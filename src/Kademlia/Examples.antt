-- ===== src/Kademlia/Examples.antt =====
-- Runs of a table with one-byte ids, and its theorems at them.
use mathlib.Core.List.{Perm}
use mathlib.Core.List.Perm
use hashiverse.Prelude.{
  flatten, bytes_eq, ℕ, ◌%◌, ◌≤◌, ◌≡◌, refl, arith, leb, ltb, if◌then◌else◌, Bool, false,
  Bool-cases, inl, inr, some, List, [], ◌∷◌, All, ok,
}
use hashiverse.Prelude.Int.{pos}
use hashiverse.Kademlia.{
  PeerTrait, Kademlia, new, add_peer, remove_peer, get_all_peers, get_peer_with_lowest_score,
}
use hashiverse.Kademlia.Select.{
  SortUnstable, IsDescending, get_peers_for_key, min_agreement, take_while,
}
use hashiverse.Agreement.{leading_agreement_bits_xor}
use hashiverse.Kademlia.Valid.{Lawful, IsValid}
use hashiverse.Kademlia.Closest.{IsClosest, get_peers_for_key-IsClosest}
use hashiverse.Kademlia.Keeps.{add_peer-IsValid, new-IsValid}

module _ {A : Type 0} where
  abbrev insert : ℕ × A → List (ℕ × A) → List (ℕ × A)
  insert x [] = x ∷ []
  insert x (y ∷ ys) = if leb y.0 x.0 then x ∷ y ∷ ys else y ∷ insert x ys

  abbrev sort : List (ℕ × A) → List (ℕ × A)
  sort [] = []
  sort (x ∷ xs) = insert x (sort xs)

  insert-perm : (x : ℕ × A) (xs : List (ℕ × A)) → Perm (insert x xs) (x ∷ xs)
  insert-perm x [] = Perm.rfl
  insert-perm x (y ∷ ys) = elim (Bool-cases (leb y.0 x.0)) [
    | inl e ↦ rw e Perm.rfl
    | inr e ↦ rw e (Perm.trans (Perm.cons y (insert-perm x ys)) (Perm.swap x y ys))
  ]

  sort-perm : (xs : List (ℕ × A)) → Perm (sort xs) xs
  sort-perm [] = Perm.rfl
  sort-perm (x ∷ xs) = Perm.trans (insert-perm x (sort xs)) (Perm.cons x (sort-perm xs))

  All-insert :
      (n : ℕ) (x : ℕ × A) (xs : List (ℕ × A))
      → x.0 ≤ n
      → All (λ y. y.0 ≤ n) xs
      → All (λ y. y.0 ≤ n) (insert x xs)
  All-insert n x [] h a = (h, tt)
  All-insert n x (y ∷ ys) h a = elim (Bool-cases (leb y.0 x.0)) [
    | inl e ↦ rw e (h, a)
    | inr e ↦ rw e (a.0, All-insert n x ys h a.1)
  ]

  All-mono : (m n : ℕ) (xs : List (ℕ × A)) → m ≤ n → All (λ y. y.0 ≤ m) xs → All (λ y. y.0 ≤ n) xs
  All-mono m n [] h a = tt
  All-mono m n (x ∷ xs) h a = (omega (arith, a.0), All-mono m n xs h a.1)

  insert-IsDescending :
      (x : ℕ × A) (xs : List (ℕ × A)) → IsDescending xs → IsDescending (insert x xs)
  insert-IsDescending x [] d = (tt, tt)
  insert-IsDescending x (y ∷ ys) d = elim (Bool-cases (leb y.0 x.0)) [
    | inl e ↦ rw e ((ground arith, All-mono y.0 x.0 ys (ground arith) d.0), d)
    | inr e ↦ rw e (All-insert y.0 x ys (ground arith) d.0, insert-IsDescending x ys d.1)
  ]

  sort-IsDescending : (xs : List (ℕ × A)) → IsDescending (sort xs)
  sort-IsDescending [] = tt
  sort-IsDescending (x ∷ xs) = insert-IsDescending x (sort xs) (sort-IsDescending xs)

-- A peer is its id, a byte, and its score.
abbrev Peer : Type 0
Peer = ℕ × ℕ

abbrev peers : PeerTrait
peers = record {
  Peer = Peer;
  Score = ℕ;
  id_bytes = 1;
  id = λ p. p.0 % 256 ∷ [];
  score = λ p _. p.1;
  score_lt = ltb;
  total_gt = λ a b. ltb b a;
  score_max = 1000;
}

abbrev insertion_sort : SortUnstable Peer
insertion_sort = record {
  sort = sort;
  sort-perm = sort-perm;
  sort-IsDescending = sort-IsDescending;
}

lawful : Lawful peers
lawful = record {
  positive = omega arith;
  peer_ids = λ p. record { size = refl; are_bytes = (omega arith, tt) };
}

abbrev empty : Kademlia Peer
empty = new peers (0 ∷ []) 2

-- Three peers share the bucket of the first bit, and the last one has to win its place.
abbrev filled : Kademlia Peer
filled =
    add_peer peers
      (add_peer peers (add_peer peers (add_peer peers empty (0x80, 5) (pos 1)) (0x90, 7) (pos 2))
        (0x0f, 3) (pos 3))
      (0xff, 6) (pos 4)

empty-IsValid : IsValid peers empty
empty-IsValid = new-IsValid peers (0 ∷ []) 2 (record { size = refl; are_bytes = (omega arith, tt) })

filled-IsValid : IsValid peers filled
filled-IsValid =
    add_peer-IsValid peers lawful _
      (add_peer-IsValid peers lawful _
        (add_peer-IsValid peers lawful _
          (add_peer-IsValid peers lawful empty empty-IsValid (0x80, 5) (pos 1)) (0x90, 7) (pos 2))
        (0x0f, 3) (pos 3))
      (0xff, 6) (pos 4)

filled-get_all_peers : get_all_peers peers filled ≡ (0xff, 6) ∷ (0x90, 7) ∷ (0x0f, 3) ∷ []
unfolding get_all_peers add_peer new flatten bytes_eq leading_agreement_bits_xor
filled-get_all_peers = refl

filled_lowest : get_peer_with_lowest_score peers filled ≡ some (0x0f, 3)
unfolding get_peer_with_lowest_score add_peer new flatten bytes_eq leading_agreement_bits_xor
filled_lowest = refl

removed : (remove_peer peers filled (0xff ∷ []) (pos 5)).1 ≡ some (0xff, 6)
unfolding remove_peer add_peer new bytes_eq leading_agreement_bits_xor
removed = refl

one_peer : get_peers_for_key peers insertion_sort filled (0xfe ∷ []) 1 ≡ ok ((0xff, 6) ∷ [], false)
unfolding get_peers_for_key add_peer new min_agreement take_while bytes_eq
    leading_agreement_bits_xor
one_peer = refl

new_table-IsValid : IsValid peers empty
new_table-IsValid =
    new-IsValid peers (0 ∷ []) 2 (record { size = refl; are_bytes = (omega arith, tt) })

add_peer-IsValid_example : IsValid peers (add_peer peers filled (0xfe, 9) (pos 5))
add_peer-IsValid_example = add_peer-IsValid peers lawful filled filled-IsValid (0xfe, 9) (pos 5)

get_peers_for_key-IsClosest_example :
    (answer : List Peer) × (has_self : Bool) × (get_peers_for_key peers insertion_sort filled
        (0xfe ∷ [])
        1
      ≡ ok (answer, has_self))
    × IsClosest peers insertion_sort filled (0xfe ∷ []) 1 answer has_self
get_peers_for_key-IsClosest_example =
    get_peers_for_key-IsClosest peers insertion_sort lawful filled filled-IsValid (0xfe ∷ [])
      (record { size = refl; are_bytes = (omega arith, tt) }) 1 (omega arith)
