-- ===== src/Kademlia/Count.antt =====
-- The number of peers that a table reports.
use native.Mathlib.Nat.{zero-add}
use hashiverse.Prelude.{
  ℕ, ◌+◌, ◌≡◌, refl, arith, true, ◌↔◌, List, [], ◌∷◌, flatten, length, length-append,
}
use hashiverse.Kademlia.{PeerTrait, Kademlia, len_loop, len, all_empty, is_empty, get_all_peers}

module _ (P : PeerTrait) where
  open P use {Peer}

  len_loop-flatten :
      (bs : List (List Peer)) (count : ℕ) → len_loop P bs count ≡ count + length (flatten bs)
  unfolding len_loop flatten
  len_loop-flatten [] count = omega arith
  len_loop-flatten (b ∷ bs) count =
      omega (arith, len_loop-flatten bs (count + length b), length-append b (flatten bs))

  all_empty_iff : (bs : List (List Peer)) → (all_empty P bs ≡ true) ↔ (length (flatten bs) ≡ 0)
  unfolding all_empty flatten
  all_empty_iff [] = (λ _. refl, λ _. refl)
  all_empty_iff ([] ∷ bs) = all_empty_iff bs
  all_empty_iff ((p ∷ b) ∷ bs) = (λ h. cc, λ h. absurd (omega arith))

  -- `len` is the length of what `get_all_peers` lists, and `is_empty` holds just when it is 0.
  pub len-get_all_peers :
      (k : Kademlia Peer)
      → (len P k ≡ length (get_all_peers P k)) × ((is_empty P k ≡ true) ↔ (len P k ≡ 0))
  unfolding len get_all_peers is_empty
  len-get_all_peers k =
      rw (len_loop-flatten k.peer_buckets 0, zero-add) (refl, all_empty_iff k.peer_buckets)
