-- ===== src/Kademlia/Removal.antt =====
-- What `remove_peer` hands back, and what it leaves.
use mathlib.Core.List.{Mem, mem-cons_self, mem-cons_of_mem}
use hashiverse.Prelude.{
  ℕ, zero, suc, ◌<◌, ◌≡◌, refl, sym, subst, ◌∙◌, ap, arith, Option, none, some, List, [], ◌∷◌, map,
  length, get_elem?, get_or, set,
}
use hashiverse.Prelude.Int.{ℤ}
use hashiverse.Kademlia.{
  PeerTrait, Kademlia, get_bucket_id, get_bucket_for_id, get_all_peers, position, swap_remove,
  split_last, remove_at, remove_peer,
}
use hashiverse.Kademlia.Distinct.{Absent-set, map-set, map-snoc, get_elem?-map, split_last_lem}
use hashiverse.Kademlia.Valid.{
  Lawful, Absent, Distinct, IsValid, get_bucket_for_id-IsBucket, get_bucket_id-lt,
  mem-get_all_peers,
}
use hashiverse.Kademlia.Keeps.{position-none, position-some}

get_or-set {ℓ} :
    {A : Type ℓ} (xs : List A) (i : ℕ) (v d : A) → i < length xs → get_or (set xs i v) i d ≡ v
get_or-set [] i v d h = absurd (omega arith)
get_or-set (x ∷ xs) zero v d h = refl
get_or-set (x ∷ xs) (suc i) v d h = get_or-set xs i v d (omega arith)

mem-get_elem? {ℓ} : {A : Type ℓ} (xs : List A) (i : ℕ) {x : A} → get_elem? xs i ≡ some x → Mem x xs
mem-get_elem? [] i e = cc
mem-get_elem? (y ∷ xs) zero {x} e = subst (λ z. Mem z (y ∷ xs)) (ground (arith, e)) mem-cons_self
mem-get_elem? (y ∷ xs) (suc i) e = mem-cons_of_mem y (mem-get_elem? xs i e)

module _ (P : PeerTrait) where
  open P use {Peer, id}

  swap_remove-Absent :
      (bucket : List Peer) (i : ℕ) (key : List ℕ)
      → Distinct (map id bucket)
      → get_elem? (map id bucket) i ≡ some key
      → Absent key (map id (swap_remove bucket i))
  unfolding swap_remove
  swap_remove-Absent [] i key d e = tt
  swap_remove-Absent (p ∷ ps) i key d e =
      let front = (split_last p ps).0 in
      let last = (split_last p ps).1 in
      let whole = ap (map id) (sym (split_last_lem p ps)) ∙ map-snoc id front last in
      rw (map-set id front i last) (
        Absent-set (map id front) (id last) i key (subst Distinct whole d)
          (subst (λ keys. get_elem? keys i ≡ some key) whole e))

  -- What there is to say of one removal: the peer is one of those stored and has the key, and
  -- the key is nowhere in its bucket afterwards.
  pub record IsRemoved (k : Kademlia Peer) (key : List ℕ) (result : Kademlia Peer × Option Peer)
      : Type 0 where
    pub stored : (p : Peer) → result.1 ≡ some p → Mem p (get_all_peers P k) × (id p ≡ key)
    pub untouched : result.1 ≡ none → result.0.peer_buckets ≡ k.peer_buckets
    pub gone : Absent key (map id (get_bucket_for_id P result.0 key))

  module _ (law : Lawful P) (k : Kademlia Peer) (valid : IsValid P k) where
    remove_at-IsRemoved :
        (key : List ℕ) (time : ℤ) (found : Option ℕ)
        → position P key (get_bucket_for_id P k key) ≡ found
        → IsRemoved k key (
            remove_at P
              (record k { peers_last_changed = time })
              (get_bucket_id P k key)
              (get_bucket_for_id P k key)
              found)
    unfolding remove_at get_bucket_for_id get_bucket_id
    remove_at-IsRemoved key time none e = record {
      stored = λ p h. cc;
      untouched = λ _. refl;
      gone = position-none P key (get_bucket_for_id P k key) e;
    }
    remove_at-IsRemoved key time (some i) e =
        let bucket = get_bucket_for_id P k key in
        let (p, found, same) = position-some P key bucket i e in
        let b = get_bucket_for_id-IsBucket P law k valid key in
        record {
          stored = λ q h. (
            mem-get_all_peers P law k valid q key (mem-get_elem? bucket i h),
            cc (found, h, same),
          );
          untouched = λ h. cc;
          gone =
              rw
                (get_or-set k.peer_buckets (get_bucket_id P k key) (swap_remove bucket i) []
                  (get_bucket_id-lt P law k valid key))
                (swap_remove-Absent bucket i key b.distinct
                  (get_elem?-map id bucket i p found ∙ ap some same));
        }

    -- On a valid table `remove_peer` hands back a stored peer of the given id, or nothing, and then
    -- the buckets are as before; afterwards the bucket of that id holds no peer of that id.
    pub remove_peer-IsRemoved :
        (key : List ℕ) (time : ℤ) → IsRemoved k key (remove_peer P k key time)
    unfolding remove_peer
    remove_peer-IsRemoved key time =
        remove_at-IsRemoved key time (position P key (get_bucket_for_id P k key)) refl
