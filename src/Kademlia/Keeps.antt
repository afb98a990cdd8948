-- ===== src/Kademlia/Keeps.antt =====
-- Adding and removing keep a routing table valid.
use native.Mathlib.Nat.{zero-add}
use hashiverse.Prelude.{
  ℕ, zero, suc, ◌<◌, ◌≡◌, refl, sym, subst, ◌∙◌, ap, arith, ltb, Bool-cases, inl, inr, Option, none,
  some, List, [], ◌∷◌, ◌++◌, map, length, length-set, length-append, get_elem?, set, replicate,
  length-replicate, bytes_eq_iff, All, All-append,
}
use hashiverse.Prelude.Int.{ℤ}
use hashiverse.Kademlia.{
  PeerTrait, Kademlia, new, max_buckets, get_bucket_id, get_bucket_for_id, position, overwrite,
  overwrite_at, min_score_loop, replace_lowest, add_to_bucket, add_peer, swap_remove, split_last,
  remove_at, remove_peer,
}
use hashiverse.Kademlia.Distinct.{
  All-set, All-front, All-back, map-set, set_same, get_elem?-map, Distinct-set, Distinct-snoc,
  Distinct-unsnoc, split_last_lem, map-snoc,
}
use hashiverse.Kademlia.Valid.{
  Lawful, IsId, Absent, Distinct, IsBucket, AreBuckets, IsValid, AreBuckets-set,
  get_bucket_for_id-IsBucket,
}

module _ (P : PeerTrait) where
  open P use {Peer, id}

  pub position-none :
      (key : List ℕ) (ps : List Peer) → position P key ps ≡ none → Absent key (map id ps)
  unfolding position
  position-none key [] h = tt
  position-none key (p ∷ ps) h = ground (arith, position-none key ps)

  pub position-some :
      (key : List ℕ) (ps : List Peer) (i : ℕ)
      → position P key ps ≡ some i
      → (p : Peer) × (get_elem? ps i ≡ some p) × (id p ≡ key)
  unfolding position
  position-some key [] i h = cc
  position-some key (p ∷ ps) zero h = (p, refl, (bytes_eq_iff (id p) key).0 (ground arith))
  position-some key (p ∷ ps) (suc i) h = position-some key ps i (ground arith)

  module _ (k : Kademlia Peer) (i : ℕ) where
    overwrite-IsBucket :
        (bucket : List Peer) (j : ℕ) (old peer : Peer) (time : ℤ)
        → IsBucket P k i bucket
        → get_bucket_id P k (id peer) ≡ i
        → Distinct (map id (set bucket j peer))
        → IsBucket P k i (overwrite P bucket j old peer time)
    unfolding overwrite
    overwrite-IsBucket bucket j old peer time b at d =
        elim (Bool-cases (P.score_lt (P.score old time) (P.score peer time))) [
          | inl e ↦ rw e (record {
            placed = All-set (λ p. get_bucket_id P k (id p) ≡ i) bucket j peer b.placed at;
            bounded = omega (arith, b.bounded, length-set bucket j peer);
            distinct = d;
          })
          | inr e ↦ rw e b
        ]

    replace_lowest-IsBucket :
        (bucket : List Peer) (peer : Peer) (time : ℤ)
        → IsBucket P k i bucket
        → get_bucket_id P k (id peer) ≡ i
        → Absent (id peer) (map id bucket)
        → IsBucket P k i (replace_lowest P bucket peer time)
    unfolding replace_lowest
    replace_lowest-IsBucket [] peer time b at a = b
    replace_lowest-IsBucket (p ∷ ps) peer time b at a =
        let j = (min_score_loop P time 0 p 1 ps).0 in
        overwrite-IsBucket (p ∷ ps) j _ peer time b at (
          rw (map-set id (p ∷ ps) j peer) (Distinct-set (map id (p ∷ ps)) j (id peer) b.distinct a))

    push-IsBucket :
        (bucket : List Peer) (peer : Peer)
        → IsBucket P k i bucket
        → get_bucket_id P k (id peer) ≡ i
        → Absent (id peer) (map id bucket)
        → length bucket < k.max_peers_per_bucket
        → IsBucket P k i (bucket ++ peer ∷ [])
    push-IsBucket bucket peer b at a room = record {
      placed = All-append (λ p. get_bucket_id P k (id p) ≡ i) bucket _ b.placed (at, tt);
      bounded = omega (arith, length-append bucket (peer ∷ []));
      distinct =
          rw (map-snoc id bucket peer) (Distinct-snoc (map id bucket) (id peer) b.distinct a);
    }

    add_to_bucket-IsBucket :
        (bucket : List Peer) (at : Option ℕ) (peer : Peer) (time : ℤ)
        → position P (id peer) bucket ≡ at
        → IsBucket P k i bucket
        → get_bucket_id P k (id peer) ≡ i
        → IsBucket P k i (add_to_bucket P k.max_peers_per_bucket bucket at peer time)
    unfolding add_to_bucket
    add_to_bucket-IsBucket bucket (some j) peer time e b at =
        let (p, found, same) = position-some (id peer) bucket j e in
        rw (found, overwrite_at)
          (overwrite-IsBucket bucket j p peer time b at (
            rw
              (
                map-set id bucket j peer,
                set_same (map id bucket) j (id peer)
                    (get_elem?-map id bucket j p found ∙ ap some same),
              )
              b.distinct))
    add_to_bucket-IsBucket bucket none peer time e b at =
        elim (Bool-cases (ltb (length bucket) k.max_peers_per_bucket)) [
          | inl room ↦
              rw room
                (push-IsBucket bucket peer b at (position-none (id peer) bucket e) (ground arith))
          | inr full ↦
              rw full
                (replace_lowest-IsBucket bucket peer time b at (position-none (id peer) bucket e))
        ]

    swap_remove-IsBucket :
        (bucket : List Peer) (j : ℕ) → IsBucket P k i bucket → IsBucket P k i (swap_remove bucket j)
    unfolding swap_remove
    swap_remove-IsBucket [] j b = b
    swap_remove-IsBucket (p ∷ ps) j b =
        let front = (split_last p ps).0 in
        let last = (split_last p ps).1 in
        let whole = split_last_lem p ps in
        let placed = subst (All (λ q. get_bucket_id P k (id q) ≡ i)) (sym whole) b.placed in
        let apart = Distinct-unsnoc (map id front) (id last) (
          rw (map-snoc id front last) at
            (subst (λ qs. Distinct (map id qs)) (sym whole) b.distinct)) in
        record {
          placed =
              All-set _ front j last (All-front _ front _ placed) (All-back _ front _ placed).0;
          bounded = omega (
            arith,
            b.bounded,
            length-set front j last,
            length-append front (last ∷ []),
            ap length whole,
          );
          distinct =
              rw (map-set id front j last)
                (Distinct-set (map id front) j (id last) apart.0 apart.1);
        }

  -- Only the id and the capacity of a table matter to its buckets.
  with_buckets : Kademlia Peer → List (List Peer) → ℤ → Kademlia Peer
  with_buckets k bs time = record k { peer_buckets = bs; peers_last_changed = time }

  AreBuckets-with :
      (k : Kademlia Peer) (cs : List (List Peer)) (time : ℤ) (i : ℕ) (bs : List (List Peer))
      → AreBuckets P k i bs
      → AreBuckets P (with_buckets k cs time) i bs
  unfolding with_buckets get_bucket_id
  AreBuckets-with k cs time i [] h = tt
  AreBuckets-with k cs time i (b ∷ bs) h = (
    record { placed = h.0.placed; bounded = h.0.bounded; distinct = h.0.distinct },
    AreBuckets-with k cs time (suc i) bs h.1,
  )

  module _ (law : Lawful P) (k : Kademlia Peer) (valid : IsValid P k) where
    set_bucket-IsValid :
        (key : List ℕ) (bucket : List Peer) (time : ℤ)
        → IsBucket P k (get_bucket_id P k key) bucket
        → IsValid P (with_buckets k (set k.peer_buckets (get_bucket_id P k key) bucket) time)
    unfolding with_buckets
    set_bucket-IsValid key bucket time b = record {
      own_id = valid.own_id;
      count = length-set k.peer_buckets (get_bucket_id P k key) bucket ∙ valid.count;
      buckets = AreBuckets-with k _ time 0 _ (
          AreBuckets-set P k 0 (get_bucket_id P k key) k.peer_buckets bucket valid.buckets
            (rw zero-add b));
    }

    -- If the ids are byte strings of the right length and a table is valid (every stored peer stands
    -- in the bucket of its id, no id stands twice, no bucket is above its capacity), then it is valid
    -- after `add_peer`.
    pub add_peer-IsValid : (peer : Peer) (time : ℤ) → IsValid P (add_peer P k peer time)
    unfolding add_peer with_buckets
    add_peer-IsValid peer time = set_bucket-IsValid (id peer) _ time (
        add_to_bucket-IsBucket k _ (get_bucket_for_id P k (id peer)) _ peer time refl
          (get_bucket_for_id-IsBucket P law k valid (id peer)) refl)

    remove_at-IsValid :
        (key : List ℕ) (time : ℤ) (found : Option ℕ)
        → IsValid P
            (remove_at P
              (record k { peers_last_changed = time })
              (get_bucket_id P k key)
              (get_bucket_for_id P k key)
              found).0
    unfolding remove_at with_buckets
    remove_at-IsValid key time none = record {
      own_id = valid.own_id;
      count = valid.count;
      buckets = AreBuckets-with k k.peer_buckets time 0 k.peer_buckets valid.buckets;
    }
    remove_at-IsValid key time (some j) = set_bucket-IsValid key _ time (
        swap_remove-IsBucket k _ (get_bucket_for_id P k key) j
          (get_bucket_for_id-IsBucket P law k valid key))

    -- If the ids are byte strings of the right length and a table is valid (every stored peer stands
    -- in the bucket of its id, no id stands twice, no bucket is above its capacity), then it is valid
    -- after `remove_peer`.
    pub remove_peer-IsValid : (key : List ℕ) (time : ℤ) → IsValid P (remove_peer P k key time).0
    unfolding remove_peer
    remove_peer-IsValid key time =
        remove_at-IsValid key time (position P key (get_bucket_for_id P k key))

  replicate-AreBuckets : (k : Kademlia Peer) (n i : ℕ) → AreBuckets P k i (replicate n [])
  replicate-AreBuckets k zero i = tt
  replicate-AreBuckets k (suc n) i = (
    record { placed = tt; bounded = omega arith; distinct = tt },
    replicate-AreBuckets k n (suc i),
  )

  pub new-IsValid : (own : List ℕ) (max : ℕ) → IsId P own → IsValid P (new P own max)
  unfolding new
  new-IsValid own max h = record {
    own_id = h;
    count = length-replicate (max_buckets P) [];
    buckets = replicate-AreBuckets _ (max_buckets P) 0;
  }
