-- ===== src/Kademlia/Valid.antt =====
-- What a routing table keeps: each peer in the bucket of its id, no id twice, no bucket too long.
use mathlib.Core.List.{Mem, mem-append, mem-append_left, mem-append_right, not-mem-nil, Mem-prop}
use mathlib.Core.Logic.Or
use native.Mathlib.Nat.{ℕ_set, add-zero, add-suc, suc-add, zero-add}
use native.Mathlib.Bridge.{le_prop}
use native.Mathlib.Decide.{dec_lt}
use hashiverse.Prelude.{
  ℕ, zero, suc, ◌+◌, ◌-◌, ◌≤◌, ◌<◌, ◌≡◌, refl, sym, ◌∙◌, subst, arith, min, List, [], ◌∷◌, map,
  flatten, length, get_or, set, bytes_eq, false, All, All-mem, IsByte,
}
use hashiverse.Agreement.Laws.{agreement_ultra, agreement_split, agreement_comm}
use hashiverse.Agreement.{leading_agreement_bits_xor}
use hashiverse.Kademlia.{
  PeerTrait, Kademlia, max_buckets, get_bucket_id, get_bucket_for_id, get_all_peers,
}

-- `ID` is an array, so an id has `id_bytes` bytes.
pub record IsId (P : PeerTrait) (key : List ℕ) : Type 0 where
  pub size : length key ≡ P.id_bytes
  pub are_bytes : All IsByte key

pub record Lawful (P : PeerTrait) : Type 0 where
  pub positive : 0 < P.id_bytes
  pub peer_ids : (p : P.Peer) → IsId P (P.id p)

-- No id of the list is `key`, and no id stands twice.
abbrev pub Absent : List ℕ → List (List ℕ) → Type 0
Absent key = All (λ other. bytes_eq other key ≡ false)

abbrev pub Distinct : List (List ℕ) → Type 0
Distinct [] = Unit
Distinct (key ∷ keys) = Absent key keys × Distinct keys

-- With `a`, `b` and `c` the agreements of the own id with a key, with a peer of its bucket and with
-- a peer of another, and `x` and `y` those of the key with the latter and with the former.
nearer_arith :
    (last all a b c x y : ℕ)
    → last ≡ all - 1
    → 0 < all
    → min b last ≡ min a last
    → ¬ (min c last ≡ min a last)
    → min a b ≤ y
    → min a x ≤ c
    → min c x ≤ a
    → (a ≡ b → a < all → a < y)
    → x < y
nearer_arith last all a b c x y el pos eq ne h1 h2 h3 split = elim (dec_lt a last) [
  | yes inner ↦ omega (arith, split (omega arith) (omega arith))
  | no outer ↦ omega arith
]

module _ (P : PeerTrait) where
  open P use {Peer, id, id_bytes}

  pub record IsBucket (k : Kademlia Peer) (i : ℕ) (bucket : List Peer) : Type 0 where
    pub placed : All (λ p. get_bucket_id P k (id p) ≡ i) bucket
    pub bounded : length bucket ≤ k.max_peers_per_bucket
    pub distinct : Distinct (map id bucket)

  -- The buckets from number `i` on.
  abbrev pub AreBuckets : Kademlia Peer → ℕ → List (List Peer) → Type 0
  AreBuckets k i [] = Unit
  AreBuckets k i (b ∷ bs) = IsBucket k i b × AreBuckets k (suc i) bs

  pub record IsValid (k : Kademlia Peer) : Type 0 where
    pub own_id : IsId P k.id
    pub count : length k.peer_buckets ≡ max_buckets P
    pub buckets : AreBuckets k 0 k.peer_buckets

  module _ (k : Kademlia Peer) where
    pub AreBuckets-get_or :
        (i j : ℕ) (bs : List (List Peer))
        → AreBuckets k i bs
        → j < length bs
        → IsBucket k (i + j) (get_or bs j [])
    AreBuckets-get_or i j [] h lt = absurd (omega arith)
    AreBuckets-get_or i zero (b ∷ bs) h lt = rw (add-zero i) h.0
    AreBuckets-get_or i (suc j) (b ∷ bs) h lt =
        rw (add-suc i j, ← suc-add i j) (AreBuckets-get_or (suc i) j bs h.1 (omega arith))

    pub AreBuckets-set :
        (i j : ℕ) (bs : List (List Peer)) (b' : List Peer)
        → AreBuckets k i bs
        → IsBucket k (i + j) b'
        → AreBuckets k i (set bs j b')
    AreBuckets-set i j [] b' h n = tt
    AreBuckets-set i zero (b ∷ bs) b' h n = (rw (add-zero i) at n, h.1)
    AreBuckets-set i (suc j) (b ∷ bs) b' h n =
        (h.0, AreBuckets-set (suc i) j bs b' h.1 (rw (add-suc i j, ← suc-add i j) at n))

    bucket_id-ge :
        (i : ℕ) (bs : List (List Peer)) (p : Peer)
        → AreBuckets k i bs
        → Mem p (flatten bs)
        → i ≤ get_bucket_id P k (id p)
    unfolding flatten
    bucket_id-ge i [] p h m = absurd (not-mem-nil m)
    bucket_id-ge i (b ∷ bs) p h m =
        Or.elim le_prop (mem-append.0 m)
          (λ here. omega (arith, All-mem (λ x. ℕ_set _ _) b h.0.placed here))
          (λ later. omega (arith, bucket_id-ge (suc i) bs p h.1 later))

    -- A stored peer stands in the bucket of its id.
    mem_own_bucket :
        (i j : ℕ) (bs : List (List Peer)) (p : Peer)
        → AreBuckets k i bs
        → get_bucket_id P k (id p) ≡ i + j
        → Mem p (flatten bs)
        → Mem p (get_or bs j [])
    unfolding flatten
    mem_own_bucket i j [] p h e m = m
    mem_own_bucket i zero (b ∷ bs) p h e m =
        Or.elim Mem-prop (mem-append.0 m) (λ here. here)
          (λ later. absurd (omega (arith, bucket_id-ge (suc i) bs p h.1 later)))
    mem_own_bucket i (suc j) (b ∷ bs) p h e m =
        Or.elim Mem-prop (mem-append.0 m)
          (λ here. absurd (omega (arith, All-mem (λ x. ℕ_set _ _) b h.0.placed here)))
          (λ later. mem_own_bucket (suc i) j bs p h.1 (omega arith) later)

    mem_all :
        (j : ℕ) (bs : List (List Peer)) (p : Peer) → Mem p (get_or bs j []) → Mem p (flatten bs)
    unfolding flatten
    mem_all j [] p m = m
    mem_all zero (b ∷ bs) p m = mem-append_left (flatten bs) m
    mem_all (suc j) (b ∷ bs) p m = mem-append_right b (mem_all j bs p m)

  module _ (law : Lawful P) (k : Kademlia Peer) (valid : IsValid k) where
    pub get_bucket_id-lt : (key : List ℕ) → get_bucket_id P k key < length k.peer_buckets
    unfolding get_bucket_id
    get_bucket_id-lt key = omega (arith, law.positive, valid.count)

    pub get_bucket_for_id-IsBucket :
        (key : List ℕ) → IsBucket k (get_bucket_id P k key) (get_bucket_for_id P k key)
    unfolding get_bucket_for_id
    get_bucket_for_id-IsBucket key = rw zero-add at (
        AreBuckets-get_or k 0 (get_bucket_id P k key) k.peer_buckets valid.buckets
          (get_bucket_id-lt key))

    pub mem-get_bucket_for_id :
        (p : Peer) → Mem p (get_all_peers P k) → Mem p (get_bucket_for_id P k (id p))
    unfolding get_bucket_for_id get_all_peers
    mem-get_bucket_for_id p m =
        mem_own_bucket k 0 (get_bucket_id P k (id p)) k.peer_buckets p valid.buckets (omega arith) m

    pub mem_bucket_of_same :
        (p : Peer) (key : List ℕ)
        → get_bucket_id P k (id p) ≡ get_bucket_id P k key
        → Mem p (get_all_peers P k)
        → Mem p (get_bucket_for_id P k key)
    unfolding get_bucket_for_id
    mem_bucket_of_same p key e m =
        subst (λ i. Mem p (get_or k.peer_buckets i [])) e (mem-get_bucket_for_id p m)

    pub mem-get_all_peers :
        (p : Peer) (key : List ℕ) → Mem p (get_bucket_for_id P k key) → Mem p (get_all_peers P k)
    unfolding get_bucket_for_id get_all_peers
    mem-get_all_peers p key m = mem_all k (get_bucket_id P k key) k.peer_buckets p m

    -- A key is closer to every peer of its own bucket than to any peer of another.
    pub bucket_nearer :
        (key : List ℕ) (p q : Peer)
        → IsId P key
        → get_bucket_id P k (id q) ≡ get_bucket_id P k key
        → ¬ (get_bucket_id P k (id p) ≡ get_bucket_id P k key)
        → leading_agreement_bits_xor key (id p) < leading_agreement_bits_xor key (id q)
    unfolding get_bucket_id
    bucket_nearer key p q ik eq ne =
        let own = valid.own_id in
        let ip = law.peer_ids p in
        let iq = law.peer_ids q in
        nearer_arith (max_buckets P - 1) (max_buckets P) _ _ _ _ _ refl
          (omega (arith, law.positive)) eq ne
          (rw (agreement_comm key k.id ik.are_bytes own.are_bytes) at
            (agreement_ultra key k.id (id q) ik.are_bytes own.are_bytes iq.are_bytes))
          (agreement_ultra k.id key (id p) own.are_bytes ik.are_bytes ip.are_bytes)
          (rw (agreement_comm (id p) key ip.are_bytes ik.are_bytes) at
            (agreement_ultra k.id (id p) key own.are_bytes ip.are_bytes ik.are_bytes))
          (λ e h.
            agreement_split k.id key (id q) own.are_bytes ik.are_bytes iq.are_bytes
              (own.size ∙ sym ik.size) (own.size ∙ sym iq.size) e (omega (arith, own.size)))
