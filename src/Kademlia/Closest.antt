-- ===== src/Kademlia/Closest.antt =====
-- Which peers `get_peers_for_key` hands out, on its fast and its slow path.
use mathlib.Core.List.{Mem}
use native.Mathlib.Nat.{ℕ_set, le_trans}
use native.Mathlib.Decide.{ℕ_discrete, dec_le}
use hashiverse.Prelude.{
  ℕ, suc, ◌≢◌, true, false, some, All, [], ◌∷◌, get_elem?, bytes_eq, bytes_eq_iff, bytes_eq_refl,
  ◌-◌, ◌≤◌, ◌<◌, ◌≡◌, refl, arith, min, leb, Bool, Bool-cases, inl, inr, List, map, length,
  length-map, length-perm, get_elem?-some, All-mem, ok,
}
use hashiverse.Agreement.{leading_agreement_bits_xor}
use hashiverse.Kademlia.{PeerTrait, Kademlia, get_bucket_id, get_bucket_for_id, get_all_peers}
use hashiverse.Kademlia.Valid.{
  Lawful, IsId, IsValid, bucket_nearer, get_bucket_for_id-IsBucket, mem-get_all_peers,
  mem_bucket_of_same,
}
use hashiverse.Kademlia.Select.{
  SortUnstable, IsDescending, take_while, min_agreement, agreements, candidates, contains_self,
  get_peers_for_key,
}
use hashiverse.Kademlia.Selected.{selected, length-take_while, length-take_while_zero}

-- What the answer of `get_peers_for_key` has to be.
pub record IsClosest (P : PeerTrait) (S : SortUnstable P.Peer) (k : Kademlia P.Peer) (key : List ℕ)
    (max_peers : ℕ) (peers : List P.Peer) (has_self : Bool) : Type 0 where
  pub stored : (q : P.Peer) → Mem q peers → Mem q (get_all_peers P k)
  pub nearest :
      (q p : P.Peer)
      → Mem q peers
      → Mem p (get_all_peers P k)
      → leading_agreement_bits_xor key (P.id q) ≤ leading_agreement_bits_xor key (P.id p)
      → Mem p peers
  pub enough : min max_peers (length (get_all_peers P k)) ≤ length peers
  pub told_present :
      has_self ≡ true → (n : ℕ) × (p : P.Peer) × (get_elem? peers n ≡ some p) × (P.id p ≡ k.id)
  pub told_absent : has_self ≡ false → All (λ p. P.id p ≢ k.id) peers

module _ (P : PeerTrait) (S : SortUnstable P.Peer) where
  open P use {Peer, id}
  open S use {sort}

  contains_self-present :
      (key : List ℕ) (ps : List Peer)
      → contains_self P S key ps ≡ true
      → (n : ℕ) × (p : Peer) × (get_elem? ps n ≡ some p) × (id p ≡ key)
  unfolding contains_self
  contains_self-present key [] h = absurd cc
  contains_self-present key (x ∷ ps) h = elim (Bool-cases (bytes_eq (id x) key)) [
    | inl e ↦ (0, x, refl, (bytes_eq_iff (id x) key).0 e)
    | inr e ↦
        let (n, p, at, same) = contains_self-present key ps (rw e at h) in (suc n, p, at, same)
  ]

  contains_self-absent :
      (key : List ℕ) (ps : List Peer) → contains_self P S key ps ≡ false → All (λ p. id p ≢ key) ps
  unfolding contains_self
  contains_self-absent key [] h = tt
  contains_self-absent key (x ∷ ps) h = (
    λ same. absurd (cc (rw (same, bytes_eq_refl key) at h)),
    contains_self-absent key ps (ground (arith, h)),
  )

  -- No panic: the entry that gives the threshold is there.
  min_agreement_ok :
      {A : Type 0} (pairs : List (ℕ × A)) (max_peers : ℕ)
      → 0 < max_peers
      → IsDescending pairs
      → (low : ℕ) × (min_agreement pairs max_peers ≡ ok low)
        × (min max_peers (length pairs) ≤ length (take_while low pairs))
  unfolding min_agreement
  min_agreement_ok pairs max_peers pos d = elim (dec_le (length pairs) max_peers) [
    | yes few ↦ (0, ground arith, omega (arith, length-take_while_zero pairs))
    | no many ↦
        let (x, e) = get_elem?-some pairs (max_peers - 1) (omega arith) in
        (x.0, ground (arith, e), omega (arith, length-take_while pairs (max_peers - 1) x d e))
  ]

  module _ (law : Lawful P) (k : Kademlia Peer) (valid : IsValid P k) where
    module _ (key : List ℕ) (key_id : IsId P key) (max_peers : ℕ) where
      candidates-stored :
          (p : Peer) → Mem p (candidates P S k key max_peers) → Mem p (get_all_peers P k)
      unfolding candidates
      candidates-stored p m =
          elim (Bool-cases (leb max_peers (length (get_bucket_for_id P k key)))) [
            | inl fast ↦ mem-get_all_peers P law k valid p key (rw fast at m)
            | inr slow ↦ unfold get_all_peers in rw slow at m
          ]

      -- On the fast path a stored peer that is no candidate is farther away than all candidates.
      candidates-nearest :
          (q p : Peer)
          → Mem q (candidates P S k key max_peers)
          → Mem p (get_all_peers P k)
          → leading_agreement_bits_xor key (id q) ≤ leading_agreement_bits_xor key (id p)
          → Mem p (candidates P S k key max_peers)
      unfolding candidates
      candidates-nearest q p mq mp h =
          elim (Bool-cases (leb max_peers (length (get_bucket_for_id P k key)))) [
            | inl fast ↦
                rw fast (elim (ℕ_discrete (get_bucket_id P k (id p)) (get_bucket_id P k key)) [
                  | yes same ↦ mem_bucket_of_same P law k valid p key same mp
                  | no other ↦ absurd (
                      omega (
                        arith,
                        bucket_nearer P law k valid key p q key_id
                            (All-mem (λ x. ℕ_set _ _) _
                              (get_bucket_for_id-IsBucket P law k valid key).placed (rw fast at mq))
                            other,
                      ))
                ])
            | inr slow ↦ rw slow (unfold get_all_peers in mp)
          ]

      length-candidates :
          min max_peers (length (get_all_peers P k))
          ≤ min max_peers (length (candidates P S k key max_peers))
      unfolding candidates get_all_peers
      length-candidates = ground arith

      -- On a valid table, whatever the unstable sort does with ties, and asked for at least one peer,
      -- `get_peers_for_key` does not panic: it answers with stored peers, at least as many as asked
      -- for or all there are, and every stored peer that agrees with the key on as many bits as one
      -- of them is among them; the flag tells whether the own id is among them.
      pub get_peers_for_key-IsClosest :
          0 < max_peers
          → (peers : List Peer) × (has_self : Bool) × (get_peers_for_key P S k key max_peers
              ≡ ok (peers, has_self))
            × IsClosest P S k key max_peers peers has_self
      unfolding get_peers_for_key agreements
      get_peers_for_key-IsClosest pos =
          let c = candidates P S k key max_peers in
          let pairs = sort (agreements P S key c) in
          let (low, e, enough) = min_agreement_ok pairs max_peers pos (S.sort-IsDescending _) in
          let peers = map (λ x. x.1) (take_while low pairs) in
          (
            peers,
            contains_self P S k.id peers,
            rw e refl,
            record {
              stored = λ q m. candidates-stored q ((selected P S key c low q).0 m).0;
              nearest = λ q p mq mp h.
                  let inside = (selected P S key c low q).0 mq in
                  (selected P S key c low p).1
                    (candidates-nearest q p inside.0 mp h, le_trans inside.1 h);
              enough = omega (
                arith,
                enough,
                length-map (take_while low pairs) (λ x. x.1),
                length-perm (S.sort-perm (agreements P S key c)),
                length-map {B = ℕ × Peer} c (λ p. (leading_agreement_bits_xor key (id p), p)),
                length-candidates,
              );
              told_present = contains_self-present k.id peers;
              told_absent = contains_self-absent k.id peers;
            },
          )
