-- ===== src/Kademlia/Select.antt =====
-- `get_peers_for_key`: the peers that agree with a key on the most bits.
use mathlib.Core.List.{Perm}
use hashiverse.Prelude.{
  ℕ, ◌-◌, ◌≤◌, leb, ◌==◌, if◌then◌else◌, Bool, false, ◌||◌, none, some, List, [], ◌∷◌, map, flatten,
  length, get_elem?, bytes_eq, Result, ok, panic, ◌>>=◌, All,
}
use hashiverse.Agreement.{leading_agreement_bits_xor}
use hashiverse.Kademlia.{PeerTrait, Kademlia, get_bucket_for_id}

abbrev pub IsDescending : {A : Type 0} → List (ℕ × A) → Type 0
IsDescending [] = Unit
IsDescending (x ∷ xs) = All (λ y. y.0 ≤ x.0) xs × IsDescending xs

-- `sort_unstable_by_key(|(agreement, _)| Reverse(*agreement))`. In which order it leaves equal keys
-- is not said, so what holds below holds for every such sort.
pub record SortUnstable (A : Type 0) : Type 0 where
  pub sort : List (ℕ × A) → List (ℕ × A)
  pub sort-perm : (xs : List (ℕ × A)) → Perm (sort xs) xs
  pub sort-IsDescending : (xs : List (ℕ × A)) → IsDescending (sort xs)

-- `iter().take_while(|(agreement, _)| agreement >= min_agreement)`
unfoldable pub take_while : {A : Type 0} → ℕ → List (ℕ × A) → List (ℕ × A)
take_while low [] = []
take_while low (x ∷ xs) = if leb low x.0 then x ∷ take_while low xs else []

-- Agreements are not negative, so `LeadingAgreementBits::MIN` lets all pass, as 0 does.
unfoldable pub min_agreement : {A : Type 0} → List (ℕ × A) → ℕ → Result ℕ
min_agreement pairs max_peers =
    if leb (length pairs) max_peers
    then ok 0
    else if max_peers == 0
    then panic
    else elim (get_elem? pairs (max_peers - 1)) [ none ↦ panic | some x ↦ ok x.0 ]

module _ (P : PeerTrait) (S : SortUnstable P.Peer) where
  open P use {Peer, id}
  open S use {sort}

  unfoldable pub agreements : List ℕ → List Peer → List (ℕ × Peer)
  agreements key = map (λ p. (leading_agreement_bits_xor key (id p), p))

  -- The bucket of the key if it holds enough peers, and otherwise all peers.
  unfoldable pub candidates : Kademlia Peer → List ℕ → ℕ → List Peer
  candidates k key max_peers =
      if leb max_peers (length (get_bucket_for_id P k key))
      then get_bucket_for_id P k key
      else flatten k.peer_buckets

  unfoldable pub contains_self : List ℕ → List Peer → Bool
  contains_self key [] = false
  contains_self key (p ∷ ps) = bytes_eq (id p) key || contains_self key ps

  unfoldable pub get_peers_for_key : Kademlia Peer → List ℕ → ℕ → Result (List Peer × Bool)
  unfolding agreements candidates contains_self
  get_peers_for_key k key max_peers = do
    let pairs = sort (agreements key (candidates k key max_peers))
    low ← min_agreement pairs max_peers
    let peers = map (λ x. x.1) (take_while low pairs)
    ok (peers, contains_self k.id peers)
