-- ===== src/Kademlia.antt =====
-- The server's routing table, hashiverse-rust/hashiverse-server-lib/src/server/kademlia/kademlia.rs.
-- The peers are the generic parameter of the source: a type with an id and a score. A score is an
-- `f64`, of which the table uses two comparisons only, so scores are a parameter too.
pub mod Select
pub mod Valid
mod Distinct
mod Selected
pub mod Closest
pub mod Keeps
mod Removal
mod Count
mod Examples
use hashiverse.Prelude.{
  ℕ, zero, suc, ◌+◌, ◌-◌, ◌*◌, min, leb, ltb, ◌==◌, if◌then◌else◌, Bool, true, false, ◌&&◌, ◌||◌,
  Option, none, some, List, [], ◌∷◌, ◌++◌, map, flatten, length, get_elem?, get_or, set, replicate,
  bytes_eq, Result, ok, panic, ◌>>=◌, All, IsByte, ◌≡◌,
}
use hashiverse.Prelude.Int.{ℤ, pos}
use hashiverse.Agreement.{leading_agreement_bits_xor}

-- `trait Peer<ID>` with `ID` an array of `id_bytes` bytes, and the comparisons of `f64`: `<`,
-- `total_cmp(..) == Greater`, and `f64::MAX`.
pub record PeerTrait : Type 1 where
  pub Peer : Type 0
  pub Score : Type 0
  pub id_bytes : ℕ
  pub id : Peer → List ℕ
  pub score : Peer → ℤ → Score
  pub score_lt : Score → Score → Bool
  pub total_gt : Score → Score → Bool
  pub score_max : Score

pub record Kademlia (Peer : Type 0) : Type 0 where
  pub id : List ℕ
  pub max_peers_per_bucket : ℕ
  pub peer_buckets : List (List Peer)
  pub peers_last_changed : ℤ

-- The last element of `x ∷ xs`, and what stands before it.
pub split_last {ℓ} : {A : Type ℓ} → A → List A → List A × A
split_last x [] = ([], x)
split_last x (y ∷ ys) = let (front, last) = split_last y ys in (x ∷ front, last)

-- `Vec::swap_remove`: the last element takes the place of the removed one.
pub swap_remove {ℓ} : {A : Type ℓ} → List A → ℕ → List A
unfolding split_last
swap_remove [] i = []
swap_remove (x ∷ xs) i = let (front, last) = split_last x xs in set front i last

module _ (P : PeerTrait) where
  open P use {Peer, Score, id_bytes, id, score, score_lt, total_gt, score_max}

  abbrev pub max_buckets : ℕ
  max_buckets = 8 * id_bytes

  pub new : List ℕ → ℕ → Kademlia Peer
  new own max = record {
    id = own;
    max_peers_per_bucket = max;
    peer_buckets = replicate max_buckets [];
    peers_last_changed = pos 0;
  }

  pub len_loop : List (List Peer) → ℕ → ℕ
  len_loop [] count = count
  len_loop (b ∷ bs) count = len_loop bs (count + length b)

  pub len : Kademlia Peer → ℕ
  unfolding len_loop
  len k = len_loop k.peer_buckets 0

  all_empty : List (List Peer) → Bool
  all_empty [] = true
  all_empty ([] ∷ bs) = all_empty bs
  all_empty ((p ∷ b) ∷ bs) = false

  pub is_empty : Kademlia Peer → Bool
  unfolding all_empty
  is_empty k = all_empty k.peer_buckets

  pub get_bucket_id : Kademlia Peer → List ℕ → ℕ
  get_bucket_id k key = min (leading_agreement_bits_xor k.id key) (max_buckets - 1)

  -- The id is below `max_buckets`, the number of buckets, so the indexing never panics.
  pub get_bucket_for_id : Kademlia Peer → List ℕ → List Peer
  unfolding get_bucket_id
  get_bucket_for_id k key = get_or k.peer_buckets (get_bucket_id k key) []

  pub shift : Option ℕ → Option ℕ
  shift none = none
  shift (some i) = some (suc i)

  pub position : List ℕ → List Peer → Option ℕ
  unfolding shift
  position key [] = none
  position key (p ∷ ps) = if bytes_eq (id p) key then some 0 else shift (position key ps)

  -- `enumerate().min_by(total_cmp)`: of several minima the first. `i` and `low` are the minimum so
  -- far and `j` is the index of the next element.
  pub min_score_loop : ℤ → ℕ → Peer → ℕ → List Peer → ℕ × Peer
  min_score_loop time i low j [] = (i, low)
  min_score_loop time i low j (p ∷ ps) =
      let next = min_score_loop time j p (suc j) ps in
      let stay = min_score_loop time i low (suc j) ps in
      if total_gt (score low time) (score p time) then next else stay

  -- Overwrites a peer if the new one has the better score.
  pub overwrite : List Peer → ℕ → Peer → Peer → ℤ → List Peer
  overwrite bucket i old peer time =
      if score_lt (score old time) (score peer time) then set bucket i peer else bucket

  pub overwrite_at : List Peer → ℕ → Option Peer → Peer → ℤ → List Peer
  unfolding overwrite
  overwrite_at bucket i none peer time = bucket
  overwrite_at bucket i (some old) peer time = overwrite bucket i old peer time

  pub replace_lowest : List Peer → Peer → ℤ → List Peer
  unfolding min_score_loop overwrite
  replace_lowest [] peer time = []
  replace_lowest (p ∷ ps) peer time =
      let (i, low) = min_score_loop time 0 p 1 ps in overwrite (p ∷ ps) i low peer time

  pub add_to_bucket : ℕ → List Peer → Option ℕ → Peer → ℤ → List Peer
  unfolding overwrite_at replace_lowest
  add_to_bucket max bucket (some i) peer time = overwrite_at bucket i (get_elem? bucket i) peer time
  add_to_bucket max bucket none peer time =
      if ltb (length bucket) max then bucket ++ peer ∷ [] else replace_lowest bucket peer time

  pub add_peer : Kademlia Peer → Peer → ℤ → Kademlia Peer
  unfolding get_bucket_for_id add_to_bucket position
  add_peer k peer time =
      let bucket = get_bucket_for_id k (id peer) in
      let bucket' =
        add_to_bucket k.max_peers_per_bucket bucket (position (id peer) bucket) peer time in
      record k {
        peer_buckets = set k.peer_buckets (get_bucket_id k (id peer)) bucket';
        peers_last_changed = time;
      }

  pub remove_at : Kademlia Peer → ℕ → List Peer → Option ℕ → Kademlia Peer × Option Peer
  remove_at k b bucket none = (k, none)
  remove_at k b bucket (some i) =
      (record k { peer_buckets = set k.peer_buckets b (swap_remove bucket i) }, get_elem? bucket i)

  pub remove_peer : Kademlia Peer → List ℕ → ℤ → Kademlia Peer × Option Peer
  unfolding get_bucket_for_id position remove_at swap_remove
  remove_peer k key time =
      let bucket = get_bucket_for_id k key in
      remove_at (record k { peers_last_changed = time }) (get_bucket_id k key) bucket
        (position key bucket)

  pub lowest_loop : ℤ → Option Peer → Score → List Peer → Option Peer
  lowest_loop time best low [] = best
  lowest_loop time best low (p ∷ ps) =
      let lower = lowest_loop time (some p) (score p time) ps in
      let same = lowest_loop time best low ps in if score_lt (score p time) low then lower else same

  pub get_all_peers : Kademlia Peer → List Peer
  get_all_peers k = flatten k.peer_buckets

  pub get_peer_with_lowest_score : Kademlia Peer → Option Peer
  unfolding lowest_loop
  get_peer_with_lowest_score k =
      lowest_loop k.peers_last_changed none score_max (flatten k.peer_buckets)
