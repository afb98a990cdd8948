-- ===== src/Ddos.antt =====
-- Accounting of connections and requests by address,
-- hashiverse-rust/hashiverse-lib/src/transport/ddos/ddos.rs and mem_ddos.rs. The scores are `f64`, of
-- which nothing but the calls is used, so they are a parameter. The cache of scores may forget an
-- address at any time, which is a step of its own; the counts of connections are a plain map.
pub mod Slots
mod Examples
use hashiverse.Prelude.{
  ℕ, zero, suc, ◌-◌, leb, ◌==◌, if◌then◌else◌, Bool, true, false, Option, none, some, List, [], ◌∷◌,
}
use hashiverse.Prelude.Int.{ℤ, pos, leb_ℤ, ◌-ℤ◌, saturate}
use hashiverse.Assoc.{Map, get, insert, remove, or_default}

pub record Float : Type 1 where
  pub F : Type 0
  pub nought : F
  pub one : F
  pub sub : F → F → F
  pub mul : F → F → F
  pub max : F → F → F
  pub add : F → F → F
  pub as_secs : ℤ → F
  pub lt : F → F → Bool
  pub ge : F → F → Bool

module _ (N : Float) where
  open N use {F}

  pub record DdosScore : Type 0 where
    pub score : F
    pub last_updated : Option ℤ

  pub new_score : DdosScore
  new_score = record { score = N.nought; last_updated = none }

  -- `saturating_sub(..).max(0) as f64 / 1000.0`
  pub elapsed_secs : DdosScore → ℤ → F
  elapsed_secs s now = elim s.last_updated [
    | some prev ↦
        N.as_secs (if leb_ℤ (pos 0) (saturate (now -ℤ prev)) then saturate (now -ℤ prev) else pos 0)
    | none ↦ N.nought
  ]

  pub current : DdosScore → F → ℤ → F
  unfolding elapsed_secs
  current s decay now = N.max (N.sub s.score (N.mul decay (elapsed_secs s now))) N.nought

  pub increment : DdosScore → F → F → ℤ → DdosScore × F
  unfolding current
  increment s points decay now =
      let score = N.add (current s decay now) points in
      (record { score = score; last_updated = some now }, score)

  pub record MemDdosProtection : Type 0 where
    pub score_threshold : F
    pub decay_per_second : F
    pub bad_request_penalty : F
    pub max_connections_per_ip : ℕ
    pub scores : Map DdosScore
    pub connections : Map ℕ

  pub increment_score : MemDdosProtection → List ℕ → F → ℤ → MemDdosProtection × F
  unfolding increment new_score
  increment_score s ip points now =
      let (entry, score) =
        increment (or_default (get s.scores ip) new_score) points s.decay_per_second now in
      (record s { scores = insert s.scores ip entry }, score)

  pub is_score_banned : MemDdosProtection → List ℕ → ℤ → Bool
  unfolding current
  is_score_banned s ip now = elim (get s.scores ip) [
    | some entry ↦ N.ge (current entry s.decay_per_second now) s.score_threshold
    | none ↦ false
  ]

  pub allow_request : MemDdosProtection → List ℕ → ℤ → MemDdosProtection × Bool
  unfolding increment_score
  allow_request s ip now =
      let (s', score) = increment_score s ip N.one now in (s', N.lt score s.score_threshold)

  pub report_bad_request : MemDdosProtection → List ℕ → ℤ → MemDdosProtection
  unfolding increment_score
  report_bad_request s ip now = (increment_score s ip s.bad_request_penalty now).0

  -- `entry(ip).or_insert(0)` leaves an entry behind even when the connection is refused.
  pub acquire_slot : MemDdosProtection → List ℕ → ℕ → MemDdosProtection × Bool
  acquire_slot s ip count =
      if leb s.max_connections_per_ip count
      then (record s { connections = insert s.connections ip count }, false)
      else (record s { connections = insert s.connections ip (suc count) }, true)

  pub try_acquire_connection : MemDdosProtection → List ℕ → ℤ → MemDdosProtection × Bool
  unfolding is_score_banned acquire_slot
  try_acquire_connection s ip now =
      if is_score_banned s ip now
      then (s, false)
      else acquire_slot s ip (or_default (get s.connections ip) 0)

  pub release_slot : MemDdosProtection → List ℕ → Option ℕ → MemDdosProtection
  release_slot s ip none = s
  release_slot s ip (some count) =
      if count - 1 == 0
      then record s { connections = remove (insert s.connections ip (count - 1)) ip }
      else record s { connections = insert s.connections ip (count - 1) }

  pub release_connection : MemDdosProtection → List ℕ → MemDdosProtection
  unfolding release_slot
  release_connection s ip = release_slot s ip (get s.connections ip)

  -- `DdosConnectionGuard::try_new`: the guard is the address that it holds a slot for.
  pub guard_of : MemDdosProtection × Bool → List ℕ → MemDdosProtection × Option (List ℕ)
  guard_of (s, true) ip = (s, some ip)
  guard_of (s, false) ip = (s, none)

  pub try_new : MemDdosProtection → List ℕ → ℤ → MemDdosProtection × Option (List ℕ)
  unfolding guard_of try_acquire_connection
  try_new s ip now = guard_of (try_acquire_connection s ip now) ip

  -- The cache of scores forgets an address.
  pub forget_score : MemDdosProtection → List ℕ → MemDdosProtection
  forget_score s ip = record s { scores = remove s.scores ip }
