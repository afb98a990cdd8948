-- ===== src/Dispatch/Replay.antt =====
-- That a salt is taken once, as long as its mark lives.
use hashiverse.Prelude.{
  ℕ, suc, length, ◌+◌, ◌≤◌, ◌<◌, ◌≡◌, refl, ap, arith, Bool-cases, inl, inr, ◌⊎◌, Result-cases,
  true, List, [], ◌∷◌, ok, ok_inj, err, none, Result, mismatch,
}
use hashiverse.Prelude.Int.{pos}
use hashiverse.Crypto.{Crypto}
use hashiverse.Compression.{Codecs}
use hashiverse.Peer.{Signer}
use hashiverse.ServerId.{ServerId}
use hashiverse.Rpc.Request.{RequestRx, decode_request}
use hashiverse.Dispatch.{
  SaltCache, Server, Parts, salt_time_to_live, salt_capacity, admit, wrap_and_dispatch, receive,
  receive_all,
}
use hashiverse.Dispatch.Kept.{receive_salts}

-- A cache with a time to live and a capacity: a write to a cache that is not full is there for that
-- time, and puts nothing out. Of a cache that is full nothing is said: it may put out any entry, or not
-- take the new one.
pub record Remembers (M : SaltCache) : Type 0 where
  pub count : M.Salts → ℕ
  pub count_insert :
      (x : M.Salts) (t : ℕ) (salt : List ℕ) → count (M.insert x (pos t) salt) ≤ suc (count x)
  pub written :
      (x : M.Salts) (earlier now : ℕ) (salt : List ℕ)
      → count x < salt_capacity
      → earlier ≤ now
      → now < earlier + salt_time_to_live
      → M.contains_key (M.insert x (pos earlier) salt) (pos now) salt ≡ true
  pub kept :
      (x : M.Salts) (earlier now : ℕ) (salt other : List ℕ)
      → count x < salt_capacity
      → earlier ≤ now
      → now < earlier + salt_time_to_live
      → M.contains_key x (pos now) salt ≡ true
      → M.contains_key (M.insert x (pos earlier) other) (pos now) salt ≡ true

-- The requests arrive in a span of time.
abbrev pub ArriveIn : ℕ → ℕ → List (ℕ × List ℕ) → Type 0
ArriveIn start now [] = Unit {0}
ArriveIn start now (r ∷ rs) = (start ≤ r.0) × (r.0 ≤ now) × ArriveIn start now rs

module _ (C : Crypto) (K : Codecs) {S : Signer C} (server_id : ServerId C S) where
  abbrev pub decoded : ℕ → List ℕ → Result RequestRx
  decoded now bytes =
      decode_request C K (pos now) server_id.keys.verification_key_bytes
        server_id.keys.pq_commitment_bytes bytes

module _ (C : Crypto) (K : Codecs) (S : Signer C) (server_id : ServerId C S) {M : SaltCache}
    {A : Type 0} where
  admit_salts :
      (now : ℕ) (bytes : List ℕ) (s : Server M A)
      → ((admit C K S server_id (pos now) bytes s).0.seen_salts ≡ s.seen_salts)
        ⊎ ((salt : List ℕ) × ((admit C K S server_id (pos now) bytes s).0.seen_salts
              ≡ M.insert s.seen_salts (pos now) salt))
  unfolding admit
  admit_salts now bytes s = elim (Result-cases (decoded C K server_id now bytes)) [
    | inl (rx, e) ↦ elim (Bool-cases (M.contains_key s.seen_salts (pos now) rx.pow_salt)) [
      | inl seen ↦ inl (rw (admit, e, seen) refl)
      | inr fresh ↦ inr (rx.pow_salt, rw (admit, e, fresh) refl)
    ]
    | inr (inl (why, e)) ↦ inl (rw (admit, e) refl)
    | inr (inr e) ↦ inl (rw (admit, e) refl)
  ]

  pub admit_mark :
      (now : ℕ) (bytes : List ℕ) (s : Server M A) (rx : RequestRx)
      → (admit C K S server_id (pos now) bytes s).1 ≡ ok rx
      → (admit C K S server_id (pos now) bytes s).0.seen_salts
        ≡ M.insert s.seen_salts (pos now) rx.pow_salt
  unfolding admit
  admit_mark now bytes s rx h = elim (Result-cases (decoded C K server_id now bytes)) [
    | inl (rx', e) ↦ elim (Bool-cases (M.contains_key s.seen_salts (pos now) rx'.pow_salt)) [
      | inl seen ↦ absurd (cc (rw (admit, e, seen) at h))
      | inr fresh ↦
          rw (admit, e, fresh)
            (ap (λ r. M.insert s.seen_salts (pos now) r.pow_salt)
              (ok_inj _ _ (rw (admit, e, fresh) at h)))
    ]
    | inr (inl (why, e)) ↦ absurd (cc (rw (admit, e) at h))
    | inr (inr e) ↦ absurd (cc (rw (admit, e) at h))
  ]

  -- A request takes one place in the cache at most.
  receive_count :
      (remembers : Remembers M) (parts : Parts M A) (now : ℕ) (bytes : List ℕ) (s : Server M A)
      → remembers.count (receive C K S server_id parts (pos now) bytes s).0.seen_salts
        ≤ suc (remembers.count s.seen_salts)
  receive_count remembers parts now bytes s =
      rw (receive_salts C K S server_id parts (pos now) bytes s) (elim (admit_salts now bytes s) [
        | inl e ↦ rw e (omega arith)
        | inr (salt, e) ↦ rw e (remembers.count_insert s.seen_salts now salt)
      ])

  seen_kept :
      (remembers : Remembers M) (parts : Parts M A) (start now : ℕ) (salt : List ℕ)
      (rs : List (ℕ × List ℕ)) (s : Server M A)
      → remembers.count s.seen_salts + length rs ≤ salt_capacity
      → now < start + salt_time_to_live
      → ArriveIn start now rs
      → M.contains_key s.seen_salts (pos now) salt ≡ true
      → M.contains_key (receive_all C K S server_id parts rs s).seen_salts (pos now) salt ≡ true
  unfolding receive_all
  seen_kept remembers parts start now salt [] s room soon by seen = seen
  seen_kept remembers parts start now salt (r ∷ rs) s room soon by seen =
      seen_kept remembers parts start now salt rs (receive C K S server_id parts (pos r.0) r.1 s).0
        (omega (arith, room, receive_count remembers parts r.0 r.1 s)) soon by.2
        (rw (receive_salts C K S server_id parts (pos r.0) r.1 s) (elim (admit_salts r.0 r.1 s) [
          | inl e ↦ rw e seen
          | inr (other, e) ↦ rw e (
              remembers.kept s.seen_salts r.0 now salt other (omega (arith, room)) by.1
                (omega (arith, by.0, soon)) seen)
        ]))

  receive_seen :
      (parts : Parts M A) (now : ℕ) (bytes : List ℕ) (s : Server M A) (rx : RequestRx)
      → decoded C K server_id now bytes ≡ ok rx
      → M.contains_key s.seen_salts (pos now) rx.pow_salt ≡ true
      → ((receive C K S server_id parts (pos now) bytes s).1 ≡ 1)
        × ((receive C K S server_id parts (pos now) bytes s).2 ≡ ok none)
  unfolding receive wrap_and_dispatch admit
  receive_seen parts now bytes s rx e seen =
      let refused : (admit C K S server_id (pos now) bytes s).1 ≡ err mismatch =
        rw (admit, e, seen) refl in
      let reports : (wrap_and_dispatch C K S server_id parts (pos now) bytes s).1 ≡ 0 =
        rw (wrap_and_dispatch, refused) refl in
      let result : (wrap_and_dispatch C K S server_id parts (pos now) bytes s).2 ≡ err mismatch =
        rw (wrap_and_dispatch, refused) refl in
      (rw (receive, result, reports) refl, rw (receive, result) refl)

  -- Of the cache of salts: while it holds fewer than 100000 marks, a mark is kept for five minutes and
  -- puts no other out, and takes one place at most. Once a request is admitted, then for five minutes, as
  -- long as the marks before it and the requests after it are fewer than 100000, whatever these
  -- are and whatever the handlers do, no other with its salt is served: it gets no reply, and
  -- its sender is reported.
  pub receive_replay :
      (remembers : Remembers M) (parts : Parts M A) (s : Server M A) (earlier now : ℕ)
      (first again : List ℕ) (between : List (ℕ × List ℕ)) (rx rx' : RequestRx)
      → remembers.count s.seen_salts + length between < 100000
      → (admit C K S server_id (pos earlier) first s).1 ≡ ok rx
      → earlier ≤ now
      → now < earlier + 300000
      → ArriveIn earlier now between
      → decode_request C K
          (pos now)
          server_id.keys.verification_key_bytes
          server_id.keys.pq_commitment_bytes
          again
        ≡ ok rx'
      → rx'.pow_salt ≡ rx.pow_salt
      → let last =
          receive C K S server_id parts
            (pos now)
            again
            (receive_all C K S server_id parts ((earlier, first) ∷ between) s) in
        (last.1 ≡ 1) × (last.2 ≡ ok none)
  unfolding receive_all
  receive_replay remembers parts s earlier now first again between rx rx' room h late soon by e
        same =
      let before = receive C K S server_id parts (pos earlier) first s in
      let seen : M.contains_key before.0.seen_salts (pos now) rx'.pow_salt ≡ true =
        rw
          (
            receive_salts C K S server_id parts (pos earlier) first s,
            admit_mark earlier first s rx h,
            same,
          )
          (remembers.written s.seen_salts earlier now rx.pow_salt (omega (arith, room)) late
            soon) in
      receive_seen parts now again (receive_all C K S server_id parts between before.0) rx' e (
        seen_kept remembers parts earlier now rx'.pow_salt between before.0
          (omega (arith, room, receive_count remembers parts earlier first s)) soon by seen)
