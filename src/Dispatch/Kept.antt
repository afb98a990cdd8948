-- ===== src/Dispatch/Kept.antt =====
-- What a request leaves in the server: the marks of the salts, and the peer.
use hashiverse.Prelude.{
  ℕ, ◌≡◌, refl, ap, ◌∙◌, ◌⊎◌, Bool-cases, inl, inr, Result-cases, List, Option,
}
use hashiverse.Prelude.Int.{ℤ}
use hashiverse.Crypto.{Crypto}
use hashiverse.Compression.{Codecs}
use hashiverse.Peer.{Signer, PeerPow}
use hashiverse.ServerId.{ServerId}
use hashiverse.Rpc.Request.{RequestRx, decode_request}
use hashiverse.Dispatch.{
  SaltCache, Server, Parts, admit, take_pow, dispatch, attempt, wrap_and_dispatch, receive,
  is_error_kind,
}

module _ (C : Crypto) (K : Codecs) (S : Signer C) (server_id : ServerId C S) {M : SaltCache}
    {A : Type 0} (parts : Parts M A) where
  dispatch_kept :
      (now : ℤ) (pow : Option PeerPow) (rx : RequestRx) (s : Server M A)
      → ((dispatch C K S server_id parts now pow rx s).0.seen_salts ≡ s.seen_salts)
        × ((dispatch C K S server_id parts now pow rx s).0.peer_self ≡ s.peer_self)
  unfolding dispatch
  dispatch_kept now pow rx s = elim (Bool-cases (is_error_kind rx.payload_request_kind)) [
    | inl e ↦ rw e (refl, refl)
    | inr e ↦ rw e (refl, refl)
  ]

  pub attempt_kept :
      (now : ℤ) (rx : RequestRx) (s : Server M A)
      → ((attempt C K S server_id parts now rx s).0.seen_salts ≡ s.seen_salts)
        × ((attempt C K S server_id parts now rx s).0.peer_self
            ≡ (take_pow C K S server_id parts now rx s.peer_self).0)
  unfolding attempt
  attempt_kept now rx s =
      elim (Result-cases (take_pow C K S server_id parts now rx s.peer_self).1) [
        | inl (pow, e) ↦
            let credited = record s {
              peer_self = (take_pow C K S server_id parts now rx s.peer_self).0;
            } in
            rw (attempt, e) (dispatch_kept now pow rx credited)
        | inr (inl (e, e1)) ↦ rw (attempt, e1) (refl, refl)
        | inr (inr e) ↦ rw (attempt, e) (refl, refl)
      ]

  wrap_and_dispatch_after :
      (now : ℤ) (bytes : List ℕ) (s : Server M A)
      → ((rx : RequestRx) × ((wrap_and_dispatch C K S server_id parts now bytes s).0
            ≡ (attempt C K S server_id parts now rx (admit C K S server_id now bytes s).0).0))
        ⊎ ((wrap_and_dispatch C K S server_id parts now bytes s).0
            ≡ (admit C K S server_id now bytes s).0)
  unfolding wrap_and_dispatch
  wrap_and_dispatch_after now bytes s = elim (Result-cases (admit C K S server_id now bytes s).1) [
    | inl (rx, e) ↦ inl (
      rx,
      rw (wrap_and_dispatch, e)
          (elim (Result-cases
            (attempt C K S server_id parts now rx (admit C K S server_id now bytes s).0).1) [
              | inl (reply, e1) ↦ rw e1 refl
              | inr (inl (why, e1)) ↦ rw e1 refl
              | inr (inr e1) ↦ rw e1 refl
            ]),
    )
    | inr (inl (why, e)) ↦ inr (rw (wrap_and_dispatch, e) refl)
    | inr (inr e) ↦ inr (rw (wrap_and_dispatch, e) refl)
  ]

  receive_after :
      (now : ℤ) (bytes : List ℕ) (s : Server M A)
      → (receive C K S server_id parts now bytes s).0
        ≡ (wrap_and_dispatch C K S server_id parts now bytes s).0
  unfolding receive
  receive_after now bytes s =
      elim (Result-cases (wrap_and_dispatch C K S server_id parts now bytes s).2) [
        | inl (reply, e) ↦ rw (receive, e) refl
        | inr (inl (why, e)) ↦ rw (receive, e) refl
        | inr (inr e) ↦ rw (receive, e) refl
      ]

  admit_peer :
      (now : ℤ) (bytes : List ℕ) (s : Server M A)
      → (admit C K S server_id now bytes s).0.peer_self ≡ s.peer_self
  unfolding admit
  admit_peer now bytes s =
      elim (Result-cases (
        decode_request C K now server_id.keys.verification_key_bytes
          server_id.keys.pq_commitment_bytes bytes)) [
            | inl (rx, e) ↦ elim (Bool-cases (M.contains_key s.seen_salts now rx.pow_salt)) [
              | inl seen ↦ rw (admit, e, seen) refl
              | inr fresh ↦ rw (admit, e, fresh) refl
            ]
            | inr (inl (why, e)) ↦ rw (admit, e) refl
            | inr (inr e) ↦ rw (admit, e) refl
          ]

  pub receive_salts :
      (now : ℤ) (bytes : List ℕ) (s : Server M A)
      → (receive C K S server_id parts now bytes s).0.seen_salts
        ≡ (admit C K S server_id now bytes s).0.seen_salts
  receive_salts now bytes s =
      ap (λ t. t.seen_salts) (receive_after now bytes s)
      ∙ elim (wrap_and_dispatch_after now bytes s) [
        | inl (rx, e) ↦
            ap (λ t. t.seen_salts) e ∙ (attempt_kept now rx (admit C K S server_id now bytes s).0).0
        | inr e ↦ ap (λ t. t.seen_salts) e
      ]

  -- The peer is as it was, or has taken the work of a request.
  pub receive_peer :
      (now : ℤ) (bytes : List ℕ) (s : Server M A)
      → ((receive C K S server_id parts now bytes s).0.peer_self ≡ s.peer_self)
        ⊎ ((rx : RequestRx) × ((receive C K S server_id parts now bytes s).0.peer_self
              ≡ (take_pow C K S server_id parts now rx s.peer_self).0))
  receive_peer now bytes s = elim (wrap_and_dispatch_after now bytes s) [
    | inl (rx, e) ↦ inr (
      rx,
      ap (λ t. t.peer_self) (receive_after now bytes s)
          ∙ ap (λ t. t.peer_self) e
          ∙ (attempt_kept now rx (admit C K S server_id now bytes s).0).1
          ∙ ap (λ p. (take_pow C K S server_id parts now rx p).0) (admit_peer now bytes s),
    )
    | inr e ↦ inl (
        ap (λ t. t.peer_self) (receive_after now bytes s)
        ∙ ap (λ t. t.peer_self) e
        ∙ admit_peer now bytes s)
  ]
