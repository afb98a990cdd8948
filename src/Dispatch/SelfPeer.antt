-- ===== src/Dispatch/SelfPeer.antt =====
-- That the peer by which a server makes itself known stays one that others accept.
use hashiverse.Prelude.{
  ℕ, ◌≡◌, refl, subst, Bool, Bool-cases, inl, inr, ◌||◌, Result-cases, if◌then◌else◌, true, false,
  List, [], ◌∷◌, ok, ok_inj,
}
use hashiverse.Prelude.Int.{ℤ, pos}
use hashiverse.Crypto.{Crypto}
use hashiverse.Crypto.Work.{Lawful}
use hashiverse.Compression.{Codecs}
use hashiverse.Peer.{Signer, Peer, PeerPow, own_pow, new_pow, peer_sign, peer_verify}
use hashiverse.Peer.Genuine.{
  IsGenuine, IsMeasured, final_hash, own_pow-final_hash, signed_hash,
  signature_hash_generate-signed_hash, peer_verify_iff,
}
use hashiverse.ServerId.{ServerId}
use hashiverse.ServerId.Verified.{Signs, AreKeys}
use hashiverse.Rpc.Request.{RequestRx}
use hashiverse.Dispatch.{
  SaltCache, Server, Parts, improved, take_pow, anonymous_allowed, receive, receive_all,
}
use hashiverse.Dispatch.Kept.{receive_peer}

module _ (C : Crypto) (law : Lawful C) where
  new_pow-IsMeasured :
      (sponsor_id vk pq content_hash salt : List ℕ) (timestamp : ℤ) (pow : PeerPow)
      → new_pow C sponsor_id vk pq timestamp content_hash salt ≡ ok pow
      → IsMeasured C law vk pq pow
  unfolding new_pow own_pow
  new_pow-IsMeasured sponsor_id vk pq content_hash salt timestamp pow e =
      let made : PeerPow = record {
        sponsor_id = sponsor_id;
        timestamp = timestamp;
        content_hash = content_hash;
        salt = salt;
        pow = 0;
      } in
      let (measured, _) = own_pow-final_hash C law vk pq made in
      subst (IsMeasured C law vk pq) (ok_inj _ _ (rw measured at e)) (unfold final_hash in refl)

  chosen-IsMeasured :
      (vk pq : List ℕ) (test : Bool) (p q : PeerPow)
      → IsMeasured C law vk pq p
      → IsMeasured C law vk pq q
      → IsMeasured C law vk pq (if test then p else q)
  chosen-IsMeasured vk pq true p q hp hq = hp
  chosen-IsMeasured vk pq false p q hp hq = hq

module _ (C : Crypto) (law : Lawful C) (K : Codecs) (S : Signer C) (signs : Signs C S)
    (server_id : ServerId C S) (keys : AreKeys C S server_id.keys) {M : SaltCache} {A : Type 0}
    (parts : Parts M A) where
  -- The peer of the server, with its id and its keys.
  pub record IsOwn (id : List ℕ) (p : Peer) : Type 0 where
    pub genuine : IsGenuine C law p
    pub key : p.verification_key_bytes ≡ server_id.keys.verification_key_bytes
    pub named : p.id ≡ id

  abbrev signed : ℤ → Peer → Peer
  signed now p = record p {
    timestamp = now;
    signature =
        S.sign server_id.keys.signature_key (signed_hash C law (record p { timestamp = now }));
  }

  peer_sign-signed :
      (now : ℤ) (p : Peer) → peer_sign C S now server_id.keys.signature_key p ≡ ok (signed now p)
  unfolding peer_sign
  peer_sign-signed now p =
      rw (signature_hash_generate-signed_hash C law (record p { timestamp = now })) refl

  signed-IsOwn :
      (id : List ℕ) (now : ℤ) (pow : PeerPow) (p : Peer)
      → IsOwn id p
      → IsMeasured C law p.verification_key_bytes p.pq_commitment_bytes pow
      → IsOwn id (signed now (improved C K S server_id parts now pow p))
  unfolding improved signed_hash
  signed-IsOwn id now pow p own measured =
      let g = own.genuine in
      record {
        genuine = record {
          key = server_id.keys.verification_key;
          key_of = rw (own.key, keys.bytes) (signs.reads server_id.keys.verification_key);
          signed = rw keys.public (signs.verifies server_id.keys.signature_key _);
          hard = g.hard;
          named = g.named;
          initial = g.initial;
          day =
              chosen-IsMeasured C law _ _ (parts.above_day now pow p.pow_current_day) pow
                p.pow_current_day measured g.day;
          month =
              chosen-IsMeasured C law _ _ (parts.above_month now pow p.pow_current_month) pow
                p.pow_current_month measured g.month;
        };
        key = own.key;
        named = own.named;
      }

  take_pow-IsOwn :
      (id : List ℕ) (now : ℤ) (rx : RequestRx) (p : Peer)
      → IsOwn id p
      → IsOwn id (take_pow C K S server_id parts now rx p).0
  unfolding take_pow
  take_pow-IsOwn id now rx p own = elim (Bool-cases rx.pow_server_known) [
    | inr anonymous ↦ elim (Bool-cases (anonymous_allowed rx.payload_request_kind)) [
      | inl e ↦ rw (take_pow, anonymous, e) own
      | inr e ↦ rw (take_pow, anonymous, e) own
    ]
    | inl known ↦
        elim (Result-cases (
          new_pow C rx.pow_sponsor_id p.verification_key_bytes p.pq_commitment_bytes
            rx.pow_timestamp rx.pow_content_hash rx.pow_salt)) [
              | inr (inl (why, e)) ↦ rw (take_pow, known, e) own
              | inr (inr e) ↦ rw (take_pow, known, e) own
              | inl (pow, e) ↦
                  let measured = new_pow-IsMeasured C law _ _ _ _ _ _ pow e in
                  elim (Bool-cases (
                    parts.above_day now pow p.pow_current_day
                    || parts.above_month now pow p.pow_current_month)) [
                      | inl better ↦
                          rw
                            (
                              take_pow,
                              known,
                              e,
                              better,
                              peer_sign-signed now (improved C K S server_id parts now pow p),
                            )
                            (signed-IsOwn id now pow p own measured)
                      | inr worse ↦ rw (take_pow, known, e, worse) own
                    ]
            ]
  ]

  receive_all-IsOwn :
      (id : List ℕ) (rs : List (ℕ × List ℕ)) (s : Server M A)
      → IsOwn id s.peer_self
      → IsOwn id (receive_all C K S server_id parts rs s).peer_self
  unfolding receive_all
  receive_all-IsOwn id [] s own = own
  receive_all-IsOwn id (r ∷ rs) s own =
      receive_all-IsOwn id rs (receive C K S server_id parts (pos r.0) r.1 s).0
        (elim (receive_peer C K S server_id parts (pos r.0) r.1 s) [
          | inl e ↦ rw e own
          | inr (rx, e) ↦ rw e (take_pow-IsOwn id (pos r.0) rx s.peer_self own)
        ])

  -- Of signatures: they verify. If the peer of a server is one that `verify` accepts, and has the key of
  -- the server, then whatever requests arrive and whatever the handlers do, it is afterwards one
  -- that `verify` accepts, with the same id and the same key.
  pub receive_all-verified :
      (rs : List (ℕ × List ℕ)) (s : Server M A)
      → peer_verify C s.peer_self ≡ ok tt
      → s.peer_self.verification_key_bytes ≡ server_id.keys.verification_key_bytes
      → let p = (receive_all C K S server_id parts rs s).peer_self in
        (peer_verify C p ≡ ok tt)
        × (p.id ≡ s.peer_self.id)
        × (p.verification_key_bytes ≡ server_id.keys.verification_key_bytes)
  receive_all-verified rs s h key =
      let own =
        receive_all-IsOwn s.peer_self.id rs s
          (record { genuine = (peer_verify_iff C law s.peer_self).0 h; key = key; named = refl }) in
      ((peer_verify_iff C law _).1 own.genuine, own.named, own.key)
