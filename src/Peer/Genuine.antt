-- ===== src/Peer/Genuine.antt =====
-- What makes `verify` accept a peer.
use hashiverse.Prelude.{
  ℕ, ◌≤◌, ◌≡◌, refl, sym, arith, leb, leb→le, le→leb, ==_iff, bytes_eq, bytes_eq_iff, bytes_eq_refl,
  List, [], ◌∷◌, ◌++◌, length, reverse, flatten, mismatch, bad_value, ok, true, >>=-eq-ok, >>-eq-ok,
  ensure-eq-ok, ensure-ok,
}
use hashiverse.Time.{encode_be}
use hashiverse.Agreement.{count_leading_zero_bits}
use hashiverse.Crypto.{Crypto, hash_two, hash_multiple, pow_compute_data_hash}
use hashiverse.Crypto.Work.{Lawful, rounds, pow_measure-rounds}
use hashiverse.Peer.{
  Peer, PeerPow, server_pow_measure, server_pow_hash_to_id, pow_of, own_pow, peer_pow_verify,
  signature_hash_generate, verify_signature, verify_server_id, verify_pows, peer_verify,
}

module _ (C : Crypto) (law : Lawful C) where
  -- The hash at the end of the chain for the work in `p`, done for a key and its commitment.
  unfoldable pub final_hash : List ℕ → List ℕ → PeerPow → List ℕ
  final_hash vk pq p = rounds C law 5 (
      C.blake3 (
        C.blake3 (flatten (p.sponsor_id ∷ vk ∷ pq ∷ encode_be p.timestamp ∷ p.content_hash ∷ []))
        ++ p.salt))

  pub own_pow-final_hash :
      (vk pq : List ℕ) (p : PeerPow)
      → (own_pow C p vk pq ≡ ok (count_leading_zero_bits (final_hash vk pq p), final_hash vk pq p))
        × (length (final_hash vk pq p) ≡ 32)
  unfolding own_pow pow_of server_pow_measure final_hash hash_two hash_multiple
      pow_compute_data_hash
  own_pow-final_hash vk pq p =
      let (final, e, is, size) =
        pow_measure-rounds C law
          (p.sponsor_id ∷ vk ∷ pq ∷ encode_be p.timestamp ∷ p.content_hash ∷ []) p.salt in
      rw (sym is) (e, size)

  abbrev pub IsMeasured : List ℕ → List ℕ → PeerPow → Type 0
  IsMeasured vk pq p = p.pow ≡ count_leading_zero_bits (final_hash vk pq p)

  unfoldable pub signed_hash : Peer → List ℕ
  signed_hash p = C.blake3 (
      flatten (
        p.id
        ∷ p.verification_key_bytes
        ∷ p.pq_commitment_bytes
        ∷ final_hash p.verification_key_bytes p.pq_commitment_bytes p.pow_initial
        ∷ final_hash p.verification_key_bytes p.pq_commitment_bytes p.pow_current_day
        ∷ final_hash p.verification_key_bytes p.pq_commitment_bytes p.pow_current_month
        ∷ p.address
        ∷ encode_be p.timestamp
        ∷ []))

  pub record IsGenuine (p : Peer) : Type 0 where
    pub key : C.VerificationKey
    pub key_of : C.key_from_bytes p.verification_key_bytes ≡ ok key
    pub signed : C.verify key p.signature (signed_hash p) ≡ ok tt
    pub hard :
        32
        ≤ count_leading_zero_bits
            (final_hash p.verification_key_bytes p.pq_commitment_bytes p.pow_initial)
    pub named :
        p.id ≡ reverse (final_hash p.verification_key_bytes p.pq_commitment_bytes p.pow_initial)
    pub initial : IsMeasured p.verification_key_bytes p.pq_commitment_bytes p.pow_initial
    pub day : IsMeasured p.verification_key_bytes p.pq_commitment_bytes p.pow_current_day
    pub month : IsMeasured p.verification_key_bytes p.pq_commitment_bytes p.pow_current_month

  pub signature_hash_generate-signed_hash :
      (p : Peer) → signature_hash_generate C p ≡ ok (signed_hash p)
  unfolding signature_hash_generate signed_hash hash_multiple
  signature_hash_generate-signed_hash p =
      let vk = p.verification_key_bytes in
      let pq = p.pq_commitment_bytes in
      rw
        (
          (own_pow-final_hash vk pq p.pow_initial).0,
          (own_pow-final_hash vk pq p.pow_current_day).0,
          (own_pow-final_hash vk pq p.pow_current_month).0,
        )
        refl

  pub peer_pow_verify_iff :
      (vk pq : List ℕ) (p : PeerPow)
      → (peer_pow_verify C p vk pq ≡ ok tt → IsMeasured vk pq p)
        × (IsMeasured vk pq p → peer_pow_verify C p vk pq ≡ ok tt)
  unfolding peer_pow_verify own_pow
  peer_pow_verify_iff vk pq p =
      let (e, _) = own_pow-final_hash vk pq p in
      let n = count_leading_zero_bits (final_hash vk pq p) in
      rw e (λ h. sym ((==_iff n p.pow).0 (ground arith)), λ h. rw ((==_iff n p.pow).1 (sym h)) refl)

  verify_server_id_iff :
      (p : Peer)
      → let final = final_hash p.verification_key_bytes p.pq_commitment_bytes p.pow_initial in
        (verify_server_id C p ≡ ok tt
          → (32 ≤ count_leading_zero_bits final) × (p.id ≡ reverse final))
        × (32 ≤ count_leading_zero_bits final → p.id ≡ reverse final → verify_server_id C p ≡ ok tt)
  unfolding verify_server_id own_pow pow_of server_pow_hash_to_id
  verify_server_id_iff p =
      let final = final_hash p.verification_key_bytes p.pq_commitment_bytes p.pow_initial in
      let (e, size) =
        own_pow-final_hash p.verification_key_bytes p.pq_commitment_bytes p.pow_initial in
      let n = count_leading_zero_bits final in
      rw (e, (==_iff (length final) 32).1 size)
        (
          λ h.
              let (hard, h1) = ensure-eq-ok (leb 32 n) bad_value _ h in
              let same : bytes_eq p.id (reverse final) ≡ true =
                ensure-ok (bytes_eq p.id (reverse final)) mismatch h1 in
              (leb→le 32 n hard, (bytes_eq_iff p.id (reverse final)).0 same),
          λ hard named. rw (le→leb 32 n hard, named, bytes_eq_refl (reverse final)) refl,
        )

  -- `verify` accepts a peer just when its key is a key under which its signature is one of the
  -- fields, the bits of the first proof of work are 32 or more, its id is the hash of that work with
  -- the bytes reversed, and each of the three proofs of work claims the bits that it has.
  pub peer_verify_iff :
      (p : Peer) → (peer_verify C p ≡ ok tt → IsGenuine p) × (IsGenuine p → peer_verify C p ≡ ok tt)
  unfolding peer_verify verify_signature verify_pows
  peer_verify_iff p = (forward, backward)
    where
      forward : peer_verify C p ≡ ok tt → IsGenuine p
      forward h =
          let (e1, h1) = >>-eq-ok (verify_signature C p) _ h in
          let (e2, h2) = >>-eq-ok (verify_server_id C p) _ h1 in
          let (e3, h3) =
            >>-eq-ok
              (peer_pow_verify C p.pow_initial p.verification_key_bytes p.pq_commitment_bytes) _
              h2 in
          let (e4, e5) =
            >>-eq-ok
              (peer_pow_verify C p.pow_current_day p.verification_key_bytes p.pq_commitment_bytes) _
              h3 in
          let (f, e6, e7) = >>=-eq-ok (signature_hash_generate C p) _ e1 in
          let (key, e8, e9) = >>=-eq-ok (C.key_from_bytes p.verification_key_bytes) _ e7 in
          let same : f ≡ signed_hash p =
            ground (arith, e6, signature_hash_generate-signed_hash p) in
          let (hard, named) = (verify_server_id_iff p).0 e2 in
          record {
            key = key;
            key_of = e8;
            signed = rw (sym same) e9;
            hard = hard;
            named = named;
            initial = (peer_pow_verify_iff _ _ p.pow_initial).0 e3;
            day = (peer_pow_verify_iff _ _ p.pow_current_day).0 e4;
            month = (peer_pow_verify_iff _ _ p.pow_current_month).0 e5;
          }

      backward : IsGenuine p → peer_verify C p ≡ ok tt
      backward g =
          rw
            (
              signature_hash_generate-signed_hash p,
              g.key_of,
              g.signed,
              (verify_server_id_iff p).1 g.hard g.named,
              (peer_pow_verify_iff _ _ p.pow_initial).1 g.initial,
              (peer_pow_verify_iff _ _ p.pow_current_day).1 g.day,
              (peer_pow_verify_iff _ _ p.pow_current_month).1 g.month,
            )
            refl
