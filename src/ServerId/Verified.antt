-- ===== src/ServerId/Verified.antt =====
-- That the peer of a server that verifies is accepted by every other server.
use hashiverse.Prelude.{
  ℕ, ◌≤◌, ◌≡◌, refl, sym, arith, ltb, not, ◌==◌, ==_iff, bytes_eq, bytes_eq_iff, bytes_eq_refl,
  List, [], ◌∷◌, length, reverse, mismatch, bad_value, ok, true, subst, ok_inj, >>=-eq-ok,
  ensure-eq-ok, ensure-ok,
}
use hashiverse.Prelude.Int.{ℤ}
use hashiverse.Time.{encode_be}
use hashiverse.Agreement.{count_leading_zero_bits}
use hashiverse.Crypto.{Crypto, pow_compute_data_hash, pow_measure, pow_measure_from_data_hash}
use hashiverse.Crypto.Work.{Lawful}
use hashiverse.Peer.{
  Signer, Peer, PeerPow, server_pow_hash_to_id, server_pow_measure, pow_of, own_pow, peer_sign,
  peer_verify,
}
use hashiverse.Peer.Genuine.{
  final_hash, own_pow-final_hash, signed_hash, signature_hash_generate-signed_hash, IsGenuine,
  peer_verify_iff,
}
use hashiverse.ServerId.{
  Keys, ServerId, Generate, pow_generate, new_server_id, unsigned_peer, to_peer, server_verify,
}

-- What is relied on of the signatures: what a key has signed verifies under its public half, whose
-- bytes are read as that key.
pub record Signs (C : Crypto) (S : Signer C) : Type 0 where
  pub verifies :
      (k : S.SignatureKey) (m : List ℕ) → C.verify (S.verification_key k) (S.sign k m) m ≡ ok tt
  pub reads : (k : C.VerificationKey) → C.key_from_bytes (S.key_bytes k) ≡ ok k

-- A search gives what measuring its salt gives, and at least what was asked for.
abbrev pub Works : Crypto → Generate → Type 0
Works C generate =
    (pow_min : ℕ) (data_hash salt final : List ℕ) (pow : ℕ)
    → generate pow_min data_hash ≡ ok (salt, pow, final)
    → (pow_min ≤ pow) × (pow_measure_from_data_hash C data_hash salt ≡ ok (pow, final))

module _ (C : Crypto) (S : Signer C) where
  -- Keys that belong together.
  pub record AreKeys (k : Keys C S) : Type 0 where
    pub public : k.verification_key ≡ S.verification_key k.signature_key
    pub bytes : k.verification_key_bytes ≡ S.key_bytes k.verification_key

module _ (C : Crypto) (law : Lawful C) (S : Signer C) where
  -- The proof of work of a server, as one in a peer.
  unfoldable pub birth : ServerId C S → PeerPow
  birth s = record {
    sponsor_id = s.sponsor_id;
    timestamp = s.timestamp;
    content_hash = s.hash;
    salt = s.salt;
    pow = s.pow;
  }

  unfoldable pub birth_hash : ServerId C S → List ℕ
  birth_hash s = final_hash C law s.keys.verification_key_bytes s.keys.pq_commitment_bytes (birth s)

  pub record IsBorn (s : ServerId C S) : Type 0 where
    pub claimed : s.pow ≡ count_leading_zero_bits (birth_hash s)
    pub hard : 32 ≤ count_leading_zero_bits (birth_hash s)
    pub named : s.id ≡ reverse (birth_hash s)

  pub server_verify_iff :
      (s : ServerId C S)
      → (server_verify C S s ≡ ok tt → IsBorn s) × (IsBorn s → server_verify C S s ≡ ok tt)
  unfolding server_verify own_pow pow_of server_pow_hash_to_id birth_hash birth
  server_verify_iff s =
      let final = birth_hash s in
      let (e, size) =
        own_pow-final_hash C law s.keys.verification_key_bytes s.keys.pq_commitment_bytes
          (birth s) in
      let n = count_leading_zero_bits final in
      rw (e, (==_iff (length final) 32).1 size)
        (
          λ h.
              let (claimed, h1) = ensure-eq-ok (n == s.pow) mismatch _ h in
              let (hard, h2) = ensure-eq-ok (not (ltb n 32)) bad_value _ h1 in
              record {
                claimed = sym ((==_iff n s.pow).0 claimed);
                hard = ground arith;
                named =
                    sym (
                      (bytes_eq_iff _ _).0 (ensure-ok (bytes_eq (reverse final) s.id) mismatch h2));
              },
          λ b.
              let hard : not (ltb n 32) ≡ true = ground (arith, b.hard) in
              rw ((==_iff n s.pow).1 (sym b.claimed), hard, b.named, bytes_eq_refl (reverse final))
                refl,
        )

  -- The work of a server that verifies, as it is measured by others.
  pub server_verify-measured_work :
      (s : ServerId C S)
      → server_verify C S s ≡ ok tt
      → (final : List ℕ) × (server_pow_measure C s.sponsor_id s.keys.verification_key_bytes
            s.keys.pq_commitment_bytes
            (encode_be s.timestamp)
            s.hash
            s.salt
          ≡ ok (s.pow, final))
        × (length final ≡ 32)
        × (32 ≤ s.pow)
        × (s.id ≡ reverse final)
  unfolding own_pow pow_of birth birth_hash
  server_verify-measured_work s h =
      let born = (server_verify_iff s).0 h in
      let final = birth_hash s in
      let (e, size) =
        own_pow-final_hash C law s.keys.verification_key_bytes s.keys.pq_commitment_bytes
          (birth s) in
      (
        final,
        subst
            (λ n.
              server_pow_measure C s.sponsor_id s.keys.verification_key_bytes
                s.keys.pq_commitment_bytes (encode_be s.timestamp) s.hash s.salt
              ≡ ok (n, final))
            (sym born.claimed) e,
        size,
        omega (arith, born.hard, born.claimed),
        born.named,
      )

  -- A server identity that verifies, with keys that belong together, is made into a peer that
  -- every other server accepts, at any time: it has the id, and the time at which it was made.
  pub peer_verify-to_peer :
      Signs C S
      → (version : List ℕ) (now : ℤ) (s : ServerId C S) → AreKeys C S s.keys
      → server_verify C S s ≡ ok tt
      → (p : Peer) × (to_peer C S version now s ≡ ok p)
        × (peer_verify C p ≡ ok tt)
        × (p.id ≡ s.id)
        × (p.timestamp ≡ now)
  unfolding to_peer unsigned_peer peer_sign birth_hash birth signed_hash
  peer_verify-to_peer signs version now s keys h =
      let born = (server_verify_iff s).0 h in
      let blank = record (unsigned_peer C S version s) { timestamp = now } in
      let p = record blank { signature = S.sign s.keys.signature_key (signed_hash C law blank) } in
      let genuine : IsGenuine C law p = record {
        key = s.keys.verification_key;
        key_of = rw keys.bytes (signs.reads s.keys.verification_key);
        signed = rw keys.public (signs.verifies s.keys.signature_key (signed_hash C law blank));
        hard = born.hard;
        named = born.named;
        initial = born.claimed;
        day = born.claimed;
        month = born.claimed;
      } in
      (
        p,
        rw (signature_hash_generate-signed_hash C law blank) refl,
        (peer_verify_iff C law p).1 genuine,
        refl,
        refl,
      )

  server_verify-measured :
      (s : ServerId C S) (final : List ℕ)
      → own_pow C (birth s) s.keys.verification_key_bytes s.keys.pq_commitment_bytes
        ≡ ok (s.pow, final)
      → 32 ≤ s.pow
      → server_pow_hash_to_id final ≡ ok s.id
      → server_verify C S s ≡ ok tt
  unfolding server_verify own_pow pow_of birth
  server_verify-measured s final e hard named =
      let enough : not (ltb s.pow 32) ≡ true = ground (arith, hard) in
      rw (e, (==_iff s.pow s.pow).1 refl, enough, named, bytes_eq_refl s.id) refl

  -- A new identity verifies, and has the keys it was made with, if it was searched for with the
  -- least proof of work that is allowed, or more.
  pub server_verify-new_server_id :
      (generate : Generate)
      → Works C generate
      → (now : ℤ) (pow_min : ℕ) (sponsor_id : List ℕ) (keys : Keys C S) (hash : List ℕ)
      → 32 ≤ pow_min
      → (s : ServerId C S) → new_server_id C S generate now pow_min sponsor_id keys hash ≡ ok s
      → (server_verify C S s ≡ ok tt) × (s.keys ≡ keys)
  unfolding new_server_id pow_generate own_pow pow_of server_pow_measure pow_measure birth
  server_verify-new_server_id generate works now pow_min sponsor_id keys hash enough s h =
      let data_hash = pow_compute_data_hash C (
        sponsor_id
        ∷ keys.verification_key_bytes
        ∷ keys.pq_commitment_bytes
        ∷ encode_be now
        ∷ hash
        ∷ []) in
      let (x, e1, h1) =
        >>=-eq-ok
          (pow_generate C S generate now pow_min sponsor_id keys.verification_key_bytes
            keys.pq_commitment_bytes hash)
          _ h in
      let (y, e2, h2) = >>=-eq-ok (generate pow_min data_hash) _ e1 in
      let (id, e3, h3) = >>=-eq-ok (server_pow_hash_to_id x.3) _ h1 in
      let made = ok_inj _ _ h2 in
      let (hard, measured) = works pow_min data_hash y.0 y.2 y.1 e2 in
      subst (λ r. (server_verify C S r ≡ ok tt) × (r.keys ≡ keys)) (ok_inj _ _ h3)
        (
          subst
              (λ t.
                server_pow_hash_to_id t.3 ≡ ok id
                → server_verify C S (record {
                  keys = keys;
                  sponsor_id = sponsor_id;
                  timestamp = t.0;
                  hash = hash;
                  salt = t.1;
                  pow = t.2;
                  id = id;
                })
                  ≡ ok tt)
              made (λ named. server_verify-measured _ y.2 measured (omega arith) named) e3,
          refl,
        )
