-- ===== src/Peer.antt =====
-- The record by which a server is known, and the proofs of work in it:
-- hashiverse-rust/hashiverse-lib/src/protocol/peer.rs, with the two functions of
-- hashiverse-rust/hashiverse-lib/src/tools/server_id.rs that it calls. Random values and the decay
-- of a proof of work, which is an `f64`, are not part of the model.
pub mod Genuine
use hashiverse.Prelude.{
  ℕ, ◌≡◌, leb, ◌==◌, if◌then◌else◌, bytes_eq, List, [], ◌∷◌, length, reverse, replicate, Error,
  wrong_length, bad_value, mismatch, Result, ok, ◌>>=◌, ◌>>◌, ensure,
}
use hashiverse.Prelude.Int.{ℤ, pos}
use hashiverse.Time.{encode_be}
use hashiverse.Crypto.{Crypto, hash_multiple, pow_measure}

-- `SERVER_KEY_POW_MIN` of tools/config.rs, in a build that is no test.
abbrev pub server_key_pow_min : ℕ
server_key_pow_min = 32

-- Signing and the bytes of keys, which like checking a signature are the work of a third-party crate.
pub record Signer (C : Crypto) : Type 1 where
  pub SignatureKey : Type 0
  pub sign : SignatureKey → List ℕ → List ℕ
  pub verification_key : SignatureKey → C.VerificationKey
  pub signature_key_bytes : SignatureKey → List ℕ
  pub signature_key_from_bytes : List ℕ → SignatureKey
  pub key_bytes : C.VerificationKey → List ℕ

pub record PeerPow : Type 0 where
  pub sponsor_id : List ℕ
  pub timestamp : ℤ
  pub content_hash : List ℕ
  pub salt : List ℕ
  pub pow : ℕ

pub record ClientPow : Type 0 where
  pub peer_verification_key : List ℕ
  pub peer_pq_commitment_bytes : List ℕ
  pub peer_pow : PeerPow

-- The address and the version are strings, as their bytes.
pub record Peer : Type 0 where
  pub id : List ℕ
  pub verification_key_bytes : List ℕ
  pub pq_commitment_bytes : List ℕ
  pub pow_initial : PeerPow
  pub pow_current_day : PeerPow
  pub pow_current_month : PeerPow
  pub version : List ℕ
  pub address : List ℕ
  pub timestamp : ℤ
  pub signature : List ℕ

unfoldable pub pow_zero : PeerPow
pow_zero = record {
  sponsor_id = replicate 32 0;
  timestamp = pos 0;
  content_hash = replicate 32 0;
  salt = replicate 8 0;
  pow = 0;
}

-- The version is that of the build.
unfoldable pub peer_zero : List ℕ → Peer
unfolding pow_zero
peer_zero version = record {
  id = replicate 32 0;
  verification_key_bytes = replicate 32 0;
  pq_commitment_bytes = replicate 32 0;
  pow_initial = pow_zero;
  pow_current_day = pow_zero;
  pow_current_month = pow_zero;
  version = version;
  address = [];
  timestamp = pos 0;
  signature = replicate 64 0;
}

-- The id of a server is its hash, last byte first.
unfoldable pub server_pow_hash_to_id : List ℕ → Result (List ℕ)
server_pow_hash_to_id h = do ensure (length h == 32) wrong_length; ok (reverse h)

module _ (C : Crypto) where
  -- `ServerId::pow_measure`.
  unfoldable pub server_pow_measure :
      List ℕ → List ℕ → List ℕ → List ℕ → List ℕ → List ℕ → Result (ℕ × List ℕ)
  server_pow_measure sponsor_id verification_key pq_commitment timestamp_be content_hash salt =
      pow_measure C
        (sponsor_id ∷ verification_key ∷ pq_commitment ∷ timestamp_be ∷ content_hash ∷ []) salt

  unfoldable pub pow_of : List ℕ → List ℕ → List ℕ → List ℕ → List ℕ → List ℕ → Result (ℕ × List ℕ)
  unfolding server_pow_measure
  pow_of sponsor_id verification_key pq_commitment timestamp hash salt =
      server_pow_measure sponsor_id verification_key pq_commitment timestamp hash salt

  unfoldable pub own_pow : PeerPow → List ℕ → List ℕ → Result (ℕ × List ℕ)
  unfolding pow_of
  own_pow p verification_key pq_commitment =
      pow_of p.sponsor_id verification_key pq_commitment (encode_be p.timestamp) p.content_hash
        p.salt

  unfoldable pub new_pow : List ℕ → List ℕ → List ℕ → ℤ → List ℕ → List ℕ → Result PeerPow
  unfolding pow_of
  new_pow sponsor_id verification_key pq_commitment timestamp content_hash salt = do
    (pow, _) ←
        pow_of sponsor_id verification_key pq_commitment (encode_be timestamp) content_hash salt
    ok (record {
      sponsor_id = sponsor_id;
      timestamp = timestamp;
      content_hash = content_hash;
      salt = salt;
      pow = pow;
    })

  unfoldable pub peer_pow_verify : PeerPow → List ℕ → List ℕ → Result (Unit {0})
  unfolding pow_of
  peer_pow_verify p verification_key pq_commitment = do
    (pow, _) ←
        pow_of p.sponsor_id verification_key pq_commitment (encode_be p.timestamp) p.content_hash
          p.salt
    ensure (pow == p.pow) mismatch

  unfoldable pub measure : List ℕ → List ℕ → List ℕ → ℤ → List ℕ → List ℕ → Result ClientPow
  unfolding server_pow_measure
  measure verification_key pq_commitment sponsor_id timestamp content_hash salt = do
    (pow, _) ←
        server_pow_measure sponsor_id verification_key pq_commitment (encode_be timestamp)
          content_hash salt
    ok (record {
      peer_verification_key = verification_key;
      peer_pq_commitment_bytes = pq_commitment;
      peer_pow = record {
        sponsor_id = sponsor_id;
        timestamp = timestamp;
        content_hash = content_hash;
        salt = salt;
        pow = pow;
      };
    })

  unfoldable pub client_pow_verify : ClientPow → Result (Unit {0})
  unfolding peer_pow_verify
  client_pow_verify c =
      peer_pow_verify c.peer_pow c.peer_verification_key c.peer_pq_commitment_bytes

  unfoldable pub signature_hash_generate : Peer → Result (List ℕ)
  unfolding own_pow
  signature_hash_generate p = do
    (_, initial) ← own_pow p.pow_initial p.verification_key_bytes p.pq_commitment_bytes
    (_, day) ← own_pow p.pow_current_day p.verification_key_bytes p.pq_commitment_bytes
    (_, month) ← own_pow p.pow_current_month p.verification_key_bytes p.pq_commitment_bytes
    ok (
        hash_multiple C (
          p.id
          ∷ p.verification_key_bytes
          ∷ p.pq_commitment_bytes
          ∷ initial
          ∷ day
          ∷ month
          ∷ p.address
          ∷ encode_be p.timestamp
          ∷ []))

  -- `now` is what the clock says.
  unfoldable pub peer_sign : (S : Signer C) → ℤ → S.SignatureKey → Peer → Result Peer
  unfolding signature_hash_generate
  peer_sign S now signature_key p = do
    signature_hash ← signature_hash_generate (record p { timestamp = now })
    ok (record p { timestamp = now; signature = S.sign signature_key signature_hash })

  unfoldable pub verify_signature : Peer → Result (Unit {0})
  unfolding signature_hash_generate
  verify_signature p = do
    signature_hash ← signature_hash_generate p
    key ← C.key_from_bytes p.verification_key_bytes
    C.verify key p.signature signature_hash

  unfoldable pub verify_server_id : Peer → Result (Unit {0})
  unfolding server_pow_measure server_pow_hash_to_id
  verify_server_id p = do
    (pow, pow_hash) ←
        server_pow_measure p.pow_initial.sponsor_id p.verification_key_bytes p.pq_commitment_bytes
          (encode_be p.pow_initial.timestamp) p.pow_initial.content_hash p.pow_initial.salt
    ensure (leb server_key_pow_min pow) bad_value
    id ← server_pow_hash_to_id pow_hash
    ensure (bytes_eq p.id id) mismatch

  unfoldable pub verify_pows : Peer → Result (Unit {0})
  unfolding peer_pow_verify
  verify_pows p = do
    peer_pow_verify p.pow_initial p.verification_key_bytes p.pq_commitment_bytes
    peer_pow_verify p.pow_current_day p.verification_key_bytes p.pq_commitment_bytes
    peer_pow_verify p.pow_current_month p.verification_key_bytes p.pq_commitment_bytes

  unfoldable pub peer_verify : Peer → Result (Unit {0})
  unfolding verify_signature verify_server_id verify_pows
  peer_verify p = do verify_signature p; verify_server_id p; verify_pows p
