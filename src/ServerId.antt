-- ===== src/ServerId.antt =====
-- The identity of a server and the proof of work behind it,
-- hashiverse-rust/hashiverse-lib/src/tools/server_id.rs.
pub mod Verified
pub mod Codec
pub mod Toy
mod Examples
use hashiverse.Prelude.{
  ℕ, ◌≡◌, ltb, ◌==◌, if◌then◌else◌, not, bytes_eq, List, [], ◌∷◌, ◌++◌, length, flatten, replicate,
  Error, wrong_length, bad_value, mismatch, Result, ok, ◌>>=◌, ◌>>◌, ensure,
}
use hashiverse.Prelude.Int.{ℤ, pos}
use hashiverse.Time.{encode_be, time_millis_bytes, timestamp_decode_be}
use hashiverse.Crypto.{Crypto, hash_from_slice, byte_at, pow_compute_data_hash}
use hashiverse.FeedbackBundle.{array_from_slice}
use hashiverse.PostBundle.{slice}
use hashiverse.Peer.{
  Signer, Peer, PeerPow, server_key_pow_min, server_pow_hash_to_id, server_pow_measure, peer_sign,
}

-- The key bytes are kept beside the key.
pub record Keys (C : Crypto) (S : Signer C) : Type 0 where
  pub signature_key : S.SignatureKey
  pub verification_key : C.VerificationKey
  pub verification_key_bytes : List ℕ
  pub pq_commitment_bytes : List ℕ

pub record ServerId (C : Crypto) (S : Signer C) : Type 0 where
  pub keys : Keys C S
  pub sponsor_id : List ℕ
  pub timestamp : ℤ
  pub hash : List ℕ
  pub salt : List ℕ
  pub pow : ℕ
  pub id : List ℕ

-- `PowGenerator::generate`, from the least proof of work and the hash of the data to a salt, the
-- proof of work and its hash.
abbrev pub Generate : Type 0
Generate = ℕ → List ℕ → Result (List ℕ × ℕ × List ℕ)

-- The sizes of the keys, the commitment, an id, a time, a hash, a salt, a proof of work and an id.
abbrev pub expected_len : ℕ
expected_len = 209

module _ (C : Crypto) (S : Signer C) where
  unfoldable pub pow_generate :
      Generate → ℤ → ℕ → List ℕ → List ℕ → List ℕ → List ℕ → Result (ℤ × List ℕ × ℕ × List ℕ)
  pow_generate generate now pow_min sponsor_id verification_key pq_commitment content_hash = do
    (salt, pow, pow_hash) ← generate pow_min (
        pow_compute_data_hash C
          (sponsor_id ∷ verification_key ∷ pq_commitment ∷ encode_be now ∷ content_hash ∷ []))
    ok (now, salt, pow, pow_hash)

  -- The sponsor, the keys and the hash are random.
  unfoldable pub new_server_id :
      Generate → ℤ → ℕ → List ℕ → Keys C S → List ℕ → Result (ServerId C S)
  unfolding pow_generate server_pow_hash_to_id
  new_server_id generate now pow_min sponsor_id keys hash = do
    (timestamp, salt, pow, pow_hash) ←
        pow_generate generate now pow_min sponsor_id keys.verification_key_bytes
          keys.pq_commitment_bytes hash
    id ← server_pow_hash_to_id pow_hash
    ok (record {
      keys = keys;
      sponsor_id = sponsor_id;
      timestamp = timestamp;
      hash = hash;
      salt = salt;
      pow = pow;
      id = id;
    })

  -- The peer of a server before it is signed; the version is that of the build.
  unfoldable pub unsigned_peer : List ℕ → ServerId C S → Peer
  unsigned_peer version s =
      let work : PeerPow = record {
        sponsor_id = s.sponsor_id;
        timestamp = s.timestamp;
        content_hash = s.hash;
        salt = s.salt;
        pow = s.pow;
      } in
      record {
        id = s.id;
        verification_key_bytes = s.keys.verification_key_bytes;
        pq_commitment_bytes = s.keys.pq_commitment_bytes;
        pow_initial = work;
        pow_current_day = work;
        pow_current_month = work;
        version = version;
        address = [];
        timestamp = pos 0;
        signature = replicate 64 0;
      }

  unfoldable pub to_peer : List ℕ → ℤ → ServerId C S → Result Peer
  unfolding unsigned_peer peer_sign
  to_peer version now s = peer_sign C S now s.keys.signature_key (unsigned_peer version s)

  unfoldable pub server_verify : ServerId C S → Result (Unit {0})
  unfolding server_pow_measure server_pow_hash_to_id
  server_verify s = do
    (pow, pow_hash) ←
        server_pow_measure C s.sponsor_id s.keys.verification_key_bytes s.keys.pq_commitment_bytes
          (encode_be s.timestamp) s.hash s.salt
    ensure (pow == s.pow) mismatch
    ensure (not (ltb pow server_key_pow_min)) bad_value
    id ← server_pow_hash_to_id pow_hash
    ensure (bytes_eq id s.id) mismatch

  unfoldable pub server_bytes : ServerId C S → List ℕ
  server_bytes s = flatten (
      S.signature_key_bytes s.keys.signature_key
      ∷ S.key_bytes s.keys.verification_key
      ∷ s.keys.pq_commitment_bytes
      ∷ s.sponsor_id
      ∷ encode_be s.timestamp
      ∷ s.hash
      ∷ s.salt
      ∷ (s.pow ∷ [])
      ∷ s.id
      ∷ [])

  unfoldable pub encode : ServerId C S → Result (List ℕ)
  unfolding server_bytes
  encode s = do ensure (length (server_bytes s) == expected_len) wrong_length; ok (server_bytes s)

  -- `SignatureKey::from_bytes` never fails; `try_into` tests a length.
  unfoldable pub decode : List ℕ → Result (ServerId C S)
  unfolding slice array_from_slice hash_from_slice byte_at time_millis_bytes
  decode bytes = do
    ensure (length bytes == expected_len) wrong_length
    signature_key_bytes ← slice bytes 0 32
    verification_key_bytes ← slice bytes 32 64
    pq_commitment_bytes ← slice bytes 64 96
    sponsor_bytes ← slice bytes 96 128
    sponsor_id ← array_from_slice 32 sponsor_bytes
    time_bytes ← slice bytes 128 136
    timestamp_be ← time_millis_bytes time_bytes
    hash_slice ← slice bytes 136 168
    hash ← hash_from_slice C hash_slice
    salt_slice ← slice bytes 168 176
    salt ← array_from_slice 8 salt_slice
    pow ← byte_at C bytes 176
    id_slice ← slice bytes 177 209
    signature_key_arr ← array_from_slice 32 signature_key_bytes
    verification_key_arr ← array_from_slice 32 verification_key_bytes
    verification_key ← C.key_from_bytes verification_key_arr
    pq_commitment ← array_from_slice 32 pq_commitment_bytes
    id ← array_from_slice 32 id_slice
    ok (record {
      keys = record {
        signature_key = S.signature_key_from_bytes signature_key_arr;
        verification_key = verification_key;
        verification_key_bytes = S.key_bytes verification_key;
        pq_commitment_bytes = pq_commitment;
      };
      sponsor_id = sponsor_id;
      timestamp = timestamp_decode_be timestamp_be;
      hash = hash;
      salt = salt;
      pow = pow;
      id = id;
    })
