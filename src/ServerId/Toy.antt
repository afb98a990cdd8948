-- ===== src/ServerId/Toy.antt =====
-- A server identity with hashes that are easy to work for, and signatures that anyone can make.
use hashiverse.Prelude.{
  ℕ, ◌≡◌, refl, arith, List, ◌++◌, length, take, length-take, length-append, replicate,
  length-replicate, bytes_eq, bytes_eq_refl, bad_signature, ok, ensure,
}
use hashiverse.Prelude.Int.{pos}
use hashiverse.Agreement.{count_leading_zero_bits}
use hashiverse.Crypto.{
  Crypto, hash_two, hash_multiple, apply_hash, apply_chained_hash, repeat_loop, byte_at, chain_loop,
  pow_measure_from_data_hash, pow_measure, pow_compute_data_hash, hash_from_slice,
}
use hashiverse.Crypto.Work.{Lawful}
use hashiverse.Peer.{Signer, server_pow_measure, server_pow_hash_to_id}
use hashiverse.ServerId.{Keys, ServerId, server_verify}
use hashiverse.ServerId.Verified.{Signs, AreKeys}
use hashiverse.ServerId.Codec.{Keeps, IsSized}

-- Every digest has 45 leading zero bits; the one signature of a message is the
-- message, filled up to 64 bytes.
unfoldable pub easy : Crypto
easy = record {
  blake3 = λ bs. replicate 32 (length bs);
  digest = λ i bs. replicate 5 0 ++ replicate 27 7;
  VerificationKey = Unit {0};
  key_from_bytes = λ bs. ok tt;
  verify = λ key sig bs. ensure (bytes_eq sig (take 64 (bs ++ replicate 64 0))) bad_signature;
}

pub easy-Lawful : Lawful easy
unfolding easy
easy-Lawful = record {
  blake3_size = λ bs. length-replicate 32 (length bs);
  digest_size = λ i bs h. omega arith;
}

unfoldable pub easy_signer : Signer easy
unfolding easy
easy_signer = record {
  SignatureKey = Unit {0};
  sign = λ key bs. take 64 (bs ++ replicate 64 0);
  verification_key = λ key. tt;
  signature_key_bytes = λ key. replicate 32 8;
  signature_key_from_bytes = λ bs. tt;
  key_bytes = λ key. replicate 32 9;
}

pub easy-Signs : Signs easy easy_signer
unfolding easy easy_signer
easy-Signs = record {
  verifies = λ k m. rw (bytes_eq_refl (take 64 (m ++ replicate 64 0))) refl;
  reads = λ k. refl;
}

pub easy-Keeps : Keeps easy easy_signer
unfolding easy easy_signer
easy-Keeps = record {
  secret_size = λ k. refl;
  secret_reads = λ k. refl;
  public_size = λ k. refl;
  public_reads = λ k. refl;
}

unfoldable pub keys : Keys easy easy_signer
unfolding easy easy_signer
keys = record {
  signature_key = tt;
  verification_key = tt;
  verification_key_bytes = replicate 32 9;
  pq_commitment_bytes = replicate 32 4;
}

pub keys-AreKeys : AreKeys easy easy_signer keys
unfolding keys easy easy_signer
keys-AreKeys = record { public = refl; bytes = refl }

unfoldable pub server : ServerId easy easy_signer
unfolding keys
server = record {
  keys = keys;
  sponsor_id = replicate 32 1;
  timestamp = pos 1000;
  hash = replicate 32 2;
  salt = replicate 8 3;
  pow = 45;
  id = replicate 27 7 ++ replicate 5 0;
}

pub server-verified : server_verify easy easy_signer server ≡ ok tt
unfolding server_verify server keys easy easy_signer server_pow_measure server_pow_hash_to_id
    pow_measure pow_measure_from_data_hash chain_loop repeat_loop apply_chained_hash apply_hash
    hash_from_slice byte_at hash_two hash_multiple pow_compute_data_hash count_leading_zero_bits
    bytes_eq
server-verified = refl

pub server-IsSized : IsSized server
unfolding server keys easy easy_signer
server-IsSized = record {
  time = (omega arith, omega arith);
  pq = refl;
  sponsor = refl;
  content = refl;
  salted = refl;
  named = refl;
  key = refl;
}

pub signature_size :
    (k : easy_signer.SignatureKey) (m : List ℕ) → length (easy_signer.sign k m) ≡ 64
unfolding easy_signer
signature_size k m = omega (
  arith,
  length-take 64 (m ++ replicate 64 0),
  length-append m (replicate 64 0),
  length-replicate {A = ℕ} 64 0,
)
