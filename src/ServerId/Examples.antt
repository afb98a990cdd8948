-- ===== src/ServerId/Examples.antt =====
-- Server identities at concrete inputs, with hashes that are easy to work for.
use hashiverse.Prelude.{
  ℕ, ◌≡◌, ◌≢◌, ◌⊎◌, refl, arith, List, [], ◌∷◌, length, replicate, wrong_length, Error, Result, ok,
  err, NoPanic,
}
use hashiverse.Prelude.Int.{pos}
use hashiverse.Agreement.{count_leading_zero_bits}
use hashiverse.Crypto.{pow_measure_from_data_hash, pow_compute_data_hash}
use hashiverse.PostBundle.{slice}
use hashiverse.Peer.{Peer, server_pow_hash_to_id, peer_verify}
use hashiverse.Peer.Genuine.{IsGenuine, peer_verify_iff}
use hashiverse.PowGenerator.{generate, run_pool}
use hashiverse.PowGenerator.Generates.{as_triple, generate-enough}
use hashiverse.ServerId.Toy.{
  easy, easy-Lawful, easy_signer, easy-Signs, easy-Keeps, keys, keys-AreKeys, server,
  server-verified, server-IsSized,
}
use hashiverse.ServerId.{
  ServerId, new_server_id, unsigned_peer, to_peer, server_verify, encode, decode,
}
use hashiverse.ServerId.Verified.{peer_verify-to_peer, server_verify-new_server_id}
use hashiverse.ServerId.Codec.{decode-encode, decode_cases}

peer_verify-to_peer_example :
    (p : Peer) × (to_peer easy easy_signer (48 ∷ []) (pos 2000) server ≡ ok p)
    × (peer_verify easy p ≡ ok tt)
    × (p.id ≡ server.id)
    × (p.timestamp ≡ pos 2000)
peer_verify-to_peer_example =
    peer_verify-to_peer easy easy-Lawful easy_signer easy-Signs (48 ∷ []) (pos 2000) server
      (unfold server in keys-AreKeys) server-verified

peer_verify_iff_example :
    (peer_verify easy (unsigned_peer easy easy_signer [] server) ≡ ok tt
      → IsGenuine easy easy-Lawful (unsigned_peer easy easy_signer [] server))
    × (IsGenuine easy easy-Lawful (unsigned_peer easy easy_signer [] server)
        → peer_verify easy (unsigned_peer easy easy_signer [] server) ≡ ok tt)
peer_verify_iff_example =
    peer_verify_iff easy easy-Lawful (unsigned_peer easy easy_signer [] server)

decode-encode_example :
    (bytes : List ℕ) × (encode easy easy_signer server ≡ ok bytes)
    × (length bytes ≡ 209)
    × (decode easy easy_signer bytes ≡ ok server)
decode-encode_example = decode-encode easy-Keeps server server-IsSized

easy_keys-NoPanic : (key : List ℕ) → NoPanic (easy.key_from_bytes key)
unfolding easy
easy_keys-NoPanic key h = absurd cc

abbrev short_bytes : List ℕ
short_bytes = replicate 208 1

decode_cases_example :
    ((s : ServerId easy easy_signer) × (decode easy easy_signer short_bytes ≡ ok s))
    ⊎ (length short_bytes ≢ 209 × (decode easy easy_signer short_bytes ≡ err wrong_length))
    ⊎ ((key : List ℕ) × (e : Error) × (slice short_bytes 32 64 ≡ ok key)
        × (easy.key_from_bytes key ≡ err e)
        × (decode easy easy_signer short_bytes ≡ err e))
decode_cases_example = decode_cases easy easy_signer short_bytes easy_keys-NoPanic

-- A generator of four slots, all of whose chunks are random, and an identity made with it.
abbrev search : ℕ → List ℕ → Result (List ℕ × ℕ × List ℕ)
search pow_min data_hash =
    as_triple (generate easy (λ n. n) 4 (replicate 8 3) (λ n i. replicate 8 i) 2 pow_min data_hash)

search-new :
    new_server_id easy easy_signer search (pos 1000) 32 (replicate 32 1) keys (replicate 32 2)
    ≡ ok server
unfolding new_server_id generate easy server count_leading_zero_bits server_pow_hash_to_id
    pow_measure_from_data_hash pow_compute_data_hash run_pool
search-new = refl

server_verify-new_server_id_example :
    (server_verify easy easy_signer server ≡ ok tt) × (server.keys ≡ keys)
server_verify-new_server_id_example =
    server_verify-new_server_id easy easy-Lawful easy_signer search
      (generate-enough easy easy-Lawful (λ n. n) 4 (replicate 8 3) (λ n i. replicate 8 i) 2)
      (pos 1000) 32 (replicate 32 1) keys (replicate 32 2) (omega arith) server search-new
