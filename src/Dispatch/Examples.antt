-- ===== src/Dispatch/Examples.antt =====
-- Requests to the toy server.
use hashiverse.Prelude.{
  ℕ, to_be_bytes, ◌≤◌, ◌≡◌, ◌⊎◌, refl, sym, ◌∙◌, arith, true, Option, none, some, subst, ok_inj,
  inl, from_be_bytes, flatten, List, [], ◌∷◌, ◌++◌, length, replicate, bytes_eq, ok, Error,
}
use hashiverse.Prelude.Int.{pos, saturate, ◌-ℤ◌}
use hashiverse.Assoc.{get}
use hashiverse.Time.{encode_be, timestamp_decode_be}
use hashiverse.Agreement.{count_leading_zero_bits}
use hashiverse.Crypto.{
  chain_loop, repeat_loop, apply_chained_hash, apply_hash, hash_from_slice, byte_at, hash_two,
  hash_multiple, pow_measure, pow_measure_from_data_hash, pow_compute_data_hash,
}
use hashiverse.Compression.{to_le_bytes, compress_for_speed, decompress, max_decompressed_size}
use hashiverse.Compression.Toy.{long, codecs, codecs-Lossless}
use hashiverse.Peer.{
  PeerPow, peer_verify, server_pow_measure, new_pow, signature_hash_generate, own_pow, pow_of,
}
use hashiverse.ServerId.{unsigned_peer, to_peer}
use hashiverse.ServerId.Verified.{peer_verify-to_peer}
use hashiverse.ServerId.Toy.{
  easy, easy-Lawful, easy_signer, easy-Signs, keys, keys-AreKeys, server, server-verified,
  server-IsSized, signature_size,
}
use hashiverse.Rpc.{PayloadRequestKind, PayloadResponseKind, request_kind_number}
use hashiverse.Rpc.Request.{
  RequestRx, request_flags_bits, request_header_bytes, check_pow, decode_request,
}
use hashiverse.Rpc.RequestChecked.{near, decode_request-frame}
use hashiverse.Dispatch.{admit, receive, receive_all}
use hashiverse.Dispatch.Replay.{receive_replay}
use hashiverse.Dispatch.Expired.{admit-new, admit-again}
use hashiverse.Dispatch.Reply.{credited, decode_response-receive}
use hashiverse.Rpc.Response.{ResponseRx, response_header_bytes, encode_response, decode_response}
use hashiverse.Dispatch.SelfPeer.{receive_all-verified}
use hashiverse.Dispatch.Toy.{
  alive, salts, salts-Remembers, salts-Forgets, natural, parts, own, state, header, packed, sent,
  header-IsHeader, rx,
}

own-made : to_peer easy easy_signer (48 ∷ []) (pos 2000) server ≡ ok own
unfolding to_peer unsigned_peer server keys easy easy_signer server_pow_measure pow_measure
    pow_measure_from_data_hash pow_compute_data_hash count_leading_zero_bits encode_be flatten
    to_be_bytes chain_loop repeat_loop apply_chained_hash apply_hash hash_from_slice byte_at
    hash_two hash_multiple signature_hash_generate own_pow pow_of bytes_eq
own-made = refl

own-verified : peer_verify easy own ≡ ok tt
own-verified =
    let (p, e, verified, _, _) =
      peer_verify-to_peer easy easy-Lawful easy_signer easy-Signs (48 ∷ []) (pos 2000) server
        (unfold server in keys-AreKeys) server-verified in
    subst (λ q. peer_verify easy q ≡ ok tt) (ok_inj p own (sym e ∙ own-made)) verified

receive_all-verified_example :
    let p =
      (receive_all easy codecs easy_signer server parts ((2000, 1 ∷ []) ∷ []) state).peer_self in
    (peer_verify easy p ≡ ok tt)
    × (p.id ≡ own.id)
    × (p.verification_key_bytes ≡ server.keys.verification_key_bytes)
unfolding state server keys unsigned_peer
receive_all-verified_example =
    receive_all-verified easy easy-Lawful codecs easy_signer easy-Signs server
      (unfold server in keys-AreKeys) parts ((2000, 1 ∷ []) ∷ []) state own-verified refl

worked :
    check_pow easy codecs header server.keys.verification_key_bytes server.keys.pq_commitment_bytes
    ≡ ok 45
unfolding check_pow server keys easy pow_measure pow_measure_from_data_hash pow_compute_data_hash
    count_leading_zero_bits
worked = refl

received :
    (now : ℕ)
    → 1000 ≤ now
    → now ≤ 301000
    → decode_request easy codecs
        (pos now)
        server.keys.verification_key_bytes
        server.keys.pq_commitment_bytes
        sent
      ≡ ok rx
unfolding timestamp_decode_be from_be_bytes
received now late soon =
    decode_request-frame easy codecs (pos now) _ _ header packed (replicate 100 7) 45
      header-IsHeader (omega arith) (near 1000 now (omega arith) (omega arith)) worked
      (unfold decompress codecs long to_le_bytes to_be_bytes from_be_bytes bytes_eq in refl)

admitted : (admit easy codecs easy_signer server (pos 2000) sent state).1 ≡ ok rx
unfolding state salts alive get
admitted =
    admit-new easy codecs easy_signer server 2000 sent state rx
      (received 2000 (omega arith) (omega arith)) refl

receive_replay_example :
    let last = receive easy codecs easy_signer server parts (pos 3000) sent (
      receive_all easy codecs easy_signer server parts
        ((2000, sent) ∷ (2500, 1 ∷ []) ∷ [])
        state) in
    (last.1 ≡ 1) × (last.2 ≡ ok none)
receive_replay_example =
    receive_replay easy codecs easy_signer server salts-Remembers parts state 2000 3000 sent sent
      ((2500, 1 ∷ []) ∷ []) rx rx (unfold state salts salts-Remembers in omega arith) admitted
      (omega arith) (omega arith) (omega arith, omega arith, tt)
      (received 3000 (omega arith) (omega arith)) refl

admit-again_example :
    (rx : RequestRx) × ((admit easy codecs easy_signer server (pos 500) sent state).1 ≡ ok rx)
    × ((admit easy codecs easy_signer server
          (pos 300500)
          sent
          (receive easy codecs easy_signer server parts (pos 500) sent state).0).1
        ≡ ok rx)
    × (rx.bytes ≡ replicate 100 7)
unfolding state salts alive get
admit-again_example =
    admit-again easy codecs easy_signer server salts-Forgets parts state 500 1000 45 header packed
      (replicate 100 7) (omega arith) (omega arith)
      (unfold timestamp_decode_be from_be_bytes in refl) header-IsHeader (omega arith) worked
      (unfold decompress codecs long to_le_bytes to_be_bytes from_be_bytes bytes_eq in refl) refl

abbrev reply : List ℕ
reply =
    response_header_bytes (record {
      compressed = true;
      kind = PayloadResponseKind.ping_response_v1;
      verification_key = replicate 32 9;
      pq_commitment = replicate 32 4;
      sponsor_id = replicate 32 1;
      timestamp_be = 0 ∷ 0 ∷ 0 ∷ 0 ∷ 0 ∷ 0 ∷ 3 ∷ 232 ∷ [];
      hash = replicate 32 2;
      salt = replicate 8 3;
      signature = replicate 32 6 ++ replicate 32 0;
    })
    ++ (to_le_bytes 4 6 ++ packed)

answered : (receive easy codecs easy_signer server parts (pos 2000) sent state).2 ≡ ok (some reply)
unfolding receive state salts alive get server keys unsigned_peer decode_request codecs long easy
    easy_signer to_le_bytes to_be_bytes decompress request_header_bytes request_flags_bits
    request_kind_number count_leading_zero_bits bytes_eq from_be_bytes saturate ◌-ℤ◌
    timestamp_decode_be pow_measure natural encode_response encode_be compress_for_speed new_pow
answered = refl

decode_response-receive_example :
    (resp : ResponseRx) × (decode_response easy codecs server.id (replicate 32 6) 32 reply
      ≡ ok resp)
    × ((((receive easy codecs easy_signer server parts (pos 2000) sent state).1 ≡ 0)
          × (pow : Option PeerPow) × ((parts.handle
                (pos 2000)
                (credited easy codecs easy_signer server parts
                  (pos 2000)
                  rx
                  (admit easy codecs easy_signer server (pos 2000) sent state).0)
                pow
                PayloadRequestKind.ping_v1
                (replicate 100 7)).1
              ≡ ok (resp.response_request_kind, resp.bytes)))
        ⊎ (((receive easy codecs easy_signer server parts (pos 2000) sent state).1 ≡ 1)
            × (resp.response_request_kind ≡ PayloadResponseKind.error_response_v1)
            × (why : Error) × (parts.error_payload why ≡ ok resp.bytes)))
decode_response-receive_example =
    decode_response-receive easy easy-Lawful codecs codecs-Lossless easy_signer easy-Signs
      signature_size server server-IsSized (unfold server in keys-AreKeys)
      (unfold server keys in refl) server-verified parts (pos 2000) sent rx state reply server.id 32
      (λ t pow kind payload h.
        let same : (PayloadResponseKind.ping_response_v1, rx.bytes) ≡ (kind, payload) =
          ok_inj _ _ h in
        subst (λ p. length p.1 ≤ max_decompressed_size) same (omega arith))
      (λ why payload h.
        let same : [] ≡ payload = ok_inj _ _ h in
        subst (λ p. length p ≤ max_decompressed_size) same (omega arith))
      (inl refl) (omega arith) admitted answered
