-- ===== src/Rpc/RequestExamples.antt =====
-- A request to the toy server.
use hashiverse.Prelude.{
  ℕ, to_be_bytes, ◌≤◌, ◌≡◌, refl, arith, true, if◌then◌else◌, leb, leb→le, Bool-cases, subst,
  ok_inj, inr, >>=-eq-ok, ◌>>=◌, from_be_bytes, List, [], ◌∷◌, length, replicate, bytes_eq, ok, inl,
  bad_value, err,
}
use hashiverse.Prelude.Int.{pos, ◌≤ℤ◌, ◌+ℤ◌, saturate, ◌-ℤ◌}
use hashiverse.Time.{encode_be, timestamp_decode_be}
use hashiverse.Agreement.{count_leading_zero_bits}
use hashiverse.Crypto.{hash, pow_measure, pow_measure_from_data_hash, pow_compute_data_hash}
use hashiverse.Compression.{to_le_bytes, compress_for_speed, decompress}
use hashiverse.Compression.Toy.{long, codecs, codecs-Lossless}
use hashiverse.Peer.{server_pow_measure}
use hashiverse.ServerId.{Generate, pow_generate}
use hashiverse.ServerId.Verified.{Works}
use hashiverse.ServerId.Toy.{easy, easy-Lawful, easy_signer}
use hashiverse.Rpc.{PayloadRequestKind, request_kind_number}
use hashiverse.Rpc.Request.{
  RequestFlags, RequestHeader, RequestTx, RequestRx, request_flags_bits, request_header_bytes,
  encode_request, decode_request,
}
use hashiverse.Rpc.RequestTrip.{IsHeader}
use hashiverse.Rpc.RequestChecked.{frame, decode_request-encode_request}
use hashiverse.Rpc.RequestPassed.{target, decode_request-passed, decode_request-swapped}

-- A search that always tries the same salt.
unfoldable one_salt : Generate
one_salt pow_min data_hash = do
  (pow, final) ← pow_measure_from_data_hash easy data_hash (replicate 8 3)
  if leb pow_min pow then ok (replicate 8 3, pow, final) else err bad_value

one_salt-lem :
    (pow_min : ℕ) (data_hash salt final : List ℕ) (pow : ℕ)
    → one_salt pow_min data_hash ≡ ok (salt, pow, final)
    → (pow_min ≤ pow)
      × (pow_measure_from_data_hash easy data_hash salt ≡ ok (pow, final))
      × (length salt ≡ 8)
unfolding one_salt
one_salt-lem pow_min data_hash salt final pow h =
    let (x, e, e1) = >>=-eq-ok (pow_measure_from_data_hash easy data_hash (replicate 8 3)) _ h in
    elim (Bool-cases (leb pow_min x.0)) [
      | inl enough ↦
          let same : (replicate 8 3, x.0, x.1) ≡ (salt, pow, final) =
            ok_inj _ _ (rw enough at e1) in
          subst
            (λ t.
              (pow_min ≤ t.1)
              × (pow_measure_from_data_hash easy data_hash t.0 ≡ ok (t.1, t.2))
              × (length t.0 ≡ 8))
            same (leb→le pow_min x.0 enough, e, refl)
      | inr short ↦ absurd (cc (rw short at e1))
    ]

one_salt-Works : Works easy one_salt
one_salt-Works pow_min data_hash salt final pow h =
    let (more, measured, _) = one_salt-lem pow_min data_hash salt final pow h in (more, measured)

one_salt-size :
    (pow_min : ℕ) (data_hash salt final : List ℕ) (pow : ℕ)
    → one_salt pow_min data_hash ≡ ok (salt, pow, final)
    → length salt ≡ 8
one_salt-size pow_min data_hash salt final pow h =
    (one_salt-lem pow_min data_hash salt final pow h).2

abbrev flags : RequestFlags
flags = record { compressed = true; server_known = true }

-- The toy hash of the six bytes that are sent.
abbrev header : RequestHeader
header = record {
  flags = flags;
  kind = PayloadRequestKind.ping_v1;
  sponsor_id = replicate 32 1;
  timestamp_be = 0 ∷ 0 ∷ 0 ∷ 0 ∷ 0 ∷ 0 ∷ 3 ∷ 232 ∷ [];
  content_hash = replicate 32 6;
  salt = replicate 8 3;
}

abbrev packed : List ℕ
packed = 1 ∷ 100 ∷ 0 ∷ 0 ∷ 0 ∷ 0 ∷ []

abbrev tx : RequestTx
tx = record { pow_content_hash = replicate 32 6; bytes = frame easy codecs header packed }

encoded :
    encode_request easy codecs easy_signer one_salt
      (pos 1000)
      16
      flags
      PayloadRequestKind.ping_v1
      (replicate 32 1)
      (replicate 32 9)
      (replicate 32 4)
      long
    ≡ ok tx
unfolding encode_request one_salt pow_generate easy codecs long bytes_eq to_le_bytes to_be_bytes
    hash compress_for_speed encode_be pow_measure_from_data_hash pow_compute_data_hash
    count_leading_zero_bits
encoded = refl

decode_request-encode_request_example :
    (rx : RequestRx) × (decode_request easy codecs
        (pos 2000)
        (replicate 32 9)
        (replicate 32 4)
        tx.bytes
      ≡ ok rx)
    × (rx.payload_request_kind ≡ PayloadRequestKind.ping_v1)
    × (rx.pow_sponsor_id ≡ replicate 32 1)
    × (rx.pow_server_known ≡ true)
    × (rx.pow_timestamp ≡ pos 1000)
    × (rx.pow_content_hash ≡ tx.pow_content_hash)
    × (rx.bytes ≡ long)
    × (16 ≤ rx.pow)
decode_request-encode_request_example =
    decode_request-encode_request easy easy-Lawful codecs codecs-Lossless easy_signer one_salt
      one_salt-Works one_salt-size 1000 2000 16 flags PayloadRequestKind.ping_v1 (replicate 32 1)
      (replicate 32 9) (replicate 32 4) (replicate 32 9) (replicate 32 4) long tx (omega arith)
      (omega arith) (omega arith) (omega arith) refl (unfold long in omega arith)
      (inl (refl, refl, refl, omega arith)) encoded

-- The same request, received, and with another payload.
abbrev rx : RequestRx
rx = record {
  payload_request_kind = PayloadRequestKind.ping_v1;
  pow_sponsor_id = replicate 32 1;
  pow_server_known = true;
  pow = 45;
  pow_timestamp = pos 1000;
  pow_content_hash = replicate 32 6;
  pow_salt = replicate 8 3;
  bytes = replicate 100 7;
}

received : decode_request easy codecs (pos 2000) (replicate 32 9) (replicate 32 4) tx.bytes ≡ ok rx
unfolding decode_request codecs long easy to_le_bytes to_be_bytes decompress request_header_bytes
    request_flags_bits request_kind_number count_leading_zero_bits bytes_eq from_be_bytes saturate
    ◌-ℤ◌ timestamp_decode_be pow_measure
received = refl

decode_request-passed_example :
    (timestamp_be : List ℕ) × (final : List ℕ) × (timestamp_decode_be timestamp_be ≡ pos 1000)
    × (pos 1000 ≤ℤ pos 302000)
    × (pos 2000 ≤ℤ pos 1000 +ℤ pos 300000)
    × (server_pow_measure easy
          (replicate 32 1)
          (target easy codecs true (replicate 32 9))
          (target easy codecs true (replicate 32 4))
          timestamp_be
          (replicate 32 6)
          (replicate 8 3)
        ≡ ok (45, final))
    × (16 ≤ 45)
    × (45 ≡ count_leading_zero_bits final)
decode_request-passed_example =
    decode_request-passed easy codecs easy-Lawful 2000 (replicate 32 9) (replicate 32 4) tx.bytes rx
      received

header-IsHeader : IsHeader header
header-IsHeader = record { sponsor = refl; time = refl; content = refl; salted = refl }

decode_request-swapped_example :
    decode_request easy codecs
      (pos 2000)
      (replicate 32 9)
      (replicate 32 4)
      (frame easy codecs header (0 ∷ 5 ∷ 5 ∷ []))
    ≡ ok (record rx { bytes = 5 ∷ 5 ∷ [] })
decode_request-swapped_example =
    decode_request-swapped easy codecs (pos 2000) (replicate 32 9) (replicate 32 4) header packed
      (0 ∷ 5 ∷ 5 ∷ []) (5 ∷ 5 ∷ []) rx header-IsHeader received (omega arith)
      (unfold decompress in refl)
