-- ===== src/Rpc/ResponseExamples.antt =====
-- A response of the toy server.
use hashiverse.Prelude.{
  ℕ, to_be_bytes, ◌≡◌, refl, arith, true, List, [], ◌∷◌, ◌++◌, replicate, bytes_eq, ok, inl,
}
use hashiverse.Time.{encode_be}
use hashiverse.Compression.{to_le_bytes, compress_for_speed, decompress}
use hashiverse.Compression.Toy.{long, codecs, codecs-Lossless}
use hashiverse.ServerId.Toy.{
  easy, easy-Lawful, easy_signer, easy-Signs, keys, keys-AreKeys, server, server-verified,
  server-IsSized, signature_size,
}
use hashiverse.Rpc.{PayloadResponseKind}
use hashiverse.Rpc.Response.{ResponseHeader, ResponseRx, encode_response, decode_response}
use hashiverse.Rpc.ResponseTrip.{IsHeader}
use hashiverse.Rpc.ResponsePassed.{
  frame, IsAnswer, decode_response-IsAnswer, decode_response-encode_response,
  decode_response-swapped,
}

abbrev header : ResponseHeader
header = record {
  compressed = true;
  kind = PayloadResponseKind.ping_response_v1;
  verification_key = replicate 32 9;
  pq_commitment = replicate 32 4;
  sponsor_id = replicate 32 1;
  timestamp_be = 0 ∷ 0 ∷ 0 ∷ 0 ∷ 0 ∷ 0 ∷ 3 ∷ 232 ∷ [];
  hash = replicate 32 2;
  salt = replicate 8 3;
  signature = replicate 32 6 ++ replicate 32 0;
}

abbrev packed : List ℕ
packed = 1 ∷ 100 ∷ 0 ∷ 0 ∷ 0 ∷ 0 ∷ []

abbrev server_id : List ℕ
server_id = replicate 27 7 ++ replicate 5 0

encoded :
    encode_response easy codecs easy_signer server.keys.signature_key
      server.keys.verification_key_bytes server.keys.pq_commitment_bytes server.sponsor_id
      server.timestamp server.hash server.salt
      (replicate 32 6)
      true
      PayloadResponseKind.ping_response_v1
      long
    ≡ ok (frame easy codecs header packed)
unfolding encode_response codecs long easy easy_signer to_le_bytes to_be_bytes compress_for_speed
    bytes_eq server keys encode_be
encoded = refl

arrived :
    decode_response easy codecs server_id (replicate 32 6) 32 (frame easy codecs header packed)
    ≡ ok (record { response_request_kind = PayloadResponseKind.ping_response_v1; bytes = long })
unfolding server keys
arrived =
    decode_response-encode_response easy easy-Lawful codecs codecs-Lossless easy_signer easy-Signs
      signature_size server server-IsSized keys-AreKeys refl server-verified server_id
      (replicate 32 6) 32 true PayloadResponseKind.ping_response_v1 long
      (frame easy codecs header packed) (inl refl) (omega arith) (unfold long in omega arith)
      encoded

decode_response-encode_response_example :
    decode_response easy codecs server_id (replicate 32 6) 32 (frame easy codecs header packed)
    ≡ ok (record { response_request_kind = PayloadResponseKind.ping_response_v1; bytes = long })
unfolding server keys
decode_response-encode_response_example =
    decode_response-encode_response easy easy-Lawful codecs codecs-Lossless easy_signer easy-Signs
      signature_size server server-IsSized keys-AreKeys refl server-verified server_id
      (replicate 32 6) 32 true PayloadResponseKind.ping_response_v1 long
      (frame easy codecs header packed) (inl refl) (omega arith) (unfold long in omega arith)
      encoded

abbrev received : ResponseRx
received = record { response_request_kind = PayloadResponseKind.ping_response_v1; bytes = long }

decode_response-IsAnswer_example :
    IsAnswer easy codecs server_id (replicate 32 6) 32 (frame easy codecs header packed) received
decode_response-IsAnswer_example =
    decode_response-IsAnswer easy codecs server_id (replicate 32 6) 32
      (frame easy codecs header packed) received arrived

header-IsHeader : IsHeader header
header-IsHeader = record {
  key = refl;
  commitment = refl;
  sponsor = refl;
  time = refl;
  content = refl;
  salted = refl;
  signed = refl;
}

decode_response-swapped_example :
    decode_response easy codecs server_id
      (replicate 32 6)
      32
      (frame easy codecs header (0 ∷ 5 ∷ 5 ∷ []))
    ≡ ok (record {
      response_request_kind = PayloadResponseKind.ping_response_v1;
      bytes = 5 ∷ 5 ∷ [];
    })
decode_response-swapped_example =
    decode_response-swapped easy codecs server_id (replicate 32 6) 32 header packed (0 ∷ 5 ∷ 5 ∷ [])
      (5 ∷ 5 ∷ []) received header-IsHeader arrived (omega arith) (unfold decompress in refl)
