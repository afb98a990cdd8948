-- ===== src/Rpc/Response.antt =====
-- Responses, hashiverse-rust/hashiverse-lib/src/protocol/rpc/rpc_response.rs.
use hashiverse.Prelude.{
  ℕ, ◌%◌, ◌^◌, ltb, leb, ◌==◌, if◌then◌else◌, Bool, true, ◌&&◌, ◌||◌, bytes_eq, List, [], ◌∷◌, ◌++◌,
  length, truncated, wrong_version, bad_value, excess, mismatch, Result, ok, ◌>>=◌, ◌>>◌, ensure,
}
use hashiverse.Prelude.Int.{ℤ}
use hashiverse.Time.{encode_be}
use hashiverse.Buffer.{get_u8, copy_to_bytes}
use hashiverse.Crypto.{Crypto}
use hashiverse.Compression.{Codecs, to_le_bytes, compress_for_speed, decompress}
use hashiverse.Gatherer.{is_empty_bytes}
use hashiverse.Peer.{Signer, server_pow_measure, server_pow_hash_to_id}
use hashiverse.Rpc.{
  PayloadResponseKind, response_kind_number, response_kind_from_u16, get_le, read_array,
}

-- `PROTOCOL_MAX_BLOB_SIZE_RESPONSE`.
abbrev pub max_blob_size_response : ℕ
max_blob_size_response = 16777216

-- `RpcResponsePacketTxFlags` has one flag, that of compression.
unfoldable pub response_flags_bits : Bool → ℕ
response_flags_bits compressed = if compressed then 1 else 0

unfoldable pub response_flags_from_bits : ℕ → Result Bool
response_flags_from_bits bits = do ensure (ltb bits 2) bad_value; ok (bits == 1)

-- `Id::is_zero`.
unfoldable pub is_zero : List ℕ → Bool
is_zero [] = true
is_zero (b ∷ bs) = (b == 0) && is_zero bs

pub record ResponseHeader : Type 0 where
  pub compressed : Bool
  pub kind : PayloadResponseKind
  pub verification_key : List ℕ
  pub pq_commitment : List ℕ
  pub sponsor_id : List ℕ
  pub timestamp_be : List ℕ
  pub hash : List ℕ
  pub salt : List ℕ
  pub signature : List ℕ

pub record ResponseRx : Type 0 where
  pub response_request_kind : PayloadResponseKind
  pub bytes : List ℕ

unfoldable pub response_header_bytes : ResponseHeader → List ℕ
response_header_bytes h =
    1
    ∷ response_flags_bits h.compressed
    ∷ (to_le_bytes 2 (response_kind_number h.kind % 2 ^ 16)
        ++ (h.verification_key
            ++ (h.pq_commitment
                ++ (h.sponsor_id ++ (h.timestamp_be ++ (h.hash ++ (h.salt ++ h.signature)))))))

unfoldable pub response_payload : List ℕ → Result (List ℕ)
unfolding get_le is_empty_bytes
response_payload bytes = do
  (size, bytes1) ← get_le 4 bytes
  ensure (leb size max_blob_size_response) excess
  ensure (leb size (length bytes1)) truncated
  (payload, bytes2) ← copy_to_bytes size bytes1
  ensure (is_empty_bytes bytes2) excess
  ok payload

unfoldable pub parse_response : List ℕ → Result (ResponseHeader × List ℕ)
unfolding get_u8 get_le read_array response_flags_from_bits response_kind_from_u16
parse_response bytes = do
  ensure (leb 216 (length bytes)) truncated
  (version, bytes1) ← get_u8 bytes
  ensure (1 == version) wrong_version
  (bits, bytes2) ← get_u8 bytes1
  compressed ← response_flags_from_bits bits
  (number, bytes3) ← get_le 2 bytes2
  kind ← response_kind_from_u16 number
  (verification_key, bytes4) ← read_array 32 bytes3
  (pq_commitment, bytes5) ← read_array 32 bytes4
  (sponsor_id, bytes6) ← read_array 32 bytes5
  (timestamp_be, bytes7) ← read_array 8 bytes6
  (hash, bytes8) ← read_array 32 bytes7
  (salt, bytes9) ← read_array 8 bytes8
  (signature, bytes10) ← read_array 64 bytes9
  ok (
    record {
      compressed = compressed;
      kind = kind;
      verification_key = verification_key;
      pq_commitment = pq_commitment;
      sponsor_id = sponsor_id;
      timestamp_be = timestamp_be;
      hash = hash;
      salt = salt;
      signature = signature;
    },
    bytes10,
  )

module _ (C : Crypto) (K : Codecs) where
  unfoldable pub encode_response :
      (S : Signer C)
      → S.SignatureKey
      → List ℕ
      → List ℕ
      → List ℕ
      → ℤ
      → List ℕ
      → List ℕ
      → List ℕ
      → Bool
      → PayloadResponseKind
      → List ℕ
      → Result (List ℕ)
  unfolding response_header_bytes
  encode_response S signature_key vk pq sponsor_id timestamp hash salt pow_content_hash compress
        kind payload =
      do
        packed ← if compress then compress_for_speed K payload else ok payload
        ensure (leb (length packed) max_blob_size_response) excess
        ok (
            response_header_bytes (record {
              compressed = compress;
              kind = kind;
              verification_key = vk;
              pq_commitment = pq;
              sponsor_id = sponsor_id;
              timestamp_be = encode_be timestamp;
              hash = hash;
              salt = salt;
              signature = S.sign signature_key pow_content_hash;
            })
            ++ (to_le_bytes 4 (length packed % 2 ^ 32) ++ packed))

  -- Who has answered: any server, if the caller asked the id that is zero.
  unfoldable pub check_server : ResponseHeader → List ℕ → ℕ → Result (Unit {0})
  unfolding server_pow_measure server_pow_hash_to_id is_zero
  check_server h destination_id pow_min = do
    (pow, pow_hash) ←
        server_pow_measure C h.sponsor_id h.verification_key h.pq_commitment h.timestamp_be h.hash
          h.salt
    ensure (leb pow_min pow) bad_value
    id ← server_pow_hash_to_id pow_hash
    ensure (bytes_eq id destination_id || is_zero destination_id) mismatch

  unfoldable pub decode_response : List ℕ → List ℕ → ℕ → List ℕ → Result ResponseRx
  unfolding parse_response response_payload check_server
  decode_response destination_id pow_content_hash pow_min bytes = do
    (h, bytes1) ← parse_response bytes
    packed ← response_payload bytes1
    check_server h destination_id pow_min
    key ← C.key_from_bytes h.verification_key
    C.verify key h.signature pow_content_hash
    decompressed ← if h.compressed then decompress K packed else ok packed
    ok (record { response_request_kind = h.kind; bytes = decompressed })
