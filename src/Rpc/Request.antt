-- ===== src/Rpc/Request.antt =====
-- Requests, hashiverse-rust/hashiverse-lib/src/protocol/rpc/rpc_request.rs.
use hashiverse.Prelude.{
  ℕ, ◌+◌, ◌%◌, ◌^◌, ltb, leb, ◌==◌, if◌then◌else◌, Bool, List, ◌∷◌, ◌++◌, length, replicate,
  truncated, wrong_version, bad_value, excess, Result, ok, ◌>>=◌, ◌>>◌, ensure,
}
use hashiverse.Prelude.Int.{ℤ, pos, negsuc, leb_ℤ}
use hashiverse.Time.{encode_be, time_millis_bytes, timestamp_decode_be, sub_time}
use hashiverse.Buffer.{get_u8, copy_to_bytes}
use hashiverse.Crypto.{Crypto, hash}
use hashiverse.Compression.{Codecs, to_le_bytes, compress_for_speed, decompress}
use hashiverse.Gatherer.{is_empty_bytes}
use hashiverse.Peer.{Signer, server_pow_measure}
use hashiverse.ServerId.{Generate, pow_generate}
use hashiverse.Rpc.{
  PayloadRequestKind, request_kind_number, request_kind_from_u16, get_le, read_array,
}

-- `RpcRequestPacketTxFlags`.
pub record RequestFlags : Type 0 where
  pub compressed : Bool
  pub server_known : Bool

unfoldable pub request_flags_bits : RequestFlags → ℕ
request_flags_bits f = (if f.compressed then 1 else 0) + (if f.server_known then 2 else 0)

-- `from_bits` refuses bits that are no flags.
unfoldable pub request_flags_from_bits : ℕ → Result RequestFlags
request_flags_from_bits bits = do
  ensure (ltb bits 4) bad_value
  ok (record { compressed = bits % 2 == 1; server_known = leb 2 bits })

-- `PROTOCOL_MAX_BLOB_SIZE_REQUEST`, `POW_MINIMUM_PER_RPC_SERVER_KNOWN`, `..._UNKNOWN` and
-- `POW_MAX_CLOCK_DRIFT_MILLIS`, in a build that is no test.
abbrev pub max_blob_size_request : ℕ
max_blob_size_request = 4194304

abbrev pub pow_minimum_known : ℕ
pow_minimum_known = 16

abbrev pub pow_minimum_unknown : ℕ
pow_minimum_unknown = 18

abbrev pub max_clock_drift : ℕ
max_clock_drift = 300000

abbrev pub zero_key : List ℕ
zero_key = replicate 32 0

-- `i64::abs`; the one number without an absolute value wraps to itself.
unfoldable pub abs_i64 : ℤ → ℤ
abs_i64 (pos n) = pos n
abs_i64 (negsuc n) = if leb (2 ^ 63) (n + 1) then negsuc n else pos (n + 1)

pub record RequestTx : Type 0 where
  pub pow_content_hash : List ℕ
  pub bytes : List ℕ

pub record RequestRx : Type 0 where
  pub payload_request_kind : PayloadRequestKind
  pub pow_sponsor_id : List ℕ
  pub pow_server_known : Bool
  pub pow : ℕ
  pub pow_timestamp : ℤ
  pub pow_content_hash : List ℕ
  pub pow_salt : List ℕ
  pub bytes : List ℕ

-- The fields in front of the checks.
pub record RequestHeader : Type 0 where
  pub flags : RequestFlags
  pub kind : PayloadRequestKind
  pub sponsor_id : List ℕ
  pub timestamp_be : List ℕ
  pub content_hash : List ℕ
  pub salt : List ℕ

unfoldable pub request_header_bytes : RequestHeader → List ℕ
request_header_bytes h =
    1
    ∷ request_flags_bits h.flags
    ∷ (to_le_bytes 2 (request_kind_number h.kind % 2 ^ 16)
        ++ (h.sponsor_id ++ (h.timestamp_be ++ (h.content_hash ++ h.salt))))

-- The read of the payload behind the proof of work: the last of the frame.
unfoldable pub request_payload : List ℕ → Result (List ℕ)
unfolding get_le is_empty_bytes
request_payload bytes = do
  (size, bytes1) ← get_le 4 bytes
  ensure (leb size max_blob_size_request) excess
  ensure (leb size (length bytes1)) truncated
  (payload, bytes2) ← copy_to_bytes size bytes1
  ensure (is_empty_bytes bytes2) excess
  ok payload

unfoldable pub parse_request : List ℕ → Result (RequestHeader × List ℕ)
unfolding get_u8 get_le read_array request_flags_from_bits request_kind_from_u16 time_millis_bytes
parse_request bytes = do
  ensure (leb 88 (length bytes)) truncated
  (version, bytes1) ← get_u8 bytes
  ensure (1 == version) wrong_version
  (bits, bytes2) ← get_u8 bytes1
  flags ← request_flags_from_bits bits
  (number, bytes3) ← get_le 2 bytes2
  kind ← request_kind_from_u16 number
  (sponsor_id, bytes4) ← read_array 32 bytes3
  (timestamp_be, bytes5) ← read_array 8 bytes4
  (content_hash, bytes6) ← read_array 32 bytes5
  (salt, bytes7) ← read_array 8 bytes6
  ok (
    record {
      flags = flags;
      kind = kind;
      sponsor_id = sponsor_id;
      timestamp_be = timestamp_be;
      content_hash = content_hash;
      salt = salt;
    },
    bytes7,
  )

module _ (C : Crypto) (K : Codecs) where
  unfoldable pub encode_request :
      (S : Signer C)
      → Generate
      → ℤ
      → ℕ
      → RequestFlags
      → PayloadRequestKind
      → List ℕ
      → List ℕ
      → List ℕ
      → List ℕ
      → Result RequestTx
  unfolding pow_generate request_header_bytes
  encode_request S generate now pow_min flags kind sponsor_id vk pq payload = do
    compressed ← if flags.compressed then compress_for_speed K payload else ok payload
    ensure (leb (length compressed) max_blob_size_request) excess
    (timestamp, salt, _, _) ←
        pow_generate C S generate now pow_min sponsor_id vk pq (hash C compressed)
    ok (record {
      pow_content_hash = hash C compressed;
      bytes =
          request_header_bytes (record {
            flags = flags;
            kind = kind;
            sponsor_id = sponsor_id;
            timestamp_be = encode_be timestamp;
            content_hash = hash C compressed;
            salt = salt;
          })
          ++ (to_le_bytes 4 (length compressed % 2 ^ 32) ++ compressed);
    })

  -- The proof of work is for the keys of the server, or for none.
  unfoldable pub check_pow : RequestHeader → List ℕ → List ℕ → Result ℕ
  unfolding server_pow_measure
  check_pow h vk pq = do
    (pow, _) ←
        if h.flags.server_known
        then server_pow_measure C h.sponsor_id vk pq h.timestamp_be h.content_hash h.salt
        else server_pow_measure C h.sponsor_id zero_key zero_key h.timestamp_be h.content_hash
            h.salt
    ensure (if h.flags.server_known then leb pow_minimum_known pow else leb pow_minimum_unknown pow)
        bad_value
    ok pow

  unfoldable pub decode_request : ℤ → List ℕ → List ℕ → List ℕ → Result RequestRx
  unfolding parse_request check_pow request_payload sub_time abs_i64
  decode_request now vk pq bytes = do
    (h, bytes1) ← parse_request bytes
    ensure
        (leb_ℤ (abs_i64 (sub_time now (timestamp_decode_be h.timestamp_be))) (pos max_clock_drift))
        bad_value
    pow ← check_pow h vk pq
    payload ← request_payload bytes1
    decompressed ← if h.flags.compressed then decompress K payload else ok payload
    ok (record {
      payload_request_kind = h.kind;
      pow_sponsor_id = h.sponsor_id;
      pow_server_known = h.flags.server_known;
      pow = pow;
      pow_timestamp = timestamp_decode_be h.timestamp_be;
      pow_content_hash = h.content_hash;
      pow_salt = h.salt;
      bytes = decompressed;
    })
