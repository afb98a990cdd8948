-- ===== src/Rpc/ResponseTrip.antt =====
-- That a response arrives.
use mathlib.Core.List.{append_assoc, append-nil}
use hashiverse.Prelude.{
  ℕ, ◌%◌, ◌^◌, ◌≤◌, ◌<◌, ◌≡◌, refl, sym, ap, ◌∙◌, arith, le→leb, Bool, List, [], ◌++◌, length,
  length-append, ok,
}
use hashiverse.Buffer.{get_u8, copy_to_bytes, copy_to_bytes-append}
use hashiverse.Compression.{to_le_bytes}
use hashiverse.Compression.RoundTrip.{length-to_le_bytes}
use hashiverse.Rpc.{PayloadResponseKind, response_kind_number, response_kind_from_u16}
use hashiverse.Rpc.Response.{
  max_blob_size_response, response_flags_bits, response_flags_from_bits, ResponseHeader,
  response_header_bytes, response_payload, parse_response,
}
use hashiverse.Rpc.RequestTrip.{get_le-append, read_array-append}

response_kind_from_u16-number :
    (k : PayloadResponseKind)
    → (response_kind_from_u16 (response_kind_number k % 2 ^ 16) ≡ ok k)
      × (response_kind_number k % 2 ^ 16 < 256 ^ 2)
unfolding response_kind_from_u16 response_kind_number
response_kind_from_u16-number k = ground arith

response_flags_from_bits-bits : (f : Bool) → response_flags_from_bits (response_flags_bits f) ≡ ok f
unfolding response_flags_from_bits response_flags_bits
response_flags_from_bits-bits f = ground arith

pub record IsHeader (h : ResponseHeader) : Type 0 where
  pub key : length h.verification_key ≡ 32
  pub commitment : length h.pq_commitment ≡ 32
  pub sponsor : length h.sponsor_id ≡ 32
  pub time : length h.timestamp_be ≡ 8
  pub content : length h.hash ≡ 32
  pub salted : length h.salt ≡ 8
  pub signed : length h.signature ≡ 64

length-response_header_bytes :
    (h : ResponseHeader) → IsHeader h → length (response_header_bytes h) ≡ 212
unfolding response_header_bytes
length-response_header_bytes h is =
    let kind = to_le_bytes 2 (response_kind_number h.kind % 2 ^ 16) in
    let behind_hash = h.salt ++ h.signature in
    let behind_time = h.hash ++ behind_hash in
    let behind_sponsor = h.timestamp_be ++ behind_time in
    let behind_commitment = h.sponsor_id ++ behind_sponsor in
    let behind_key = h.pq_commitment ++ behind_commitment in
    omega (
      arith,
      length-append kind (h.verification_key ++ behind_key),
      length-append h.verification_key behind_key,
      length-append h.pq_commitment behind_commitment,
      length-append h.sponsor_id behind_sponsor,
      length-append h.timestamp_be behind_time,
      length-append h.hash behind_hash,
      length-append h.salt h.signature,
      length-to_le_bytes 2 (response_kind_number h.kind % 2 ^ 16),
      is.key,
      is.commitment,
      is.sponsor,
      is.time,
      is.content,
      is.salted,
      is.signed,
    )

pub parse_response-append :
    (h : ResponseHeader) (rest : List ℕ)
    → IsHeader h
    → 4 ≤ length rest
    → parse_response (response_header_bytes h ++ rest) ≡ ok (h, rest)
unfolding parse_response get_u8
parse_response-append h rest is more =
    let number = response_kind_number h.kind % 2 ^ 16 in
    let kind = to_le_bytes 2 number in
    let (read_kind, small) = response_kind_from_u16-number h.kind in
    let long = le→leb 216 (length (response_header_bytes h ++ rest)) (
      omega
        (arith, length-append (response_header_bytes h) rest, length-response_header_bytes h is)) in
    rw long (
      unfold response_header_bytes in
      rw
        (
          response_flags_from_bits-bits h.compressed,
          append_assoc kind,
          append_assoc h.verification_key,
          append_assoc h.pq_commitment,
          append_assoc h.sponsor_id,
          append_assoc h.timestamp_be,
          append_assoc h.hash,
          append_assoc h.salt,
          get_le-append 2 number _ small,
          read_kind,
          read_array-append 32 h.verification_key _ is.key,
          read_array-append 32 h.pq_commitment _ is.commitment,
          read_array-append 32 h.sponsor_id _ is.sponsor,
          read_array-append 8 h.timestamp_be _ is.time,
          read_array-append 32 h.hash _ is.content,
          read_array-append 8 h.salt _ is.salted,
          read_array-append 64 h.signature _ is.signed,
        )
        refl)

pub response_payload-append :
    (payload : List ℕ)
    → length payload ≤ max_blob_size_response
    → response_payload (to_le_bytes 4 (length payload % 2 ^ 32) ++ payload) ≡ ok payload
unfolding response_payload
response_payload-append payload h =
    let n = length payload in
    let small : n % 2 ^ 32 ≡ n = omega arith in
    let all : copy_to_bytes n payload ≡ ok (payload, []) =
      ap (copy_to_bytes n) (sym (append-nil payload)) ∙ copy_to_bytes-append n payload [] refl in
    rw
      (
        small,
        get_le-append 4 n payload (omega arith),
        le→leb n max_blob_size_response h,
        le→leb n n (omega arith),
        all,
      )
      refl
