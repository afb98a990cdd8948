-- ===== src/Rpc/RequestTrip.antt =====
-- That a request arrives.
use mathlib.Core.List.{append_assoc, append-nil}
use hashiverse.Prelude.{
  ℕ, ◌%◌, ◌^◌, ◌≤◌, ◌<◌, ◌≡◌, refl, sym, ap, ◌∙◌, arith, le→leb, ==_iff, List, [], ◌++◌, length,
  length-append, ok,
}
use hashiverse.Time.{time_millis_bytes}
use hashiverse.Buffer.{get_u8, copy_to_bytes, copy_to_bytes-append, take-append, drop-append}
use hashiverse.FeedbackBundle.{array_from_slice}
use hashiverse.Compression.{to_le_bytes}
use hashiverse.Compression.RoundTrip.{length-to_le_bytes, from_le_bytes-to_le_bytes}
use hashiverse.Rpc.{
  PayloadRequestKind, request_kind_number, request_kind_from_u16, get_le, read_array,
}
use hashiverse.Rpc.Request.{
  RequestFlags, request_flags_bits, request_flags_from_bits, RequestHeader, request_header_bytes,
  request_payload, parse_request, max_blob_size_request,
}

pub get_le-append :
    (k n : ℕ) (rest : List ℕ) → n < 256 ^ k → get_le k (to_le_bytes k n ++ rest) ≡ ok (n, rest)
unfolding get_le
get_le-append k n rest h =
    let size = length-to_le_bytes k n in
    rw
      (
        le→leb k (length (to_le_bytes k n ++ rest))
            (omega (arith, length-append (to_le_bytes k n) rest, size)),
        take-append k (to_le_bytes k n) rest size,
        drop-append k (to_le_bytes k n) rest size,
        from_le_bytes-to_le_bytes k n h,
      )
      refl

pub read_array-append :
    (n : ℕ) (xs rest : List ℕ) → length xs ≡ n → read_array n (xs ++ rest) ≡ ok (xs, rest)
unfolding read_array array_from_slice
read_array-append n xs rest e =
    rw (copy_to_bytes-append n xs rest e, (==_iff (length xs) n).1 e) refl

request_kind_from_u16-number :
    (k : PayloadRequestKind)
    → (request_kind_from_u16 (request_kind_number k % 2 ^ 16) ≡ ok k)
      × (request_kind_number k % 2 ^ 16 < 256 ^ 2)
unfolding request_kind_from_u16 request_kind_number
request_kind_from_u16-number k = ground arith

request_flags_from_bits-bits :
    (f : RequestFlags) → request_flags_from_bits (request_flags_bits f) ≡ ok f
unfolding request_flags_from_bits request_flags_bits
request_flags_from_bits-bits f = ground arith

pub record IsHeader (h : RequestHeader) : Type 0 where
  pub sponsor : length h.sponsor_id ≡ 32
  pub time : length h.timestamp_be ≡ 8
  pub content : length h.content_hash ≡ 32
  pub salted : length h.salt ≡ 8

length-request_header_bytes :
    (h : RequestHeader) → IsHeader h → length (request_header_bytes h) ≡ 84
unfolding request_header_bytes
length-request_header_bytes h is =
    let kind = to_le_bytes 2 (request_kind_number h.kind % 2 ^ 16) in
    omega (
      arith,
      length-append kind (h.sponsor_id ++ (h.timestamp_be ++ (h.content_hash ++ h.salt))),
      length-append h.sponsor_id (h.timestamp_be ++ (h.content_hash ++ h.salt)),
      length-append h.timestamp_be (h.content_hash ++ h.salt),
      length-append h.content_hash h.salt,
      length-to_le_bytes 2 (request_kind_number h.kind % 2 ^ 16),
      is.sponsor,
      is.time,
      is.content,
      is.salted,
    )

pub parse_request-append :
    (h : RequestHeader) (rest : List ℕ)
    → IsHeader h
    → 4 ≤ length rest
    → parse_request (request_header_bytes h ++ rest) ≡ ok (h, rest)
unfolding parse_request get_u8 time_millis_bytes
parse_request-append h rest is more =
    let number = request_kind_number h.kind % 2 ^ 16 in
    let kind = to_le_bytes 2 number in
    let (read_kind, small) = request_kind_from_u16-number h.kind in
    let long = le→leb 88 (length (request_header_bytes h ++ rest)) (
      omega
        (arith, length-append (request_header_bytes h) rest, length-request_header_bytes h is)) in
    rw long (
      unfold request_header_bytes in
      rw
        (
          request_flags_from_bits-bits h.flags,
          append_assoc kind,
          append_assoc h.sponsor_id,
          append_assoc h.timestamp_be,
          append_assoc h.content_hash,
          get_le-append 2 number _ small,
          read_kind,
          read_array-append 32 h.sponsor_id _ is.sponsor,
          read_array-append 8 h.timestamp_be _ is.time,
          read_array-append 32 h.content_hash _ is.content,
          read_array-append 8 h.salt _ is.salted,
        )
        refl)

pub request_payload-append :
    (payload : List ℕ)
    → length payload ≤ max_blob_size_request
    → request_payload (to_le_bytes 4 (length payload % 2 ^ 32) ++ payload) ≡ ok payload
unfolding request_payload
request_payload-append payload h =
    let n = length payload in
    let small : n % 2 ^ 32 ≡ n = omega arith in
    let all : copy_to_bytes n payload ≡ ok (payload, []) =
      ap (copy_to_bytes n) (sym (append-nil payload)) ∙ copy_to_bytes-append n payload [] refl in
    rw
      (
        small,
        get_le-append 4 n payload (omega arith),
        le→leb n max_blob_size_request h,
        le→leb n n (omega arith),
        all,
      )
      refl
