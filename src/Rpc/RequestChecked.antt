-- ===== src/Rpc/RequestChecked.antt =====
-- That a request that is sent is accepted, and what an accepted request has passed.
use hashiverse.Prelude.{
  ℕ, ◌+◌, ◌%◌, ◌^◌, ◌≤◌, ◌<◌, ◌≡◌, refl, sym, ap, ap₂, subst, ◌∙◌, arith, leb, leb→le, le→leb,
  if◌then◌else◌, Bool, true, false, inl, inr, ◌⊎◌, List, [], ◌∷◌, ◌++◌, length, length-append,
  excess, ok, >>=-eq-ok, ensure-eq-ok, ok_inj,
}
use hashiverse.Prelude.Int.{
  ℤ, pos, negsuc, leb_ℤ, pos_part, neg_part, saturate, saturate_of_IsI64, ◌-ℤ◌, -ℤ_parts,
}
use hashiverse.Time.{encode_be, timestamp_decode_be, sub_time}
use hashiverse.Time.Laws.{timestamp_decode_be-encode_be, length-encode_be}
use hashiverse.Crypto.{Crypto, hash, pow_measure, pow_compute_data_hash}
use hashiverse.Crypto.Work.{Lawful}
use hashiverse.Compression.{
  Codecs, max_decompressed_size, to_le_bytes, compress_for_speed, decompress,
}
use hashiverse.Compression.RoundTrip.{Lossless, length-to_le_bytes, decompress-compress}
use hashiverse.Peer.{Signer, server_pow_measure}
use hashiverse.ServerId.{Generate, pow_generate}
use hashiverse.ServerId.Verified.{Works}
use hashiverse.Rpc.{PayloadRequestKind}
use hashiverse.Rpc.Request.{
  RequestFlags, RequestHeader, RequestTx, RequestRx, request_header_bytes, max_blob_size_request,
  zero_key, abs_i64, encode_request, check_pow, decode_request,
}
use hashiverse.Rpc.RequestTrip.{IsHeader, parse_request-append, request_payload-append}

-- A frame of a header and a payload.
module _ (C : Crypto) (K : Codecs) where
  abbrev pub frame : RequestHeader → List ℕ → List ℕ
  frame h compressed =
      request_header_bytes h ++ (to_le_bytes 4 (length compressed % 2 ^ 32) ++ compressed)

  pub decode_request-frame :
      (now : ℤ) (vk pq : List ℕ) (h : RequestHeader) (compressed payload : List ℕ) (pow : ℕ)
      → IsHeader h
      → length compressed ≤ max_blob_size_request
      → leb_ℤ (abs_i64 (sub_time now (timestamp_decode_be h.timestamp_be))) (pos 300000) ≡ true
      → check_pow C K h vk pq ≡ ok pow
      → (if h.flags.compressed then decompress K compressed else ok compressed) ≡ ok payload
      → decode_request C K now vk pq (frame h compressed)
        ≡ ok (record {
          payload_request_kind = h.kind;
          pow_sponsor_id = h.sponsor_id;
          pow_server_known = h.flags.server_known;
          pow = pow;
          pow_timestamp = timestamp_decode_be h.timestamp_be;
          pow_content_hash = h.content_hash;
          pow_salt = h.salt;
          bytes = payload;
        })
  unfolding decode_request
  decode_request-frame now vk pq h compressed payload pow is small near worked unpacked =
      let sized = to_le_bytes 4 (length compressed % 2 ^ 32) in
      rw
        (
          parse_request-append h (sized ++ compressed) is (
              omega (
                arith,
                length-append sized compressed,
                length-to_le_bytes 4 (length compressed % 2 ^ 32),
              )),
          near,
          worked,
          request_payload-append compressed small,
          unpacked,
        )
        refl

  -- The server for which the proof of work is done: one that is known by its keys, with at least 16
  -- bits, or an unknown one, with at least 18.
  abbrev pub IsAddressed : RequestFlags → ℕ → List ℕ → List ℕ → List ℕ → List ℕ → Type 0
  IsAddressed flags pow_min vk pq vk' pq' =
      ((flags.server_known ≡ true) × (vk ≡ vk') × (pq ≡ pq') × (16 ≤ pow_min))
      ⊎ ((flags.server_known ≡ false) × (vk ≡ zero_key) × (pq ≡ zero_key) × (18 ≤ pow_min))

  check_pow-addressed :
      (h : RequestHeader) (pow_min pow : ℕ) (vk pq vk' pq' final : List ℕ)
      → IsAddressed h.flags pow_min vk pq vk' pq'
      → pow_min ≤ pow
      → server_pow_measure C h.sponsor_id vk pq h.timestamp_be h.content_hash h.salt
        ≡ ok (pow, final)
      → check_pow C K h vk' pq' ≡ ok pow
  unfolding check_pow
  check_pow-addressed h pow_min pow vk pq vk' pq' final (inl (known, e1, e2, least)) more e =
      let e' =
        ap₂ (λ a b. server_pow_measure C h.sponsor_id a b h.timestamp_be h.content_hash h.salt)
          (sym e1) (sym e2)
        ∙ e in
      rw (known, e', le→leb 16 pow (omega arith)) refl
  check_pow-addressed h pow_min pow vk pq vk' pq' final (inr (unknown, e1, e2, least)) more e =
      let e' =
        ap₂ (λ a b. server_pow_measure C h.sponsor_id a b h.timestamp_be h.content_hash h.salt)
          (sym e1) (sym e2)
        ∙ e in
      rw (unknown, e', le→leb 18 pow (omega arith)) refl

near_difference :
    (z : ℤ) (sent here : ℕ)
    → pos_part z + sent ≡ neg_part z + here
    → sent ≤ here + 300000
    → here ≤ sent + 300000
    → leb_ℤ (abs_i64 (saturate z)) (pos 300000) ≡ true
unfolding abs_i64
near_difference (pos n) sent here e late early =
    rw (saturate_of_IsI64 (pos n) (omega arith, omega arith)) (ground arith)
near_difference (negsuc n) sent here e late early =
    rw (saturate_of_IsI64 (negsuc n) (omega arith, omega arith)) (ground arith)

-- Clocks that differ by five minutes at most.
pub near :
    (sent here : ℕ)
    → sent ≤ here + 300000
    → here ≤ sent + 300000
    → leb_ℤ (abs_i64 (sub_time (pos here) (pos sent))) (pos 300000) ≡ true
unfolding sub_time
near sent here late early =
    near_difference (pos here -ℤ pos sent) sent here (omega (arith, -ℤ_parts (pos here) (pos sent)))
      late early

module _ (C : Crypto) (law : Lawful C) (K : Codecs) (lossless : Lossless K) (S : Signer C)
    (generate : Generate) (works : Works C generate)
    (salted : (pow_min : ℕ) (data_hash salt final : List ℕ) (pow : ℕ)
      → generate pow_min data_hash ≡ ok (salt, pow, final)
      → length salt ≡ 8) where
  unpacked :
      (test : Bool) (payload packed : List ℕ)
      → length payload ≤ max_decompressed_size
      → (if test then compress_for_speed K payload else ok payload) ≡ ok packed
      → (if test then decompress K packed else ok packed) ≡ ok payload
  unpacked true payload packed h e = (decompress-compress K lossless payload packed h (inl e)).0
  unpacked false payload packed h e = sym e

  -- The header of a request, sent with a salt.
  abbrev header : ℤ → RequestFlags → PayloadRequestKind → List ℕ → List ℕ → List ℕ → RequestHeader
  header now flags kind sponsor_id content_hash salt = record {
    flags = flags;
    kind = kind;
    sponsor_id = sponsor_id;
    timestamp_be = encode_be now;
    content_hash = content_hash;
    salt = salt;
  }

  -- What `encode` has done when it succeeds.
  encode_request-ok :
      (now : ℤ) (pow_min : ℕ) (flags : RequestFlags) (kind : PayloadRequestKind)
      (sponsor_id vk pq payload : List ℕ) (tx : RequestTx)
      → encode_request C K S generate now pow_min flags kind sponsor_id vk pq payload ≡ ok tx
      → (packed : List ℕ) × (salt : List ℕ) × (pow : ℕ) × (final : List ℕ) × ((if flags.compressed
            then compress_for_speed K payload
            else ok payload)
          ≡ ok packed)
        × (length packed ≤ max_blob_size_request)
        × (generate pow_min
              (pow_compute_data_hash C (sponsor_id ∷ vk ∷ pq ∷ encode_be now ∷ hash C packed ∷ []))
            ≡ ok (salt, pow, final))
        × (record {
          pow_content_hash = hash C packed;
          bytes = frame C K (header now flags kind sponsor_id (hash C packed) salt) packed;
        }
            ≡ tx)
  unfolding encode_request pow_generate
  encode_request-ok now pow_min flags kind sponsor_id vk pq payload tx e =
      let (packed, e1, h1) =
        >>=-eq-ok (if flags.compressed then compress_for_speed K payload else ok payload) _ e in
      let (fits, h2) = ensure-eq-ok (leb (length packed) max_blob_size_request) excess _ h1 in
      let (made, e3, h3) =
        >>=-eq-ok (pow_generate C S generate now pow_min sponsor_id vk pq (hash C packed)) _ h2 in
      let (found, e4, h4) =
        >>=-eq-ok
          (generate pow_min
            (pow_compute_data_hash C (sponsor_id ∷ vk ∷ pq ∷ encode_be now ∷ hash C packed ∷ [])))
          _ e3 in
      let same = ok_inj _ _ h4 in
      (
        packed,
        found.0,
        found.1,
        found.2,
        e1,
        leb→le _ _ fits,
        e4,
        ap
              (λ m. record {
                pow_content_hash = hash C packed;
                bytes =
                    request_header_bytes (record {
                      flags = flags;
                      kind = kind;
                      sponsor_id = sponsor_id;
                      timestamp_be = encode_be m.0;
                      content_hash = hash C packed;
                      salt = m.1;
                    })
                    ++ (to_le_bytes 4 (length packed % 2 ^ 32) ++ packed);
              })
              same
            ∙ ok_inj _ _ h3,
      )

  -- Of the algorithms: what they pack is unpacked again; of the search for work: it finds what was
  -- asked for, with a salt of 8 bytes. Then a request that `encode` makes of at most 32 MiB is
  -- decoded by the server it is for, if their clocks, from 1970 on, differ by at most five minutes:
  -- it arrives with its kind, its sponsor, its time, the hash of its content, its payload, and at
  -- least the proof of work that was asked for.
  pub decode_request-encode_request :
      (sent here pow_min : ℕ) (flags : RequestFlags) (kind : PayloadRequestKind)
      (sponsor_id vk pq vk' pq' payload : List ℕ) (tx : RequestTx)
      → sent < 2 ^ 63
      → here < 2 ^ 63
      → sent ≤ here + 300000
      → here ≤ sent + 300000
      → length sponsor_id ≡ 32
      → length payload ≤ max_decompressed_size
      → IsAddressed C K flags pow_min vk pq vk' pq'
      → encode_request C K S generate (pos sent) pow_min flags kind sponsor_id vk pq payload ≡ ok tx
      → (rx : RequestRx) × (decode_request C K (pos here) vk' pq' tx.bytes ≡ ok rx)
        × (rx.payload_request_kind ≡ kind)
        × (rx.pow_sponsor_id ≡ sponsor_id)
        × (rx.pow_server_known ≡ flags.server_known)
        × (rx.pow_timestamp ≡ pos sent)
        × (rx.pow_content_hash ≡ tx.pow_content_hash)
        × (rx.bytes ≡ payload)
        × (pow_min ≤ rx.pow)
  decode_request-encode_request sent here pow_min flags kind sponsor_id vk pq vk' pq' payload tx
        small1 small2 late early sponsor short addressed e =
      let (packed, salt, pow, final, e1, fits, e4, is) =
        encode_request-ok (pos sent) pow_min flags kind sponsor_id vk pq payload tx e in
      let h = header (pos sent) flags kind sponsor_id (hash C packed) salt in
      let (same_bytes, reads) =
        timestamp_decode_be-encode_be (pos sent) (omega arith, omega arith) in
      let (more, measured) = works _ _ salt final pow e4 in
      let is_header : IsHeader h = record {
        sponsor = sponsor;
        time = length-encode_be (pos sent);
        content = unfold hash in law.blake3_size packed;
        salted = salted _ _ salt final pow e4;
      } in
      let worked =
        check_pow-addressed C K h pow_min pow vk pq vk' pq' final addressed more
          (unfold server_pow_measure pow_measure in measured) in
      let near_enough : leb_ℤ
            (abs_i64 (sub_time (pos here) (timestamp_decode_be (encode_be (pos sent)))))
            (pos 300000)
          ≡ true =
        rw reads (near sent here late early) in
      subst
        (λ t.
          (rx : RequestRx) × (decode_request C K (pos here) vk' pq' t.bytes ≡ ok rx)
          × (rx.payload_request_kind ≡ kind)
          × (rx.pow_sponsor_id ≡ sponsor_id)
          × (rx.pow_server_known ≡ flags.server_known)
          × (rx.pow_timestamp ≡ pos sent)
          × (rx.pow_content_hash ≡ t.pow_content_hash)
          × (rx.bytes ≡ payload)
          × (pow_min ≤ rx.pow))
        is
        (
          _,
          decode_request-frame C K (pos here) vk' pq' h packed payload pow is_header fits
              near_enough worked (unpacked flags.compressed payload packed short e1),
          refl,
          refl,
          refl,
          reads,
          refl,
          refl,
          more,
        )
