-- ===== src/Rpc/ResponsePassed.antt =====
-- That a response is accepted, what an accepted one has passed, and what it has not.
use hashiverse.Prelude.{
  All, [], ◌∷◌, ℕ, ◌%◌, ◌^◌, ◌≤◌, ◌≡◌, refl, sym, ap, subst, ◌∙◌, arith, leb, leb→le, le→leb, ◌==◌,
  ==_iff, ◌||◌, bytes_eq, bytes_eq_iff, bytes_eq_refl, if◌then◌else◌, Bool, Bool-cases, true, false,
  List, ◌++◌, length, length-append, reverse, excess, bad_value, mismatch, wrong_length, ok,
  >>=-eq-ok, >>-eq-ok, ensure-eq-ok, ensure-ok, ok_inj, inl, inr, ◌⊎◌,
}
use hashiverse.Time.{encode_be}
use hashiverse.Time.Laws.{length-encode_be}
use hashiverse.Crypto.{Crypto}
use hashiverse.Crypto.Work.{Lawful}
use hashiverse.Compression.{
  Codecs, max_decompressed_size, to_le_bytes, compress_for_speed, decompress,
}
use hashiverse.Compression.RoundTrip.{Lossless, length-to_le_bytes, decompress-compress}
use hashiverse.Peer.{Signer, server_pow_measure, server_pow_hash_to_id}
use hashiverse.ServerId.{ServerId, server_verify}
use hashiverse.ServerId.Verified.{Signs, AreKeys, server_verify-measured_work}
use hashiverse.ServerId.Codec.{IsSized}
use hashiverse.Rpc.{PayloadResponseKind}
use hashiverse.Rpc.Response.{
  max_blob_size_response, is_zero, ResponseHeader, ResponseRx, response_header_bytes,
  response_payload, parse_response, encode_response, check_server, decode_response,
}
use hashiverse.Rpc.ResponseRead.{IsFrame, parse_response-IsFrame}
use hashiverse.Rpc.ResponseTrip.{IsHeader, parse_response-append, response_payload-append}

zero_bytes : (bs : List ℕ) → is_zero bs ≡ true → All (λ b. b ≡ 0) bs
unfolding is_zero
zero_bytes [] h = tt
zero_bytes (b ∷ bs) h = ((==_iff b 0).0 (ground arith), zero_bytes bs (ground arith))

module _ (C : Crypto) (K : Codecs) where
  abbrev pub frame : ResponseHeader → List ℕ → List ℕ
  frame h packed = response_header_bytes h ++ (to_le_bytes 4 (length packed % 2 ^ 32) ++ packed)

  sized-room : (packed : List ℕ) → 4 ≤ length (to_le_bytes 4 (length packed % 2 ^ 32) ++ packed)
  sized-room packed = omega (
    arith,
    length-append (to_le_bytes 4 (length packed % 2 ^ 32)) packed,
    length-to_le_bytes 4 (length packed % 2 ^ 32),
  )

  decode_response-frame :
      (destination_id pow_content_hash : List ℕ) (pow_min : ℕ) (h : ResponseHeader)
      (packed payload : List ℕ) (key : C.VerificationKey)
      → IsHeader h
      → length packed ≤ max_blob_size_response
      → check_server C K h destination_id pow_min ≡ ok tt
      → C.key_from_bytes h.verification_key ≡ ok key
      → C.verify key h.signature pow_content_hash ≡ ok tt
      → (if h.compressed then decompress K packed else ok packed) ≡ ok payload
      → decode_response C K destination_id pow_content_hash pow_min (frame h packed)
        ≡ ok (record { response_request_kind = h.kind; bytes = payload })
  unfolding decode_response
  decode_response-frame destination_id pow_content_hash pow_min h packed payload key is small server
        key_of signed unpacked =
      rw
        (
          parse_response-append h (to_le_bytes 4 (length packed % 2 ^ 32) ++ packed) is
              (sized-room packed),
          response_payload-append packed small,
          server,
          key_of,
          signed,
          unpacked,
        )
        refl

  -- A server that has the id that was asked, or any, if the id is zero.
  IsAsked : List ℕ → List ℕ → Type 0
  IsAsked id destination_id = (id ≡ destination_id) ⊎ (is_zero destination_id ≡ true)

  check_server-asked :
      (h : ResponseHeader) (destination_id final : List ℕ) (pow_min pow : ℕ)
      → server_pow_measure C h.sponsor_id h.verification_key h.pq_commitment h.timestamp_be h.hash
          h.salt
        ≡ ok (pow, final)
      → length final ≡ 32
      → pow_min ≤ pow
      → IsAsked (reverse final) destination_id
      → check_server C K h destination_id pow_min ≡ ok tt
  unfolding check_server server_pow_hash_to_id IsAsked
  check_server-asked h destination_id final pow_min pow e size enough (inl same) =
      rw
        (
          e,
          le→leb pow_min pow enough,
          (==_iff (length final) 32).1 size,
          sym same,
          bytes_eq_refl (reverse final),
        )
        refl
  check_server-asked h destination_id final pow_min pow e size enough (inr zero) =
      rw (e, le→leb pow_min pow enough, (==_iff (length final) 32).1 size, zero) (ground arith)

  -- What the bytes of an accepted response hold, and what they show of the server behind them.
  pub record IsAnswer (destination_id pow_content_hash : List ℕ) (pow_min : ℕ) (bytes : List ℕ)
      (rx : ResponseRx) : Type 0 where
    pub header : ResponseHeader
    pub packed : List ℕ
    pub laid_out : IsFrame bytes header packed
    pub kind : rx.response_request_kind ≡ header.kind
    pub unpacked : (if header.compressed then decompress K packed else ok packed) ≡ ok rx.bytes
    pub key : C.VerificationKey
    pub pow : ℕ
    pub final : List ℕ
    pub measured :
        server_pow_measure C header.sponsor_id header.verification_key header.pq_commitment
          header.timestamp_be header.hash header.salt
        ≡ ok (pow, final)
    pub least : pow_min ≤ pow
    pub asked : (reverse final ≡ destination_id) ⊎ All (λ b. b ≡ 0) destination_id
    pub key_of : C.key_from_bytes header.verification_key ≡ ok key
    pub signed : C.verify key header.signature pow_content_hash ≡ ok tt

  -- The bytes of a response that is accepted are those of a version, a flag, a kind, seven fields of
  -- fixed sizes and a payload with its length. The kind and the payload, unpacked if the flag says
  -- so, are what the caller gets. The fields hold a key, and the proof of work of a server with that
  -- key, of at least `pow_min` bits; the id of that server is the one that was asked, if that is not
  -- zero; and the signature among them is one of the hash of the content of the request under that
  -- key.
  pub decode_response-IsAnswer :
      (destination_id pow_content_hash : List ℕ) (pow_min : ℕ) (bytes : List ℕ) (rx : ResponseRx)
      → decode_response C K destination_id pow_content_hash pow_min bytes ≡ ok rx
      → IsAnswer destination_id pow_content_hash pow_min bytes rx
  unfolding decode_response check_server server_pow_hash_to_id
  decode_response-IsAnswer destination_id pow_content_hash pow_min bytes rx e =
      let (x, e0, h0) = >>=-eq-ok (parse_response bytes) _ e in
      let (packed, e1, h1) = >>=-eq-ok (response_payload x.1) _ h0 in
      let (e2, h2) = >>-eq-ok (check_server C K x.0 destination_id pow_min) _ h1 in
      let (key, e3, h3) = >>=-eq-ok (C.key_from_bytes x.0.verification_key) _ h2 in
      let (e4, h4) = >>-eq-ok (C.verify key x.0.signature pow_content_hash) _ h3 in
      let (payload, e9, h9) =
        >>=-eq-ok (if x.0.compressed then decompress K packed else ok packed) _ h4 in
      let (m, e5, h5) =
        >>=-eq-ok
          (server_pow_measure C x.0.sponsor_id x.0.verification_key x.0.pq_commitment
            x.0.timestamp_be x.0.hash x.0.salt)
          _ e2 in
      let (least, h6) = ensure-eq-ok (leb pow_min m.0) bad_value _ h5 in
      let (id, e7, h7) = >>=-eq-ok (server_pow_hash_to_id m.1) _ h6 in
      let (size, h8) = ensure-eq-ok (length m.1 == 32) wrong_length (ok (reverse m.1)) e7 in
      let test = ensure-ok (bytes_eq id destination_id || is_zero destination_id) mismatch h7 in
      let same : reverse m.1 ≡ id = ok_inj _ _ h8 in
      let got = ok_inj _ _ h9 in
      record {
        header = x.0;
        packed = packed;
        laid_out = parse_response-IsFrame bytes x.0 x.1 packed e0 e1;
        kind = sym (ap (λ r. r.response_request_kind) got);
        unpacked = e9 ∙ ap (λ r. ok r.bytes) got;
        key = key;
        pow = m.0;
        final = m.1;
        measured = e5;
        least = leb→le pow_min m.0 least;
        asked = elim (Bool-cases (bytes_eq id destination_id)) [
          | inl f ↦ inl (same ∙ (bytes_eq_iff id destination_id).0 f)
          | inr f ↦ inr (zero_bytes destination_id (ground arith))
        ];
        key_of = e3;
        signed = e4;
      }

  -- The payload of a response is not signed: if a response that fits the frame is accepted, then so is
  -- one with the same header and any other payload.
  pub decode_response-swapped :
      (destination_id pow_content_hash : List ℕ) (pow_min : ℕ) (h : ResponseHeader)
      (packed other payload : List ℕ) (rx : ResponseRx)
      → IsHeader h
      → decode_response C K destination_id pow_content_hash pow_min (frame h packed) ≡ ok rx
      → length other ≤ max_blob_size_response
      → (if h.compressed then decompress K other else ok other) ≡ ok payload
      → decode_response C K destination_id pow_content_hash pow_min (frame h other)
        ≡ ok (record rx { bytes = payload })
  unfolding decode_response
  decode_response-swapped destination_id pow_content_hash pow_min h packed other payload rx is e
        fits unpacked =
      let (x, e0, h0) = >>=-eq-ok (parse_response (frame h packed)) _ e in
      let (read, e1, h1) = >>=-eq-ok (response_payload x.1) _ h0 in
      let (e2, h2) = >>-eq-ok (check_server C K x.0 destination_id pow_min) _ h1 in
      let (key, e3, h3) = >>=-eq-ok (C.key_from_bytes x.0.verification_key) _ h2 in
      let (e4, h4) = >>-eq-ok (C.verify key x.0.signature pow_content_hash) _ h3 in
      let (was, e5, h5) = >>=-eq-ok (if x.0.compressed then decompress K read else ok read) _ h4 in
      let parsed =
        parse_response-append h (to_le_bytes 4 (length packed % 2 ^ 32) ++ packed) is
          (sized-room packed) in
      let ours : x.0 ≡ h = ap (λ y. y.0) (ok_inj _ _ (sym e0 ∙ parsed)) in
      let same : record { response_request_kind = x.0.kind; bytes = was } ≡ rx = ok_inj _ _ h5 in
      decode_response-frame destination_id pow_content_hash pow_min h other payload key is fits
        (subst (λ g. check_server C K g destination_id pow_min ≡ ok tt) ours e2)
        (subst (λ g. C.key_from_bytes g.verification_key ≡ ok key) ours e3)
        (subst (λ g. C.verify key g.signature pow_content_hash ≡ ok tt) ours e4) unpacked
      ∙ ap {A = PayloadResponseKind}
          (λ k. ok (record { response_request_kind = k; bytes = payload }))
          (sym (ap (λ g. g.kind) ours) ∙ ap (λ r. r.response_request_kind) same)

module _ (C : Crypto) (law : Lawful C) (K : Codecs) (lossless : Lossless K) (S : Signer C)
    (signs : Signs C S)
    (signature_size : (k : S.SignatureKey) (m : List ℕ) → length (S.sign k m) ≡ 64) where
  unpacked :
      (test : Bool) (payload packed : List ℕ)
      → length payload ≤ max_decompressed_size
      → (if test then compress_for_speed K payload else ok payload) ≡ ok packed
      → (if test then decompress K packed else ok packed) ≡ ok payload
  unpacked true payload packed h e = (decompress-compress K lossless payload packed h (inl e)).0
  unpacked false payload packed h e = sym e

  -- Of the algorithms: what they pack is unpacked again; of the signatures: they verify, and have 64
  -- bytes. Then a response that `encode` makes, of at most 32 MiB, with the identity of a server
  -- that verifies, is decoded into its kind and its payload by every caller who asked this server,
  -- or the id that is zero, with the hash that was signed, for at most 32 bits of work.
  pub decode_response-encode_response :
      (s : ServerId C S)
      → IsSized s
      → AreKeys C S s.keys
      → length s.keys.verification_key_bytes ≡ 32
      → server_verify C S s ≡ ok tt
      → (destination_id pow_content_hash : List ℕ) (pow_min : ℕ) (compress : Bool)
        (kind : PayloadResponseKind) (payload bytes : List ℕ)
      → (s.id ≡ destination_id) ⊎ (is_zero destination_id ≡ true)
      → pow_min ≤ 32
      → length payload ≤ max_decompressed_size
      → encode_response C K S s.keys.signature_key s.keys.verification_key_bytes
          s.keys.pq_commitment_bytes s.sponsor_id s.timestamp s.hash s.salt pow_content_hash
          compress kind payload
        ≡ ok bytes
      → decode_response C K destination_id pow_content_hash pow_min bytes
        ≡ ok (record { response_request_kind = kind; bytes = payload })
  unfolding encode_response
  decode_response-encode_response s sized keys key_size verified destination_id pow_content_hash
        pow_min compress kind payload bytes asked least short e =
      let (packed, e1, h1) =
        >>=-eq-ok (if compress then compress_for_speed K payload else ok payload) _ e in
      let (fits, h2) = ensure-eq-ok (leb (length packed) max_blob_size_response) excess _ h1 in
      let h : ResponseHeader = record {
        compressed = compress;
        kind = kind;
        verification_key = s.keys.verification_key_bytes;
        pq_commitment = s.keys.pq_commitment_bytes;
        sponsor_id = s.sponsor_id;
        timestamp_be = encode_be s.timestamp;
        hash = s.hash;
        salt = s.salt;
        signature = S.sign s.keys.signature_key pow_content_hash;
      } in
      let is : IsHeader h = record {
        key = key_size;
        commitment = sized.pq;
        sponsor = sized.sponsor;
        time = length-encode_be s.timestamp;
        content = sized.content;
        salted = sized.salted;
        signed = signature_size s.keys.signature_key pow_content_hash;
      } in
      let (final, measured, size, hard, named) = server_verify-measured_work C law S s verified in
      let reached : (reverse final ≡ destination_id) ⊎ (is_zero destination_id ≡ true) =
        elim asked [ inl same ↦ inl (sym named ∙ same) | inr zero ↦ inr zero ] in
      let server =
        check_server-asked C K h destination_id final pow_min s.pow measured size (omega arith)
          (unfold IsAsked in reached) in
      subst
        (λ b.
          decode_response C K destination_id pow_content_hash pow_min b
          ≡ ok (record { response_request_kind = kind; bytes = payload }))
        (ok_inj _ _ h2)
        (decode_response-frame C K destination_id pow_content_hash pow_min h packed payload
          s.keys.verification_key is (leb→le _ _ fits) server
          (rw keys.bytes (signs.reads s.keys.verification_key))
          (rw keys.public (signs.verifies s.keys.signature_key pow_content_hash))
          (unpacked compress payload packed short e1))
