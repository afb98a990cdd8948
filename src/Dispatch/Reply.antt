-- ===== src/Dispatch/Reply.antt =====
-- That a reply reaches the caller.
use hashiverse.Prelude.{
  ℕ, ◌≤◌, ◌≡◌, refl, ap, ◌∙◌, Bool, Bool-cases, inl, inr, ◌⊎◌, Result-cases, true, List, length, ok,
  some, ok_inj, Error, Option, >>=-eq-ok,
}
use hashiverse.Prelude.Int.{ℤ}
use hashiverse.Crypto.{Crypto}
use hashiverse.Crypto.Work.{Lawful}
use hashiverse.Compression.{Codecs, max_decompressed_size}
use hashiverse.Compression.RoundTrip.{Lossless}
use hashiverse.Peer.{Signer, PeerPow}
use hashiverse.ServerId.{ServerId, server_verify}
use hashiverse.ServerId.Verified.{Signs, AreKeys}
use hashiverse.ServerId.Codec.{IsSized}
use hashiverse.Rpc.{PayloadResponseKind}
use hashiverse.Rpc.Request.{RequestRx}
use hashiverse.Rpc.Response.{ResponseRx, is_zero, decode_response}
use hashiverse.Rpc.ResponsePassed.{decode_response-encode_response}
use hashiverse.Dispatch.{
  SaltCache, Server, Parts, admit, take_pow, dispatch, attempt, encode_reply, wrap_and_dispatch,
  receive, is_error_kind,
}

module _ (C : Crypto) (K : Codecs) (S : Signer C) (server_id : ServerId C S) {M : SaltCache}
    {A : Type 0} (parts : Parts M A) where
  -- The server once the work of a request is taken.
  abbrev pub credited : ℤ → RequestRx → Server M A → Server M A
  credited now rx s = record s { peer_self = (take_pow C K S server_id parts now rx s.peer_self).0 }

  dispatch_answer :
      (now : ℤ) (pow : Option PeerPow) (rx : RequestRx) (s : Server M A) (compress : Bool)
      (kind : PayloadResponseKind) (payload : List ℕ)
      → (dispatch C K S server_id parts now pow rx s).1 ≡ ok (compress, kind, payload)
      → (parts.handle now s pow rx.payload_request_kind rx.bytes).1 ≡ ok (kind, payload)
  unfolding dispatch
  dispatch_answer now pow rx s compress kind payload h =
      elim (Bool-cases (is_error_kind rx.payload_request_kind)) [
        | inl e ↦ absurd (cc (rw (dispatch, e) at h))
        | inr e ↦
            let (x, e1, h1) =
              >>=-eq-ok (parts.handle now s pow rx.payload_request_kind rx.bytes).1 _
                (rw (dispatch, e) at h) in
            e1 ∙ ap (λ t. ok (t.1, t.2)) (ok_inj _ _ h1)
      ]

  attempt_answer :
      (now : ℤ) (rx : RequestRx) (s : Server M A) (reply : List ℕ)
      → (attempt C K S server_id parts now rx s).1 ≡ ok reply
      → (pow : Option PeerPow) × (compress : Bool) × (kind : PayloadResponseKind) × (payload : List
          ℕ)
        × ((parts.handle now (credited now rx s) pow rx.payload_request_kind rx.bytes).1
            ≡ ok (kind, payload))
        × (encode_reply C K S server_id compress rx.pow_content_hash kind payload ≡ ok reply)
  unfolding attempt
  attempt_answer now rx s reply h =
      elim (Result-cases (take_pow C K S server_id parts now rx s.peer_self).1) [
        | inr (inl (why, e)) ↦ absurd (cc (rw (attempt, e) at h))
        | inr (inr e) ↦ absurd (cc (rw (attempt, e) at h))
        | inl (pow, e) ↦
            let (x, e1, h1) =
              >>=-eq-ok (dispatch C K S server_id parts now pow rx (credited now rx s)).1 _
                (rw (attempt, e) at h) in
            (pow, x.0, x.1, x.2, dispatch_answer now pow rx (credited now rx s) x.0 x.1 x.2 e1, h1)
      ]

  wrap_answer :
      (now : ℤ) (bytes : List ℕ) (rx : RequestRx) (s : Server M A) (reply : List ℕ)
      → (admit C K S server_id now bytes s).1 ≡ ok rx
      → (wrap_and_dispatch C K S server_id parts now bytes s).2 ≡ ok reply
      → ((wrap_and_dispatch C K S server_id parts now bytes s).1 ≡ 0
          × ((attempt C K S server_id parts now rx (admit C K S server_id now bytes s).0).1
              ≡ ok reply))
        ⊎ ((why : Error) × (payload : List ℕ) × ((wrap_and_dispatch C K S server_id parts now bytes
                s).1
              ≡ 1)
            × (parts.error_payload why ≡ ok payload)
            × (encode_reply C K S server_id true rx.pow_content_hash
                  PayloadResponseKind.error_response_v1 payload
                ≡ ok reply))
  unfolding wrap_and_dispatch
  wrap_answer now bytes rx s reply admitted h =
      elim (Result-cases
        (attempt C K S server_id parts now rx (admit C K S server_id now bytes s).0).1) [
          | inl (found, e) ↦ inl (
            rw (wrap_and_dispatch, admitted, e) refl,
            e ∙ (rw (wrap_and_dispatch, admitted, e) at h),
          )
          | inr (inr e) ↦ absurd (cc (rw (wrap_and_dispatch, admitted, e) at h))
          | inr (inl (why, e)) ↦
              let (payload, e1, h1) =
                >>=-eq-ok (parts.error_payload why) _ (rw (wrap_and_dispatch, admitted, e) at h) in
              inr (why, payload, rw (wrap_and_dispatch, admitted, e) refl, e1, h1)
        ]

  receive_wrap :
      (now : ℤ) (bytes : List ℕ) (s : Server M A) (reply : List ℕ)
      → (receive C K S server_id parts now bytes s).2 ≡ ok (some reply)
      → ((wrap_and_dispatch C K S server_id parts now bytes s).2 ≡ ok reply)
        × ((receive C K S server_id parts now bytes s).1
            ≡ (wrap_and_dispatch C K S server_id parts now bytes s).1)
  unfolding receive
  receive_wrap now bytes s reply h =
      elim (Result-cases (wrap_and_dispatch C K S server_id parts now bytes s).2) [
        | inl (found, e) ↦
            let same : ok (some found) ≡ ok (some reply) = rw (receive, e) at h in
            (cc (e, same), rw (receive, e) refl)
        | inr (inl (why, e)) ↦ absurd (cc (rw (receive, e) at h))
        | inr (inr e) ↦ absurd (cc (rw (receive, e) at h))
      ]

module _ (C : Crypto) (law : Lawful C) (K : Codecs) (lossless : Lossless K) (S : Signer C)
    (signs : Signs C S)
    (signature_size : (k : S.SignatureKey) (m : List ℕ) → length (S.sign k m) ≡ 64)
    (server_id : ServerId C S) (sized : IsSized server_id) (keys : AreKeys C S server_id.keys)
    (key_size : length server_id.keys.verification_key_bytes ≡ 32)
    (verified : server_verify C S server_id ≡ ok tt) {M : SaltCache} {A : Type 0}
    (parts : Parts M A) where
  read_reply :
      (destination_id content_hash : List ℕ) (pow_min : ℕ) (compress : Bool)
      (kind : PayloadResponseKind) (payload reply : List ℕ)
      → (server_id.id ≡ destination_id) ⊎ (is_zero destination_id ≡ true)
      → pow_min ≤ 32
      → length payload ≤ max_decompressed_size
      → encode_reply C K S server_id compress content_hash kind payload ≡ ok reply
      → decode_response C K destination_id content_hash pow_min reply
        ≡ ok (record { response_request_kind = kind; bytes = payload })
  unfolding encode_reply
  read_reply =
      decode_response-encode_response C law K lossless S signs signature_size server_id sized keys
        key_size verified

  -- Of the algorithms: what they pack is unpacked again; of the signatures: they verify, and have 64
  -- bytes; of the server: its identity verifies; of the handlers and the text of errors: they make
  -- at most 32 MiB. Then the reply to an admitted request is accepted by every caller who asked
  -- this server, or the id that is zero, for at most 32 bits of work. It is what the handler gave,
  -- or, in which case the caller is reported, an error with its text.
  pub decode_response-receive :
      (now : ℤ) (bytes : List ℕ) (rx : RequestRx) (s : Server M A) (reply destination_id : List ℕ)
      (pow_min : ℕ)
      → ((t : Server M A) (pow : Option PeerPow) (kind : PayloadResponseKind) (payload : List ℕ)
          → (parts.handle now t pow rx.payload_request_kind rx.bytes).1 ≡ ok (kind, payload)
          → length payload ≤ max_decompressed_size)
      → ((why : Error) (payload : List ℕ)
          → parts.error_payload why ≡ ok payload
          → length payload ≤ max_decompressed_size)
      → (server_id.id ≡ destination_id) ⊎ (is_zero destination_id ≡ true)
      → pow_min ≤ 32
      → (admit C K S server_id now bytes s).1 ≡ ok rx
      → (receive C K S server_id parts now bytes s).2 ≡ ok (some reply)
      → (resp : ResponseRx) × (decode_response C K destination_id rx.pow_content_hash pow_min reply
          ≡ ok resp)
        × ((((receive C K S server_id parts now bytes s).1 ≡ 0)
              × (pow : Option PeerPow) × ((parts.handle now
                    (credited C K S server_id parts now rx (admit C K S server_id now bytes s).0)
                    pow
                    rx.payload_request_kind
                    rx.bytes).1
                  ≡ ok (resp.response_request_kind, resp.bytes)))
            ⊎ (((receive C K S server_id parts now bytes s).1 ≡ 1)
                × (resp.response_request_kind ≡ PayloadResponseKind.error_response_v1)
                × (why : Error) × (parts.error_payload why ≡ ok resp.bytes)))
  decode_response-receive now bytes rx s reply destination_id pow_min short short_error asked least
        admitted h =
      let (e, reports) = receive_wrap C K S server_id parts now bytes s reply h in
      elim (wrap_answer C K S server_id parts now bytes rx s reply admitted e) [
        | inl (none_reported, e1) ↦
            let before = (admit C K S server_id now bytes s).0 in
            let (pow, compress, kind, payload, handled, encoded) =
              attempt_answer C K S server_id parts now rx before reply e1 in
            (
              record { response_request_kind = kind; bytes = payload },
              read_reply destination_id rx.pow_content_hash pow_min compress kind payload reply
                  asked least (short _ pow kind payload handled) encoded,
              inl (reports ∙ none_reported, pow, handled),
            )
        | inr (why, payload, reported, told, encoded) ↦ (
          record { response_request_kind = PayloadResponseKind.error_response_v1; bytes = payload },
          read_reply destination_id rx.pow_content_hash pow_min true _ payload reply asked least
              (short_error why payload told) encoded,
          inr (reports ∙ reported, refl, why, told),
        )
      ]
