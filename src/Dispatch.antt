-- ===== src/Dispatch.antt =====
-- What a server does with an incoming packet around its handlers:
-- hashiverse-rust/hashiverse-server-lib/src/server/handlers/dispatch.rs. The handlers, the text of an
-- error, and the f64 that compares two proofs of work as they decay are parameters, and so is the
-- moka cache `seen_salts`. The rate windows are not part of the model; one reading of the clock
-- serves a whole request.
pub mod Kept
pub mod Replay
pub mod Expired
pub mod SelfPeer
pub mod Reply
mod Toy
mod Examples
use hashiverse.Prelude.{
  ℕ, ◌+◌, ◌%◌, ◌^◌, if◌then◌else◌, ◌||◌, Bool, true, false, Option, none, some, List, [], ◌∷◌, set,
  get_or, Error, mismatch, unknown, Result, ok, err, panic, ◌>>=◌,
}
use hashiverse.Prelude.Int.{ℤ, pos}
use hashiverse.Crypto.{Crypto}
use hashiverse.Compression.{Codecs}
use hashiverse.Peer.{Signer, Peer, PeerPow, new_pow, peer_sign}
use hashiverse.ServerId.{Keys, ServerId}
use hashiverse.Rpc.{PayloadRequestKind, PayloadResponseKind, request_kind_number}
use hashiverse.Rpc.Request.{RequestRx, decode_request}
use hashiverse.Rpc.Response.{encode_response}

abbrev pub salt_time_to_live : ℕ
salt_time_to_live = 300000

abbrev pub salt_capacity : ℕ
salt_capacity = 100000

-- The calls of the cache, each with the time at which it is made.
pub record SaltCache : Type 1 where
  pub Salts : Type 0
  pub contains_key : Salts → ℤ → List ℕ → Bool
  pub insert : Salts → ℤ → List ℕ → Salts

-- The server, with a state of the handlers.
pub record Server (M : SaltCache) (A : Type 0) : Type 0 where
  pub peer_self : Peer
  pub seen_salts : M.Salts
  pub request_counters : List ℕ
  pub handlers : A

-- What is not in the source of the dispatch: whether a proof of work is above another at a time, the
-- handlers, which read the server and change their own state, and the payload that tells an error.
pub record Parts (M : SaltCache) (A : Type 0) : Type 0 where
  pub above_day : ℤ → PeerPow → PeerPow → Bool
  pub above_month : ℤ → PeerPow → PeerPow → Bool
  pub handle :
      ℤ
      → Server M A
      → Option PeerPow
      → PayloadRequestKind
      → List ℕ
      → A × Result (PayloadResponseKind × List ℕ)
  pub error_payload : Error → Result (List ℕ)

unfoldable pub count_request : List ℕ → PayloadRequestKind → List ℕ
count_request counters kind =
    set counters (request_kind_number kind)
      ((get_or counters (request_kind_number kind) 0 + 1) % 2 ^ 64)

unfoldable pub compress_response : PayloadRequestKind → Bool
compress_response PayloadRequestKind.get_post_bundle_v1 = false
compress_response PayloadRequestKind.cache_post_bundle_v1 = false
compress_response _ = true

-- Only some request types are allowed anonymous pow.
unfoldable pub anonymous_allowed : PayloadRequestKind → Bool
anonymous_allowed PayloadRequestKind.bootstrap_v1 = true
anonymous_allowed _ = false

unfoldable pub is_error_kind : PayloadRequestKind → Bool
is_error_kind PayloadRequestKind.error_v1 = true
is_error_kind _ = false

module _ (C : Crypto) (K : Codecs) (S : Signer C) (server_id : ServerId C S) where
  unfoldable pub encode_reply : Bool → List ℕ → PayloadResponseKind → List ℕ → Result (List ℕ)
  encode_reply compress pow_content_hash kind payload =
      encode_response C K S server_id.keys.signature_key server_id.keys.verification_key_bytes
        server_id.keys.pq_commitment_bytes server_id.sponsor_id server_id.timestamp server_id.hash
        server_id.salt pow_content_hash compress kind payload

module _ (C : Crypto) (K : Codecs) (S : Signer C) (server_id : ServerId C S) {M : SaltCache}
    {A : Type 0} where
  -- The envelope, the count and the mark against replay.
  unfoldable pub admit : ℤ → List ℕ → Server M A → Server M A × Result RequestRx
  unfolding count_request
  admit now bytes s =
      elim (decode_request C K now server_id.keys.verification_key_bytes
        server_id.keys.pq_commitment_bytes bytes) [
          | panic ↦ (s, panic)
          | err e ↦ (s, err e)
          | ok rx ↦
              let counted = record s {
                request_counters = count_request s.request_counters rx.payload_request_kind;
              } in
              if M.contains_key s.seen_salts now rx.pow_salt
              then (counted, err mismatch)
              else (record counted { seen_salts = M.insert s.seen_salts now rx.pow_salt }, ok rx)
        ]

  -- The peer of the server, with the work of a request where it is above what stands there.
  unfoldable pub improved : Parts M A → ℤ → PeerPow → Peer → Peer
  improved parts now pow p = record p {
    pow_current_day = if parts.above_day now pow p.pow_current_day then pow else p.pow_current_day;
    pow_current_month =
        if parts.above_month now pow p.pow_current_month then pow else p.pow_current_month;
  }

  -- The work of a request counts for the server it is done for, whose peer is signed anew if it
  -- changes; `sign` sets the time before it can fail.
  unfoldable pub take_pow : Parts M A → ℤ → RequestRx → Peer → Peer × Result (Option PeerPow)
  unfolding improved anonymous_allowed
  take_pow parts now rx p =
      if rx.pow_server_known
      then elim (new_pow C rx.pow_sponsor_id p.verification_key_bytes p.pq_commitment_bytes
          rx.pow_timestamp rx.pow_content_hash rx.pow_salt) [
            | panic ↦ (p, panic)
            | err e ↦ (p, err e)
            | ok pow ↦
                let better = improved parts now pow p in
                if parts.above_day now pow p.pow_current_day
                  || parts.above_month now pow p.pow_current_month
                then elim (peer_sign C S now server_id.keys.signature_key better) [
                  | panic ↦ (record better { timestamp = now }, panic)
                  | err e ↦ (record better { timestamp = now }, err e)
                  | ok signed ↦ (signed, ok (some pow))
                ]
                else (p, ok (some pow))
          ]
      else if anonymous_allowed rx.payload_request_kind
      then (p, ok none)
      else (p, err unknown)

  -- The handler for the kind of the request.
  unfoldable pub dispatch :
      Parts M A
      → ℤ
      → Option PeerPow
      → RequestRx
      → Server M A
      → Server M A × Result (Bool × PayloadResponseKind × List ℕ)
  unfolding is_error_kind compress_response
  dispatch parts now pow rx s =
      if is_error_kind rx.payload_request_kind
      then (s, err unknown)
      else (let handled = parts.handle now s pow rx.payload_request_kind rx.bytes in
          (
            record s { handlers = handled.0 },
            do
              (kind, payload) ← handled.1
              ok (compress_response rx.payload_request_kind, kind, payload),
          ))

  -- The `try` block.
  unfoldable pub attempt : Parts M A → ℤ → RequestRx → Server M A → Server M A × Result (List ℕ)
  unfolding take_pow dispatch encode_reply
  attempt parts now rx s =
      let taken = take_pow parts now rx s.peer_self in
      let credited = record s { peer_self = taken.0 } in
      elim taken.1 [
        | panic ↦ (credited, panic)
        | err e ↦ (credited, err e)
        | ok pow ↦
            let dispatched = dispatch parts now pow rx credited in
            (
              dispatched.0,
              do
                (compress, kind, payload) ← dispatched.1
                encode_reply C K S server_id compress rx.pow_content_hash kind payload,
            )
      ]

  -- `wrap_and_dispatch_network_envelope`: the server, how often the caller was reported for a bad
  -- request, and the bytes of the reply.
  unfoldable pub wrap_and_dispatch :
      Parts M A → ℤ → List ℕ → Server M A → Server M A × ℕ × Result (List ℕ)
  unfolding admit attempt encode_reply
  wrap_and_dispatch parts now bytes s =
      let admitted = admit now bytes s in
      elim admitted.1 [
        | panic ↦ (admitted.0, 0, panic)
        | err e ↦ (admitted.0, 0, err e)
        | ok rx ↦
            let attempted = attempt parts now rx admitted.0 in
            elim attempted.1 [
              | panic ↦ (attempted.0, 0, panic)
              | ok reply ↦ (attempted.0, 0, ok reply)
              | err e ↦ (
                attempted.0,
                1,
                do
                  payload ← parts.error_payload e
                  encode_reply C K S server_id true rx.pow_content_hash
                      PayloadResponseKind.error_response_v1 payload,
              )
            ]
      ]

  -- One turn of the loop of `wrap_and_dispatch_network_envelopes`: a request that fails gets no reply,
  -- and is reported.
  unfoldable pub receive :
      Parts M A → ℤ → List ℕ → Server M A → Server M A × ℕ × Result (Option (List ℕ))
  unfolding wrap_and_dispatch
  receive parts now bytes s =
      let (after, reports, result) = wrap_and_dispatch parts now bytes s in
      elim result [
        | panic ↦ (after, reports, panic)
        | err e ↦ (after, reports + 1, ok none)
        | ok reply ↦ (after, reports, ok (some reply))
      ]

  -- The requests that arrive, each with its time.
  unfoldable pub receive_all : Parts M A → List (ℕ × List ℕ) → Server M A → Server M A
  unfolding receive
  receive_all parts [] s = s
  receive_all parts (r ∷ rs) s = receive_all parts rs (receive parts (pos r.0) r.1 s).0
