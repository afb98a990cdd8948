-- ===== src/Rpc/RequestPassed.antt =====
-- What a request that is accepted has passed, and what it has not.
use hashiverse.Prelude.{
  ℕ, ◌+◌, ◌%◌, ◌^◌, ◌≤◌, ◌≡◌, refl, sym, ap, subst, ◌∙◌, arith, leb, leb→le, if◌then◌else◌, Bool,
  true, false, List, [], ◌∷◌, ◌++◌, length, length-append, bad_value, Result, ok, ensure, ◌>>◌,
  ◌>>=◌, >>=-eq-ok, ensure-eq-ok, ok_inj,
}
use hashiverse.Prelude.Int.{ℤ, pos, leb_ℤ, IsI64, saturate, ◌≤ℤ◌, ◌+ℤ◌, ◌-ℤ◌}
use hashiverse.Time.{of_u64, timestamp_decode_be, sub_time}
use hashiverse.Agreement.{count_leading_zero_bits}
use hashiverse.Crypto.{Crypto}
use hashiverse.Crypto.Work.{Lawful, pow_measure-rounds}
use hashiverse.Compression.{Codecs, to_le_bytes, decompress}
use hashiverse.Compression.RoundTrip.{length-to_le_bytes}
use hashiverse.Peer.{server_pow_measure}
use hashiverse.Rpc.Request.{
  RequestHeader, RequestRx, request_payload, parse_request, max_blob_size_request, zero_key,
  abs_i64, check_pow, decode_request,
}
use hashiverse.Rpc.RequestTrip.{IsHeader, parse_request-append}
use hashiverse.Rpc.RequestChecked.{frame, decode_request-frame}

timestamp_decode_be-IsI64 : (bytes : List ℕ) → IsI64 (timestamp_decode_be bytes)
unfolding timestamp_decode_be of_u64
timestamp_decode_be-IsI64 bytes = ground arith

-- The test of the clock, in plain numbers.
near_plain :
    (now : ℕ) (t : ℤ)
    → IsI64 t
    → leb_ℤ (abs_i64 (sub_time (pos now) t)) (pos 300000) ≡ true
    → (t ≤ℤ pos (now + 300000)) × (pos now ≤ℤ t +ℤ pos 300000)
unfolding abs_i64 sub_time saturate ◌-ℤ◌ ◌+ℤ◌
near_plain now t is h = ground arith

module _ (C : Crypto) (K : Codecs) where
  -- What the fields of an accepted request are.
  unfoldable received : RequestHeader → ℕ → List ℕ → RequestRx
  received h pow payload = record {
    payload_request_kind = h.kind;
    pow_sponsor_id = h.sponsor_id;
    pow_server_known = h.flags.server_known;
    pow = pow;
    pow_timestamp = timestamp_decode_be h.timestamp_be;
    pow_content_hash = h.content_hash;
    pow_salt = h.salt;
    bytes = payload;
  }

  -- The checks, in the order of the code.
  record IsChecked (now : ℤ) (vk pq bytes : List ℕ) (rx : RequestRx) : Type 0 where
    header : RequestHeader
    rest : List ℕ
    packed : List ℕ
    parsed : parse_request bytes ≡ ok (header, rest)
    near :
        leb_ℤ (abs_i64 (sub_time now (timestamp_decode_be header.timestamp_be))) (pos 300000) ≡ true
    worked : check_pow C K header vk pq ≡ ok rx.pow
    carried : request_payload rest ≡ ok packed
    unpacked : (if header.flags.compressed then decompress K packed else ok packed) ≡ ok rx.bytes
    same : received header rx.pow rx.bytes ≡ rx

  decode_request-IsChecked :
      (now : ℤ) (vk pq bytes : List ℕ) (rx : RequestRx)
      → decode_request C K now vk pq bytes ≡ ok rx
      → IsChecked now vk pq bytes rx
  unfolding decode_request received
  decode_request-IsChecked now vk pq bytes rx e =
      let (x, e0, h0) = >>=-eq-ok (parse_request bytes) _ e in
      let (e1, h1) =
        ensure-eq-ok
          (leb_ℤ (abs_i64 (sub_time now (timestamp_decode_be x.0.timestamp_be))) (pos 300000))
          bad_value _ h0 in
      let (pow, e2, h2) = >>=-eq-ok (check_pow C K x.0 vk pq) _ h1 in
      let (packed, e3, h3) = >>=-eq-ok (request_payload x.1) _ h2 in
      let (payload, e4, h4) =
        >>=-eq-ok (if x.0.flags.compressed then decompress K packed else ok packed) _ h3 in
      let is : received x.0 pow payload ≡ rx = ok_inj _ _ h4 in
      subst (λ r. IsChecked now vk pq bytes r) is
        (record {
          header = x.0;
          rest = x.1;
          packed = packed;
          parsed = e0;
          near = e1;
          worked = e2;
          carried = e3;
          unpacked = e4;
          same = refl;
        })

  -- The hash of the content is taken on trust: if a request that fits the frame is accepted, then so
  -- is every request with the same header and another payload, with the same proof of work and the
  -- same hash of the content.
  pub decode_request-swapped :
      (now : ℤ) (vk pq : List ℕ) (h : RequestHeader) (packed other payload : List ℕ)
      (rx : RequestRx)
      → IsHeader h
      → decode_request C K now vk pq (frame C K h packed) ≡ ok rx
      → length other ≤ max_blob_size_request
      → (if h.flags.compressed then decompress K other else ok other) ≡ ok payload
      → decode_request C K now vk pq (frame C K h other) ≡ ok (record rx { bytes = payload })
  unfolding received
  decode_request-swapped now vk pq h packed other payload rx is e fits unpacked =
      let c = decode_request-IsChecked now vk pq (frame C K h packed) rx e in
      let sized = to_le_bytes 4 (length packed % 2 ^ 32) in
      let enough : 4 ≤ length (sized ++ packed) =
        omega (arith, length-append sized packed, length-to_le_bytes 4 (length packed % 2 ^ 32)) in
      let parsed = parse_request-append h (sized ++ packed) is enough in
      let ours : c.header ≡ h = ap (λ x. x.0) (ok_inj _ _ (sym c.parsed ∙ parsed)) in
      let near =
        subst
          (λ g.
            leb_ℤ (abs_i64 (sub_time now (timestamp_decode_be g.timestamp_be))) (pos 300000) ≡ true)
          ours c.near in
      let worked = subst (λ g. check_pow C K g vk pq ≡ ok rx.pow) ours c.worked in
      let same = subst (λ g. received g rx.pow rx.bytes ≡ rx) ours c.same in
      decode_request-frame C K now vk pq h other payload rx.pow is fits near worked unpacked
      ∙ ap {A = RequestRx} (λ r. ok (record r { bytes = payload })) same

  -- The keys for which a request has worked: those of the server, or none.
  abbrev pub target : Bool → List ℕ → List ℕ
  target known key = if known then key else zero_key

  server_pow_measure-bits :
      Lawful C
      → (sponsor_id vk pq timestamp_be content_hash salt final : List ℕ) (pow : ℕ)
      → server_pow_measure C sponsor_id vk pq timestamp_be content_hash salt ≡ ok (pow, final)
      → pow ≡ count_leading_zero_bits final
  unfolding server_pow_measure
  server_pow_measure-bits law sponsor_id vk pq timestamp_be content_hash salt final pow e =
      let (f, is, _, _) =
        pow_measure-rounds C law (sponsor_id ∷ vk ∷ pq ∷ timestamp_be ∷ content_hash ∷ []) salt in
      subst (λ x. x.0 ≡ count_leading_zero_bits x.1) (ok_inj _ _ (sym is ∙ e)) refl

  passed_by :
      (known : Bool) (f : List ℕ → List ℕ → Result (ℕ × List ℕ)) (vk pq : List ℕ) (pow : ℕ)
      → ((if known then f vk pq else f zero_key zero_key) >>= λ x.
          ensure (if known then leb 16 x.0 else leb 18 x.0) bad_value >> ok x.0)
        ≡ ok pow
      → (final : List ℕ) × (f (target known vk) (target known pq) ≡ ok (pow, final))
        × ((if known then 16 else 18) ≤ pow)
  passed_by true f vk pq pow e =
      let (x, e1, h1) = >>=-eq-ok (f vk pq) _ e in
      let (enough, h2) = ensure-eq-ok (leb 16 x.0) bad_value (ok x.0) h1 in
      let same = ok_inj x.0 pow h2 in
      (
        x.1,
        subst (λ n. f vk pq ≡ ok (n, x.1)) same e1,
        subst (λ n. 16 ≤ n) same (leb→le 16 x.0 enough),
      )
  passed_by false f vk pq pow e =
      let (x, e1, h1) = >>=-eq-ok (f zero_key zero_key) _ e in
      let (enough, h2) = ensure-eq-ok (leb 18 x.0) bad_value (ok x.0) h1 in
      let same = ok_inj x.0 pow h2 in
      (
        x.1,
        subst (λ n. f zero_key zero_key ≡ ok (n, x.1)) same e1,
        subst (λ n. 18 ≤ n) same (leb→le 18 x.0 enough),
      )

  check_pow-passed :
      (h : RequestHeader) (vk pq : List ℕ) (pow : ℕ)
      → check_pow C K h vk pq ≡ ok pow
      → (final : List ℕ) × (server_pow_measure C h.sponsor_id
            (target h.flags.server_known vk)
            (target h.flags.server_known pq)
            h.timestamp_be
            h.content_hash
            h.salt
          ≡ ok (pow, final))
        × ((if h.flags.server_known then 16 else 18) ≤ pow)
  unfolding check_pow
  check_pow-passed h vk pq pow e =
      passed_by h.flags.server_known
        (λ a b. server_pow_measure C h.sponsor_id a b h.timestamp_be h.content_hash h.salt) vk pq
        pow e

  -- If the digests have their documented lengths, a request that is accepted has been sent at a time
  -- that differs from that of the server, from 1970 on, by at most five minutes, before or after it, and
  -- has a proof of work for the keys of the server, of at least 16 bits, or for no server, of at
  -- least 18 bits, done for its sponsor, that time and the hash it carries.
  pub decode_request-passed :
      Lawful C
      → (now : ℕ) (vk pq bytes : List ℕ) (rx : RequestRx)
      → decode_request C K (pos now) vk pq bytes ≡ ok rx
      → (timestamp_be : List ℕ) × (final : List ℕ) × (timestamp_decode_be timestamp_be
          ≡ rx.pow_timestamp)
        × (rx.pow_timestamp ≤ℤ pos (now + 300000))
        × (pos now ≤ℤ rx.pow_timestamp +ℤ pos 300000)
        × (server_pow_measure C rx.pow_sponsor_id
              (target rx.pow_server_known vk)
              (target rx.pow_server_known pq)
              timestamp_be
              rx.pow_content_hash
              rx.pow_salt
            ≡ ok (rx.pow, final))
        × ((if rx.pow_server_known then 16 else 18) ≤ rx.pow)
        × (rx.pow ≡ count_leading_zero_bits final)
  unfolding received
  decode_request-passed law now vk pq bytes rx e =
      let c = decode_request-IsChecked (pos now) vk pq bytes rx e in
      let h = c.header in
      let (late, early) = near_plain now _ (timestamp_decode_be-IsI64 h.timestamp_be) c.near in
      let (final, measured, least) = check_pow-passed h vk pq rx.pow c.worked in
      subst
        (λ r.
          (timestamp_be : List ℕ) × (final : List ℕ) × (timestamp_decode_be timestamp_be
            ≡ r.pow_timestamp)
          × (r.pow_timestamp ≤ℤ pos (now + 300000))
          × (pos now ≤ℤ r.pow_timestamp +ℤ pos 300000)
          × (server_pow_measure C r.pow_sponsor_id (target r.pow_server_known vk)
                (target r.pow_server_known pq) timestamp_be r.pow_content_hash r.pow_salt
              ≡ ok (r.pow, final))
          × ((if r.pow_server_known then 16 else 18) ≤ r.pow)
          × (r.pow ≡ count_leading_zero_bits final))
        c.same
        (
          h.timestamp_be,
          final,
          refl,
          late,
          early,
          measured,
          least,
          server_pow_measure-bits law _ _ _ _ _ _ _ _ measured,
        )
