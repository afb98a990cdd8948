-- ===== src/Dispatch/Expired.antt =====
-- That the mark of a salt does not live as long as the clock accepts the request.
use hashiverse.Prelude.{ℕ, ◌+◌, ◌≤◌, ◌≡◌, refl, arith, if◌then◌else◌, false, List, length, ok}
use hashiverse.Prelude.Int.{pos}
use hashiverse.Time.{timestamp_decode_be}
use hashiverse.Crypto.{Crypto}
use hashiverse.Compression.{Codecs, decompress}
use hashiverse.Peer.{Signer}
use hashiverse.ServerId.{ServerId}
use hashiverse.Rpc.Request.{RequestHeader, RequestRx, max_blob_size_request, check_pow}
use hashiverse.Rpc.RequestTrip.{IsHeader}
use hashiverse.Rpc.RequestChecked.{frame, near, decode_request-frame}
use hashiverse.Dispatch.{SaltCache, Server, Parts, salt_time_to_live, admit, receive}
use hashiverse.Dispatch.Kept.{receive_salts}
use hashiverse.Dispatch.Replay.{decoded, admit_mark}

-- A mark is gone when its time to live is over.
abbrev pub Forgets : SaltCache → Type 0
Forgets M =
    (x : M.Salts) (earlier now : ℕ) (salt : List ℕ)
    → earlier + salt_time_to_live ≤ now
    → M.contains_key (M.insert x (pos earlier) salt) (pos now) salt ≡ false

module _ (C : Crypto) (K : Codecs) (S : Signer C) (server_id : ServerId C S) {M : SaltCache}
    {A : Type 0} where
  pub admit-new :
      (now : ℕ) (bytes : List ℕ) (s : Server M A) (rx : RequestRx)
      → decoded C K server_id now bytes ≡ ok rx
      → M.contains_key s.seen_salts (pos now) rx.pow_salt ≡ false
      → (admit C K S server_id (pos now) bytes s).1 ≡ ok rx
  unfolding admit
  admit-new now bytes s rx e new = rw (admit, e, new) refl

  -- Of the cache of salts: it forgets a mark after five minutes. Then a request that is good but
  -- stamped with a time up to five minutes ahead of the clock of the server is admitted, if its
  -- salt is new, and the same bytes are admitted again five minutes later.
  pub admit-again :
      Forgets M
      → (parts : Parts M A) (s : Server M A) (now stamp pow : ℕ) (h : RequestHeader)
        (compressed payload : List ℕ)
      → now ≤ stamp
      → stamp ≤ now + 300000
      → timestamp_decode_be h.timestamp_be ≡ pos stamp
      → IsHeader h
      → length compressed ≤ max_blob_size_request
      → check_pow C K h server_id.keys.verification_key_bytes server_id.keys.pq_commitment_bytes
        ≡ ok pow
      → (if h.flags.compressed then decompress K compressed else ok compressed) ≡ ok payload
      → M.contains_key s.seen_salts (pos now) h.salt ≡ false
      → (rx : RequestRx) × ((admit C K S server_id (pos now) (frame C K h compressed) s).1 ≡ ok rx)
        × ((admit C K S server_id
              (pos (now + 300000))
              (frame C K h compressed)
              (receive C K S server_id parts (pos now) (frame C K h compressed) s).0).1
            ≡ ok rx)
        × (rx.bytes ≡ payload)
  admit-again forgets parts s now stamp pow h compressed payload ahead soon stamped is small worked
        unpacked new =
      let first =
        decode_request-frame C K (pos now) _ _ h compressed payload pow is small
          (rw stamped (near stamp now soon (omega arith))) worked unpacked in
      let again =
        decode_request-frame C K (pos (now + 300000)) _ _ h compressed payload pow is small
          (rw stamped (near stamp (now + 300000) (omega arith) (omega arith))) worked unpacked in
      let admitted = admit-new now (frame C K h compressed) s _ first new in
      (
        _,
        admitted,
        admit-new (now + 300000) (frame C K h compressed) _ _ again (
            rw
              (
                receive_salts C K S server_id parts (pos now) (frame C K h compressed) s,
                admit_mark C K S server_id now (frame C K h compressed) s _ admitted,
              )
              (forgets s.seen_salts now (now + 300000) h.salt (omega arith))),
        refl,
      )
