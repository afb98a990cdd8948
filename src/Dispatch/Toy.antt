-- ===== src/Dispatch/Toy.antt =====
-- A toy server, and a request to it.
use hashiverse.Prelude.{
  ℕ, suc, length, ◌≤◌, ◌+◌, ◌≡◌, refl, ap, ◌∙◌, arith, true, false, ltb, if◌then◌else◌, Bool,
  Bool-cases, Option, none, some, inl, inr, List, [], ◌∷◌, ◌++◌, replicate, bytes_eq, bytes_eq_refl,
  ok,
}
use hashiverse.Prelude.Int.{ℤ, pos, negsuc}
use hashiverse.Assoc.{Map, get, insert}
use hashiverse.Assoc.Laws.{get-insert}
use hashiverse.Compression.Toy.{codecs}
use hashiverse.Peer.{Peer}
use hashiverse.ServerId.{unsigned_peer}
use hashiverse.ServerId.Toy.{easy, easy_signer, server}
use hashiverse.Rpc.{PayloadRequestKind, PayloadResponseKind}
use hashiverse.Rpc.Request.{RequestHeader, RequestRx}
use hashiverse.Rpc.RequestTrip.{IsHeader}
use hashiverse.Rpc.RequestChecked.{frame}
use hashiverse.Dispatch.{SaltCache, Server, Parts}
use hashiverse.Dispatch.Replay.{Remembers}
use hashiverse.Dispatch.Expired.{Forgets}

-- A cache that writes down when a salt is gone.
unfoldable pub natural : ℤ → ℕ
natural (pos n) = n
natural (negsuc n) = 0

unfoldable pub alive : Option ℕ → ℕ → Bool
alive none now = false
alive (some gone) now = ltb now gone

unfoldable pub salts : SaltCache
unfolding natural alive
salts = record {
  Salts = Map ℕ;
  contains_key = λ m now salt. alive (get m salt) (natural now);
  insert = λ m now salt. insert m salt (natural now + 300000);
}

pub alive-insert :
    (x : Map ℕ) (earlier now : ℕ) (other salt : List ℕ)
    → unfold salts in
      (salts.contains_key (salts.insert x (pos earlier) other) (pos now) salt
        ≡ alive (if bytes_eq other salt then some (earlier + 300000) else get x salt) now)
unfolding salts natural
alive-insert x earlier now other salt =
    ap (λ o. alive o now) (get-insert x other (earlier + 300000) salt)

pub length-insert : (m : Map ℕ) (key : List ℕ) (v : ℕ) → length (insert m key v) ≤ suc (length m)
unfolding insert
length-insert [] key v = omega arith
length-insert (x ∷ m) key v = ground (arith, length-insert m key v)

unfoldable pub salts-Remembers : Remembers salts
unfolding salts natural alive
salts-Remembers = record {
  count = λ m. length m;
  count_insert = λ m t salt. length-insert m salt (t + 300000);
  written = λ x earlier now salt room late soon.
      alive-insert x earlier now salt salt ∙ rw (bytes_eq_refl salt) (ground arith);
  kept = λ x earlier now salt other room late soon seen.
      alive-insert x earlier now other salt
      ∙ elim (Bool-cases (bytes_eq other salt)) [ inl e ↦ rw e (ground arith) | inr e ↦ rw e seen ];
}

pub salts-Forgets : Forgets salts
unfolding salts natural alive
salts-Forgets x earlier now salt late =
    alive-insert x earlier now salt salt ∙ rw (bytes_eq_refl salt) (ground arith)

abbrev pub parts : Parts salts (Unit {0})
parts = record {
  above_day = λ now p q. ltb q.pow p.pow;
  above_month = λ now p q. ltb q.pow p.pow;
  handle = λ now s pow kind bytes. (tt, ok (PayloadResponseKind.ping_response_v1, bytes));
  error_payload = λ why. ok [];
}

abbrev pub own : Peer
own = record (unsigned_peer easy easy_signer (48 ∷ []) server) {
  timestamp = pos 2000;
  signature = replicate 32 200 ++ replicate 32 0;
}

unfoldable pub state : Server salts (Unit {0})
unfolding salts
state = record {
  peer_self = own;
  seen_salts = [];
  request_counters = replicate 18 0;
  handlers = tt;
}

-- A request of the toy, and what the server reads in it.
abbrev pub header : RequestHeader
header = record {
  flags = record { compressed = true; server_known = true };
  kind = PayloadRequestKind.ping_v1;
  sponsor_id = replicate 32 1;
  timestamp_be = 0 ∷ 0 ∷ 0 ∷ 0 ∷ 0 ∷ 0 ∷ 3 ∷ 232 ∷ [];
  content_hash = replicate 32 6;
  salt = replicate 8 3;
}

abbrev pub packed : List ℕ
packed = 1 ∷ 100 ∷ 0 ∷ 0 ∷ 0 ∷ 0 ∷ []

abbrev pub sent : List ℕ
sent = frame easy codecs header packed

pub header-IsHeader : IsHeader header
header-IsHeader = record { sponsor = refl; time = refl; content = refl; salted = refl }

abbrev pub rx : RequestRx
rx = record {
  payload_request_kind = PayloadRequestKind.ping_v1;
  pow_sponsor_id = replicate 32 1;
  pow_server_known = true;
  pow = 45;
  pow_timestamp = pos 1000;
  pow_content_hash = replicate 32 6;
  pow_salt = replicate 8 3;
  bytes = replicate 100 7;
}
