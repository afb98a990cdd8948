-- ===== src/PostBundle/Examples.antt =====
-- A bundle of one post, and the theorems at it.
use hashiverse.Prelude.{
  ℕ, bytes_eq, zero, suc, not, ◌&&◌, ◌≡◌, refl, arith, subst, ◌==◌, if◌then◌else◌, Bool, true,
  false, List, [], ◌∷◌, ◌++◌, replicate, Result, ok, err, missing, NoPanic,
}
use hashiverse.Prelude.Int.{ℤ, pos, negsuc}
use hashiverse.Crypto.Toy.{toy}
use hashiverse.FeedbackBundle.{Json}
use hashiverse.FeedbackBundle.Frame.{Lawful}
use hashiverse.PostBundle.{
  Parts, Header, Bundle, verify, get_hash_for_signing, signature_verify, sum, verify_header,
  verify_post, slice, posts_loop, zip, contains, healed_loop,
}
use hashiverse.PostBundle.Posts.{IsVerified, verify-IsVerified}

abbrev parts : Parts
parts = record {
  Peer = Unit;
  signature_hash_generate = λ p. ok (9 ∷ []);
  verification_key_bytes = λ p. [];
  decode_post = λ bytes base_id. ok tt;
}

abbrev post_id : List ℕ
post_id = replicate 32 4

abbrev header : Header Unit
header = record {
  time_millis = pos 100;
  location_id = [];
  overflowed = false;
  sealed = true;
  num_posts = 1;
  encoded_post_ids = post_id ∷ [];
  encoded_post_lengths = 34 ∷ [];
  encoded_post_healed = post_id ∷ [];
  peer = tt;
  signature = [];
}

abbrev bundle : Bundle Unit
bundle = record { header = header; encoded_posts_bytes = post_id ++ (1 ∷ 2 ∷ []) }

-- A writer of headers that are empty but for their time, and that fails on all others.
abbrev is_nil {ℓ} : {A : Type ℓ} → List A → Bool
is_nil [] = true
is_nil (x ∷ xs) = false

abbrev time_of : ℤ → ℕ
time_of (pos n) = n
time_of (negsuc n) = 0

abbrev is_pos : ℤ → Bool
is_pos (pos n) = true
is_pos (negsuc n) = false

abbrev empty_at : ℕ → Header Unit
empty_at n = record {
  time_millis = pos n;
  location_id = [];
  overflowed = false;
  sealed = false;
  num_posts = 0;
  encoded_post_ids = [];
  encoded_post_lengths = [];
  encoded_post_healed = [];
  peer = tt;
  signature = [];
}

abbrev is_empty_header :
    ℤ → List ℕ → Bool → Bool → ℕ → List (List ℕ) → List ℕ → List (List ℕ) → List ℕ → Bool
is_empty_header t loc o s n ids ls hs sig =
    is_pos t
    && is_nil loc
    && not o
    && not s
    && (n == 0)
    && is_nil ids
    && is_nil ls
    && is_nil hs
    && is_nil sig

abbrev write_header : Header Unit → Result (List ℕ)
write_header h =
    if is_empty_header h.time_millis h.location_id h.overflowed h.sealed h.num_posts
      h.encoded_post_ids h.encoded_post_lengths h.encoded_post_healed h.signature
    then ok (time_of h.time_millis ∷ [])
    else err missing

abbrev read_header : List ℕ → Result (Header Unit)
read_header [] = err missing
read_header (n ∷ bytes) = ok (empty_at n)

abbrev json : Json (Header Unit)
json = record { struct_to_bytes = write_header; bytes_to_struct = read_header }

reads_back :
    (t : ℤ) (loc : List ℕ) (o s : Bool) (n : ℕ) (ids : List (List ℕ)) (ls : List ℕ)
    (hs : List (List ℕ)) (sig bytes : List ℕ)
    → write_header (record {
      time_millis = t;
      location_id = loc;
      overflowed = o;
      sealed = s;
      num_posts = n;
      encoded_post_ids = ids;
      encoded_post_lengths = ls;
      encoded_post_healed = hs;
      peer = tt;
      signature = sig;
    })
      ≡ ok bytes
    → read_header bytes
      ≡ ok (record {
        time_millis = t;
        location_id = loc;
        overflowed = o;
        sealed = s;
        num_posts = n;
        encoded_post_ids = ids;
        encoded_post_lengths = ls;
        encoded_post_healed = hs;
        peer = tt;
        signature = sig;
      })
reads_back (pos t) [] false false zero [] [] [] [] bytes e =
    subst (λ bs. read_header bs ≡ ok (empty_at t)) {x = t ∷ []} (cc e) refl
reads_back (pos t) [] false false zero [] [] [] (x ∷ sig) bytes e = absurd cc
reads_back (pos t) [] false false zero [] [] (x ∷ hs) sig bytes e = absurd cc
reads_back (pos t) [] false false zero [] (x ∷ ls) hs sig bytes e = absurd cc
reads_back (pos t) [] false false zero (x ∷ ids) ls hs sig bytes e = absurd cc
reads_back (pos t) [] false false (suc n) ids ls hs sig bytes e = absurd (ground (arith, e))
reads_back (pos t) [] false true n ids ls hs sig bytes e = absurd cc
reads_back (pos t) [] true s n ids ls hs sig bytes e = absurd cc
reads_back (pos t) (x ∷ loc) o s n ids ls hs sig bytes e = absurd cc
reads_back (negsuc t) loc o s n ids ls hs sig bytes e = absurd cc

reads-NoPanic : (bytes : List ℕ) → NoPanic (read_header bytes)
reads-NoPanic [] = λ e. cc
reads-NoPanic (n ∷ bytes) = λ e. cc

json-Lawful : Lawful json
json-Lawful = record {
  reads = λ h.
      reads_back h.time_millis h.location_id h.overflowed h.sealed h.num_posts h.encoded_post_ids
        h.encoded_post_lengths h.encoded_post_healed h.signature;
  reads-NoPanic = reads-NoPanic;
}

abbrev empty_bundle : Bundle Unit
empty_bundle = record { header = empty_at 7; encoded_posts_bytes = 1 ∷ 2 ∷ [] }

abbrev other_id : List ℕ
other_id = replicate 32 3

abbrev two_healed : Header Unit
two_healed = record header { encoded_post_healed = post_id ∷ other_id ∷ [] }

accepted : verify parts toy bundle [] ≡ ok tt
unfolding verify toy verify_header healed_loop contains bytes_eq signature_verify
    get_hash_for_signing sum posts_loop zip verify_post slice
accepted = refl

verify-IsVerified_example : IsVerified parts toy [] bundle
unfolding sum
verify-IsVerified_example = verify-IsVerified parts toy [] bundle (omega arith) accepted
