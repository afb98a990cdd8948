-- ===== src/FeedbackBundle/Examples.antt =====
-- A bundle of three votes, and the theorems at it.
use mathlib.Core.List.Perm
use hashiverse.Prelude.{
  bytes_eq, to_be_bytes, ℕ, take, drop, subst, ◌==◌, if◌then◌else◌, ◌≡◌, refl, arith, List, [], ◌∷◌,
  ◌++◌, length, replicate, some, Result, ok, err, All, missing, NoPanic,
}
use hashiverse.Prelude.Int.{ℤ, pos, negsuc}
use hashiverse.Buffer.{take-append, drop-append}
use hashiverse.Feedback.{EncodedPostFeedback, encode_to_bytes, decode_from_bytes}
use hashiverse.Feedback.Codec.{IsFeedback, decode_from_bytes-encode_to_bytes}
use hashiverse.Feedback.Entries.{encode_all, length-encode_all}
use hashiverse.FeedbackBundle.{
  Peers, Header, Json, Bundle, HashOrder, to_bytes, from_bytes, verify, merge,
  get_post_pow_for_feedback_type,
}
use hashiverse.FeedbackBundle.Frame.{Lawful, from_bytes-to_bytes, from_bytes-NoPanic}
use hashiverse.FeedbackBundle.Verify.{vote_hash, IsVerified, verify_iff}
use hashiverse.Crypto.Work.{rounds}
use hashiverse.ServerId.Toy.{easy, easy-Lawful}
use hashiverse.Time.{encode_be}
use hashiverse.Agreement.{count_leading_zero_bits}
use hashiverse.FeedbackBundle.Merge.{peak_of_bundles}
use hashiverse.FeedbackBundle.Union.{merge-peak_of_bundles}

abbrev post_a : List ℕ
post_a = replicate 32 10

abbrev post_b : List ℕ
post_b = replicate 32 11

abbrev vote : List ℕ → ℕ → ℕ → EncodedPostFeedback
vote post kind pow = record {
  post_id = post;
  feedback_type = kind;
  salt = replicate 8 3;
  pow = pow;
}

abbrev votes_1 : List EncodedPostFeedback
votes_1 = vote post_a 1 5 ∷ vote post_b 1 9 ∷ []

abbrev votes_2 : List EncodedPostFeedback
votes_2 = vote post_a 1 7 ∷ vote post_a 2 4 ∷ []

are_1 : All IsFeedback votes_1
are_1 = (
  record { post_id_size = refl; salt_size = refl },
  (record { post_id_size = refl; salt_size = refl }, tt),
)

abbrev peers : Peers
peers = record { Peer = Unit; peer_signature = λ p. []; verification_key_bytes = λ p. [] }

abbrev header : ℕ → Header Unit
header t = record {
  time_millis = pos t;
  location_id = post_a;
  feedbacks_bytes_hash = post_b;
  peer = tt;
  signature = 1 ∷ 2 ∷ [];
}

abbrev bundle_1 : Bundle Unit
bundle_1 = record { header = header 100; feedbacks_bytes = encode_all votes_1 }

abbrev bundle_2 : Bundle Unit
bundle_2 = record { header = header 200; feedbacks_bytes = encode_all votes_2 }

-- A way to write headers: a sign, a time, two lengths and the three strings.
abbrev write_header : Header Unit → List ℕ
write_header h =
    (elim h.time_millis [ pos n ↦ 0 | negsuc n ↦ 1 ])
    ∷ (elim h.time_millis [ pos n ↦ n | negsuc n ↦ n ])
    ∷ length h.location_id
    ∷ length h.feedbacks_bytes_hash
    ∷ (h.location_id ++ (h.feedbacks_bytes_hash ++ h.signature))

abbrev read_header : List ℕ → Result (Header Unit)
read_header (sign ∷ n ∷ a ∷ b ∷ rest) = ok (record {
  time_millis = if sign == 0 then pos n else negsuc n;
  location_id = take a rest;
  feedbacks_bytes_hash = take b (drop a rest);
  peer = tt;
  signature = drop b (drop a rest);
})
read_header bytes = err missing

abbrev json : Json (Header Unit)
json = record { struct_to_bytes = λ h. ok (write_header h); bytes_to_struct = read_header }

read_header-write_header :
    (t : ℤ) (a b s : List ℕ)
    → read_header (
        write_header (record {
          time_millis = t;
          location_id = a;
          feedbacks_bytes_hash = b;
          peer = tt;
          signature = s;
        }))
      ≡ ok (record {
        time_millis = t;
        location_id = a;
        feedbacks_bytes_hash = b;
        peer = tt;
        signature = s;
      })
read_header-write_header (pos n) a b s =
    rw
      (
        take-append (length a) a (b ++ s) refl,
        drop-append (length a) a (b ++ s) refl,
        take-append (length b) b s refl,
        drop-append (length b) b s refl,
      )
      refl
read_header-write_header (negsuc n) a b s =
    rw
      (
        take-append (length a) a (b ++ s) refl,
        drop-append (length a) a (b ++ s) refl,
        take-append (length b) b s refl,
        drop-append (length b) b s refl,
      )
      refl

read_header-NoPanic : (bytes : List ℕ) → NoPanic (read_header bytes)
read_header-NoPanic [] = λ e. cc
read_header-NoPanic (_ ∷ []) = λ e. cc
read_header-NoPanic (_ ∷ _ ∷ []) = λ e. cc
read_header-NoPanic (_ ∷ _ ∷ _ ∷ []) = λ e. cc
read_header-NoPanic (sign ∷ n ∷ a ∷ b ∷ rest) = λ e. cc

json-Lawful : Lawful json
json-Lawful = record {
  reads = λ h bytes e.
      subst (λ bs. read_header bs ≡ ok h) {x = write_header h} (cc e)
        (read_header-write_header h.time_millis h.location_id h.feedbacks_bytes_hash h.signature);
  reads-NoPanic = read_header-NoPanic;
}

abbrev backwards : HashOrder
backwards = record { values = λ fs. fs; values-perm = λ fs. Perm.rfl }

decode_from_bytes-encode_to_bytes_example :
    decode_from_bytes (encode_to_bytes (vote post_a 1 5) ++ (9 ∷ [])) ≡ ok (vote post_a 1 5, 9 ∷ [])
decode_from_bytes-encode_to_bytes_example =
    decode_from_bytes-encode_to_bytes (vote post_a 1 5) (9 ∷ [])
      (record { post_id_size = refl; salt_size = refl })

merge-peak_of_bundles_example :
    (m : Bundle Unit) × (merge backwards (bundle_1 ∷ bundle_2 ∷ []) ≡ some m)
    × (get_post_pow_for_feedback_type m post_a 1
        ≡ peak_of_bundles post_a 1 (bundle_1 ∷ bundle_2 ∷ []))
merge-peak_of_bundles_example = merge-peak_of_bundles post_a 1 backwards bundle_1 (bundle_2 ∷ [])

from_bytes-to_bytes_example :
    (bytes : List ℕ) × (to_bytes json bundle_1 ≡ ok bytes)
    × (from_bytes json (bytes ++ (7 ∷ [])) ≡ ok bundle_1)
from_bytes-to_bytes_example =
    from_bytes-to_bytes json json-Lawful bundle_1 (write_header (header 100)) (7 ∷ []) refl
      (omega (arith, length-encode_all votes_1 are_1))

from_bytes-NoPanic_example : NoPanic (from_bytes json (1 ∷ 0 ∷ []))
from_bytes-NoPanic_example = from_bytes-NoPanic json json-Lawful (1 ∷ 0 ∷ [])

-- A bundle that is signed, and whose votes have done the work that they claim.
abbrev worked : List EncodedPostFeedback
worked = vote post_a 1 45 ∷ vote post_b 2 45 ∷ []

abbrev signed : Bundle Unit
signed = record {
  header = record {
    time_millis = pos 100;
    location_id = post_a;
    feedbacks_bytes_hash = replicate 32 86;
    peer = tt;
    signature = replicate 32 72 ++ replicate 32 0;
  };
  feedbacks_bytes = encode_all worked;
}

signed-IsVerified : IsVerified peers easy easy-Lawful signed
unfolding easy bytes_eq encode_all encode_be to_be_bytes vote_hash count_leading_zero_bits
    encode_to_bytes rounds
signed-IsVerified = record {
  key = tt;
  key_of = refl;
  signed = refl;
  hashed = refl;
  votes = worked;
  are_votes = record {
    are_feedbacks = (
      record { post_id_size = refl; salt_size = refl },
      (record { post_id_size = refl; salt_size = refl }, tt),
    );
    body = refl;
    worked = (refl, (refl, tt));
  };
}

verify_iff_example : verify peers easy signed ≡ ok tt
verify_iff_example = (verify_iff peers easy easy-Lawful signed).1 signed-IsVerified
