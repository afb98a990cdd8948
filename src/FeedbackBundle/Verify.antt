-- ===== src/FeedbackBundle/Verify.antt =====
-- What `verify` accepts.
use mathlib.Core.List.{append-nil}
use hashiverse.Prelude.{
  flatten, subst, ℕ, zero, suc, ◌*◌, ◌/◌, ◌%◌, ◌≡◌, refl, sym, ap, ap₂, ◌∙◌, arith, ◌==◌, ==_iff,
  bytes_eq, bytes_eq_iff, bytes_eq_refl, List, [], ◌∷◌, ◌++◌, length, length-append, length-take,
  length-drop, take, drop, take-append-drop, ok, >>=-eq-ok, >>-eq-ok, ensure-eq-ok, wrong_length,
  mismatch, All,
}
use hashiverse.Time.{encode_be}
use hashiverse.Agreement.{count_leading_zero_bits}
use hashiverse.Crypto.{Crypto, hash, hash_two, hash_multiple, pow_compute_data_hash}
use hashiverse.Crypto.Work.{Lawful, rounds, pow_measure-rounds}
use hashiverse.Feedback.{
  EncodedPostFeedback, entry_size, encode_to_bytes, decode_from_bytes, pow_verify,
}
use hashiverse.Feedback.Codec.{IsFeedback, length-encode_to_bytes, decode_from_bytes-canonical}
use hashiverse.Feedback.Entries.{
  encode_all, length-encode_all, take-encode_all, drop-encode_all, decode_from_bytes-exact,
}
use hashiverse.FeedbackBundle.{
  Peers, Header, Bundle, get_hash_for_signing, signature_verify, entries_loop, verify,
}

empty_of_length : (xs : List ℕ) → length xs ≡ 0 → xs ≡ []
empty_of_length [] h = refl
empty_of_length (x ∷ xs) h = absurd (omega arith)

module _ (C : Crypto) (law : Lawful C) where
  -- The hash at the end of the chain for a vote: five rounds over the hash of the post and the kind
  -- of the vote, with its salt.
  unfoldable pub vote_hash : EncodedPostFeedback → List ℕ
  vote_hash f = rounds C law 5 (C.blake3 (C.blake3 (f.post_id ++ (f.feedback_type ∷ [])) ++ f.salt))

  abbrev pub IsWorked : EncodedPostFeedback → Type 0
  IsWorked f = f.pow ≡ count_leading_zero_bits (vote_hash f)

  pow_verify_iff :
      (f : EncodedPostFeedback)
      → (pow_verify C f ≡ ok tt → IsWorked f) × (IsWorked f → pow_verify C f ≡ ok tt)
  unfolding pow_verify vote_hash hash_two hash_multiple pow_compute_data_hash flatten
  pow_verify_iff f =
      let (final, e, is, size) =
        pow_measure-rounds C law (f.post_id ∷ (f.feedback_type ∷ []) ∷ []) f.salt in
      let n = count_leading_zero_bits final in
      rw (sym is, e)
        (λ h. sym ((==_iff n f.pow).0 (ground arith)), λ h. rw ((==_iff n f.pow).1 (sym h)) refl)

  -- A body of whole votes, each of which claims the bits of its hash.
  pub record AreVotes (fs : List EncodedPostFeedback) (bytes : List ℕ) : Type 0 where
    pub are_feedbacks : All IsFeedback fs
    pub body : bytes ≡ encode_all fs
    pub worked : All IsWorked fs

module _ (P : Peers) (C : Crypto) (law : Lawful C) where
  open P use {Peer, peer_signature, verification_key_bytes}

  entries_loop-AreVotes :
      (n : ℕ) (bytes : List ℕ)
      → length bytes ≡ 43 * n
      → entries_loop P C n bytes ≡ ok tt
      → (fs : List EncodedPostFeedback) × AreVotes C law fs bytes
  unfolding entries_loop encode_all
  entries_loop-AreVotes zero bytes size h =
      ([], record { are_feedbacks = tt; body = empty_of_length bytes (omega arith); worked = tt })
  entries_loop-AreVotes (suc n) bytes size h =
      let (x, e1, h1) = >>=-eq-ok (decode_from_bytes (take entry_size bytes)) _ h in
      let (split, is) = decode_from_bytes-canonical (take entry_size bytes) x.1 x.0 e1 in
      let (e2, h2) = >>-eq-ok (pow_verify C x.0) _ h1 in
      let (fs, ih) =
        entries_loop-AreVotes n (drop entry_size bytes) (omega (arith, length-drop 43 bytes)) h2 in
      let rest : x.1 ≡ [] = empty_of_length x.1 (
        omega (
          arith,
          ap length split,
          length-append (encode_to_bytes x.0) x.1,
          length-encode_to_bytes x.0 is,
          length-take 43 bytes,
        )) in
      (
        x.0 ∷ fs,
        record {
          are_feedbacks = (is, ih.are_feedbacks);
          body =
              sym (take-append-drop 43 bytes)
              ∙ ap₂ ◌++◌
                  (split ∙ ap (◌++◌ (encode_to_bytes x.0)) rest ∙ append-nil (encode_to_bytes x.0))
                  ih.body;
          worked = ((pow_verify_iff C law x.0).0 e2, ih.worked);
        },
      )

  entries_loop-ok :
      (fs : List EncodedPostFeedback)
      → All IsFeedback fs
      → All (IsWorked C law) fs
      → entries_loop P C (length fs) (encode_all fs) ≡ ok tt
  unfolding entries_loop
  entries_loop-ok [] h w = refl
  entries_loop-ok (f ∷ fs) h w =
      rw
        (
          take-encode_all f fs h.0,
          drop-encode_all f fs h.0,
          decode_from_bytes-exact f h.0,
          (pow_verify_iff C law f).1 w.0,
        )
        (entries_loop-ok fs h.1 w.1)

  pub record IsVerified (b : Bundle Peer) : Type 0 where
    pub key : C.VerificationKey
    pub key_of : C.key_from_bytes (verification_key_bytes b.header.peer) ≡ ok key
    pub signed :
        C.verify key b.header.signature (
          C.blake3 (
            encode_be b.header.time_millis
            ++ (b.header.location_id
                ++ (b.header.feedbacks_bytes_hash ++ peer_signature b.header.peer))))
        ≡ ok tt
    pub hashed : C.blake3 b.feedbacks_bytes ≡ b.header.feedbacks_bytes_hash
    pub votes : List EncodedPostFeedback
    pub are_votes : AreVotes C law votes b.feedbacks_bytes

  signing_hash :
      (h : Header Peer)
      → get_hash_for_signing P C h
        ≡ C.blake3 (
            encode_be h.time_millis
            ++ (h.location_id ++ (h.feedbacks_bytes_hash ++ peer_signature h.peer)))
  unfolding get_hash_for_signing hash_multiple flatten
  signing_hash h =
      ap
        (λ s.
          C.blake3 (encode_be h.time_millis ++ (h.location_id ++ (h.feedbacks_bytes_hash ++ s))))
        (append-nil (peer_signature h.peer))

  -- If the digests have their documented lengths, `verify` accepts a bundle just when its peer has a
  -- key under which the signature is one of the hash of the time, the location, the hash of the body
  -- and the signature of the peer, the hash in the header is that of the body, and the body is a row
  -- of whole votes, each of which claims as many bits as the hash at the end of the chain has in front.
  pub verify_iff :
      (b : Bundle Peer)
      → (verify P C b ≡ ok tt → IsVerified b) × (IsVerified b → verify P C b ≡ ok tt)
  unfolding verify signature_verify hash
  verify_iff b = (forward, backward)
    where
      forward : verify P C b ≡ ok tt → IsVerified b
      forward h =
          let (e1, h1) = >>-eq-ok (signature_verify P C b.header) _ h in
          let (key, e4, e5) =
            >>=-eq-ok (C.key_from_bytes (verification_key_bytes b.header.peer)) _ e1 in
          let (e2, h2) = ensure-eq-ok (length b.feedbacks_bytes % 43 == 0) wrong_length _ h1 in
          let (e3, h3) =
            ensure-eq-ok (bytes_eq (hash C b.feedbacks_bytes) b.header.feedbacks_bytes_hash)
              mismatch _ h2 in
          let (fs, votes) =
            entries_loop-AreVotes (length b.feedbacks_bytes / 43) b.feedbacks_bytes (ground arith)
              h3 in
          record {
            key = key;
            key_of = e4;
            signed =
                subst (λ m. C.verify key b.header.signature m ≡ ok tt) (signing_hash b.header) e5;
            hashed = (bytes_eq_iff _ _).0 e3;
            votes = fs;
            are_votes = votes;
          }

      backward : IsVerified b → verify P C b ≡ ok tt
      backward v =
          let size =
            ap length v.are_votes.body ∙ length-encode_all v.votes v.are_votes.are_feedbacks in
          let whole = (==_iff (length b.feedbacks_bytes % 43) 0).1 (omega (arith, size)) in
          let count : length b.feedbacks_bytes / 43 ≡ length v.votes = omega (arith, size) in
          let signed : C.verify v.key b.header.signature (get_hash_for_signing P C b.header)
              ≡ ok tt =
            subst (λ m. C.verify v.key b.header.signature m ≡ ok tt) (sym (signing_hash b.header))
              v.signed in
          rw (v.key_of, signed, whole, v.hashed, bytes_eq_refl, count)
            (ap (entries_loop P C (length v.votes)) v.are_votes.body
              ∙ entries_loop-ok v.votes v.are_votes.are_feedbacks v.are_votes.worked)
