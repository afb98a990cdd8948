-- ===== src/PostBundle/Frame.antt =====
-- The frame of a bundle of posts.
use mathlib.Core.List.{append-nil}
use hashiverse.Prelude.{
  ℕ, ◌+◌, ◌^◌, ◌<◌, ◌≡◌, refl, sym, ◌∙◌, ap, arith, leb, ◌==◌, le→leb, lt→ltb, Bool, true, false,
  List, [], ◌∷◌, ◌++◌, length, length-append, length-to_be_bytes, to_be_bytes, excess, ok, ensure,
  ◌>>=◌, ◌>>◌,
}
use hashiverse.Buffer.{copy_to_bytes, ensure_u8-cons, get_u64-append, copy_to_bytes-append}
use hashiverse.FeedbackBundle.{Json}
use hashiverse.FeedbackBundle.Frame.{Lawful}
use hashiverse.PostBundle.{Header, Bundle, to_bytes, from_bytes, read_body}

enough : (xs ys : List ℕ) → length xs ≡ 8 → leb 8 (length (xs ++ ys)) ≡ true
enough xs ys h = le→leb 8 (length (xs ++ ys)) (omega (arith, length-append xs ys))

module _ {Peer : Type 0} (J : Json (Header Peer)) (law : Lawful J) where
  read_whole : (body : List ℕ) → read_body J true (length body) body ≡ ok body
  unfolding read_body
  read_whole body =
      ap (λ bs. copy_to_bytes (length body) bs >>= λ x. ensure (length x.1 == 0) excess >> ok x.0)
        (sym (append-nil body))
      ∙ rw (copy_to_bytes-append (length body) body [] refl) refl

  from_bytes-common :
      (b : Bundle Peer) (header : List ℕ) (decode_body : Bool)
      → J.struct_to_bytes b.header ≡ ok header
      → length header + length b.encoded_posts_bytes < 2 ^ 64
      → from_bytes J
          (1
            ∷ (to_be_bytes 8 (length header)
                ++ (to_be_bytes 8 (length b.encoded_posts_bytes)
                    ++ (header ++ b.encoded_posts_bytes))))
          decode_body
        ≡ (read_body J decode_body (length b.encoded_posts_bytes) b.encoded_posts_bytes >>= λ body.
            ok (record { header = b.header; encoded_posts_bytes = body }))
  unfolding from_bytes
  from_bytes-common b header decode_body e h =
      let n = length header in
      let m = length b.encoded_posts_bytes in
      rw
        (
          ensure_u8-cons,
          enough (to_be_bytes 8 n) (to_be_bytes 8 m ++ (header ++ b.encoded_posts_bytes))
              (length-to_be_bytes 8 n),
          get_u64-append n (to_be_bytes 8 m ++ (header ++ b.encoded_posts_bytes)) (omega arith),
          enough (to_be_bytes 8 m) (header ++ b.encoded_posts_bytes) (length-to_be_bytes 8 m),
          get_u64-append m (header ++ b.encoded_posts_bytes) (omega arith),
          lt→ltb (n + m) (2 ^ 64) h,
          le→leb (n + m) (length (header ++ b.encoded_posts_bytes))
              (omega (arith, length-append header b.encoded_posts_bytes)),
          copy_to_bytes-append n header b.encoded_posts_bytes refl,
          law.reads b.header header e,
        )
        refl

  -- If the header and the body together are shorter than 2^64 bytes, then `from_bytes` reads from
  -- what `to_bytes` wrote the bundle that was written, or that bundle with an empty body where the
  -- body is not asked for.
  pub from_bytes-written :
      (b : Bundle Peer) (header : List ℕ)
      → J.struct_to_bytes b.header ≡ ok header
      → length header + length b.encoded_posts_bytes < 2 ^ 64
      → (bytes : List ℕ) × (to_bytes J b ≡ ok bytes)
        × (from_bytes J bytes true ≡ ok b)
        × (from_bytes J bytes false ≡ ok (record b { encoded_posts_bytes = [] }))
  unfolding to_bytes
  from_bytes-written b header e h = (
    _,
    rw e refl,
    from_bytes-common b header true e h ∙ rw (read_whole b.encoded_posts_bytes) refl,
    from_bytes-common b header false e h ∙ unfold read_body in refl,
  )
