-- ===== src/PostBundle/Posts.antt =====
-- What `verify` has seen of the posts of a body.
use hashiverse.Prelude.{
  ℕ, zero, suc, ◌+◌, ◌%◌, ◌^◌, ◌≤◌, ◌<◌, ◌≡◌, refl, sym, ap, ◌∙◌, subst, arith, leb, leb→le, ◌==◌,
  ==_iff, Bool-cases, inl, inr, bytes_eq, bytes_eq_iff, List, [], ◌∷◌, length, length-take,
  length-drop, take, drop, mismatch, truncated, ok, >>=-eq-ok, >>-eq-ok, ensure-eq-ok,
}
use native.Mathlib.Nat.{zero-add, suc-add}
use hashiverse.Crypto.{Crypto}
use hashiverse.PostBundle.{
  Parts, Bundle, sum, zip, slice, verify_header, verify_post, posts_loop, verify,
}

drop-drop : (a b : ℕ) (xs : List ℕ) → drop b (drop a xs) ≡ drop (a + b) xs
drop-drop zero b xs = rw (zero-add b) refl
drop-drop (suc a) b [] = rw (suc-add a b) (drop_nil b)
  where
    drop_nil : (b : ℕ) → ◌≡◌ {A = List ℕ} (drop b []) []
    drop_nil zero = refl
    drop_nil (suc b) = refl
drop-drop (suc a) b (x ∷ xs) = rw (suc-add a b) (drop-drop a b xs)

drop-take : (a b : ℕ) (xs : List ℕ) → drop a (take (a + b) xs) ≡ take b (drop a xs)
drop-take zero b xs = rw (zero-add b) refl
drop-take (suc a) b [] = rw (suc-add a b) (sym (take_nil b))
  where
    take_nil : (b : ℕ) → ◌≡◌ {A = List ℕ} (take b []) []
    take_nil zero = refl
    take_nil (suc b) = refl
drop-take (suc a) b (x ∷ xs) = rw (suc-add a b) (drop-take a b xs)

module _ (P : Parts) (C : Crypto) (base_id : List ℕ) where
  open P use {Peer, decode_post}

  -- The posts stand one behind the other, each with its id in front, and each is decoded.
  abbrev pub ArePosts : List (ℕ × List ℕ) → List ℕ → Type 0
  ArePosts [] bytes = Unit
  ArePosts (p ∷ ps) bytes =
      (p.0 ≤ length bytes)
      × (32 ≤ p.0)
      × (take 32 (take p.0 bytes) ≡ p.1)
      × (decode_post (take p.0 bytes) base_id ≡ ok tt)
      × ArePosts ps (drop p.0 bytes)

  sum_first : List (ℕ × List ℕ) → ℕ
  sum_first [] = 0
  sum_first (p ∷ ps) = p.0 + sum_first ps

  slice-ok :
      (bytes : List ℕ) (offset len : ℕ) (post : List ℕ)
      → slice bytes offset (offset + len) ≡ ok post
      → (offset + len ≤ length bytes) × (post ≡ take len (drop offset bytes))
  unfolding slice
  slice-ok bytes offset len post h = elim (Bool-cases (leb (offset + len) (length bytes))) [
    | inl e ↦
        (leb→le (offset + len) (length bytes) e, ground (arith, h, e) ∙ drop-take offset len bytes)
    | inr e ↦ absurd (ground (arith, h, e))
  ]

  verify_post-ok :
      (bytes : List ℕ) (offset len : ℕ) (expected : List ℕ)
      → offset + len < 2 ^ 64
      → verify_post P C base_id bytes offset len expected ≡ ok tt
      → (len ≤ length (drop offset bytes))
        × (32 ≤ len)
        × (take 32 (take len (drop offset bytes)) ≡ expected)
        × (decode_post (take len (drop offset bytes)) base_id ≡ ok tt)
  unfolding verify_post
  verify_post-ok bytes offset len expected small h =
      let to : (offset + len) % 2 ^ 64 ≡ offset + len = omega arith in
      let (post, e1, h1) = >>=-eq-ok (slice bytes offset ((offset + len) % 2 ^ 64)) _ h in
      let (inside, same) = slice-ok bytes offset len post (ap (slice bytes offset) (sym to) ∙ e1) in
      let (e2, h2) = ensure-eq-ok (leb 32 (length post)) truncated _ h1 in
      let (e3, h3) = ensure-eq-ok (bytes_eq (take 32 post) expected) mismatch _ h2 in
      (
        omega (arith, length-drop offset bytes),
        omega (
          arith,
          leb→le 32 (length post) e2,
          ap length same,
          length-take len (drop offset bytes),
        ),
        ap (take 32) (sym same) ∙ (bytes_eq_iff (take 32 post) expected).0 e3,
        ap (λ p. decode_post p base_id) (sym same) ∙ h3,
      )

  posts_loop-ArePosts :
      (bytes : List ℕ) (offset : ℕ) (ps : List (ℕ × List ℕ))
      → offset + sum_first ps < 2 ^ 64
      → posts_loop P C base_id bytes offset ps ≡ ok tt
      → ArePosts ps (drop offset bytes)
  unfolding posts_loop sum_first
  posts_loop-ArePosts bytes offset [] small h = tt
  posts_loop-ArePosts bytes offset (p ∷ ps) small h =
      let to : (offset + p.0) % 2 ^ 64 ≡ offset + p.0 = omega arith in
      let (e1, h1) = >>-eq-ok (verify_post P C base_id bytes offset p.0 p.1) _ h in
      let (inside, long, prefix, decoded) = verify_post-ok bytes offset p.0 p.1 (omega arith) e1 in
      let rest =
        posts_loop-ArePosts bytes (offset + p.0) ps (omega arith)
          (ap (λ o. posts_loop P C base_id bytes o ps) (sym to) ∙ h1) in
      (inside, long, prefix, decoded, subst (ArePosts ps) (sym (drop-drop offset p.0 bytes)) rest)

  sum-zip : (ls : List ℕ) (ids : List (List ℕ)) → sum_first (zip ls ids) ≤ sum ls
  unfolding sum_first zip sum
  sum-zip [] ids = omega arith
  sum-zip (l ∷ ls) [] = omega arith
  sum-zip (l ∷ ls) (id ∷ ids) = omega (arith, sum-zip ls ids)

  -- What a bundle that passed has.
  pub record IsVerified (b : Bundle Peer) : Type 0 where
    pub header_verified : verify_header P C b.header ≡ ok tt
    pub spans : sum b.header.encoded_post_lengths ≡ length b.encoded_posts_bytes
    pub posts :
        ArePosts (zip b.header.encoded_post_lengths b.header.encoded_post_ids) b.encoded_posts_bytes

  -- If the lengths in the header sum up to less than 2^64, then a bundle that `verify` accepts has a
  -- verified header, its lengths span the body, and each post that has both a length and an id in
  -- the header stands in its place in the body, with its id in front, and is decoded with the base id.
  pub verify-IsVerified :
      (b : Bundle Peer)
      → sum b.header.encoded_post_lengths < 2 ^ 64
      → verify P C b base_id ≡ ok tt
      → IsVerified b
  unfolding verify
  verify-IsVerified b small h =
      let ls = b.header.encoded_post_lengths in
      let (e1, h1) = >>-eq-ok (verify_header P C b.header) _ h in
      let (e2, h2) = ensure-eq-ok (sum ls % 2 ^ 64 == length b.encoded_posts_bytes) mismatch _ h1 in
      record {
        header_verified = e1;
        spans = omega (arith, (==_iff _ _).0 e2);
        posts =
            posts_loop-ArePosts b.encoded_posts_bytes 0 (zip ls b.header.encoded_post_ids)
              (omega (arith, sum-zip ls b.header.encoded_post_ids)) h2;
      }
