-- ===== src/FeedbackBundle/Frame.antt =====
-- The frame of a bundle: a version, two lengths, the header and the body.
use mathlib.Core.List.{append_assoc}
use hashiverse.Prelude.{
  le→leb, ℕ, ◌+◌, ◌^◌, ◌≤◌, ◌<◌, ◌≡◌, refl, ap, arith, ltb, leb, ◌==◌, leb→le, lt→ltb, List, ◌∷◌,
  ◌++◌, length, length-append, length-to_be_bytes, to_be_bytes, missing, wrong_version, overflow,
  truncated, ok, ◌>>=◌, ensure-NoPanic, >>=-NoPanic, NoPanic,
}
use hashiverse.Buffer.{
  ensure_u8, get_u64, copy_to_bytes, ensure_u8-NoPanic, get_u64-NoPanic, get_u64-ok,
  copy_to_bytes-NoPanic, copy_to_bytes-ok, ensure_u8-cons, get_u64-append, copy_to_bytes-append,
}
use hashiverse.FeedbackBundle.{Header, Json, Bundle, to_bytes, from_bytes}

-- What the bundles rely on of serde_json: it reads what it wrote, and fails by an error.
pub record Lawful {A : Type 0} (J : Json A) : Type 0 where
  pub reads :
      (a : A) (bytes : List ℕ) → J.struct_to_bytes a ≡ ok bytes → J.bytes_to_struct bytes ≡ ok a
  pub reads-NoPanic : (bytes : List ℕ) → NoPanic (J.bytes_to_struct bytes)

frame_room : (xs ys zs : List ℕ) → length xs ≡ 8 → length ys ≡ 8 → 16 ≤ length (xs ++ (ys ++ zs))
frame_room xs ys zs h k = omega (arith, length-append xs (ys ++ zs), length-append ys zs)

module _ {Peer : Type 0} (J : Json (Header Peer)) (law : Lawful J) where
  -- If the header and the body together are shorter than 2^64 bytes, then `from_bytes` reads from
  -- what `to_bytes` wrote, with any bytes behind it, the bundle that was written.
  pub from_bytes-to_bytes :
      (b : Bundle Peer) (header rest : List ℕ)
      → J.struct_to_bytes b.header ≡ ok header
      → length header + length b.feedbacks_bytes < 2 ^ 64
      → (bytes : List ℕ) × (to_bytes J b ≡ ok bytes) × (from_bytes J (bytes ++ rest) ≡ ok b)
  unfolding to_bytes from_bytes
  from_bytes-to_bytes b header rest e h =
      let written =
        1
        ∷ (to_be_bytes 8 (length header)
            ++ (to_be_bytes 8 (length b.feedbacks_bytes) ++ (header ++ b.feedbacks_bytes))) in
      let n = length header in
      let m = length b.feedbacks_bytes in
      (
        written,
        rw e refl,
        rw
            (
              ensure_u8-cons,
              append_assoc (to_be_bytes 8 n),
              append_assoc (to_be_bytes 8 m),
              append_assoc header,
              le→leb 16
                  (length (
                    to_be_bytes 8 n
                    ++ (to_be_bytes 8 m ++ (header ++ (b.feedbacks_bytes ++ rest)))))
                  (frame_room (to_be_bytes 8 n) (to_be_bytes 8 m) _ (length-to_be_bytes 8 n)
                    (length-to_be_bytes 8 m)),
              get_u64-append n _ (omega arith),
              get_u64-append m _ (omega arith),
              lt→ltb (n + m) (2 ^ 64) h,
              le→leb (n + m) (length (header ++ (b.feedbacks_bytes ++ rest))) (
                  omega (
                    arith,
                    length-append header (b.feedbacks_bytes ++ rest),
                    length-append b.feedbacks_bytes rest,
                  )),
              copy_to_bytes-append n header _ refl,
              copy_to_bytes-append m b.feedbacks_bytes rest refl,
              law.reads b.header header e,
            )
            refl,
      )

  -- On no bytes at all does `from_bytes` panic.
  pub from_bytes-NoPanic : (bytes : List ℕ) → NoPanic (from_bytes J bytes)
  unfolding from_bytes
  from_bytes-NoPanic bytes =
      >>=-NoPanic (ensure_u8 missing bytes) _ (ensure_u8-NoPanic missing bytes) (λ x e1.
        ensure-NoPanic (1 == x.0) wrong_version _ (λ _.
          ensure-NoPanic (leb 16 (length x.1)) missing _ (λ long.
            >>=-NoPanic (get_u64 x.1) _
              (get_u64-NoPanic x.1 (omega (arith, leb→le 16 (length x.1) long)))
              (λ y e2.
                >>=-NoPanic (get_u64 y.1) _
                  (get_u64-NoPanic y.1
                    (omega (arith, leb→le 16 (length x.1) long, get_u64-ok x.1 y.1 y.0 e2)))
                  (λ z e3. ensure-NoPanic (ltb (y.0 + z.0) (2 ^ 64)) overflow _ (λ _.
                    ensure-NoPanic (leb (y.0 + z.0) (length z.1)) truncated _
                      (λ there. body y.0 z.0 z.1 (leb→le _ _ there))))))))
    where
      body :
          (header_len body_len : ℕ) (bytes3 : List ℕ)
          → header_len + body_len ≤ length bytes3
          → NoPanic {A = Bundle Peer} (do
            (header_bytes, bytes4) ← copy_to_bytes header_len bytes3
            (body_bytes, bytes5) ← copy_to_bytes body_len bytes4
            header ← J.bytes_to_struct header_bytes
            ok (record { header = header; feedbacks_bytes = body_bytes }))
      body header_len body_len bytes3 h =
          >>=-NoPanic (copy_to_bytes header_len bytes3) _
            (copy_to_bytes-NoPanic header_len bytes3 (omega arith))
            (λ x e.
              let (split, size) = copy_to_bytes-ok header_len bytes3 x.0 x.1 e in
              >>=-NoPanic (copy_to_bytes body_len x.1) _
                (copy_to_bytes-NoPanic body_len x.1
                  (omega (arith, ap length split, length-append x.0 x.1)))
                (λ y e'.
                  >>=-NoPanic (J.bytes_to_struct x.0) _ (law.reads-NoPanic x.0) (λ z e'' k. cc)))
