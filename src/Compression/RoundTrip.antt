-- ===== src/Compression/RoundTrip.antt =====
-- What is compressed is decompressed again, and never becomes longer than by its version byte.
use hashiverse.Prelude.{
  ℕ, ◌+◌, ◌%◌, ◌^◌, ◌≤◌, ◌<◌, ◌≡◌, refl, sym, ap, ◌∙◌, arith, ltb, leb, ltb→lt, le→leb, Bool-cases,
  inl, inr, List, [], ◌∷◌, ◌++◌, length, length-append, take, reverse, to_be_bytes, from_be_bytes,
  length-to_be_bytes, from_be_bytes-to_be_bytes, truncated, overflow, ok, >>=-eq-ok, ok_inj, subst,
  ◌⊎◌, if◌then◌else◌, NoPanic, >>=-NoPanic, ensure-NoPanic,
}
use mathlib.Core.List.{reverse-cons, reverse_aux-reverse_aux-nil}
use hashiverse.Buffer.{take-append}
use hashiverse.Compression.{
  Codecs, max_decompressed_size, to_le_bytes, from_le_bytes, compress_passthrough, compress_lz4,
  compress_brotli, decompress_lz4, decompress_brotli, compress_for_speed, compress_for_size,
  decompress,
}

length-reverse : (xs : List ℕ) → length (reverse xs) ≡ length xs
length-reverse [] = refl
length-reverse (x ∷ xs) =
    ap length (reverse-cons x xs)
    ∙ omega (arith, length-append (reverse xs) (x ∷ []), length-reverse xs)

pub length-to_le_bytes : (k n : ℕ) → length (to_le_bytes k n) ≡ k
unfolding to_le_bytes
length-to_le_bytes k n = length-reverse (to_be_bytes k n) ∙ length-to_be_bytes k n

pub from_le_bytes-to_le_bytes : (k n : ℕ) → n < 256 ^ k → from_le_bytes (to_le_bytes k n) ≡ n
unfolding from_le_bytes to_le_bytes
from_le_bytes-to_le_bytes k n h =
    ap from_be_bytes (reverse_aux-reverse_aux-nil (to_be_bytes k n) [])
    ∙ from_be_bytes-to_be_bytes k n h

-- What is relied on of the algorithms: they never panic, and give back what they were given, the
-- one behind its size in four bytes, the other within the bytes that may be read.
pub record Lossless (K : Codecs) : Type 0 where
  pub lz4_reads :
      (input block : List ℕ)
      → K.lz4_compress input ≡ ok block
      → K.lz4_decompress_size_prepended (to_le_bytes 4 (length input) ++ block) ≡ ok input
  pub brotli_reads :
      (limit : ℕ) (input stream : List ℕ)
      → K.brotli_compress input ≡ ok stream
      → length input ≤ limit
      → K.brotli_read limit stream ≡ ok input
  pub lz4_compress-NoPanic : (input : List ℕ) → NoPanic (K.lz4_compress input)
  pub brotli_compress-NoPanic : (input : List ℕ) → NoPanic (K.brotli_compress input)
  pub lz4-NoPanic : (packed : List ℕ) → NoPanic (K.lz4_decompress_size_prepended packed)
  pub brotli-NoPanic : (limit : ℕ) (packed : List ℕ) → NoPanic (K.brotli_read limit packed)

module _ (K : Codecs) (law : Lossless K) where
  decompress-lz4 :
      (input block : List ℕ)
      → length input ≤ max_decompressed_size
      → K.lz4_compress input ≡ ok block
      → decompress K (1 ∷ (to_le_bytes 4 (length input % 2 ^ 32) ++ block)) ≡ ok input
  unfolding decompress decompress_lz4
  decompress-lz4 input block h e =
      let small : length input % 2 ^ 32 ≡ length input = omega arith in
      let size = to_le_bytes 4 (length input) in
      let front = take-append 4 size block (length-to_le_bytes 4 (length input)) in
      rw
        (
          small,
          le→leb 4 (length (size ++ block))
              (omega (arith, length-append size block, length-to_le_bytes 4 (length input))),
          front,
          from_le_bytes-to_le_bytes 4 (length input) (omega arith),
          le→leb (length input) max_decompressed_size h,
        )
        (law.lz4_reads input block e)

  decompress-brotli :
      (input stream : List ℕ)
      → length input ≤ max_decompressed_size
      → K.brotli_compress input ≡ ok stream
      → decompress K (2 ∷ stream) ≡ ok input
  unfolding decompress decompress_brotli
  decompress-brotli input stream h e =
      rw
        (
          law.brotli_reads (max_decompressed_size + 1) input stream e (omega arith),
          le→leb (length input) max_decompressed_size h,
        )
        refl

  decompress-passthrough : (input : List ℕ) → decompress K (0 ∷ input) ≡ ok input
  unfolding decompress
  decompress-passthrough input = refl

  decompress-compress_lz4 :
      (input packed : List ℕ)
      → length input ≤ max_decompressed_size
      → compress_lz4 K input ≡ ok packed
      → decompress K packed ≡ ok input
  unfolding compress_lz4 compress_passthrough
  decompress-compress_lz4 input packed h e = elim (Bool-cases (ltb (length input) 64)) [
    | inl short ↦
        let same : 0 ∷ input ≡ packed = ok_inj _ _ (sym (rw short refl) ∙ e) in
        subst (λ p. decompress K p ≡ ok input) same (decompress-passthrough input)
    | inr long ↦
        let (block, e1, e2) =
          >>=-eq-ok (K.lz4_compress input)
            (λ block. ok (1 ∷ (to_le_bytes 4 (length input % 2 ^ 32) ++ block)))
            (sym (rw long refl) ∙ e) in
        subst (λ p. decompress K p ≡ ok input) (ok_inj _ _ e2) (decompress-lz4 input block h e1)
  ]

  decompress-compress_brotli :
      (input packed : List ℕ)
      → length input ≤ max_decompressed_size
      → compress_brotli K input ≡ ok packed
      → decompress K packed ≡ ok input
  unfolding compress_brotli compress_passthrough
  decompress-compress_brotli input packed h e = elim (Bool-cases (ltb (length input) 128)) [
    | inl short ↦
        let same : 0 ∷ input ≡ packed = ok_inj _ _ (sym (rw short refl) ∙ e) in
        subst (λ p. decompress K p ≡ ok input) same (decompress-passthrough input)
    | inr long ↦
        let (stream, e1, e2) =
          >>=-eq-ok (K.brotli_compress input) (λ stream. ok (2 ∷ stream))
            (sym (rw long refl) ∙ e) in
        subst (λ p. decompress K p ≡ ok input) (ok_inj _ _ e2) (decompress-brotli input stream h e1)
  ]

  -- The shorter of what an algorithm gave and the input as it is.
  shorter :
      (input result packed : List ℕ)
      → decompress K result ≡ ok input
      → (if ltb (length result) (length input) then ok result else ok (0 ∷ input)) ≡ ok packed
      → (decompress K packed ≡ ok input) × (length packed ≤ length input + 1)
  shorter input result packed reads e = elim (Bool-cases (ltb (length result) (length input))) [
    | inl less ↦
        let same : result ≡ packed = ok_inj _ _ (sym (rw less refl) ∙ e) in
        subst (λ p. (decompress K p ≡ ok input) × (length p ≤ length input + 1)) same
          (reads, omega (arith, ltb→lt (length result) (length input) less))
    | inr more ↦
        let same : 0 ∷ input ≡ packed = ok_inj _ _ (sym (rw more refl) ∙ e) in
        subst (λ p. (decompress K p ≡ ok input) × (length p ≤ length input + 1)) same
          (decompress-passthrough input, omega arith)
  ]

  -- If the algorithms give back what they were given, then both compressors do, up to the 32 MiB
  -- that may be decompressed: what either makes of an input is decompressed into that input, and is
  -- at most one byte longer.
  pub decompress-compress :
      (input packed : List ℕ)
      → length input ≤ max_decompressed_size
      → (compress_for_speed K input ≡ ok packed) ⊎ (compress_for_size K input ≡ ok packed)
      → (decompress K packed ≡ ok input) × (length packed ≤ length input + 1)
  unfolding compress_for_speed compress_for_size compress_passthrough
  decompress-compress input packed h (inl e) =
      let (result, e1, e2) = >>=-eq-ok (compress_lz4 K input) _ e in
      shorter input result packed (decompress-compress_lz4 input result h e1) e2
  decompress-compress input packed h (inr e) =
      let (result, e1, e2) = >>=-eq-ok (compress_brotli K input) _ e in
      shorter input result packed (decompress-compress_brotli input result h e1) e2

  decompress_lz4-NoPanic : (packed : List ℕ) → NoPanic (decompress_lz4 K packed)
  unfolding decompress_lz4
  decompress_lz4-NoPanic packed = ensure-NoPanic (leb 4 (length packed)) truncated _ (λ _.
      ensure-NoPanic (leb (from_le_bytes (take 4 packed)) max_decompressed_size) overflow _
        (λ _. law.lz4-NoPanic packed))

  decompress_brotli-NoPanic : (packed : List ℕ) → NoPanic (decompress_brotli K packed)
  unfolding decompress_brotli
  decompress_brotli-NoPanic packed =
      >>=-NoPanic (K.brotli_read (max_decompressed_size + 1) packed) _ (law.brotli-NoPanic _ packed)
        (λ output _.
          ensure-NoPanic (leb (length output) max_decompressed_size) overflow (ok output)
            (λ _ k. cc))

  -- On no bytes at all does `decompress` panic, if the algorithms do not.
  pub decompress-NoPanic : (bytes : List ℕ) → NoPanic (decompress K bytes)
  unfolding decompress
  decompress-NoPanic [] = λ e. cc
  decompress-NoPanic (version ∷ packed) =
      ground (arith, decompress_lz4-NoPanic packed, decompress_brotli-NoPanic packed)
