-- ===== src/Compression/Toy.antt =====
-- Toy algorithms that know one long input.
use hashiverse.Prelude.{
  ℕ, zero, suc, sym, ◌∙◌, subst, ok_inj, ◌≡◌, refl, ap, arith, if◌then◌else◌, List, [], ◌∷◌, length,
  replicate, drop, bytes_eq, bytes_eq_iff, Bool-cases, missing, Result, ok, err, NoPanic, inl, inr,
}
use hashiverse.Buffer.{drop-append}
use hashiverse.Compression.{Codecs, to_le_bytes}
use hashiverse.Compression.RoundTrip.{Lossless, length-to_le_bytes}

unfoldable pub long : List ℕ
long = replicate 100 7

unfoldable pub pack : List ℕ → Result (List ℕ)
pack input = if bytes_eq input long then ok (0 ∷ []) else ok (1 ∷ input)

unfoldable pub unpack : List ℕ → Result (List ℕ)
unpack [] = err missing
unpack (zero ∷ rest) = ok long
unpack (suc n ∷ rest) = ok rest

unfoldable pub codecs : Codecs
unfolding pack unpack
codecs = record {
  lz4_compress = pack;
  lz4_decompress_size_prepended = λ bytes. unpack (drop 4 bytes);
  brotli_compress = pack;
  brotli_read = λ limit bytes. unpack bytes;
}

unpack-pack : (input block : List ℕ) → pack input ≡ ok block → unpack block ≡ ok input
unfolding pack unpack
unpack-pack input block e = elim (Bool-cases (bytes_eq input long)) [
  | inl same ↦
      let is : 0 ∷ [] ≡ block = ok_inj _ _ (sym (rw same refl) ∙ e) in
      subst (λ b. unpack b ≡ ok input) is (ap ok (sym ((bytes_eq_iff input long).0 same)))
  | inr other ↦
      let is : 1 ∷ input ≡ block = ok_inj _ _ (sym (rw other refl) ∙ e) in
      subst (λ b. unpack b ≡ ok input) is refl
]

pack-NoPanic : (input : List ℕ) → NoPanic (pack input)
unfolding pack
pack-NoPanic input = ground arith

unpack-NoPanic : (bytes : List ℕ) → NoPanic (unpack bytes)
unfolding unpack
unpack-NoPanic [] = λ e. cc
unpack-NoPanic (zero ∷ rest) = λ e. cc
unpack-NoPanic (suc n ∷ rest) = λ e. cc

pub codecs-Lossless : Lossless codecs
unfolding codecs
codecs-Lossless = record {
  lz4_reads = λ input block e.
      rw (drop-append 4 (to_le_bytes 4 (length input)) block (length-to_le_bytes 4 (length input)))
        (unpack-pack input block e);
  brotli_reads = λ limit input stream e h. unpack-pack input stream e;
  lz4_compress-NoPanic = pack-NoPanic;
  brotli_compress-NoPanic = pack-NoPanic;
  lz4-NoPanic = λ bytes. unpack-NoPanic (drop 4 bytes);
  brotli-NoPanic = λ limit bytes. unpack-NoPanic bytes;
}
