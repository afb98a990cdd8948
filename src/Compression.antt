-- ===== src/Compression.antt =====
-- Compression of payloads, hashiverse-rust/hashiverse-lib/src/tools/compression.rs. The algorithms are
-- those of third-party crates, so they are parameters. What a gatherer holds is a byte string here.
pub mod RoundTrip
pub mod Toy
mod Examples
use hashiverse.Prelude.{
  ℕ, ◌+◌, ◌%◌, ◌^◌, ltb, leb, ◌==◌, if◌then◌else◌, List, [], ◌∷◌, ◌++◌, length, take, reverse,
  to_be_bytes, from_be_bytes, Error, missing, truncated, overflow, wrong_version, Result, ok, err,
  ◌>>=◌, ◌>>◌, ensure,
}

abbrev pub min_bytes_for_lz4 : ℕ
min_bytes_for_lz4 = 64

abbrev pub min_bytes_for_brotli : ℕ
min_bytes_for_brotli = 128

abbrev pub max_decompressed_size : ℕ
max_decompressed_size = 33554432

-- lz4_flex compresses a block, and decompresses one behind its size in four bytes; brotli
-- compresses, and decompresses until so many bytes are read.
pub record Codecs : Type 0 where
  pub lz4_compress : List ℕ → Result (List ℕ)
  pub lz4_decompress_size_prepended : List ℕ → Result (List ℕ)
  pub brotli_compress : List ℕ → Result (List ℕ)
  pub brotli_read : ℕ → List ℕ → Result (List ℕ)

-- `u32::to_le_bytes` and `u32::from_le_bytes`.
unfoldable pub to_le_bytes : ℕ → ℕ → List ℕ
to_le_bytes k n = reverse (to_be_bytes k n)

unfoldable pub from_le_bytes : List ℕ → ℕ
from_le_bytes bytes = from_be_bytes (reverse bytes)

unfoldable pub compress_passthrough : List ℕ → Result (List ℕ)
compress_passthrough input = ok (0 ∷ input)

module _ (K : Codecs) where
  open K use {lz4_compress, lz4_decompress_size_prepended, brotli_compress, brotli_read}

  unfoldable pub compress_lz4 : List ℕ → Result (List ℕ)
  unfolding compress_passthrough to_le_bytes
  compress_lz4 input =
      let compressed = (do
        block ← lz4_compress input
        ok (1 ∷ (to_le_bytes 4 (length input % 2 ^ 32) ++ block))) in
      if ltb (length input) min_bytes_for_lz4 then compress_passthrough input else compressed

  -- `packed` is the input behind the version byte.
  unfoldable pub decompress_lz4 : List ℕ → Result (List ℕ)
  unfolding from_le_bytes
  decompress_lz4 packed = do
    ensure (leb 4 (length packed)) truncated
    ensure (leb (from_le_bytes (take 4 packed)) max_decompressed_size) overflow
    lz4_decompress_size_prepended packed

  unfoldable pub compress_brotli : List ℕ → Result (List ℕ)
  unfolding compress_passthrough
  compress_brotli input =
      let compressed = (do stream ← brotli_compress input; ok (2 ∷ stream)) in
      if ltb (length input) min_bytes_for_brotli then compress_passthrough input else compressed

  unfoldable pub decompress_brotli : List ℕ → Result (List ℕ)
  decompress_brotli packed = do
    output ← brotli_read (max_decompressed_size + 1) packed
    ensure (leb (length output) max_decompressed_size) overflow
    ok output

  unfoldable pub compress_for_speed : List ℕ → Result (List ℕ)
  unfolding compress_lz4
  compress_for_speed input = do
    result ← compress_lz4 input
    if ltb (length result) (length input) then ok result else compress_passthrough input

  unfoldable pub compress_for_size : List ℕ → Result (List ℕ)
  unfolding compress_brotli
  compress_for_size input = do
    result ← compress_brotli input
    if ltb (length result) (length input) then ok result else compress_passthrough input

  unfoldable pub decompress : List ℕ → Result (List ℕ)
  unfolding decompress_lz4 decompress_brotli
  decompress [] = err missing
  decompress (version ∷ packed) =
      let lz4 = decompress_lz4 packed in
      let brotli = decompress_brotli packed in
      if version == 1
      then lz4
      else if version == 2
      then brotli
      else if version == 0
      then ok packed
      else err wrong_version
