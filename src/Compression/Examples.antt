-- ===== src/Compression/Examples.antt =====
-- Payloads packed by the toy algorithms.
use hashiverse.Prelude.{to_be_bytes, ◌+◌, ◌≤◌, ◌≡◌, refl, arith, [], ◌∷◌, length, bytes_eq, ok, inl}
use hashiverse.Compression.{to_le_bytes, compress_for_speed, decompress}
use hashiverse.Compression.RoundTrip.{decompress-compress}
use hashiverse.Compression.Toy.{long, codecs, codecs-Lossless}

packed_long : compress_for_speed codecs long ≡ ok (1 ∷ 100 ∷ 0 ∷ 0 ∷ 0 ∷ 0 ∷ [])
unfolding compress_for_speed codecs long bytes_eq to_le_bytes to_be_bytes
packed_long = refl

decompress-compress_example :
    (decompress codecs (1 ∷ 100 ∷ 0 ∷ 0 ∷ 0 ∷ 0 ∷ []) ≡ ok long) × (6 ≤ length long + 1)
decompress-compress_example =
    decompress-compress codecs codecs-Lossless long (1 ∷ 100 ∷ 0 ∷ 0 ∷ 0 ∷ 0 ∷ [])
      (unfold long in omega arith) (inl packed_long)
