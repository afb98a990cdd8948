-- ===== src/Crypto/Toy.antt =====
-- Toy digests, at which the examples compute.
use hashiverse.Prelude.{ℕ, ◌+◌, ◌%◌, arith, List, [], ◌∷◌, length, length-replicate, replicate, ok}
use hashiverse.Crypto.{Crypto}
use hashiverse.Crypto.Work.{Lawful}

-- Digests that depend on the input in one byte only.
abbrev head_byte : List ℕ → ℕ
head_byte [] = 0
head_byte (b ∷ bs) = b

unfoldable pub toy : Crypto
toy = record {
  blake3 = λ bs. replicate 32 (length bs);
  digest = λ i bs. (head_byte bs + i) % 32 ∷ replicate 31 7;
  VerificationKey = List ℕ;
  key_from_bytes = λ bs. ok bs;
  verify = λ key sig bs. ok tt;
}

pub toy-Lawful : Lawful toy
unfolding toy
toy-Lawful = record {
  blake3_size = λ bs. length-replicate 32 (length bs);
  digest_size = λ i bs h. omega arith;
}
