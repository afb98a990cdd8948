-- ===== src/PowGenerator/Examples.antt =====
-- Searches at concrete inputs.
use hashiverse.Prelude.{
  ℕ, ◌+◌, ◌≤◌, ◌≡◌, refl, arith, max, none, some, List, [], ◌∷◌, Result, ok, replicate, take,
  reverse, ◌++◌, length, length-take, length-append, length-replicate, if◌then◌else◌, ◌==◌,
}
use hashiverse.Crypto.{Crypto, hash_two, pow_measure_from_data_hash}
use hashiverse.Agreement.{count_leading_zero_bits}
use hashiverse.Crypto.Work.{Lawful, rounds}
use hashiverse.Crypto.Toy.{toy, toy-Lawful}
use hashiverse.PowGenerator.{
  Found, kick_off, next_done, run_pool_chunk, chunk_results, run_pool, run_loop, completed, sample,
  generate,
}
use hashiverse.PowGenerator.Chunk.{tried, IsAnswer, run_pool_chunk-IsAnswer}
use hashiverse.PowGenerator.Ends.{AreTried, IsResult, run_pool-IsResult, run_pool-unbounded}
use hashiverse.PowGenerator.Generates.{as_triple, generate-enough, chunk_results-AreTried}

-- 5000 iterations on three slots make two chunks.
kick_off_test : kick_off 3 0 (some 5000) ≡ ((0, 4096) ∷ (1, 904) ∷ [], some 0)
unfolding kick_off
kick_off_test = refl

abbrev salts : ℕ → ℕ → List ℕ
salts n i = replicate 8 (n + i)

-- The toy hashes have no more than 13 leading zero bits, so that a search for 20 finds nothing.
abbrev results : ℕ → ℕ → ℕ → Result Found
results = chunk_results toy (λ n. n) 3 (replicate 8 0) salts 9000 20 (replicate 32 1)

results-AreTried : AreTried toy toy-Lawful (replicate 32 1) results
results-AreTried =
    chunk_results-AreTried toy toy-Lawful (λ n. n) 3 (replicate 8 0) salts 9000 20 (replicate 32 1)

run_pool-IsResult_example :
    (f : Found) × (run_pool toy 20
        (replicate 32 1)
        (replicate 8 0)
        3
        (some 5000)
        (λ n. n)
        results
        9000
      ≡ some (ok f))
    × IsResult toy toy-Lawful
        (replicate 32 1)
        20
        (λ n. n)
        results
        results-AreTried
        0
        5000
        (tried toy toy-Lawful (replicate 32 1) (replicate 8 0))
        f
run_pool-IsResult_example =
    run_pool-IsResult toy toy-Lawful (replicate 32 1) 20 (λ n. n) results results-AreTried
      (replicate 8 0) 3 5000 9000 (omega arith)

run_pool_chunk-IsAnswer_example :
    (f : Found) × (run_pool_chunk toy 20 (replicate 32 1) (salts 0) 904 ≡ ok f)
    × IsAnswer toy toy-Lawful (replicate 32 1) 20 (salts 0) (max 904 1) f
run_pool_chunk-IsAnswer_example =
    run_pool_chunk-IsAnswer toy toy-Lawful (replicate 32 1) 20 (salts 0) 904

-- Hashes that keep what they are given, so that the bits of a salt are those of its last byte.
unfoldable plain : Crypto
plain = record {
  blake3 = λ bs. take 32 (reverse bs ++ replicate 32 0);
  digest = λ i bs. take 32 (bs ++ replicate 32 0);
  VerificationKey = Unit {0};
  key_from_bytes = λ bs. ok tt;
  verify = λ key sig bs. ok tt;
}

length-padded : (bs : List ℕ) → length (take 32 (bs ++ replicate 32 0)) ≡ 32
length-padded bs = omega (
  arith,
  length-take 32 (bs ++ replicate 32 0),
  length-append bs (replicate 32 0),
  length-replicate {A = ℕ} 32 0,
)

plain-Lawful : Lawful plain
unfolding plain
plain-Lawful = record {
  blake3_size = λ bs. length-padded (reverse bs);
  digest_size = λ i bs h. omega (arith, length-padded bs);
}

-- The chunk that finishes in the third round has found a salt with enough bits.
abbrev lucky_salt : ℕ → List ℕ
lucky_salt n = if n == 2 then replicate 8 0 else replicate 8 200

unfoldable lucky : ℕ → ℕ → ℕ → Found
lucky n slot size = tried plain plain-Lawful (replicate 32 1) (lucky_salt n)

lucky-AreTried :
    AreTried plain plain-Lawful (replicate 32 1) (λ n slot size. ok (lucky n slot size))
unfolding lucky tried
lucky-AreTried = record {
  gives = lucky;
  are_ok = λ n slot size. refl;
  are_tried = λ n slot size. refl;
}

lucky-enough : (slot size : ℕ) → 20 ≤ (lucky 2 slot size).pow
unfolding lucky tried count_leading_zero_bits plain rounds hash_two
lucky-enough slot size = omega arith

run_pool-unbounded_example :
    (f : Found) × (run_pool plain 20
        (replicate 32 1)
        (replicate 8 200)
        3
        none
        (λ n. n)
        (λ n slot size. ok (lucky n slot size))
        3
      ≡ some (ok f))
    × (f ≡ tried plain plain-Lawful (replicate 32 1) f.salt)
    × (20 ≤ f.pow)
run_pool-unbounded_example =
    run_pool-unbounded plain plain-Lawful (replicate 32 1) 20 (λ n. n)
      (λ n slot size. ok (lucky n slot size)) lucky-AreTried (replicate 8 200) 3 2 3
      (unfold lucky-AreTried in lucky-enough) (omega arith)

-- The first sample falls short, the first chunk to finish finds a salt at once.
generate_test :
    as_triple
      (generate plain (λ n. n) 3 (replicate 8 200) (λ n i. replicate 8 i) 2 20 (replicate 32 1))
    ≡ ok (replicate 8 0, 71, replicate 8 0 ++ replicate 24 1)
unfolding generate run_pool run_loop completed run_pool_chunk sample plain
    pow_measure_from_data_hash count_leading_zero_bits kick_off next_done
generate_test = refl

generate-enough_example :
    (20 ≤ 71)
    × (pow_measure_from_data_hash plain (replicate 32 1) (replicate 8 0)
        ≡ ok (71, replicate 8 0 ++ replicate 24 1))
generate-enough_example =
    generate-enough plain plain-Lawful (λ n. n) 3 (replicate 8 200) (λ n i. replicate 8 i) 2 20
      (replicate 32 1) (replicate 8 0) (replicate 8 0 ++ replicate 24 1) 71 generate_test
