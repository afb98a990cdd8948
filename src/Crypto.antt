-- ===== src/Crypto.antt =====
-- Hashing and proof of work: hashiverse-rust/hashiverse-lib/src/tools/hashing.rs and pow.rs. The
-- hash functions and the signatures are those of third-party crates, so they are parameters.
pub mod Work
pub mod Toy
use hashiverse.Prelude.{
  ℕ, zero, suc, ◌%◌, ◌≤◌, ◌≡◌, leb, ◌==◌, if◌then◌else◌, List, [], ◌∷◌, ◌++◌, length, take,
  get_elem?, none, some, flatten, Error, wrong_length, Result, ok, panic, ◌>>=◌, ◌>>◌, ensure, All,
  IsByte,
}
use hashiverse.Agreement.{count_leading_zero_bits}

abbrev pub hash_bytes : ℕ
hash_bytes = 32

abbrev pub algo_count : ℕ
algo_count = 17

-- `blake3` is the digest of one input: an update hashes on as if the inputs stood in one string.
-- `digest` is the digest with the number of `apply_chained_hash`. A signature is checked against
-- the bytes of a key, which may be no key.
pub record Crypto : Type 1 where
  pub blake3 : List ℕ → List ℕ
  pub digest : ℕ → List ℕ → List ℕ
  pub VerificationKey : Type 0
  pub key_from_bytes : List ℕ → Result VerificationKey
  pub verify : VerificationKey → List ℕ → List ℕ → Result (Unit {0})

module _ (C : Crypto) where
  open C use {blake3, digest}

  unfoldable pub hash : List ℕ → List ℕ
  hash input = blake3 input

  unfoldable pub hash_two : List ℕ → List ℕ → List ℕ
  hash_two data_1 data_2 = blake3 (data_1 ++ data_2)

  unfoldable pub hash_multiple : List (List ℕ) → List ℕ
  hash_multiple datas = blake3 (flatten datas)

  unfoldable pub hash_multiple_plus_one : List (List ℕ) → List ℕ → List ℕ
  hash_multiple_plus_one datas data_plus_one = blake3 (flatten datas ++ data_plus_one)

  -- `Hash::from_slice`.
  unfoldable pub hash_from_slice : List ℕ → Result (List ℕ)
  hash_from_slice bytes = do ensure (length bytes == hash_bytes) wrong_length; ok bytes

  -- `&digest[0..32]`, which panics if there are not 32 bytes.
  unfoldable pub apply_hash : ℕ → List ℕ → Result (List ℕ)
  unfolding hash_from_slice
  apply_hash algo input =
      if leb hash_bytes (length (digest algo input))
      then hash_from_slice (take hash_bytes (digest algo input))
      else panic

  unfoldable pub apply_chained_hash : ℕ → List ℕ → Result (List ℕ)
  unfolding apply_hash
  apply_chained_hash algo_index current = apply_hash (algo_index % algo_count) current

  unfoldable pub repeat_loop : ℕ → ℕ → List ℕ → Result (List ℕ)
  unfolding apply_chained_hash
  repeat_loop zero algo_index current = ok current
  repeat_loop (suc n) algo_index current = do
    next ← apply_chained_hash algo_index current
    repeat_loop n algo_index next

  unfoldable pub byte_at : List ℕ → ℕ → Result ℕ
  byte_at bytes i = elim (get_elem? bytes i) [ none ↦ panic | some b ↦ ok b ]

  -- `0..=repetitions` runs once more than `repetitions` says.
  unfoldable pub chain_loop : ℕ → List ℕ → Result (List ℕ)
  unfolding repeat_loop byte_at
  chain_loop zero current = ok current
  chain_loop (suc n) current = do
    algo_index ← byte_at current 0
    repetitions ← byte_at current 1
    next ← repeat_loop (suc (repetitions % 2)) algo_index current
    chain_loop n next

  unfoldable pub pow_measure_from_data_hash : List ℕ → List ℕ → Result (ℕ × List ℕ)
  unfolding hash_two chain_loop
  pow_measure_from_data_hash data_hash salt = do
    last ← chain_loop 5 (hash_two data_hash salt)
    ok (count_leading_zero_bits last, last)

  unfoldable pub pow_compute_data_hash : List (List ℕ) → List ℕ
  unfolding hash_multiple
  pow_compute_data_hash datas = hash_multiple datas

  unfoldable pub pow_measure : List (List ℕ) → List ℕ → Result (ℕ × List ℕ)
  unfolding pow_measure_from_data_hash pow_compute_data_hash
  pow_measure datas salt = pow_measure_from_data_hash (pow_compute_data_hash datas) salt
