-- ===== src/Crypto/Work.antt =====
-- That measuring a proof of work always comes to a result.
use hashiverse.Prelude.{
  ℕ, zero, suc, ◌%◌, ◌≤◌, ◌<◌, ◌≡◌, refl, arith, List, [], ◌∷◌, length, length-take, take, ok,
}
use hashiverse.Agreement.{count_leading_zero_bits}
use hashiverse.Crypto.{
  Crypto, hash_two, apply_chained_hash, repeat_loop, byte_at, chain_loop, pow_measure,
  pow_measure_from_data_hash, pow_compute_data_hash,
}

-- A digest of `blake3` has 32 bytes, those of the chain have 32 or more.
pub record Lawful (C : Crypto) : Type 0 where
  pub blake3_size : (input : List ℕ) → length (C.blake3 input) ≡ 32
  pub digest_size : (i : ℕ) (input : List ℕ) → i < 17 → 32 ≤ length (C.digest i input)

module _ (C : Crypto) (law : Lawful C) where
  -- The chain of hashes as the composition of plain functions.
  pub step : List ℕ → ℕ → List ℕ
  step current algo = take 32 (C.digest (algo % 17) current)

  pub iterate : ℕ → ℕ → List ℕ → List ℕ
  unfolding step
  iterate zero algo current = current
  iterate (suc n) algo current = iterate n algo (step current algo)

  pub first : List ℕ → ℕ
  first [] = 0
  first (a ∷ bs) = a

  pub second : List ℕ → ℕ
  second [] = 0
  second (a ∷ []) = 0
  second (a ∷ b ∷ bs) = b

  unfoldable pub rounds : ℕ → List ℕ → List ℕ
  unfolding iterate first second
  rounds zero current = current
  rounds (suc n) current = rounds n (iterate (suc (second current % 2)) (first current) current)

  length-step : (current : List ℕ) (algo : ℕ) → length (step current algo) ≡ 32
  unfolding step
  length-step current algo = omega (
    arith,
    length-take 32 (C.digest (algo % 17) current),
    law.digest_size (algo % 17) current (omega arith),
  )

  apply_chained_hash-step :
      (algo : ℕ) (current : List ℕ) → apply_chained_hash C algo current ≡ ok (step current algo)
  unfolding apply_chained_hash step
  apply_chained_hash-step algo current = ground (
    arith,
    law.digest_size (algo % 17) current (omega arith),
    length-take 32 (C.digest (algo % 17) current),
  )

  length-iterate :
      (n algo : ℕ) (current : List ℕ) → length current ≡ 32 → length (iterate n algo current) ≡ 32
  unfolding iterate
  length-iterate zero algo current h = h
  length-iterate (suc n) algo current h =
      length-iterate n algo (step current algo) (length-step current algo)

  repeat_loop-iterate :
      (n algo : ℕ) (current : List ℕ) → repeat_loop C n algo current ≡ ok (iterate n algo current)
  unfolding repeat_loop iterate
  repeat_loop-iterate zero algo current = refl
  repeat_loop-iterate (suc n) algo current =
      rw (apply_chained_hash-step algo current) (repeat_loop-iterate n algo (step current algo))

  bytes-at :
      (current : List ℕ)
      → length current ≡ 32
      → (byte_at C current 0 ≡ ok (first current)) × (byte_at C current 1 ≡ ok (second current))
  unfolding byte_at first second
  bytes-at [] h = absurd (omega arith)
  bytes-at (a ∷ []) h = absurd (omega arith)
  bytes-at (a ∷ b ∷ bs) h = (refl, refl)

  chain_loop-rounds :
      (n : ℕ) (current : List ℕ)
      → length current ≡ 32
      → (chain_loop C n current ≡ ok (rounds n current)) × (length (rounds n current) ≡ 32)
  unfolding chain_loop rounds
  chain_loop-rounds zero current h = (refl, h)
  chain_loop-rounds (suc n) current h =
      let (e0, e1) = bytes-at current h in
      let next = iterate (suc (second current % 2)) (first current) current in
      rw (e0, e1, repeat_loop-iterate (suc (second current % 2)) (first current) current)
        (chain_loop-rounds n next
          (length-iterate (suc (second current % 2)) (first current) current h))

  pub pow_measure_from_data_hash-rounds :
      (data_hash salt : List ℕ)
      → let final = rounds 5 (hash_two C data_hash salt) in
        (pow_measure_from_data_hash C data_hash salt ≡ ok (count_leading_zero_bits final, final))
        × (length final ≡ 32)
  unfolding pow_measure_from_data_hash hash_two
  pow_measure_from_data_hash-rounds data_hash salt =
      let (e, size) = chain_loop-rounds 5 (hash_two C data_hash salt) (law.blake3_size _) in
      (rw e refl, size)

  -- If the digests have their documented lengths, `pow_measure` neither fails nor panics: its result
  -- is the hash at the end of five rounds of the chain, 32 bytes long, with its count of leading
  -- zero bits.
  pub pow_measure-rounds :
      (datas : List (List ℕ)) (salt : List ℕ)
      → (final : List ℕ) × (pow_measure C datas salt ≡ ok (count_leading_zero_bits final, final))
        × (final ≡ rounds 5 (hash_two C (pow_compute_data_hash C datas) salt))
        × (length final ≡ 32)
  unfolding pow_measure
  pow_measure-rounds datas salt =
      let (e, size) = pow_measure_from_data_hash-rounds (pow_compute_data_hash C datas) salt in
      (rounds 5 (hash_two C (pow_compute_data_hash C datas) salt), e, refl, size)
