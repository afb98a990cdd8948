-- ===== src/PowGenerator/Chunk.antt =====
-- What one chunk of a search finds.
use hashiverse.Prelude.{
  ℕ, zero, suc, ◌+◌, ◌-◌, ◌≤◌, ◌<◌, ◌≡◌, refl, arith, ltb, leb, subst, if◌then◌else◌, ◌&&◌, ltb→lt,
  leb→le, max, Bool-cases, inl, inr, ◌⊎◌, List, ok,
}
use hashiverse.Agreement.{count_leading_zero_bits}
use hashiverse.Crypto.{Crypto, hash_two}
use hashiverse.Crypto.Work.{Lawful, rounds, pow_measure_from_data_hash-rounds}
use hashiverse.PowGenerator.{Found, sample, chunk_loop, run_pool_chunk}

module _ (C : Crypto) (law : Lawful C) (data_hash : List ℕ) where
  -- What a salt gives.
  unfoldable pub tried : List ℕ → Found
  tried salt =
      let final = rounds C law 5 (hash_two C data_hash salt) in
      record { salt = salt; pow = count_leading_zero_bits final; final = final }

  pub sample-tried : (salt : List ℕ) → sample C data_hash salt ≡ ok (tried salt)
  unfolding sample tried
  sample-tried salt = rw ((pow_measure_from_data_hash-rounds C law data_hash salt).0) refl

  module _ (pow_min : ℕ) (salts : ℕ → List ℕ) where
    -- The answer of a chunk over the first `n` salts.
    pub record IsAnswer (n : ℕ) (f : Found) : Type 0 where
      pub index : ℕ
      pub in_range : index < n
      pub is_tried : f ≡ tried (salts index)
      pub first : (j : ℕ) → j < index → (tried (salts j)).pow < f.pow
      pub best : (pow_min ≤ f.pow) ⊎ ((j : ℕ) → j < n → (tried (salts j)).pow ≤ f.pow)

    -- The best of the first `i` salts, which is not good enough yet.
    record IsBest (i : ℕ) (f : Found) : Type 0 where
      index : ℕ
      in_range : index < i
      is_tried : f ≡ tried (salts index)
      first : (j : ℕ) → j < index → (tried (salts j)).pow < f.pow
      most : (j : ℕ) → j < i → (tried (salts j)).pow ≤ f.pow

    upto-suc :
        (i bound : ℕ)
        → ((j : ℕ) → j < i → (tried (salts j)).pow ≤ bound)
        → (tried (salts i)).pow ≤ bound
        → (j : ℕ) → j < suc i
        → (tried (salts j)).pow ≤ bound
    upto-suc i bound below here j h = elim (Bool-cases (ltb j i)) [
      | inl e ↦ below j (ltb→lt j i e)
      | inr e ↦
          let same : i ≡ j = ground arith in subst (λ k. (tried (salts k)).pow ≤ bound) same here
    ]

    -- One more salt, with the best of it and the salts before.
    IsBest-next :
        (i : ℕ) (f : Found)
        → IsBest i f
        → IsBest (suc i) (if ltb f.pow (tried (salts i)).pow then tried (salts i) else f)
    IsBest-next i f b = elim (Bool-cases (ltb f.pow (tried (salts i)).pow)) [
      | inl e ↦
          let more = ltb→lt f.pow (tried (salts i)).pow e in
          rw e (record {
            index = i;
            in_range = omega arith;
            is_tried = refl;
            first = λ j h. omega (arith, b.most j h);
            most = upto-suc i _ (λ j h. omega (arith, b.most j h)) (omega arith);
          })
      | inr e ↦ rw e (record {
        index = b.index;
        in_range = omega (arith, b.in_range);
        is_tried = b.is_tried;
        first = b.first;
        most = upto-suc i _ b.most (ground arith);
      })
    ]

    answer : (i n : ℕ) (f : Found) → i ≤ n → IsBest i f → (pow_min ≤ f.pow) ⊎ (i ≡ n) → IsAnswer n f
    answer i n f h b enough = record {
      index = b.index;
      in_range = omega (arith, b.in_range);
      is_tried = b.is_tried;
      first = b.first;
      best = elim enough [
        | inl e ↦ inl e
        | inr e ↦ inr (subst (λ m. (j : ℕ) → j < m → (tried (salts j)).pow ≤ f.pow) e b.most)
      ];
    }

    chunk_loop-IsAnswer :
        (n i total : ℕ) (f : Found)
        → n + i ≡ total
        → IsBest i f
        → (g : Found) × (chunk_loop C pow_min data_hash salts n i f ≡ ok g) × IsAnswer total g
    unfolding chunk_loop
    chunk_loop-IsAnswer zero i total f count b =
        (f, refl, answer i total f (omega arith) b (inr (omega arith)))
    chunk_loop-IsAnswer (suc n) i total f count b =
        let next = IsBest-next i f b in
        let (g, e, is) = chunk_loop-IsAnswer n (suc i) total _ (omega arith) next in
        elim (Bool-cases (ltb f.pow (tried (salts i)).pow && leb pow_min (tried (salts i)).pow)) [
          | inl stop ↦ (
            _,
            rw (sample-tried (salts i), stop) refl,
            answer (suc i) total _ (omega arith) next (inl (ground arith)),
          )
          | inr stop ↦ (g, rw (sample-tried (salts i), stop) e, is)
        ]

    -- If the digests have their documented lengths, a chunk always comes to an answer. It is what
    -- one of its salts gives, the first salt counting even in a chunk of none; it is greater than
    -- what the salts before that one give; and it is at least `pow_min`, or at least what every
    -- salt of the chunk gives.
    pub run_pool_chunk-IsAnswer :
        (iterations : ℕ)
        → (f : Found) × (run_pool_chunk C pow_min data_hash salts iterations ≡ ok f)
          × IsAnswer (max iterations 1) f
    unfolding run_pool_chunk
    run_pool_chunk-IsAnswer iterations =
        let start : IsBest 1 (tried (salts 0)) = record {
          index = 0;
          in_range = omega arith;
          is_tried = refl;
          first = λ j h. absurd (omega arith);
          most = upto-suc 0 _ (λ j h. absurd (omega arith)) (omega arith);
        } in
        let (g, e, is) =
          chunk_loop-IsAnswer (iterations - 1) 1 (max iterations 1) _ (omega arith) start in
        elim (Bool-cases (leb pow_min (tried (salts 0)).pow)) [
          | inl stop ↦ (
            tried (salts 0),
            rw (sample-tried (salts 0), stop) refl,
            answer 1 (max iterations 1) _ (omega arith) start (inl (leb→le _ _ stop)),
          )
          | inr stop ↦ (g, rw (sample-tried (salts 0), stop) e, is)
        ]
