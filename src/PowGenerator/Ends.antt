-- ===== src/PowGenerator/Ends.antt =====
-- That a search ends, and with what.
use hashiverse.Prelude.{
  ℕ, zero, suc, ◌+◌, ◌≤◌, ◌<◌, ◌≡◌, refl, ap, ◌∙◌, arith, subst, ltb, ltb→lt, leb, leb→le, max,
  if◌then◌else◌, Bool-cases, inl, inr, ◌⊎◌, Option, none, some, List, [], ◌∷◌, length, Result, ok,
}
use hashiverse.Crypto.{Crypto}
use hashiverse.Crypto.Work.{Lawful, pow_measure_from_data_hash-rounds}
use hashiverse.PowGenerator.{Found, Pool, next_done, kick_off, run_loop, run_pool}
use hashiverse.PowGenerator.Chunk.{tried}
use hashiverse.PowGenerator.Answers.{
  total, next_done-total, refeed-some, refeed-none, kick_off-some, kick_off-fed, kick_off-none,
  run_loop-round,
}

module _ (C : Crypto) (law : Lawful C) (data_hash : List ℕ) where
  -- Chunks that come to an answer, which is what its salt gives.
  pub record AreTried (results : ℕ → ℕ → ℕ → Result Found) : Type 0 where
    pub gives : ℕ → ℕ → ℕ → Found
    pub are_ok : (n slot size : ℕ) → results n slot size ≡ ok (gives n slot size)
    pub are_tried :
        (n slot size : ℕ) → gives n slot size ≡ tried C law data_hash (gives n slot size).salt

-- `bound` is at least what each chunk of a row gives, the first of which has finished in round `n`.
abbrev pub AreBelow : (ℕ → ℕ → ℕ → Found) → ℕ → ℕ → List (ℕ × ℕ) → Type 0
AreBelow gives bound n [] = Unit
AreBelow gives bound n (chunk ∷ chunks) =
    ((gives n chunk.0 chunk.1).pow ≤ bound) × AreBelow gives bound (suc n) chunks

-- The chunks that have finished, from round `n` on, have `amount` iterations, and none gives more
-- than `bound`.
pub record IsSpent (gives : ℕ → ℕ → ℕ → Found) (bound n amount : ℕ) : Type 0 where
  pub chunks : List (ℕ × ℕ)
  pub all : total chunks ≡ amount
  pub below : AreBelow gives bound n chunks

better :
    (best g : Found)
    → let best' = if ltb best.pow g.pow then g else best in
      (best.pow ≤ best'.pow) × (g.pow ≤ best'.pow)
better best g = elim (Bool-cases (ltb best.pow g.pow)) [
  | inl e ↦ rw e (let more = ltb→lt best.pow g.pow e in (omega arith, omega arith))
  | inr e ↦ rw e (omega arith, ground arith)
]

module _ (C : Crypto) (law : Lawful C) (data_hash : List ℕ) (pow_min : ℕ) (choose : ℕ → ℕ)
    (results : ℕ → ℕ → ℕ → Result Found) (are : AreTried C law data_hash results) where
  IsTried : Found → Type 0
  IsTried f = f ≡ tried C law data_hash f.salt

  better-IsTried :
      (best : Found) (n slot size : ℕ)
      → IsTried best
      → let g = are.gives n slot size in IsTried (if ltb best.pow g.pow then g else best)
  unfolding IsTried
  better-IsTried best n slot size is =
      elim (Bool-cases (ltb best.pow (are.gives n slot size).pow)) [
        | inl e ↦ rw e (are.are_tried n slot size)
        | inr e ↦ rw e is
      ]

  -- The answer of a search over `amount` iterations, of which the best one so far is given.
  pub record IsResult (n amount : ℕ) (best f : Found) : Type 0 where
    pub is_tried : f ≡ tried C law data_hash f.salt
    pub improves : best.pow ≤ f.pow
    pub enough : (pow_min ≤ f.pow) ⊎ IsSpent are.gives f.pow n amount

  run_loop-IsResult :
      (rounds n : ℕ) (best : Found) (fl : List (ℕ × ℕ)) (r : ℕ)
      → IsTried best
      → length fl + r < rounds
      → (1 ≤ length fl) ⊎ (r ≡ 0)
      → let p : Pool = record { best = best; in_flight = fl; remaining = some r } in
        (f : Found) × (run_loop pow_min choose results rounds n p ≡ some (ok f))
        × IsResult n (total fl + r) best f
  unfolding run_loop IsTried
  run_loop-IsResult zero n best fl r is h fed = absurd (omega arith)
  run_loop-IsResult (suc rounds) n best [] r is h fed =
      let none_left : r ≡ 0 = ground arith in
      (
        best,
        refl,
        record {
          is_tried = is;
          improves = omega arith;
          enough = inr (record { chunks = []; all = omega arith; below = tt });
        },
      )
  run_loop-IsResult (suc rounds) n best (chunk ∷ chunks) r is h fed =
      let (done, rest) = next_done (choose n) chunk chunks in
      let (sizes, count) = next_done-total (choose n) chunk chunks in
      let g = are.gives n done.0 done.1 in
      let best' = if ltb best.pow g.pow then g else best in
      let (up, above) = better best g in
      let is' = better-IsTried best n done.0 done.1 is in
      elim (run_loop-round pow_min choose results rounds n best g chunk chunks (some r)
        (are.are_ok n done.0 done.1)) [
          | inl (enough, e) ↦
              (best', e, record { is_tried = is'; improves = up; enough = inl enough })
          | inr (short, e) ↦
              let (fl, r', same, sum, fewer, fed') = refeed-some pow_min best' rest r done.0 in
              let (f, e', result) =
                run_loop-IsResult rounds (suc n) best' fl r' is' (omega arith) fed' in
              (
                f,
                e ∙ ap (run_loop pow_min choose results rounds (suc n)) same ∙ e',
                record {
                  is_tried = result.is_tried;
                  improves = omega (arith, result.improves);
                  enough = elim result.enough [
                    | inl enough ↦ inl enough
                    | inr spent ↦ inr (record {
                      chunks = done ∷ spent.chunks;
                      all = omega (arith, spent.all);
                      below = (omega (arith, result.improves), spent.below);
                    })
                  ];
                },
              )
        ]

  -- A search without a bound on the iterations: it has found what was asked for, or in each of the
  -- rounds a chunk has fallen short.
  unfoldable pub FallsShort : ℕ → ℕ → Type 0
  FallsShort n rounds =
      (k : ℕ)
      → n ≤ k
      → k < n + rounds
      → (slot : ℕ) × (size : ℕ) × ((are.gives k slot size).pow < pow_min)

  run_loop-unbounded :
      (rounds n : ℕ) (best : Found) (fl : List (ℕ × ℕ))
      → IsTried best
      → 1 ≤ length fl
      → let p : Pool = record { best = best; in_flight = fl; remaining = none } in
        ((f : Found) × (run_loop pow_min choose results rounds n p ≡ some (ok f))
          × IsTried f
          × (pow_min ≤ f.pow))
        ⊎ ((run_loop pow_min choose results rounds n p ≡ none) × FallsShort n rounds)
  unfolding run_loop FallsShort
  run_loop-unbounded zero n best fl is h = inr (refl, λ k low high. absurd (omega arith))
  run_loop-unbounded (suc rounds) n best [] is h = absurd (omega arith)
  run_loop-unbounded (suc rounds) n best (chunk ∷ chunks) is h =
      let (done, rest) = next_done (choose n) chunk chunks in
      let g = are.gives n done.0 done.1 in
      let best' = if ltb best.pow g.pow then g else best in
      let (up, above) = better best g in
      let is' = better-IsTried best n done.0 done.1 is in
      elim (run_loop-round pow_min choose results rounds n best g chunk chunks none
        (are.are_ok n done.0 done.1)) [
          | inl (enough, e) ↦ inl (best', e, is', enough)
          | inr (short, e) ↦
              let (fl, same, fed) = refeed-none pow_min best' rest done.0 in
              let onward = e ∙ ap (run_loop pow_min choose results rounds (suc n)) same in
              elim (run_loop-unbounded rounds (suc n) best' fl is' fed) [
                | inl (f, e', tried_f, enough) ↦ inl (f, onward ∙ e', tried_f, enough)
                | inr (e', shorts) ↦ inr (
                  onward ∙ e',
                  λ k low high. elim (Bool-cases (ltb n k)) [
                    | inl later ↦ shorts k (omega (arith, ltb→lt n k later)) (omega arith)
                    | inr now ↦
                        let same_round : n ≡ k = ground arith in
                        subst
                          (λ j. (slot : ℕ) × (size : ℕ) × ((are.gives j slot size).pow < pow_min))
                          same_round (done.0, done.1, omega arith)
                  ],
                )
              ]
        ]

  -- What a search does after its first sample.
  run_pool-seeded :
      (seed_salt : List ℕ) (pool_size : ℕ) (cap : Option ℕ) (rounds : ℕ)
      → let seed = tried C law data_hash seed_salt in
        let (chunks, left) = kick_off (max pool_size 1) 0 cap in
        let p : Pool = record { best = seed; in_flight = chunks; remaining = left } in
        run_pool C pow_min data_hash seed_salt pool_size cap choose results rounds ≡ (
          if leb pow_min seed.pow
          then some (ok seed)
          else run_loop pow_min choose results rounds 0 p)
  unfolding run_pool tried
  run_pool-seeded seed_salt pool_size cap rounds =
      rw (run_pool, (pow_measure_from_data_hash-rounds C law data_hash seed_salt).0) refl

  tried-IsTried : (salt : List ℕ) → IsTried (tried C law data_hash salt)
  unfolding IsTried tried
  tried-IsTried salt = refl

  -- A search of at most `cap` iterations ends within `cap` rounds and one, whatever chunks finish
  -- when, if the chunks come to answers that are what their salts give. Its answer is what its salt
  -- gives, and at least what the first sample gives; and it is at least `pow_min`, or the chunks
  -- that have finished have all `cap` iterations and none gives more.
  pub run_pool-IsResult :
      (seed_salt : List ℕ) (pool_size cap rounds : ℕ)
      → cap < rounds
      → (f : Found) × (run_pool C pow_min data_hash seed_salt pool_size
            (some cap)
            choose
            results
            rounds
          ≡ some (ok f))
        × IsResult 0 cap (tried C law data_hash seed_salt) f
  run_pool-IsResult seed_salt pool_size cap rounds h =
      let seed = tried C law data_hash seed_salt in
      let (left, e, sum, fewer) = kick_off-some (max pool_size 1) 0 cap in
      let chunks = (kick_off (max pool_size 1) 0 (some cap)).0 in
      let fed : (1 ≤ length chunks) ⊎ (left ≡ 0) =
        ground (arith, kick_off-fed (max pool_size 1) 0 cap (omega arith)) in
      let start = run_pool-seeded seed_salt pool_size (some cap) rounds in
      let (f, run, result) =
        run_loop-IsResult rounds 0 seed chunks left (tried-IsTried seed_salt) (omega arith) fed in
      elim (Bool-cases (leb pow_min seed.pow)) [
        | inl lucky ↦ (
          seed,
          rw (start, lucky) refl,
          record {
            is_tried = unfold IsTried in tried-IsTried seed_salt;
            improves = omega arith;
            enough = inl (leb→le pow_min seed.pow lucky);
          },
        )
        | inr short ↦ (f, rw (start, short, e) run, subst (λ n. IsResult 0 n seed f) sum result)
      ]

  -- A search without a bound has found what was asked for, or goes on.
  pub run_pool-cases :
      (seed_salt : List ℕ) (pool_size rounds : ℕ)
      → let run = run_pool C pow_min data_hash seed_salt pool_size none choose results rounds in
        ((f : Found) × (run ≡ some (ok f)) × (f ≡ tried C law data_hash f.salt) × (pow_min ≤ f.pow))
        ⊎ ((run ≡ none) × FallsShort 0 rounds)
  unfolding IsTried
  run_pool-cases seed_salt pool_size rounds =
      let seed = tried C law data_hash seed_salt in
      let (e, count) = kick_off-none (max pool_size 1) 0 in
      let chunks = (kick_off (max pool_size 1) 0 none).0 in
      let start = run_pool-seeded seed_salt pool_size none rounds in
      elim (Bool-cases (leb pow_min seed.pow)) [
        | inl lucky ↦
            inl
              (seed, rw (start, lucky) refl, tried-IsTried seed_salt, leb→le pow_min seed.pow lucky)
        | inr short ↦
            rw (start, short, e)
              (run_loop-unbounded rounds 0 seed chunks (tried-IsTried seed_salt) (omega arith))
      ]

  -- A search without a bound for which there is a round in which every chunk gives at least
  -- `pow_min` has ended by then, with at least that much, which is what its salt gives.
  pub run_pool-unbounded :
      (seed_salt : List ℕ) (pool_size k rounds : ℕ)
      → ((slot size : ℕ) → pow_min ≤ (are.gives k slot size).pow)
      → k < rounds
      → (f : Found) × (run_pool C pow_min data_hash seed_salt pool_size none choose results rounds
          ≡ some (ok f))
        × (f ≡ tried C law data_hash f.salt)
        × (pow_min ≤ f.pow)
  unfolding FallsShort
  run_pool-unbounded seed_salt pool_size k rounds good h =
      elim (run_pool-cases seed_salt pool_size rounds) [
        | inl found_one ↦ found_one
        | inr (run, shorts) ↦
            let (slot, size, less) = shorts k (omega arith) (omega arith) in
            absurd (omega (arith, good slot size))
      ]
