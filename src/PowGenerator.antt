-- ===== src/PowGenerator.antt =====
-- The search for proofs of work by a pool of workers that finish in any order,
-- hashiverse-rust/hashiverse-lib/src/tools/pow_generator/pow_generator.rs, as
-- single_threaded_pow_generator.rs and the parallel generators beside it run it. The estimate of the
-- time a search will take, which is only logged, is not part of the model.
pub mod Chunk
pub mod Answers
pub mod Ends
pub mod Generates
mod Examples
use hashiverse.Prelude.{
  ℕ, zero, suc, ◌+◌, ◌-◌, ltb, leb, ◌==◌, if◌then◌else◌, ◌&&◌, min, max, Option, none, some, List,
  [], ◌∷◌, ◌++◌, Result, ok, err, panic, ◌>>=◌,
}
use hashiverse.Crypto.{Crypto, pow_measure_from_data_hash}

-- `(Salt, Pow, Hash)`.
pub record Found : Type 0 where
  pub salt : List ℕ
  pub pow : ℕ
  pub final : List ℕ

abbrev pub chunk_iterations : ℕ
chunk_iterations = 4096

module _ (C : Crypto) where
  unfoldable pub sample : List ℕ → List ℕ → Result Found
  sample data_hash salt = do
    (pow, final) ← pow_measure_from_data_hash C data_hash salt
    ok (record { salt = salt; pow = pow; final = final })

-- A search for at least `pow_min`, over data with a hash. `salts` are the random salts, in the order
-- in which they are drawn.
module _ (C : Crypto) (pow_min : ℕ) (data_hash : List ℕ) where
  unfoldable pub chunk_loop : (ℕ → List ℕ) → ℕ → ℕ → Found → Result Found
  unfolding sample
  chunk_loop salts zero i best = ok best
  chunk_loop salts (suc n) i best = do
    next ← sample C data_hash (salts i)
    let best' = if ltb best.pow next.pow then next else best in
        let rest = chunk_loop salts n (suc i) best' in
        if ltb best.pow next.pow && leb pow_min next.pow then ok best' else rest

  unfoldable pub run_pool_chunk : (ℕ → List ℕ) → ℕ → Result Found
  unfolding chunk_loop
  run_pool_chunk salts iterations = do
    best ← sample C data_hash (salts 0)
    let rest = chunk_loop salts (iterations - 1) 1 best in
        if leb pow_min best.pow then ok best else rest

-- The size of the next chunk, and how many iterations are left.
unfoldable pub pick_next_chunk_size : Option ℕ → ℕ × Option ℕ
pick_next_chunk_size none = (chunk_iterations, none)
pick_next_chunk_size (some n) = let size = min n chunk_iterations in (size, some (n - size))

-- A chunk in flight is its slot and its size.
pub record Pool : Type 0 where
  pub best : Found
  pub in_flight : List (ℕ × ℕ)
  pub remaining : Option ℕ

-- The first chunks, on so many slots from `slot` on.
unfoldable pub kick_off : ℕ → ℕ → Option ℕ → List (ℕ × ℕ) × Option ℕ
unfolding pick_next_chunk_size
kick_off zero slot remaining = ([], remaining)
kick_off (suc n) slot remaining =
    let (size, left) = pick_next_chunk_size remaining in
    let (chunks, last) = kick_off n (suc slot) left in
    if size == 0 then ([], left) else ((slot, size) ∷ chunks, last)

-- The chunk that finishes next, which the scheduler chooses, and the others.
unfoldable pub next_done : ℕ → ℕ × ℕ → List (ℕ × ℕ) → (ℕ × ℕ) × List (ℕ × ℕ)
next_done zero chunk chunks = (chunk, chunks)
next_done (suc i) chunk [] = (chunk, [])
next_done (suc i) chunk (chunk' ∷ chunks) =
    let (done, rest) = next_done i chunk' chunks in (done, chunk ∷ rest)

pub data Outcome : Type 0 where
  found : Found → Outcome
  going : Pool → Outcome

module _ (pow_min : ℕ) where
  -- The slot of the chunk that has finished gets the next one, if there is one.
  unfoldable pub refeed : Pool → ℕ → Pool
  unfolding pick_next_chunk_size
  refeed p slot =
      let (size, left) = pick_next_chunk_size p.remaining in
      if size == 0
      then record p { remaining = left }
      else record p { in_flight = p.in_flight ++ (slot, size) ∷ []; remaining = left }

  -- A chunk has finished; `p` has the others.
  unfoldable pub completed : Pool → ℕ → Result Found → Result Outcome
  unfolding refeed
  completed p slot chunk_result = do
    chunk_best ← chunk_result
    let best' = if ltb p.best.pow chunk_best.pow then chunk_best else p.best in
        if leb pow_min best'.pow
        then ok (found best')
        else ok (going (refeed (record p { best = best' }) slot))

  -- The loop over the chunks that finish. `choose` is the scheduler's choice at each round, and
  -- `results` what the chunk that finishes then, of a slot and a size, gives; `none` means more
  -- rounds than given.
  unfoldable pub run_loop :
      (ℕ → ℕ) → (ℕ → ℕ → ℕ → Result Found) → ℕ → ℕ → Pool → Option (Result Found)
  unfolding next_done completed
  run_loop choose results zero n p = none
  run_loop choose results (suc rounds) n p = elim p.in_flight [
    | [] ↦ some (ok p.best)
    | chunk ∷ chunks ↦
        let (done, rest) = next_done (choose n) chunk chunks in
        elim (completed (record p { in_flight = rest }) done.0 (results n done.0 done.1)) [
          | panic ↦ some panic
          | err e ↦ some (err e)
          | ok outcome ↦ elim outcome [
            | found f ↦ some (ok f)
            | going p' ↦ run_loop choose results rounds (suc n) p'
          ]
        ]
  ]

-- `pool_size().max(1)` slots, and a first sample on a salt of its own.
unfoldable pub run_pool :
    Crypto
    → ℕ
    → List ℕ
    → List ℕ
    → ℕ
    → Option ℕ
    → (ℕ → ℕ)
    → (ℕ → ℕ → ℕ → Result Found)
    → ℕ
    → Option (Result Found)
unfolding sample kick_off run_loop
run_pool C pow_min data_hash seed_salt pool_size iteration_cap choose results rounds =
    elim (sample C data_hash seed_salt) [
      | panic ↦ some panic
      | err e ↦ some (err e)
      | ok best ↦
          let (chunks, left) = kick_off (max pool_size 1) 0 iteration_cap in
          let run =
            run_loop pow_min choose results rounds 0
              (record { best = best; in_flight = chunks; remaining = left }) in
          if leb pow_min best.pow then some (ok best) else run
    ]

-- A generator whose chunks draw their salts at random: `salts n` are those of the chunk that
-- finishes in round `n`. `PowGenerator::generate` is without a bound.
module _ (C : Crypto) (choose : ℕ → ℕ) (pool_size : ℕ) (seed_salt : List ℕ) (salts : ℕ → ℕ → List ℕ)
    (rounds : ℕ) where
  abbrev pub chunk_results : ℕ → List ℕ → ℕ → ℕ → ℕ → Result Found
  chunk_results pow_min data_hash n slot size = run_pool_chunk C pow_min data_hash (salts n) size

  unfoldable pub generate_best_effort : ℕ → ℕ → List ℕ → Option (Result Found)
  generate_best_effort iteration_limit pow_min data_hash =
      run_pool C pow_min data_hash seed_salt pool_size (some iteration_limit) choose
        (chunk_results pow_min data_hash) rounds

  unfoldable pub generate : ℕ → List ℕ → Option (Result Found)
  generate pow_min data_hash =
      run_pool C pow_min data_hash seed_salt pool_size none choose (chunk_results pow_min data_hash)
        rounds
