-- ===== src/PowGenerator/Generates.antt =====
-- That the generator does what a server identity relies on.
use hashiverse.Prelude.{
  ℕ, ◌≤◌, ◌≡◌, sym, ap, ◌∙◌, Option, none, some, List, Result, ok, err, panic, not_found, subst,
  inl, inr, ok_inj,
}
use hashiverse.Crypto.{Crypto, pow_measure_from_data_hash}
use hashiverse.Crypto.Work.{Lawful, pow_measure_from_data_hash-rounds}
use hashiverse.PowGenerator.{Found, chunk_results, generate}
use hashiverse.PowGenerator.Chunk.{tried, run_pool_chunk-IsAnswer}
use hashiverse.PowGenerator.Ends.{AreTried, run_pool-cases}

-- The result of a search as a server takes it; one that has not ended is an error here.
abbrev pub as_triple : Option (Result Found) → Result (List ℕ × ℕ × List ℕ)
as_triple none = err not_found
as_triple (some panic) = panic
as_triple (some (err e)) = err e
as_triple (some (ok f)) = ok (f.salt, f.pow, f.final)

module _ (C : Crypto) (law : Lawful C) (choose : ℕ → ℕ) (pool_size : ℕ) (seed_salt : List ℕ)
    (salts : ℕ → ℕ → List ℕ) (rounds : ℕ) where
  own_salt :
      (data_hash : List ℕ) (f : Found) (salt : List ℕ)
      → f ≡ tried C law data_hash salt
      → f ≡ tried C law data_hash f.salt
  unfolding tried
  own_salt data_hash f salt is = is ∙ ap (tried C law data_hash) (sym (ap (λ g. g.salt) is))

  pub chunk_results-AreTried :
      (pow_min : ℕ) (data_hash : List ℕ)
      → AreTried C law data_hash
          (chunk_results C choose pool_size seed_salt salts rounds pow_min data_hash)
  chunk_results-AreTried pow_min data_hash = record {
    gives = λ n slot size. (run_pool_chunk-IsAnswer C law data_hash pow_min (salts n) size).0;
    are_ok = λ n slot size. (run_pool_chunk-IsAnswer C law data_hash pow_min (salts n) size).1;
    are_tried = λ n slot size.
        let is = (run_pool_chunk-IsAnswer C law data_hash pow_min (salts n) size).2 in
        own_salt data_hash _ (salts n is.index) is.is_tried;
  }

  measures :
      (data_hash : List ℕ) (f : Found)
      → f ≡ tried C law data_hash f.salt
      → pow_measure_from_data_hash C data_hash f.salt ≡ ok (f.pow, f.final)
  unfolding tried
  measures data_hash f is =
      rw ((pow_measure_from_data_hash-rounds C law data_hash f.salt).0)
        (ap (λ g. ok (g.pow, g.final)) (sym is))

  -- If the digests have their documented lengths: whatever salts are drawn and whatever chunks
  -- finish when, an answer of `generate` has at least the proof of work that was asked for, and is
  -- what measuring its salt gives.
  pub generate-enough :
      (pow_min : ℕ) (data_hash salt final : List ℕ) (pow : ℕ)
      → as_triple (generate C choose pool_size seed_salt salts rounds pow_min data_hash)
        ≡ ok (salt, pow, final)
      → (pow_min ≤ pow) × (pow_measure_from_data_hash C data_hash salt ≡ ok (pow, final))
  unfolding generate
  generate-enough pow_min data_hash salt final pow h =
      elim (run_pool-cases C law data_hash pow_min choose _
        (chunk_results-AreTried pow_min data_hash) seed_salt pool_size rounds) [
          | inl (f, run, is, enough) ↦
              let e : ok (f.salt, f.pow, f.final) ≡ ok (salt, pow, final) =
                sym (ap as_triple run) ∙ h in
              subst
                (λ t.
                  (pow_min ≤ t.1) × (pow_measure_from_data_hash C data_hash t.0 ≡ ok (t.1, t.2)))
                (ok_inj _ _ e) (enough, measures data_hash f is)
          | inr (run, _) ↦ absurd (cc (sym (ap as_triple run) ∙ h))
        ]
