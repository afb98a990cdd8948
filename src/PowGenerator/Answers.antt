-- ===== src/PowGenerator/Answers.antt =====
-- One round of the pool: what finishes, and what is handed out next.
use hashiverse.Prelude.{
  ℕ, zero, suc, ◌+◌, ◌-◌, ◌≤◌, ◌<◌, ◌≡◌, refl, arith, leb, leb→le, ◌==◌, ==_iff, if◌then◌else◌, ltb,
  min, Bool-cases, inl, inr, ◌⊎◌, Option, none, some, List, [], ◌∷◌, ◌++◌, length, length-append,
  Result, ok,
}
use hashiverse.PowGenerator.{
  Found, Pool, pick_next_chunk_size, next_done, kick_off, refeed, completed, run_loop,
}

-- The iterations in flight.
abbrev pub total : List (ℕ × ℕ) → ℕ
total [] = 0
total (chunk ∷ chunks) = chunk.1 + total chunks

total-append : (xs ys : List (ℕ × ℕ)) → total (xs ++ ys) ≡ total xs + total ys
total-append [] ys = omega arith
total-append (x ∷ xs) ys = omega (arith, total-append xs ys)

pub next_done-total :
    (i : ℕ) (chunk : ℕ × ℕ) (chunks : List (ℕ × ℕ))
    → let (done, rest) = next_done i chunk chunks in
      (done.1 + total rest ≡ chunk.1 + total chunks) × (length rest ≡ length chunks)
unfolding next_done
next_done-total zero chunk chunks = (refl, refl)
next_done-total (suc i) chunk [] = (refl, refl)
next_done-total (suc i) chunk (chunk' ∷ chunks) =
    let (e1, e2) = next_done-total i chunk' chunks in (omega arith, omega arith)

-- What is refed to a bounded search is taken from what remains.
pub refeed-some :
    (pow_min : ℕ) (best : Found) (rest : List (ℕ × ℕ)) (r slot : ℕ)
    → (fl : List (ℕ × ℕ)) × (r' : ℕ) × (refeed pow_min
          (record { best = best; in_flight = rest; remaining = some r })
          slot
        ≡ record { best = best; in_flight = fl; remaining = some r' })
      × (total fl + r' ≡ total rest + r)
      × (length fl + r' ≤ length rest + r)
      × ((1 ≤ length fl) ⊎ (r' ≡ 0))
unfolding refeed pick_next_chunk_size
refeed-some pow_min best rest r slot = elim (Bool-cases (min r 4096 == 0)) [
  | inl e ↦
      let empty = (==_iff (min r 4096) 0).0 e in
      (rest, r - min r 4096, rw e refl, omega arith, omega arith, inr (omega arith))
  | inr e ↦
      let size = min r 4096 in
      (
        rest ++ (slot, size) ∷ [],
        r - size,
        rw e refl,
        omega (arith, total-append rest ((slot, size) ∷ [])),
        ground (arith, length-append rest ((slot, size) ∷ [])),
        inl (omega (arith, length-append rest ((slot, size) ∷ []))),
      )
]

pub refeed-none :
    (pow_min : ℕ) (best : Found) (rest : List (ℕ × ℕ)) (slot : ℕ)
    → (fl : List (ℕ × ℕ)) × (refeed pow_min
          (record { best = best; in_flight = rest; remaining = none })
          slot
        ≡ record { best = best; in_flight = fl; remaining = none })
      × (1 ≤ length fl)
unfolding refeed pick_next_chunk_size
refeed-none pow_min best rest slot =
    (rest ++ (slot, 4096) ∷ [], refl, omega (arith, length-append rest ((slot, 4096) ∷ [])))

pub kick_off-some :
    (n slot r : ℕ)
    → let chunks = kick_off n slot (some r) in
      (r' : ℕ) × (chunks.1 ≡ some r') × (total chunks.0 + r' ≡ r) × (length chunks.0 + r' ≤ r)
unfolding kick_off pick_next_chunk_size
kick_off-some zero slot r = (r, refl, omega arith, omega arith)
kick_off-some (suc n) slot r =
    let size = min r 4096 in
    let (r', e, t, l) = kick_off-some n (suc slot) (r - size) in
    elim (Bool-cases (size == 0)) [
      | inl is ↦
          let empty = (==_iff size 0).0 is in rw is (r - size, refl, omega arith, omega arith)
      | inr is ↦ rw is (r', e, omega arith, ground arith)
    ]

pub kick_off-fed : (n slot r : ℕ) → 1 ≤ n → (1 ≤ length (kick_off n slot (some r)).0) ⊎ (r ≡ 0)
unfolding kick_off pick_next_chunk_size
kick_off-fed zero slot r h = absurd (omega arith)
kick_off-fed (suc n) slot r h = elim (Bool-cases (min r 4096 == 0)) [
  | inl e ↦ let empty = (==_iff (min r 4096) 0).0 e in inr (omega arith)
  | inr e ↦ rw e (inl (omega arith))
]

pub kick_off-none :
    (n slot : ℕ) → let chunks = kick_off n slot none in (chunks.1 ≡ none) × (length chunks.0 ≡ n)
unfolding kick_off pick_next_chunk_size
kick_off-none zero slot = (refl, refl)
kick_off-none (suc n) slot = let (e, size) = kick_off-none n (suc slot) in (e, omega (arith, size))

module _ (pow_min : ℕ) (choose : ℕ → ℕ) (results : ℕ → ℕ → ℕ → Result Found) where
  -- A round in which a chunk has finished.
  pub run_loop-round :
      (rounds n : ℕ) (best g : Found) (chunk : ℕ × ℕ) (chunks : List (ℕ × ℕ)) (r : Option ℕ)
      → let (done, rest) = next_done (choose n) chunk chunks in
        let p : Pool = record { best = best; in_flight = chunk ∷ chunks; remaining = r } in
        let best' = if ltb best.pow g.pow then g else best in
        let p' : Pool = record { best = best'; in_flight = rest; remaining = r } in
        results n done.0 done.1 ≡ ok g
        → ((pow_min ≤ best'.pow)
            × (run_loop pow_min choose results (suc rounds) n p ≡ some (ok best')))
          ⊎ ((best'.pow < pow_min)
              × (run_loop pow_min choose results (suc rounds) n p
                  ≡ run_loop pow_min choose results rounds (suc n) (refeed pow_min p' done.0)))
  unfolding run_loop completed
  run_loop-round rounds n best g chunk chunks r e =
      let best' = if ltb best.pow g.pow then g else best in
      elim (Bool-cases (leb pow_min best'.pow)) [
        | inl f ↦ inl (leb→le pow_min best'.pow f, rw (run_loop, completed, e, f) refl)
        | inr f ↦ inr (ground (arith, f), rw (run_loop, completed, e, f) refl)
      ]
