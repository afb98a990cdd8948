-- ===== src/Visitor/Walk.antt =====
-- What the walk is meant to do, as a recursion over the ladder without a stack: for each bucket of a
-- level, from the newest on, open it, walk through its children if the callback asks for them, and
-- close it.
use hashiverse.Prelude.{
  ℕ, zero, suc, ◌+◌, ◌-◌, ◌*◌, ◌/◌, min, leb, if◌then◌else◌, Bool, true, false, List, [], ◌∷◌,
  Result, ok, err, panic, missing,
}
use hashiverse.Prelude.Int.{pos}
use hashiverse.Visitor.{OpenResult, CloseResult, Callbacks}

-- The newest child of the bucket that begins at `t` with the duration `d`, and how many there are
-- besides it.
unfoldable pub first_child : ℕ → ℕ → ℕ → List ℕ → ℕ
first_child max t d [] = t
first_child max t d (d' ∷ ds) = min (max / d' * d') (t + d - d')

unfoldable pub more_children : ℕ → ℕ → ℕ → List ℕ → ℕ
unfolding first_child
more_children max t d [] = 0
more_children max t d (d' ∷ ds) = (first_child max t d (d' ∷ ds) - t) / d'

module _ {St : Type 0} where
  -- A walk that was stopped, or has failed, goes no further.
  unfoldable pub and_then : Result (St × Bool) → (St → Result (St × Bool)) → Result (St × Bool)
  and_then panic next = panic
  and_then (err e) next = err e
  and_then (ok (s, false)) next = ok (s, false)
  and_then (ok (s, true)) next = next s

  unfoldable pub after_open :
      Result (St × OpenResult)
      → (St → Result (St × Bool))
      → (St → Result (St × Bool))
      → Result (St × Bool)
  after_open panic inner close = panic
  after_open (err e) inner close = err e
  after_open (ok (s, OpenResult.stop)) inner close = ok (s, false)
  after_open (ok (s, OpenResult.continue_without_children)) inner close = close s
  after_open (ok (s, OpenResult.continue_with_children)) inner close = and_then (inner s) close

  unfoldable pub after_close : Result (St × CloseResult) → Result (St × Bool)
  after_close panic = panic
  after_close (err e) = err e
  after_close (ok (s, CloseResult.stop)) = ok (s, false)
  after_close (ok (s, CloseResult.continue)) = ok (s, true)

  module _ (C : Callbacks St) (max : ℕ) where
    open C use {on_open, on_close}

    -- So many buckets of the first duration, the newest of which begins at `t`; those that do not
    -- begin before `max` are passed over.
    unfoldable pub walk : List ℕ → ℕ → ℕ → St → Result (St × Bool)
    unfolding and_then after_open after_close
    walk [] n t s = ok (s, true)
    walk (d ∷ ds) zero t s = ok (s, true)
    walk (d ∷ ds) (suc n) t s =
        let older = walk (d ∷ ds) n (t - d) in
        let inner = walk ds (suc (more_children max t d ds)) (first_child max t d ds) in
        if leb max t
        then older s
        else and_then
            (after_open (on_open s (pos t) d) inner
              (λ (s' : St). after_close (on_close s' (pos t) d)))
            older

    -- All buckets of the first duration from that of `max` back to that of `min`.
    unfoldable pub walk_all : List ℕ → ℕ → St → Result (St × Bool)
    unfolding walk
    walk_all [] min s = err missing
    walk_all (d ∷ ds) min s = walk (d ∷ ds) (suc ((max / d * d - min / d * d) / d)) (max / d * d) s
