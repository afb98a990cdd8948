-- ===== src/Visitor/Steps.antt =====
-- What some frames of the stack come to, in some number of rounds of the loop.
use hashiverse.Prelude.{
  ℕ, zero, suc, ◌≡◌, refl, ap, ◌∙◌, Bool, true, false, Option, some, List, ◌∷◌, Result, ok, err,
  panic, Error,
}
use hashiverse.Prelude.Int.{ℤ, leb_ℤ}
use hashiverse.Visitor.{
  OpenResult, CloseResult, Callbacks, Frame, open_frame, close_frame, running, stopped, sibling,
  children, index, opened, closed, round, pump,
}
use hashiverse.Visitor.Walk.{and_then, after_open, after_close}

-- So many rounds besides the `f` that are left.
abbrev pub rounds_and : ℕ → ℕ → ℕ
rounds_and zero f = f
rounds_and (suc k) f = suc (rounds_and k f)

pub rounds_and_assoc : (j k f : ℕ) → rounds_and (rounds_and j k) f ≡ rounds_and j (rounds_and k f)
rounds_and_assoc zero k f = refl
rounds_and_assoc (suc j) k f = ap suc (rounds_and_assoc j k f)

module _ (durations : List ℕ) (max_exclusive : ℤ) {St : Type 0} (C : Callbacks St) where
  -- What the loop goes on to after a part of the walk.
  unfoldable pub finish : Result (St × Bool) → List Frame → ℕ → Option (Result (St × Bool))
  finish panic rest f = some panic
  finish (err e) rest f = some (err e)
  finish (ok (s, false)) rest f = some (ok (s, false))
  finish (ok (s, true)) rest f = pump durations max_exclusive C f rest s

  -- The frames above `rest` come to the result `w`, in some number of rounds.
  unfoldable pub Comes : List Frame → St → Result (St × Bool) → List Frame → Type 0
  Comes frames s w rest =
      (k : ℕ) × ((f : ℕ)
        → pump durations max_exclusive C (rounds_and k f) frames s ≡ finish w rest f)

  pub at_once : (s : St) (frames : List Frame) → Comes frames s (ok (s, true)) frames
  unfolding Comes finish
  at_once s frames = (0, λ f. refl)

  pub and_then-Comes :
      (frames mid rest : List Frame) (s : St) (w : Result (St × Bool)) (g : St → Result (St × Bool))
      → Comes frames s w mid
      → ((s' : St) → Comes mid s' (g s') rest)
      → Comes frames s (and_then w g) rest
  unfolding Comes finish and_then
  and_then-Comes frames mid rest s panic g (k, p) q = (k, p)
  and_then-Comes frames mid rest s (err e) g (k, p) q = (k, p)
  and_then-Comes frames mid rest s (ok (s', false)) g (k, p) q = (k, p)
  and_then-Comes frames mid rest s (ok (s', true)) g (k, p) q = (
    rounds_and k (q s').0,
    λ f. rw (rounds_and_assoc k (q s').0 f) (p (rounds_and (q s').0 f) ∙ (q s').1 f),
  )

  -- One round.
  running-Comes :
      (frame : Frame) (frames frames' rest : List Frame) (s s' : St) (w : Result (St × Bool))
      → round durations max_exclusive C frame frames s ≡ ok (running s' frames')
      → Comes frames' s' w rest
      → Comes (frame ∷ frames) s w rest
  unfolding Comes pump
  running-Comes frame frames frames' rest s s' w e (k, p) = (suc k, λ f. rw (e, pump) (p f))

  stopped-Comes :
      (frame : Frame) (frames rest : List Frame) (s s' : St)
      → round durations max_exclusive C frame frames s ≡ ok (stopped s')
      → Comes (frame ∷ frames) s (ok (s', false)) rest
  unfolding Comes pump finish
  stopped-Comes frame frames rest s s' e = (1, λ f. rw (e, pump) refl)

  panic-Comes :
      (frame : Frame) (frames rest : List Frame) (s : St)
      → round durations max_exclusive C frame frames s ≡ panic
      → Comes (frame ∷ frames) s panic rest
  unfolding Comes pump finish
  panic-Comes frame frames rest s e = (1, λ f. rw (e, pump) refl)

  err-Comes :
      (frame : Frame) (frames rest : List Frame) (s : St) (error : Error)
      → round durations max_exclusive C frame frames s ≡ err error
      → Comes (frame ∷ frames) s (err error) rest
  unfolding Comes pump finish
  err-Comes frame frames rest s error e = (1, λ f. rw (e, pump) refl)

  open C use {on_open, on_close}

  close-Comes :
      (t : ℤ) (i d : ℕ) (rest : List Frame) (s : St) (r : Result (St × CloseResult))
      → index durations i ≡ ok d
      → on_close s t d ≡ r
      → Comes (close_frame t i ∷ rest) s (after_close r) rest
  unfolding round closed after_close
  close-Comes t i d rest s panic e h = panic-Comes (close_frame t i) rest rest s (rw (e, h) refl)
  close-Comes t i d rest s (err error) e h =
      err-Comes (close_frame t i) rest rest s error (rw (e, h) refl)
  close-Comes t i d rest s (ok (s', CloseResult.stop)) e h =
      stopped-Comes (close_frame t i) rest rest s s' (rw (e, h) refl)
  close-Comes t i d rest s (ok (s', CloseResult.continue)) e h =
      running-Comes (close_frame t i) rest rest rest s s' (ok (s', true)) (rw (e, h) refl)
        (at_once s' rest)

  -- A frame that is opened: `rest` are the frames below it once its sibling is pushed.
  pub open-Comes :
      (t oldest : ℤ) (i d : ℕ) (frames rest inside : List Frame) (s : St)
      (r : Result (St × OpenResult)) (inner : St → Result (St × Bool))
      → index durations i ≡ ok d
      → leb_ℤ max_exclusive t ≡ false
      → sibling t d i oldest frames ≡ rest
      → children durations max_exclusive t d i (close_frame t i ∷ rest) ≡ ok inside
      → ((s' : St) → Comes inside s' (inner s') (close_frame t i ∷ rest))
      → on_open s t d ≡ r
      → Comes
          (open_frame t i oldest ∷ frames)
          s
          (after_open r inner (λ (s' : St). after_close (on_close s' t d)))
          rest
  unfolding round opened after_open
  open-Comes t oldest i d frames rest inside s panic inner e n sib ch p h =
      panic-Comes (open_frame t i oldest) frames rest s (rw (e, n, h) refl)
  open-Comes t oldest i d frames rest inside s (err error) inner e n sib ch p h =
      err-Comes (open_frame t i oldest) frames rest s error (rw (e, n, h) refl)
  open-Comes t oldest i d frames rest inside s (ok (s', OpenResult.stop)) inner e n sib ch p h =
      stopped-Comes (open_frame t i oldest) frames rest s s' (rw (e, n, h) refl)
  open-Comes t oldest i d frames rest inside s (ok (s', OpenResult.continue_without_children)) inner
        e n sib ch p h =
      running-Comes (open_frame t i oldest) frames (close_frame t i ∷ rest) rest s s'
        (after_close (on_close s' t d)) (rw (e, n, h, sib) refl)
        (close-Comes t i d rest s' (on_close s' t d) e refl)
  open-Comes t oldest i d frames rest inside s (ok (s', OpenResult.continue_with_children)) inner e
        n sib ch p h =
      running-Comes (open_frame t i oldest) frames inside rest s s'
        (and_then (inner s') (λ (s' : St). after_close (on_close s' t d)))
        (rw (e, n, h, sib, ch) refl)
        (and_then-Comes inside (close_frame t i ∷ rest) rest s' (inner s')
          (λ (s' : St). after_close (on_close s' t d)) (p s')
          (λ s''. close-Comes t i d rest s'' (on_close s'' t d) e refl))

  -- A frame that is passed over.
  pub skip-Comes :
      (t oldest : ℤ) (i d : ℕ) (frames rest rest' : List Frame) (s : St) (w : Result (St × Bool))
      → index durations i ≡ ok d
      → leb_ℤ max_exclusive t ≡ true
      → sibling t d i oldest frames ≡ rest'
      → Comes rest' s w rest
      → Comes (open_frame t i oldest ∷ frames) s w rest
  unfolding round
  skip-Comes t oldest i d frames rest rest' s w e n sib p =
      running-Comes (open_frame t i oldest) frames rest' rest s s w (rw (e, n, sib) refl) p
