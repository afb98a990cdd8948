-- ===== src/Visitor/Levels.antt =====
-- What the frames of a level of the ladder come to: the recursion over the ladder.
use native.Mathlib.Nat.{div-mul-le_self}
use hashiverse.Prelude.{
  ℕ, zero, suc, ◌+◌, ◌-◌, ◌*◌, ◌/◌, ◌^◌, ◌≤◌, ◌<◌, ◌≡◌, refl, ◌∙◌, arith, leb, if◌then◌else◌, Bool,
  Bool-cases, inl, inr, List, [], ◌∷◌, drop, Result, ok,
}
use hashiverse.Prelude.Int.{pos}
use hashiverse.Buckets.Start.{start_pos}
use hashiverse.Visitor.{Callbacks, Frame, open_frame, close_frame, sibling, children, index}
use hashiverse.Visitor.Walk.{first_child, more_children, and_then, after_open, after_close, walk}
use hashiverse.Visitor.Ladder.{
  Falls, Falls-head, not_before, sibling-some, sibling-none, child_time, one_fewer, some_left,
  none_left, index-drop, drop-next_one, is_last, is_not_last,
}
use hashiverse.Visitor.Steps.{Comes, at_once, and_then-Comes, open-Comes, skip-Comes}

module _ (durations : List ℕ) (max : ℕ) {St : Type 0} (C : Callbacks St) where
  open C use {on_open, on_close}

  -- One bucket of a level and those after it.
  level-Comes :
      (t o i d : ℕ) (frames rest' rest inside : List Frame) (s : St)
      (older inner : St → Result (St × Bool))
      → index durations i ≡ ok d
      → sibling (pos t) d i (pos o) frames ≡ rest'
      → (t < max
          → (children durations (pos max) (pos t) d i (close_frame (pos t) i ∷ rest') ≡ ok inside)
            × ((s' : St)
                → Comes durations (pos max) C inside s' (inner s') (close_frame (pos t) i ∷ rest')))
      → ((s' : St) → Comes durations (pos max) C rest' s' (older s') rest)
      → Comes durations
          (pos max)
          C
          (open_frame (pos t) i (pos o) ∷ frames)
          s
          (if leb max t
            then older s
            else and_then
                (after_open
                  (on_open s (pos t) d)
                  inner
                  (λ (s' : St). after_close (on_close s' (pos t) d)))
                older)
          rest
  level-Comes t o i d frames rest' rest inside s older inner e sib kids p =
      elim (Bool-cases (leb max t)) [
        | inl h ↦ rw h (
            skip-Comes durations (pos max) C (pos t) (pos o) i d frames rest rest' s (older s) e
              (not_before max t ∙ h) sib (p s))
        | inr h ↦ rw h (
            and_then-Comes durations (pos max) C (open_frame (pos t) i (pos o) ∷ frames) rest' rest
              s _ older
              (open-Comes durations (pos max) C (pos t) (pos o) i d frames rest' inside s
                (on_open s (pos t) d) inner e (not_before max t ∙ h) sib (kids (ground arith)).0
                (kids (ground arith)).1 refl)
              p)
      ]

  children-none :
      (t d i : ℕ) (frames : List Frame)
      → drop i durations ≡ d ∷ []
      → children durations (pos max) (pos t) d i frames ≡ ok frames
  unfolding children
  children-none t d i frames h = rw (is_last durations i d h) refl

  children-some :
      (t d d' i : ℕ) (ds : List ℕ) (frames : List Frame)
      → drop i durations ≡ d ∷ d' ∷ ds
      → 0 < d'
      → d' ≤ d
      → t + d < 2 ^ 63
      → children durations (pos max) (pos t) d i frames
        ≡ ok (open_frame (pos (first_child max t d (d' ∷ ds))) (i + 1) (pos t) ∷ frames)
  unfolding children first_child
  children-some t d d' i ds frames h p q k =
      rw
        (
          is_not_last durations ds i d d' h,
          index-drop durations ds (i + 1) d' (drop-next_one durations (d' ∷ ds) i d h),
          start_pos max d' p,
          child_time (max / d' * d') t d d' k q,
        )
        refl

  walk_step :
      (ds : List ℕ) (n t d : ℕ) (s : St)
      → walk C max (d ∷ ds) (suc n) t s ≡ (
          if leb max t
          then walk C max (d ∷ ds) n (t - d) s
          else and_then
              (after_open
                (on_open s (pos t) d)
                (walk C max ds (suc (more_children max t d ds)) (first_child max t d ds))
                (λ (s' : St). after_close (on_close s' (pos t) d)))
              (walk C max (d ∷ ds) n (t - d)))
  unfolding walk
  walk_step ds n t d s = refl

  -- What comes of the children that a bucket pushes.
  KidsCome : ℕ → ℕ → ℕ → List ℕ → List Frame → Type 0
  KidsCome t d i ds frames =
      (inside : List Frame) × (children durations (pos max) (pos t) d i frames ≡ ok inside)
      × ((s' : St)
          → Comes durations (pos max) C inside s'
              (walk C max ds (suc (more_children max t d ds)) (first_child max t d ds) s') frames)

  last-KidsCome :
      (t d i : ℕ) (frames : List Frame) → drop i durations ≡ d ∷ [] → KidsCome t d i [] frames
  unfolding KidsCome walk
  last-KidsCome t d i frames at =
      (frames, children-none t d i frames at, λ s'. at_once durations (pos max) C s' frames)

  -- One bucket and what comes of its children and of those after it.
  bucket-Comes :
      (ds : List ℕ) (n t o i d : ℕ) (rest rest' : List Frame) (s : St)
      → drop i durations ≡ d ∷ ds
      → sibling (pos t) d i (pos o) rest ≡ rest'
      → KidsCome t d i ds (close_frame (pos t) i ∷ rest')
      → ((s' : St) → Comes durations (pos max) C rest' s' (walk C max (d ∷ ds) n (t - d) s') rest)
      → Comes durations
          (pos max)
          C
          (open_frame (pos t) i (pos o) ∷ rest)
          s
          (walk C max (d ∷ ds) (suc n) t s)
          rest
  unfolding KidsCome
  bucket-Comes ds n t o i d rest rest' s at sib (inside, e, kids) p = rw (walk_step ds n t d s) (
      level-Comes t o i d rest rest' rest inside s (walk C max (d ∷ ds) n (t - d))
        (walk C max ds (suc (more_children max t d ds)) (first_child max t d ds))
        (index-drop durations ds i d at) sib (λ h. (e, kids)) p)

  none-Comes :
      (ds : List ℕ) (t d : ℕ) (rest : List Frame) (s : St)
      → Comes durations (pos max) C rest s (walk C max (d ∷ ds) zero t s) rest
  unfolding walk
  none-Comes ds t d rest s = at_once durations (pos max) C s rest

  first_child-le : (t d d' : ℕ) (ds : List ℕ) → first_child max t d (d' ∷ ds) ≤ max
  unfolding first_child
  first_child-le t d d' ds = omega (arith, div-mul-le_self max d')

  -- The frames of the siblings of a level.
  siblings-Comes :
      (ds : List ℕ) (m t o i d : ℕ) (rest : List Frame) (s : St)
      → drop i durations ≡ d ∷ ds
      → (0 < d) × (max + d < 2 ^ 63)
      → t ≤ max
      → (t - o) / d ≡ m
      → ((t' : ℕ) (frames : List Frame) → t' ≤ max → KidsCome t' d i ds frames)
      → Comes durations
          (pos max)
          C
          (open_frame (pos t) i (pos o) ∷ rest)
          s
          (walk C max (d ∷ ds) (suc m) t s)
          rest
  siblings-Comes ds zero t o i d rest s at f b e kids =
      bucket-Comes ds zero t o i d rest rest s at
        (sibling-none o t d i rest (none_left t o d f.0 e) (omega (arith, f.1)))
        (kids t (close_frame (pos t) i ∷ rest) b) (λ s'. none-Comes ds (t - d) d rest s')
  siblings-Comes ds (suc m) t o i d rest s at f b e kids =
      bucket-Comes ds (suc m) t o i d rest (open_frame (pos (t - d)) i (pos o) ∷ rest) s at
        (sibling-some o t d i rest (some_left t o d m f.0 e) (omega (arith, f.1)))
        (kids t (close_frame (pos t) i ∷ open_frame (pos (t - d)) i (pos o) ∷ rest) b)
        (λ s'.
          siblings-Comes ds m (t - d) o i d rest s' at f (omega arith) (one_fewer t o d m f.0 e)
            kids)

  -- Every level.
  pub walk-Comes :
      (ds : List ℕ) (m t o i d : ℕ) (rest : List Frame) (s : St)
      → drop i durations ≡ d ∷ ds
      → Falls max (d ∷ ds)
      → t ≤ max
      → (t - o) / d ≡ m
      → Comes durations
          (pos max)
          C
          (open_frame (pos t) i (pos o) ∷ rest)
          s
          (walk C max (d ∷ ds) (suc m) t s)
          rest
  unfolding Falls KidsCome more_children first_child
  walk-Comes [] m t o i d rest s at f b e =
      siblings-Comes [] m t o i d rest s at f b e (λ t' frames b'. last-KidsCome t' d i frames at)
  walk-Comes (d' ∷ ds) m t o i d rest s at f b e =
      siblings-Comes (d' ∷ ds) m t o i d rest s at (f.0, f.1) b e
        (λ t' frames b'. (
          open_frame (pos (first_child max t' d (d' ∷ ds))) (i + 1) (pos t') ∷ frames,
          children-some t' d d' i ds frames at (Falls-head max d' ds f.3).0 f.2
              (omega (arith, f.1)),
          λ s'.
              walk-Comes ds (more_children max t' d (d' ∷ ds)) (first_child max t' d (d' ∷ ds)) t'
                (i + 1) d' frames s' (drop-next_one durations (d' ∷ ds) i d at) f.3
                (first_child-le t' d d' ds) refl,
        ))
