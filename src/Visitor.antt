-- ===== src/Visitor.antt =====
-- The depth-first walk over the ladder of buckets,
-- hashiverse-rust/hashiverse-lib/src/client/timeline/recursive_bucket_visitor.rs. The callbacks are
-- asynchronous closures that may change what they hold and may fail: functions on a state.
pub mod Walk
mod Ladder
mod Steps
mod Levels
pub mod Ends
pub mod Opened
mod Examples
use hashiverse.Prelude.{
  ℕ, zero, suc, ◌+◌, ltb, if◌then◌else◌, Bool, true, false, Option, none, some, List, [], ◌∷◌, ◌++◌,
  length, get_elem?, Result, ok, err, panic, Error, missing, ensure, ◌>>=◌, ◌>>◌, not,
}
use hashiverse.Prelude.Int.{ℤ, pos, leb_ℤ}
use hashiverse.Time.{add_duration, sub_duration}
use hashiverse.Buckets.{round_down_to_bucket_start}

pub data OpenResult : Type 0 where
  continue_with_children continue_without_children stop : OpenResult

pub data CloseResult : Type 0 where
  continue stop : CloseResult

-- An open frame has a time, the index of a duration, and the oldest time allowed.
pub data Frame : Type 0 where
  open_frame : ℤ → ℕ → ℤ → Frame
  close_frame : ℤ → ℕ → Frame

abbrev pub min_ℤ : ℤ → ℤ → ℤ
min_ℤ a b = if leb_ℤ a b then a else b

unfoldable pub is_empty_list {ℓ} : {A : Type ℓ} → List A → Bool
is_empty_list [] = true
is_empty_list (x ∷ xs) = false

-- An index out of range panics.
unfoldable pub index_of : Option ℕ → Result ℕ
index_of none = panic
index_of (some d) = ok d

unfoldable pub index : List ℕ → ℕ → Result ℕ
unfolding index_of
index ds i = index_of (get_elem? ds i)

pub record Callbacks (St : Type 0) : Type 0 where
  pub on_open : St → ℤ → ℕ → Result (St × OpenResult)
  pub on_close : St → ℤ → ℕ → Result (St × CloseResult)

-- What a round of the loop comes to: `return Ok(false)`, or the frames that are left.
pub data Round (St : Type 0) : Type 0 where
  stopped : St → Round St
  running : St → List Frame → Round St

unfoldable pub sibling : ℤ → ℕ → ℕ → ℤ → List Frame → List Frame
sibling t d i oldest frames =
    if leb_ℤ oldest (sub_duration t (pos d))
    then open_frame (sub_duration t (pos d)) i oldest ∷ frames
    else frames

module _ (durations : List ℕ) (max_exclusive : ℤ) where
  unfoldable pub children : ℤ → ℕ → ℕ → List Frame → Result (List Frame)
  unfolding index
  children t d i frames =
      if ltb (i + 1) (length durations)
      then (do
        d' ← index durations (i + 1)
        top ← round_down_to_bucket_start max_exclusive d'
        ok (
            open_frame (min_ℤ top (sub_duration (add_duration t (pos d)) (pos d'))) (i + 1) t
            ∷ frames))
      else ok frames

  module _ {St : Type 0} (C : Callbacks St) where
    open C use {on_open, on_close}

    unfoldable pub opened : ℤ → ℕ → ℕ → List Frame → St × OpenResult → Result (Round St)
    unfolding children
    opened t d i frames (s, OpenResult.stop) = ok (stopped s)
    opened t d i frames (s, continue_without_children) = ok (running s (close_frame t i ∷ frames))
    opened t d i frames (s, continue_with_children) = do
      frames' ← children t d i (close_frame t i ∷ frames)
      ok (running s frames')

    unfoldable pub closed : List Frame → St × CloseResult → Result (Round St)
    closed frames (s, CloseResult.stop) = ok (stopped s)
    closed frames (s, continue) = ok (running s frames)

    unfoldable pub round : Frame → List Frame → St → Result (Round St)
    unfolding opened closed sibling index
    round (close_frame t i) frames s = do d ← index durations i; r ← on_close s t d; closed frames r
    round (open_frame t i oldest) frames s = do
      d ← index durations i
      (let frames' = sibling t d i oldest frames in
          if leb_ℤ max_exclusive t
          then ok (running s frames')
          else (do r ← on_open s t d; opened t d i frames' r))

    -- The loop, for so many rounds; `none` if they are not enough.
    unfoldable pub pump : ℕ → List Frame → St → Option (Result (St × Bool))
    unfolding round
    pump zero frames s = none
    pump (suc rounds) [] s = some (ok (s, true))
    pump (suc rounds) (frame ∷ frames) s = elim (round frame frames s) [
      | panic ↦ some panic
      | err e ↦ some (err e)
      | ok r ↦ elim r [
        | stopped s' ↦ some (ok (s', false))
        | running s' frames' ↦ pump rounds frames' s'
      ]
    ]

    -- The stack that the loop starts with.
    unfoldable pub primed : ℤ → Result (List Frame)
    unfolding index
    primed min = do
      ensure (not (is_empty_list durations)) missing
      d ← index durations 0
      latest ← round_down_to_bucket_start max_exclusive d
      oldest ← round_down_to_bucket_start min d
      ok (open_frame latest 0 oldest ∷ [])

    unfoldable pub started : ℕ → St → Result (List Frame) → Option (Result (St × Bool))
    unfolding pump
    started rounds s panic = some panic
    started rounds s (err e) = some (err e)
    started rounds s (ok frames) = pump rounds frames s

    unfoldable pub visit : ℕ → ℤ → St → Option (Result (St × Bool))
    unfolding started primed
    visit rounds min s = started rounds s (primed min)
