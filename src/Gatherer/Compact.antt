-- ===== src/Gatherer/Compact.antt =====
-- `compact`: what it keeps, and what it merges.
use mathlib.Core.List.{append-nil, append_assoc}
use hashiverse.Prelude.{
  ℕ, ◌≡◌, refl, sym, ◌∙◌, ◌≢◌, List, [], ◌∷◌, ◌++◌, length, flatten, ltb, Bool, true, false,
  Bool-cases, inl, inr, All, All-append,
}
use hashiverse.Gatherer.{
  BytesGatherer, flush, put_bytes, put_bytes_gatherer, put_slice, put_u8, put_u16, put_u16_le,
  put_u32, put_u32_le, put_u64, compact, compact_loop, push_acc, finish, to_bytes,
}
use hashiverse.Gatherer.Contents.{
  contents, flatten-append, flatten-finish, to_bytes-contents, Put, apply, run,
}

push_acc-append : (out : List (List ℕ)) (acc : List ℕ) → push_acc out acc ≡ out ++ push_acc [] acc
unfolding push_acc
push_acc-append out [] = sym (append-nil out)
push_acc-append out (b ∷ acc) = refl

flatten-push_acc : (acc : List ℕ) → flatten (push_acc [] acc) ≡ acc
unfolding push_acc flatten
flatten-push_acc [] = refl
flatten-push_acc (b ∷ acc) = append-nil (b ∷ acc)

compact_loop-append :
    (t : ℕ) (segs out : List (List ℕ)) (acc : List ℕ)
    → compact_loop t segs out acc ≡ out ++ compact_loop t segs [] acc
unfolding compact_loop
compact_loop-append t [] out acc = push_acc-append out acc
compact_loop-append t (seg ∷ segs) out acc = elim (Bool-cases (ltb (length seg) t)) [
  | inl small ↦ rw small (compact_loop-append t segs out (acc ++ seg))
  | inr large ↦
      rw
        (
          large,
          compact_loop-append t segs (push_acc out acc ++ seg ∷ []) [],
          compact_loop-append t segs (push_acc [] acc ++ seg ∷ []) [],
          push_acc-append out acc,
        )
        (simp append_assoc)
]

loop_small :
    (t : ℕ) (seg : List ℕ) (segs : List (List ℕ)) (acc : List ℕ)
    → ltb (length seg) t ≡ true
    → compact_loop t (seg ∷ segs) [] acc ≡ compact_loop t segs [] (acc ++ seg)
unfolding compact_loop
loop_small t seg segs acc small = rw small

loop_large :
    (t : ℕ) (seg : List ℕ) (segs : List (List ℕ)) (acc : List ℕ)
    → ltb (length seg) t ≡ false
    → compact_loop t (seg ∷ segs) [] acc ≡ push_acc [] acc ++ (seg ∷ compact_loop t segs [] [])
unfolding compact_loop
loop_large t seg segs acc large =
    rw (large, compact_loop-append t segs (push_acc [] acc ++ seg ∷ []) []) (simp append_assoc)

flatten-compact_loop :
    (t : ℕ) (segs : List (List ℕ)) (acc : List ℕ)
    → flatten (compact_loop t segs [] acc) ≡ acc ++ flatten segs
unfolding flatten
flatten-compact_loop t [] acc = unfold compact_loop in flatten-push_acc acc ∙ sym (append-nil acc)
flatten-compact_loop t (seg ∷ segs) acc = elim (Bool-cases (ltb (length seg) t)) [
  | inl small ↦
      rw (loop_small t seg segs acc small, flatten-compact_loop t segs (acc ++ seg))
        (append_assoc acc seg (flatten segs))
  | inr large ↦
      rw
        (
          loop_large t seg segs acc large,
          flatten-append (push_acc [] acc) (seg ∷ compact_loop t segs [] []),
          flatten-push_acc acc,
          flatten-compact_loop t segs [],
        )
        refl
]

-- For every gatherer and threshold, `to_bytes` gives the same bytes after `compact` as before.
pub to_bytes-compact : (g : BytesGatherer) (t : ℕ) → to_bytes (compact g t) ≡ to_bytes g
unfolding compact
to_bytes-compact g t =
    to_bytes-contents (compact g t)
    ∙ unfold contents in
      append-nil (flatten (compact_loop t (flush g).segments [] []))
      ∙ flatten-compact_loop t (flush g).segments []
      ∙ unfold finish in flatten-finish g ∙ sym (to_bytes-contents g)

-- No segment is empty, and none below the threshold follows another such.
abbrev pub IsCompact : ℕ → Bool → List (List ℕ) → Type 0
IsCompact t after_small [] = Unit
IsCompact t after_small (seg ∷ segs) =
    (seg ≢ [])
    × (after_small ≡ true → ltb (length seg) t ≡ false)
    × IsCompact t (ltb (length seg) t) segs

IsCompact-mono :
    (t : ℕ) (s : Bool) (segs : List (List ℕ)) → IsCompact t true segs → IsCompact t s segs
IsCompact-mono t s [] h = tt
IsCompact-mono t s (seg ∷ segs) h = (h.0, λ _. h.1 refl, h.2)

abbrev pub IsFilled : List (List ℕ) → Type 0
IsFilled = All (λ s. s ≢ [])

push_acc-IsCompact :
    (t : ℕ) (acc : List ℕ) (segs : List (List ℕ))
    → IsCompact t true segs
    → IsCompact t false (push_acc [] acc ++ segs)
unfolding push_acc
push_acc-IsCompact t [] segs h = IsCompact-mono t false segs h
push_acc-IsCompact t (b ∷ acc) segs h =
    (λ e. cc, λ e. cc, IsCompact-mono t (ltb (length (b ∷ acc)) t) segs h)

push_acc_end-IsCompact : (t : ℕ) (acc : List ℕ) → IsCompact t false (push_acc [] acc)
unfolding push_acc
push_acc_end-IsCompact t [] = tt
push_acc_end-IsCompact t (b ∷ acc) = (λ e. cc, λ e. cc, tt)

compact_loop-IsCompact :
    (t : ℕ) (segs : List (List ℕ)) (acc : List ℕ)
    → IsFilled segs
    → IsCompact t false (compact_loop t segs [] acc)
compact_loop-IsCompact t [] acc h = unfold compact_loop in push_acc_end-IsCompact t acc
compact_loop-IsCompact t (seg ∷ segs) acc h = elim (Bool-cases (ltb (length seg) t)) [
  | inl small ↦
      rw (loop_small t seg segs acc small) (compact_loop-IsCompact t segs (acc ++ seg) h.1)
  | inr large ↦ rw (loop_large t seg segs acc large) (
      push_acc-IsCompact t acc (seg ∷ compact_loop t segs [] [])
        (h.0, λ _. large, rw large (compact_loop-IsCompact t segs [] h.1)))
]

IsFilled-flush :
    (segs : List (List ℕ)) (cur : List ℕ)
    → IsFilled segs
    → IsFilled (flush (record { segments = segs; current = cur })).segments
unfolding flush
IsFilled-flush segs [] h = h
IsFilled-flush segs (b ∷ cur) h = All-append (λ s. s ≢ []) segs _ h ((λ e. cc), tt)

put_bytes-IsFilled :
    (g : BytesGatherer) (s : List ℕ) → IsFilled g.segments → IsFilled (put_bytes g s).segments
unfolding put_bytes
put_bytes-IsFilled g [] h = h
put_bytes-IsFilled g (b ∷ s) h =
    All-append (λ s. s ≢ []) (flush g).segments _ (IsFilled-flush g.segments g.current h)
      ((λ e. cc), tt)

put_bytes_gatherer-IsFilled :
    (g : BytesGatherer) (segs : List (List ℕ)) (cur : List ℕ)
    → IsFilled g.segments
    → IsFilled segs
    → IsFilled (put_bytes_gatherer g (record { segments = segs; current = cur })).segments
unfolding put_bytes_gatherer
put_bytes_gatherer-IsFilled g [] [] h k = h
put_bytes_gatherer-IsFilled g [] (b ∷ cur) h k = h
put_bytes_gatherer-IsFilled g (seg ∷ segs) cur h k =
    All-append (λ s. s ≢ []) (flush g).segments _ (IsFilled-flush g.segments g.current h)
      (IsFilled-flush (seg ∷ segs) cur k)

-- If no segment of a gatherer is empty, then after `compact` no segment is empty and no two
-- neighbouring segments are both below the threshold.
pub compact-IsCompact :
    (g : BytesGatherer) (t : ℕ) → IsFilled g.segments → IsCompact t false (compact g t).segments
unfolding compact
compact-IsCompact g t h =
    compact_loop-IsCompact t (flush g).segments [] (IsFilled-flush g.segments g.current h)

-- The calls whose gatherers are themselves filled.
abbrev pub IsFilledPut : Put → Type 0
IsFilledPut (Put.gatherer o) = IsFilled o.segments
IsFilledPut _ = Unit

apply-IsFilled :
    (g : BytesGatherer) (p : Put)
    → IsFilled g.segments
    → IsFilledPut p
    → IsFilled (apply g p).segments
unfolding apply
apply-IsFilled g (Put.u8 v) h k = unfold put_u8 put_slice in h
apply-IsFilled g (Put.u16 v) h k = unfold put_u16 put_slice in h
apply-IsFilled g (Put.u16_le v) h k = unfold put_u16_le put_slice in h
apply-IsFilled g (Put.u32 v) h k = unfold put_u32 put_slice in h
apply-IsFilled g (Put.u32_le v) h k = unfold put_u32_le put_slice in h
apply-IsFilled g (Put.u64 v) h k = unfold put_u64 put_slice in h
apply-IsFilled g (Put.slice s) h k = unfold put_slice in h
apply-IsFilled g (Put.bytes s) h k = put_bytes-IsFilled g s h
apply-IsFilled g (Put.gatherer o) h k = put_bytes_gatherer-IsFilled g o.segments o.current h k

-- No sequence of calls leaves an empty segment behind.
pub run-IsFilled :
    (g : BytesGatherer) (ps : List Put)
    → IsFilled g.segments
    → All IsFilledPut ps
    → IsFilled (run g ps).segments
unfolding run
run-IsFilled g [] h k = h
run-IsFilled g (p ∷ ps) h k = run-IsFilled (apply g p) ps (apply-IsFilled g p h k.0) k.1
