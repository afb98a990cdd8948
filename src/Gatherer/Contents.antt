-- ===== src/Gatherer/Contents.antt =====
-- What a gatherer holds, as one byte string, and that every operation appends to it.
use mathlib.Core.List.{append-nil, append_assoc}
use hashiverse.Prelude.{
  ℕ, ◌≡◌, refl, sym, ap, ◌∙◌, arith, List, [], ◌∷◌, ◌++◌, length, length-append, flatten,
  to_be_bytes, reverse, true, Bool-cases, inl, inr,
}
use hashiverse.Gatherer.{
  BytesGatherer, default, flush, is_empty_bytes, put_slice, put_u8, put_u16, put_u32, put_u64,
  put_u16_le, put_u32_le, put_bytes, put_bytes_gatherer, len, sum_of_lengths, to_bytes, bytes_of,
  extend_all, finish,
}

pub flatten-append : (xs ys : List (List ℕ)) → flatten (xs ++ ys) ≡ flatten xs ++ flatten ys
unfolding flatten
flatten-append [] ys = refl
flatten-append (x ∷ xs) ys =
    rw (flatten-append xs ys) (sym (append_assoc x (flatten xs) (flatten ys)))

pub flatten_snoc : (xs : List (List ℕ)) (x : List ℕ) → flatten (xs ++ x ∷ []) ≡ flatten xs ++ x
unfolding flatten
flatten_snoc xs x = rw (flatten-append xs (x ∷ []), append-nil x)

unfoldable pub contents : BytesGatherer → List ℕ
contents g = flatten g.segments ++ g.current

pub empty_of_is_empty {ℓ} : {A : Type ℓ} (b : List A) → is_empty_bytes b ≡ true → b ≡ []
unfolding is_empty_bytes
empty_of_is_empty [] h = refl
empty_of_is_empty (x ∷ b) h = cc

flush_cases :
    (segs : List (List ℕ)) (cur : List ℕ)
    → flatten (flush (record { segments = segs; current = cur })).segments ≡ flatten segs ++ cur
unfolding flush
flush_cases segs [] = sym (append-nil (flatten segs))
flush_cases segs (b ∷ cur) = flatten_snoc segs (b ∷ cur)

pub flatten-finish : (g : BytesGatherer) → flatten (finish g) ≡ contents g
unfolding finish contents
flatten-finish g = flush_cases g.segments g.current

current-flush : (g : BytesGatherer) → (flush g).current ≡ []
unfolding flush
current-flush g = elim (Bool-cases (is_empty_bytes g.current)) [
  | inl e ↦ rw e (empty_of_is_empty g.current e)
  | inr e ↦ rw e
]

contents-put_slice : (g : BytesGatherer) (s : List ℕ) → contents (put_slice g s) ≡ contents g ++ s
unfolding contents put_slice
contents-put_slice g s = sym (append_assoc (flatten g.segments) g.current s)

-- What is pushed behind a flush comes last.
push_behind :
    (g : BytesGatherer) (xs : List (List ℕ))
    → contents (record { segments = (flush g).segments ++ xs; current = (flush g).current })
      ≡ contents g ++ flatten xs
unfolding contents
push_behind g xs =
    rw
      (
        current-flush g,
        append-nil (flatten ((flush g).segments ++ xs)),
        flatten-append (flush g).segments xs,
        flush_cases g.segments g.current,
      )
      refl

contents-put_bytes : (g : BytesGatherer) (s : List ℕ) → contents (put_bytes g s) ≡ contents g ++ s
unfolding put_bytes flatten
contents-put_bytes g [] = sym (append-nil (contents g))
contents-put_bytes g (b ∷ s) =
    push_behind g ((b ∷ s) ∷ []) ∙ ap (◌++◌ (contents g)) (flatten_snoc [] (b ∷ s))

contents-absorb :
    (g : BytesGatherer) (cur : List ℕ)
    → contents (put_bytes_gatherer g (record { segments = []; current = cur })) ≡ contents g ++ cur
unfolding put_bytes_gatherer contents
contents-absorb g [] = sym (append-nil (contents g))
contents-absorb g (b ∷ cur) = sym (append_assoc (flatten g.segments) g.current (b ∷ cur))

contents-merge :
    (g : BytesGatherer) (seg : List ℕ) (segs : List (List ℕ)) (cur : List ℕ)
    → let other : BytesGatherer = record { segments = seg ∷ segs; current = cur } in
      contents (put_bytes_gatherer g other) ≡ contents g ++ contents other
unfolding put_bytes_gatherer
contents-merge g seg segs cur =
    push_behind g (flush (record { segments = seg ∷ segs; current = cur })).segments
    ∙ ap (◌++◌ (contents g)) (flush_cases (seg ∷ segs) cur ∙ unfold contents in refl)

merge_cases :
    (g : BytesGatherer) (segs : List (List ℕ)) (cur : List ℕ)
    → let other : BytesGatherer = record { segments = segs; current = cur } in
      contents (put_bytes_gatherer g other) ≡ contents g ++ contents other
merge_cases g [] cur = contents-absorb g cur ∙ unfold contents flatten in refl
merge_cases g (seg ∷ segs) cur = contents-merge g seg segs cur

contents-put_bytes_gatherer :
    (g other : BytesGatherer) → contents (put_bytes_gatherer g other) ≡ contents g ++ contents other
contents-put_bytes_gatherer g other = merge_cases g other.segments other.current

extend_all-flatten :
    (segs : List (List ℕ)) (out : List ℕ) → extend_all segs out ≡ out ++ flatten segs
unfolding extend_all flatten
extend_all-flatten [] out = sym (append-nil out)
extend_all-flatten (s ∷ segs) out =
    extend_all-flatten segs (out ++ s) ∙ append_assoc out s (flatten segs)

bytes_of-flatten : (segs : List (List ℕ)) → bytes_of segs ≡ flatten segs
unfolding bytes_of flatten
bytes_of-flatten [] = refl
bytes_of-flatten (s ∷ []) = sym (append-nil s)
bytes_of-flatten (s ∷ t ∷ segs) = extend_all-flatten (s ∷ t ∷ segs) []

-- `to_bytes` hands out the contents in order, on its fast path too.
pub to_bytes-contents : (g : BytesGatherer) → to_bytes g ≡ contents g
unfolding to_bytes contents
to_bytes-contents g = bytes_of-flatten (flush g).segments ∙ flush_cases g.segments g.current

sum_of_lengths-flatten : (segs : List (List ℕ)) → sum_of_lengths segs ≡ length (flatten segs)
unfolding sum_of_lengths flatten
sum_of_lengths-flatten [] = refl
sum_of_lengths-flatten (s ∷ segs) =
    omega (arith, sum_of_lengths-flatten segs, length-append s (flatten segs))

-- `len` counts the bytes that `to_bytes` hands out.
pub len-to_bytes : (g : BytesGatherer) → len g ≡ length (to_bytes g)
unfolding len
len-to_bytes g =
    unfold contents in
    rw (to_bytes-contents g) (
      omega
        (arith, sum_of_lengths-flatten g.segments, length-append (flatten g.segments) g.current))

-- One call of a `put_…` method.
pub data Put : Type 0 where
  u8 u16 u16_le u32 u32_le u64 : ℕ → Put
  slice bytes : List ℕ → Put
  gatherer : BytesGatherer → Put

unfoldable pub apply : BytesGatherer → Put → BytesGatherer
apply g (u8 v) = put_u8 g v
apply g (u16 v) = put_u16 g v
apply g (u16_le v) = put_u16_le g v
apply g (u32 v) = put_u32 g v
apply g (u32_le v) = put_u32_le g v
apply g (u64 v) = put_u64 g v
apply g (slice s) = put_slice g s
apply g (bytes s) = put_bytes g s
apply g (gatherer o) = put_bytes_gatherer g o

-- The bytes that a call stands for on the wire.
unfoldable pub written : Put → List ℕ
written (u8 v) = v ∷ []
written (u16 v) = to_be_bytes 2 v
written (u16_le v) = reverse (to_be_bytes 2 v)
written (u32 v) = to_be_bytes 4 v
written (u32_le v) = reverse (to_be_bytes 4 v)
written (u64 v) = to_be_bytes 8 v
written (slice s) = s
written (bytes s) = s
written (gatherer o) = contents o

unfoldable pub run : BytesGatherer → List Put → BytesGatherer
unfolding apply
run g [] = g
run g (p ∷ ps) = run (apply g p) ps

unfoldable pub written_all : List Put → List ℕ
unfolding written
written_all [] = []
written_all (p ∷ ps) = written p ++ written_all ps

contents-apply : (g : BytesGatherer) (p : Put) → contents (apply g p) ≡ contents g ++ written p
unfolding apply written put_u8 put_u16 put_u16_le put_u32 put_u32_le put_u64
contents-apply g (u8 v) = contents-put_slice g _
contents-apply g (u16 v) = contents-put_slice g _
contents-apply g (u16_le v) = contents-put_slice g _
contents-apply g (u32 v) = contents-put_slice g _
contents-apply g (u32_le v) = contents-put_slice g _
contents-apply g (u64 v) = contents-put_slice g _
contents-apply g (slice s) = contents-put_slice g s
contents-apply g (bytes s) = contents-put_bytes g s
contents-apply g (gatherer o) = contents-put_bytes_gatherer g o

contents-run :
    (g : BytesGatherer) (ps : List Put) → contents (run g ps) ≡ contents g ++ written_all ps
unfolding run written_all
contents-run g [] = sym (append-nil (contents g))
contents-run g (p ∷ ps) =
    contents-run (apply g p) ps
    ∙ rw (contents-apply g p) (append_assoc (contents g) (written p) (written_all ps))

-- After any sequence of put calls on the default gatherer, copies and references mixed, `to_bytes`
-- gives the bytes of the calls, in the order of the calls.
pub to_bytes-run : (ps : List Put) → to_bytes (run default ps) ≡ written_all ps
to_bytes-run ps =
    to_bytes-contents (run default ps)
    ∙ contents-run default ps
    ∙ unfold default contents flatten in refl
