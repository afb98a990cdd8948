-- ===== src/Gatherer.antt =====
-- The scatter-gather buffer of hashiverse-rust/hashiverse-lib/src/tools/bytes_gatherer.rs. A
-- `Bytes` or `BytesMut` is the list of its bytes: sharing by reference is not part of the model.
pub mod Contents
pub mod Compact
mod Examples
use hashiverse.Prelude.{
  ℕ, ◌+◌, ltb, ◌==◌, if◌then◌else◌, Bool, ◌&&◌, true, false, List, [], ◌∷◌, ◌++◌, length,
  to_be_bytes, reverse,
}

pub record BytesGatherer : Type 0 where
  pub segments : List (List ℕ)
  pub current : List ℕ

-- `Default`.
pub default : BytesGatherer
default = record { segments = []; current = [] }

unfoldable pub is_empty_bytes {ℓ} : {A : Type ℓ} → List A → Bool
is_empty_bytes [] = true
is_empty_bytes (b ∷ bs) = false

pub flush : BytesGatherer → BytesGatherer
unfolding is_empty_bytes
flush g =
    if is_empty_bytes g.current
    then g
    else record g { segments = g.segments ++ g.current ∷ []; current = [] }

pub put_slice : BytesGatherer → List ℕ → BytesGatherer
put_slice g s = record g { current = g.current ++ s }

pub put_u8 : BytesGatherer → ℕ → BytesGatherer
unfolding put_slice
put_u8 g v = put_slice g (v ∷ [])

pub put_u16 : BytesGatherer → ℕ → BytesGatherer
unfolding put_slice
put_u16 g v = put_slice g (to_be_bytes 2 v)

pub put_u32 : BytesGatherer → ℕ → BytesGatherer
unfolding put_slice
put_u32 g v = put_slice g (to_be_bytes 4 v)

pub put_u64 : BytesGatherer → ℕ → BytesGatherer
unfolding put_slice
put_u64 g v = put_slice g (to_be_bytes 8 v)

pub put_u16_le : BytesGatherer → ℕ → BytesGatherer
unfolding put_slice
put_u16_le g v = put_slice g (reverse (to_be_bytes 2 v))

pub put_u32_le : BytesGatherer → ℕ → BytesGatherer
unfolding put_slice
put_u32_le g v = put_slice g (reverse (to_be_bytes 4 v))

pub put_bytes : BytesGatherer → List ℕ → BytesGatherer
unfolding flush
put_bytes g bytes =
    let g' = flush g in
    if is_empty_bytes bytes then g else record g' { segments = g'.segments ++ bytes ∷ [] }

pub from_bytes : List ℕ → BytesGatherer
unfolding put_bytes default
from_bytes bytes = put_bytes default bytes

-- The scratchpad of an `other` that has no segment yet joins ours.
pub put_bytes_gatherer : BytesGatherer → BytesGatherer → BytesGatherer
unfolding flush
put_bytes_gatherer g other =
    if is_empty_bytes other.segments
    then (if is_empty_bytes other.current
        then g
        else record g { current = g.current ++ other.current })
    else let other' = flush other in
      let g' = flush g in record g' { segments = g'.segments ++ other'.segments }

pub is_empty : BytesGatherer → Bool
unfolding is_empty_bytes
is_empty g = is_empty_bytes g.segments && is_empty_bytes g.current

pub sum_of_lengths : List (List ℕ) → ℕ
sum_of_lengths [] = 0
sum_of_lengths (b ∷ bs) = length b + sum_of_lengths bs

pub len : BytesGatherer → ℕ
unfolding sum_of_lengths
len g = sum_of_lengths g.segments + length g.current

-- `if !acc.is_empty() { out.push(acc.split().freeze()) }`
pub push_acc : List (List ℕ) → List ℕ → List (List ℕ)
unfolding is_empty_bytes
push_acc out acc = if is_empty_bytes acc then out else out ++ acc ∷ []

-- The loop of `compact`, over the segments that are left.
pub compact_loop : ℕ → List (List ℕ) → List (List ℕ) → List ℕ → List (List ℕ)
unfolding push_acc
compact_loop threshold [] out acc = push_acc out acc
compact_loop threshold (seg ∷ segs) out acc =
    let joined = compact_loop threshold segs out (acc ++ seg) in
    let passed = compact_loop threshold segs (push_acc out acc ++ seg ∷ []) [] in
    if ltb (length seg) threshold then joined else passed

pub compact : BytesGatherer → ℕ → BytesGatherer
unfolding flush compact_loop
compact g threshold = record {
  segments = compact_loop threshold (flush g).segments [] [];
  current = [];
}

pub finish : BytesGatherer → List (List ℕ)
unfolding flush
finish g = (flush g).segments

-- `for seg in self.segments { out.extend_from_slice(&seg) }`
extend_all : List (List ℕ) → List ℕ → List ℕ
extend_all [] out = out
extend_all (seg ∷ segs) out = extend_all segs (out ++ seg)

-- The fast path hands out a single segment as it is.
bytes_of : List (List ℕ) → List ℕ
unfolding extend_all
bytes_of [] = extend_all [] []
bytes_of (seg ∷ []) = seg
bytes_of (seg ∷ seg' ∷ segs) = extend_all (seg ∷ seg' ∷ segs) []

pub to_bytes : BytesGatherer → List ℕ
unfolding flush bytes_of
to_bytes g = bytes_of (flush g).segments
