-- ===== src/Time/Laws.antt =====
-- The bytes of a time stamp, and its saturating arithmetic.
use hashiverse.Prelude.{
  length, ◌^◌, ◌<◌, ◌≡◌, refl, arith, length-to_be_bytes, from_be_bytes-to_be_bytes, ok,
}
use hashiverse.Prelude.Int.{
  ℤ, ◌+ℤ◌, ◌≤ℤ◌, IsI64, saturate, saturate_of_IsI64, saturate-IsI64, +ℤ_mono, +ℤ_cancel,
}
use hashiverse.Time.{
  to_u64, of_u64, encode_be, time_millis_bytes, timestamp_decode_be, add_duration, sub_duration,
}

to_u64_bound : (t : ℤ) → IsI64 t → to_u64 t < 256 ^ 8
unfolding to_u64
to_u64_bound t h = ground arith

of_u64-to_u64 : (t : ℤ) → IsI64 t → of_u64 (to_u64 t) ≡ t
unfolding of_u64 to_u64
of_u64-to_u64 t h = ground arith

-- The bytes of every time stamp in the range of `i64`, before 1970 too, are accepted by
-- `from_bytes` and decode to the time stamp.
pub timestamp_decode_be-encode_be :
    (t : ℤ)
    → IsI64 t
    → (time_millis_bytes (encode_be t) ≡ ok (encode_be t)) × (timestamp_decode_be (encode_be t) ≡ t)
unfolding encode_be time_millis_bytes timestamp_decode_be
timestamp_decode_be-encode_be t h = (
  rw (length-to_be_bytes 8 (to_u64 t)) refl,
  rw (from_be_bytes-to_be_bytes 8 (to_u64 t) (to_u64_bound t h)) (of_u64-to_u64 t h),
)

pub length-encode_be : (t : ℤ) → length (encode_be t) ≡ 8
unfolding encode_be
length-encode_be t = length-to_be_bytes 8 (to_u64 t)

saturate_mono : (a b : ℤ) → a ≤ℤ b → saturate a ≤ℤ saturate b
unfolding saturate
saturate_mono a b h = ground arith

-- Adding a duration stays in the range of `i64` and keeps the order of time stamps, also where it
-- saturates; where it does not, taking the duration off again gives the time stamp back.
pub add_duration_lem :
    (t u d : ℤ)
    → t ≤ℤ u
    → IsI64 (t +ℤ d)
    → IsI64 t
    → IsI64 (add_duration u d)
      × (add_duration t d ≤ℤ add_duration u d)
      × (sub_duration (add_duration t d) d ≡ t)
unfolding add_duration sub_duration
add_duration_lem t u d h k i = (
  saturate-IsI64 (u +ℤ d),
  saturate_mono (t +ℤ d) (u +ℤ d) (+ℤ_mono t u d d h (omega arith)),
  rw (saturate_of_IsI64 (t +ℤ d) k, +ℤ_cancel t d) (saturate_of_IsI64 t i),
)
