-- ===== src/Time.antt =====
-- Time stamps and durations in milliseconds, hashiverse-rust/hashiverse-lib/src/tools/time.rs: an
-- `i64` is an integer in the range of `i64`, and the operations that the source calls saturate.
pub mod Laws
use hashiverse.Prelude.{
  ℕ, ◌+◌, ◌-◌, ◌*◌, ◌/◌, ◌%◌, ◌^◌, ltb, ◌==◌, if◌then◌else◌, List, to_be_bytes, Result, ok, err,
  wrong_length, length, from_be_bytes, Error, ◌>>=◌, ◌>>◌, ensure,
}
use hashiverse.Prelude.Int.{ℤ, pos, negsuc, ◌+ℤ◌, ◌-ℤ◌, ◌*ℤ◌, saturate}

-- The bits of an `i64` as an unsigned number, and back.
unfoldable pub to_u64 : ℤ → ℕ
to_u64 (pos n) = n
to_u64 (negsuc n) = 2 ^ 64 - 1 - n

unfoldable pub of_u64 : ℕ → ℤ
of_u64 n = if ltb n (2 ^ 63) then pos n else negsuc (2 ^ 64 - 1 - n)

unfoldable pub encode_be : ℤ → List ℕ
unfolding to_u64
encode_be t = to_be_bytes 8 (to_u64 t)

-- `TimeMillisBytes::from_bytes`, and `timestamp_decode_be`.
unfoldable pub time_millis_bytes : List ℕ → Result (List ℕ)
time_millis_bytes bytes = do ensure (length bytes == 8) wrong_length; ok bytes

unfoldable pub timestamp_decode_be : List ℕ → ℤ
unfolding of_u64
timestamp_decode_be bytes = of_u64 (from_be_bytes bytes)

unfoldable pub add_duration : ℤ → ℤ → ℤ
add_duration t d = saturate (t +ℤ d)

unfoldable pub sub_duration : ℤ → ℤ → ℤ
sub_duration t d = saturate (t -ℤ d)

unfoldable pub sub_time : ℤ → ℤ → ℤ
sub_time t u = saturate (t -ℤ u)

-- A `std::time::Duration` of so many milliseconds, a `u128` that is cut to an `i64`.
unfoldable pub add_std_duration : ℤ → ℕ → ℤ
unfolding of_u64
add_std_duration t millis = saturate (t +ℤ of_u64 (millis % 2 ^ 64))

unfoldable pub mul_std_duration : ℤ → ℕ → ℤ
unfolding of_u64
mul_std_duration t millis = saturate (t *ℤ of_u64 (millis % 2 ^ 64))

unfoldable pub duration_millis_bytes : List ℕ → Result (List ℕ)
duration_millis_bytes bytes = do ensure (length bytes == 8) wrong_length; ok bytes

unfoldable pub duration_encode_be : ℤ → List ℕ
unfolding to_u64
duration_encode_be d = to_be_bytes 8 (to_u64 d)

-- Division of `i64` by a positive number, towards zero.
unfoldable pub div_trunc : ℤ → ℕ → ℤ
div_trunc (pos n) d = pos (n / d)
div_trunc (negsuc n) d = pos 0 -ℤ pos ((n + 1) / d)

unfoldable pub as_secs : ℤ → ℤ
unfolding div_trunc
as_secs t = div_trunc t 1000

abbrev pub millis_in_millisecond : ℕ
millis_in_millisecond = 1

abbrev pub millis_in_second : ℕ
millis_in_second = 1000

abbrev pub millis_in_minute : ℕ
millis_in_minute = 60000

abbrev pub millis_in_hour : ℕ
millis_in_hour = 3600000

abbrev pub millis_in_day : ℕ
millis_in_day = 86400000

abbrev pub millis_in_week : ℕ
millis_in_week = 604800000

abbrev pub millis_in_month : ℕ
millis_in_month = 2419200000

abbrev pub millis_in_year : ℕ
millis_in_year = 29030400000
