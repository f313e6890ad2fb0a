-- ===== src/DataModel/Timestamps.antt =====
-- caikit/core/data_model/timestamp.py: naive times, as instants of the local clock, and `Timestamp`
-- messages. What `datetime` computes with floating-point numbers, `int(datetime_.timestamp())` and
-- `datetime.fromtimestamp(...)`, are parameters.
use caikit.Common.{
  ◌≡◌, ◌<◌, ℕ, ◌+◌, ◌-◌, ◌*◌, ◌/◌, ◌%◌, Bool, true, ◌↔◌, if◌then◌else◌, ltb, nat_eq, ◌==◌, arith,
}

-- A whole number: below 0 it is `minus` of its size.
pub data Whole : Type 0 where
  plus : ℕ → Whole
  minus : ℕ → Whole

-- A time is its microseconds from the epoch: after it, or before it by at least one.
pub data Time : Type 0 where
  after : ℕ → Time
  before : ℕ → Time

-- `Timestamp`
pub record Timestamp : Type 0 where
  pub seconds : Whole
  pub nanos : ℕ

-- `datetime_.microsecond`, which is counted from the full second before the time; `before n` is one
-- more microsecond than `n` before the epoch.
unfoldable pub microsecond : Time → ℕ
microsecond (after n) = n % 1000000
microsecond (before n) = 999999 - n % 1000000

-- The full seconds of a time, rounded towards 0.
unfoldable pub full_seconds : Time → Whole
full_seconds (after n) = plus (n / 1000000)
full_seconds (before n) = minus ((n + 1) / 1000000)

-- The time that is a number of microseconds later than a number of seconds from the epoch.
unfoldable pub time_at : Whole → ℕ → Time
time_at (plus s) us = after (s * 1000000 + us)
time_at (minus s) us =
    if ltb us (s * 1000000) then before (s * 1000000 - us - 1) else after (us - s * 1000000)

-- Within 2 ^ 33 seconds of the epoch, a double tells the microseconds apart.
abbrev pub seconds_in_range : Whole → Bool
seconds_in_range (plus s) = ltb s 8589934592
seconds_in_range (minus s) = ltb s 8589934592

-- `int_timestamp` is `int(datetime_.timestamp())`, and `from_timestamp` is
-- `datetime.fromtimestamp(proto.seconds + proto.nanos / 1e9)`.
module _ (int_timestamp : Time → Whole) where
  unfoldable pub datetime_to_proto : Time → Timestamp
  unfolding microsecond
  datetime_to_proto t = record { seconds = int_timestamp t; nanos = microsecond t * 1000 }

module _ (from_timestamp : Timestamp → Time) where
  unfoldable pub proto_to_datetime : Timestamp → Time
  proto_to_datetime p = from_timestamp p

abbrev pub is_kept : Time → Bool
is_kept (after n) = true
is_kept (before n) = (n + 1) % 1000000 == 0

time_at-full_seconds :
    (t : Time) → (time_at (full_seconds t) (microsecond t) ≡ t) ↔ (is_kept t ≡ true)
unfolding time_at full_seconds microsecond
time_at-full_seconds (after n) = ground arith
time_at-full_seconds (before n) = ground arith

microsecond-small : (t : Time) → microsecond t < 1000000
unfolding microsecond
microsecond-small (after n) = omega arith
microsecond-small (before n) = omega arith

-- If `datetime` computes full seconds and microseconds exactly within 2 ^ 33 seconds of the epoch, which
-- takes a local clock that is never shifted, a naive time in that range comes back from its message
-- unchanged exactly if it is not before the epoch, or a full second.
pub proto_to_datetime-datetime_to_proto :
    (int_timestamp : Time → Whole) (from_timestamp : Timestamp → Time)
    → ((t : Time) → seconds_in_range (full_seconds t) ≡ true → int_timestamp t ≡ full_seconds t)
    → ((w : Whole) (us : ℕ)
        → seconds_in_range w ≡ true
        → us < 1000000
        → from_timestamp (record { seconds = w; nanos = us * 1000 }) ≡ time_at w us)
    → (t : Time) → seconds_in_range (full_seconds t) ≡ true
    → (proto_to_datetime from_timestamp (datetime_to_proto int_timestamp t) ≡ t)
      ↔ (is_kept t ≡ true)
unfolding proto_to_datetime datetime_to_proto
proto_to_datetime-datetime_to_proto int_timestamp from_timestamp exact_int exact_from t h =
    rw (exact_int t h, exact_from (full_seconds t) (microsecond t) h (microsecond-small t))
      (time_at-full_seconds t)
