-- ===== src/Common/Duration.antt =====
-- Go's `time.Time` and `time.Duration` in nanoseconds: a time counts from Go's zero time, the first
-- of January of the year 1, and a duration may be negative. No time of the program is earlier.
use Prim.Native.Nat.{ℕ, suc, ◌+◌, ◌-◌, ◌*◌}

abbrev pub Time : Type 0
Time = ℕ

-- `minus n` is a duration of -(n + 1) nanoseconds.
pub data Duration : Type 0 where
  plus : ℕ → Duration
  minus : ℕ → Duration

-- `t.Add(d)`.
abbrev pub add_duration : Time → Duration → Time
add_duration t (plus n) = t + n
add_duration t (minus n) = t - suc n

abbrev pub second : ℕ
second = 1_000_000_000

abbrev pub minute : ℕ
minute = 60 * second
