-- ===== src/Format.antt =====
-- internal/format/duration.go: how long ago something was, in one unit.
use sexton.Common.{ℕ, ◌+◌, ◌-◌, ◌*◌, ◌/◌, ◌≤◌, ◌<◌, ◌≡◌, refl, ltb, leb, if◌then◌else◌, ◌++◌, arith}
use sexton.Common.Duration.{Time, Duration, plus, minus, second, minute}
use sexton.Common.Text.{Text, codes, decimal}

-- `time.Hour`, and a day of them.
abbrev pub hour : ℕ
hour = 60 * minute

abbrev pub day : ℕ
day = 24 * hour

-- The units, with what stands for them and the length of each.
pub data TimeUnit : Type 0 where
  seconds minutes hours days : TimeUnit

unfoldable pub suffix : TimeUnit → Text
suffix seconds = codes "s ago"
suffix minutes = codes "m ago"
suffix hours = codes "h ago"
suffix days = codes "d ago"

abbrev pub length_of : TimeUnit → ℕ
length_of seconds = second
length_of minutes = minute
length_of hours = hour
length_of days = day

-- The switch of `DurationAgo`.
unfoldable pub unit_of : ℕ → TimeUnit
unit_of d =
    if ltb d minute
    then seconds
    else if ltb d hour
    then minutes
    else if ltb d day
    then hours
    else days

-- `if d < 0 { d = 0 }`.
abbrev not_negative : Duration → ℕ
not_negative (plus n) = n
not_negative (minus n) = 0

-- `DurationAgo`.
unfoldable pub duration_ago : Duration → Text
duration_ago d =
    let n = not_negative d in let unit = unit_of n in decimal (n / length_of unit) ++ suffix unit

-- `time.Since` at a time, and `TimeAgo`.
abbrev pub since : Time → Time → Duration
since now t = if leb t now then plus (now - t) else minus (t - now - 1)

unfoldable pub time_ago : Time → Time → Text
time_ago now t = duration_ago (since now t)

-- The largest number that is shown of a unit, plus one; there is none for days.
abbrev pub HasRoom : TimeUnit → ℕ → Type 0
HasRoom seconds n = n < 60
HasRoom minutes n = n < 60
HasRoom hours n = n < 24
HasRoom days n = 1 ≤ n

whole_units :
    (n : ℕ) (unit : TimeUnit)
    → (n / length_of unit * length_of unit ≤ n) × (n < (n / length_of unit + 1) * length_of unit)
whole_units n seconds = omega arith
whole_units n minutes = omega arith
whole_units n hours = omega arith
whole_units n days = omega arith

unit_of-HasRoom : (n : ℕ) (unit : TimeUnit) → unit_of n ≡ unit → HasRoom unit (n / length_of unit)
unfolding unit_of
unit_of-HasRoom n seconds e = ground arith
unit_of-HasRoom n minutes e = ground arith
unit_of-HasRoom n hours e = ground arith
unit_of-HasRoom n days e = ground arith

-- A duration is shown as a number of whole units, rounded down: it lies between that number of units
-- and the next one; a negative duration is shown as none. Fewer than 60 seconds, 60 minutes and 24
-- hours are ever shown, and never 0 days.
pub duration_ago_bounds :
    (d : Duration)
    → (n : ℕ) × (unit : TimeUnit) × (duration_ago d ≡ decimal n ++ suffix unit)
      × (n * length_of unit ≤ not_negative d)
      × (not_negative d < (n + 1) * length_of unit)
      × HasRoom unit n
unfolding duration_ago
duration_ago_bounds d =
    let n = not_negative d in
    let unit = unit_of n in
    let (low, high) = whole_units n unit in
    (n / length_of unit, unit, refl, low, high, unit_of-HasRoom n unit refl)
