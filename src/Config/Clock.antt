-- ===== src/Config/Clock.antt =====
-- `parseClockMinute` of internal/config/holdout.go, and what it takes from Go's `strings.TrimSpace`
-- and `time.Parse` with the layout "15:04". Texts are lists of code points.
pub mod Print
use mathlib.Core.List.{reverse}
use sexton.Common.{
  ℕ, zero, ◌+◌, ◌-◌, ◌*◌, ◌/◌, ◌%◌, ◌<◌, ◌≡◌, refl, Bool, true, false, not, ◌&&◌, ◌||◌, Option,
  none, some, List, [], ◌∷◌, ◌++◌, arith, ltb, leb, ◌==◌, if◌then◌else◌,
}
use sexton.Common.Text.{Text, codes}

-- `unicode.IsSpace`.
is_space : ℕ → Bool
is_space c =
    leb 9 c && leb c 13
    || c == 32
    || c == 0x85
    || c == 0xa0
    || c == 0x1680
    || leb 0x2000 c && leb c 0x200a
    || c == 0x2028
    || c == 0x2029
    || c == 0x202f
    || c == 0x205f
    || c == 0x3000

trim_left : Text → Text
trim_left [] = []
trim_left (c ∷ s) = let rest = trim_left s in if is_space c then rest else c ∷ s

-- `strings.TrimSpace`.
unfoldable pub trim_space : Text → Text
unfolding trim_left is_space
trim_space s = reverse (trim_left (reverse (trim_left s)))

is_digit : ℕ → Bool
is_digit c = leb b'0' c && leb c b'9'

-- A number of one digit or two at the front of a text, of exactly two if `fixed`.
getnum : Text → Bool → Option (ℕ × Text)
getnum [] fixed = none
getnum (c ∷ []) fixed = if is_digit c && not fixed then some (c - b'0', []) else none
getnum (c ∷ d ∷ s) fixed =
    if is_digit c
    then (if is_digit d
        then some ((c - b'0') * 10 + (d - b'0'), s)
        else if fixed
        then none
        else some (c - b'0', d ∷ s))
    else none

-- The layout element "04", and the end of the text.
minute_end : ℕ → Option (ℕ × Text) → Option ℕ
minute_end hour none = none
minute_end hour (some (minute, [])) = if ltb minute 60 then some (hour * 60 + minute) else none
minute_end hour (some (minute, c ∷ rest)) = none

parse_minute : ℕ → Text → Option ℕ
parse_minute hour s = minute_end hour (getnum s true)

-- The layout's colon.
parse_colon : ℕ → Text → Option ℕ
parse_colon hour [] = none
parse_colon hour (c ∷ s) = if c == b':' then parse_minute hour s else none

-- The layout element "15".
hour_then : Option (ℕ × Text) → Option ℕ
hour_then none = none
hour_then (some (hour, rest)) = if ltb hour 24 then parse_colon hour rest else none

-- `time.Parse("15:04", value)`, and the minute of the day that it stands for.
time_parse : Text → Option ℕ
time_parse s = hour_then (getnum s false)

parse_trimmed : Text → Option ℕ
parse_trimmed [] = none
parse_trimmed (c ∷ s) = time_parse (c ∷ s)

-- `parseClockMinute`; an empty text is an error, as is what `time.Parse` refuses.
unfoldable pub parse_clock_minute : Text → Option ℕ
unfolding trim_space parse_trimmed time_parse hour_then getnum is_digit parse_colon parse_minute
    minute_end
parse_clock_minute value = parse_trimmed (trim_space value)

minute_end-lt :
    (hour m : ℕ) (o : Option (ℕ × Text)) → hour < 24 → minute_end hour o ≡ some m → m < 1440
unfolding minute_end
minute_end-lt hour m none h e = cc
minute_end-lt hour m (some (minute, [])) h e = ground arith
minute_end-lt hour m (some (minute, c ∷ rest)) h e = cc

colon-lt : (hour m : ℕ) (s : Text) → hour < 24 → parse_colon hour s ≡ some m → m < 1440
unfolding parse_colon parse_minute
colon-lt hour m [] h e = cc
colon-lt hour m (c ∷ s) h e = ground (arith, minute_end-lt hour m (getnum s true))

hour_then-lt : (m : ℕ) (o : Option (ℕ × Text)) → hour_then o ≡ some m → m < 1440
unfolding hour_then
hour_then-lt m none e = cc
hour_then-lt m (some (hour, rest)) e = ground (arith, colon-lt hour m rest)

morning : parse_clock_minute (codes " 9:05 ") ≡ some 545
unfolding parse_clock_minute
morning = refl

midnight : parse_clock_minute (codes "24:00") ≡ none
unfolding parse_clock_minute
midnight = refl

parse_trimmed-lt : (s : Text) (m : ℕ) → parse_trimmed s ≡ some m → m < 1440
unfolding parse_trimmed time_parse
parse_trimmed-lt [] m e = cc
parse_trimmed-lt (c ∷ s) m e = hour_then-lt m (getnum (c ∷ s) false) e

-- A minute that a text stands for is a minute of the day.
pub parse_clock_minute-lt : (s : Text) (m : ℕ) → parse_clock_minute s ≡ some m → m < 1440
unfolding parse_clock_minute
parse_clock_minute-lt s m e = parse_trimmed-lt (trim_space s) m e

-- `parseClockMinute` reads the trimmed text.
parse_clock_minute_lem : (s : Text) → parse_clock_minute s ≡ parse_trimmed (trim_space s)
unfolding parse_clock_minute
parse_clock_minute_lem s = refl
