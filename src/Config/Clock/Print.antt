-- ===== src/Config/Clock/Print.antt =====
-- A minute of the day is read back from its "HH:MM" print.
use sexton.Common.{ℕ, ◌+◌, ◌*◌, ◌/◌, ◌%◌, ◌<◌, ◌≡◌, ap, ◌∙◌, some, [], ◌∷◌, arith, true, false}
use sexton.Common.Text.{Text}
use sexton.Config.Clock.{
  is_space, trim_left, trim_space, getnum, parse_minute, minute_end, hour_then, parse_colon,
  time_parse, parse_clock_minute, is_digit, parse_trimmed, parse_clock_minute_lem,
}

-- The two digits of a number below 100, and "HH:MM" of a minute of the day.
digit : ℕ → ℕ
digit d = b'0' + d

clock_text : ℕ → Text
unfolding digit
clock_text m =
    digit (m / 60 / 10)
    ∷ digit (m / 60 % 10)
    ∷ b':'
    ∷ digit (m % 60 / 10)
    ∷ digit (m % 60 % 10)
    ∷ []

digit-is_space : (d : ℕ) → d < 10 → is_space (digit d) ≡ false
unfolding is_space digit
digit-is_space d h = ground arith

getnum_digits :
    (a b : ℕ) (s : Text)
    → a < 10
    → b < 10
    → getnum (digit a ∷ digit b ∷ s) true ≡ some (a * 10 + b, s)
unfolding getnum is_digit digit
getnum_digits a b s h k = ground arith

trim_space-clock_text : (m : ℕ) → m < 1440 → trim_space (clock_text m) ≡ clock_text m
unfolding trim_space trim_left clock_text
trim_space-clock_text m h =
    rw (digit-is_space (m / 60 / 10) (omega arith), digit-is_space (m % 60 % 10) (omega arith))

getnum_digits_hour :
    (a b : ℕ) (s : Text)
    → a < 10
    → b < 10
    → getnum (digit a ∷ digit b ∷ s) false ≡ some (a * 10 + b, s)
unfolding getnum is_digit digit
getnum_digits_hour a b s h k = ground arith

minute_read :
    (h m : ℕ) → m < 60 → parse_minute h (digit (m / 10) ∷ digit (m % 10) ∷ []) ≡ some (h * 60 + m)
unfolding parse_minute
minute_read h m k =
    ap (minute_end h) (getnum_digits (m / 10) (m % 10) [] (omega arith) (omega arith))
    ∙ unfold minute_end in ground arith

time_parse-clock_text : (m : ℕ) → m < 1440 → time_parse (clock_text m) ≡ some m
unfolding time_parse clock_text
time_parse-clock_text m h =
    ap hour_then (getnum_digits_hour (m / 60 / 10) (m / 60 % 10) _ (omega arith) (omega arith))
    ∙ unfold hour_then parse_colon in
      ground (arith, minute_read (m / 60 / 10 * 10 + m / 60 % 10) (m % 60))

-- Reading the "HH:MM" print of a minute of the day gives the minute back.
parse-clock_text : (m : ℕ) → m < 1440 → parse_clock_minute (clock_text m) ≡ some m
unfolding parse_trimmed clock_text
parse-clock_text m h =
    parse_clock_minute_lem (clock_text m)
    ∙ ap parse_trimmed (trim_space-clock_text m h)
    ∙ time_parse-clock_text m h
