-- ===== src/Mattermost/Visible.antt =====
-- The texts of internal/mattermost/formatter.go that come from outside: how they are made visible
-- (`visibleMattermostText`), free of markup and mentions (`neutralMattermostText`), and quoted as
-- code (`mattermostCodeSpan`).
pub mod Safe
pub mod ReadBack
pub mod Shown
pub mod Neutral
pub mod Span
use sexton.Common.{
  ℕ, zero, suc, ◌+◌, ◌/◌, ◌%◌, Bool, true, false, ◌&&◌, ◌||◌, List, [], ◌∷◌, ◌++◌, ltb, leb, ◌==◌,
  if◌then◌else◌,
}
use sexton.Common.Text.{Text, codes}
use sexton.Mattermost.Runes.{Rune, encoded, invalid, runes, write_each}

-- `%02x`.
abbrev hex_digit : ℕ → ℕ
hex_digit d = if ltb d 10 then b'0' + d else 87 + d

abbrev pub hex_byte : ℕ → Text
hex_byte c = hex_digit (c / 16 % 16) ∷ hex_digit (c % 16) ∷ []

-- The case of one byte in the switch of `visibleMattermostText`.
show_ascii : ℕ → Text
show_ascii c =
    if c == b'\n'
    then codes "\\n"
    else if c == b'\r'
    then codes "\\r"
    else if c == b'\t'
    then codes "\\t"
    else if ltb c 0x20 || c == 0x7f
    then codes "\\u00" ++ hex_byte c
    else c ∷ []

-- One round of the loop of `visibleMattermostText`. Of the longer runes those of the bytes 0xc2 0x80
-- to 0xc2 0x9f are control characters.
unfoldable pub show_rune : Rune → Text
unfolding show_ascii
show_rune (invalid c) = codes "\\x" ++ hex_byte c
show_rune (encoded c []) = show_ascii c
show_rune (encoded c (b ∷ s)) =
    if c == 0xc2 && ltb b 0xa0 then codes "\\u00" ++ hex_byte b else c ∷ b ∷ s

-- `visibleMattermostText`.
unfoldable pub visible_mattermost_text : Text → Text
visible_mattermost_text value = write_each show_rune (runes value)

-- U+200B.
abbrev pub zero_width_space : Text
zero_width_space = 0xe2 ∷ 0x80 ∷ 0x8b ∷ []

-- The characters that are escaped.
unfoldable pub is_markup : ℕ → Bool
is_markup c =
    c == b'\\'
    || c == b'`'
    || c == b'*'
    || c == b'_'
    || c == b'['
    || c == b']'
    || c == b'|'
    || c == b'~'

neutral_ascii : ℕ → Text
neutral_ascii c =
    if c == b'@' then b'@' ∷ zero_width_space else if is_markup c then b'\\' ∷ c ∷ [] else c ∷ []

-- One round of the loop of `neutralMattermostText`; `range` reads a byte that starts no rune as
-- U+FFFD.
unfoldable pub neutral_rune : Rune → Text
unfolding neutral_ascii
neutral_rune (invalid c) = 0xef ∷ 0xbf ∷ 0xbd ∷ []
neutral_rune (encoded c []) = neutral_ascii c
neutral_rune (encoded c (b ∷ s)) = c ∷ b ∷ s

-- `neutralMattermostText`.
unfoldable pub neutral_mattermost_text : Text → Text
neutral_mattermost_text value = write_each neutral_rune (runes (visible_mattermost_text value))

-- `strings.ReplaceAll(s, "@", "@\u200b")`.
unfoldable pub mute : Text → Text
mute [] = []
mute (c ∷ s) =
    let rest = mute s in if c == b'@' then b'@' ∷ (zero_width_space ++ rest) else c ∷ rest

-- The lengths of the parts of `strings.FieldsFunc` that are made of backticks, behind some of them.
abbrev put_run : ℕ → List ℕ → List ℕ
put_run zero runs = runs
put_run (suc n) runs = suc n ∷ runs

tick_runs : ℕ → Text → List ℕ
tick_runs n [] = put_run n []
tick_runs n (c ∷ s) =
    let rest = tick_runs (if c == b'`' then suc n else 0) s in
    if c == b'`' then rest else put_run n rest

-- The loop that finds the longest of them.
longest_from : ℕ → List ℕ → ℕ
longest_from longest [] = longest
longest_from longest (n ∷ ns) = longest_from (if ltb longest n then n else longest) ns

unfoldable pub longest_run : Text → ℕ
unfolding longest_from tick_runs
longest_run s = longest_from 0 (tick_runs 0 s)

-- `strings.Repeat("`", n)`.
abbrev pub ticks : ℕ → Text
ticks zero = []
ticks (suc n) = b'`' ∷ ticks n

-- The text between the delimiters of `mattermostCodeSpan`, and the span.
unfoldable pub quoted : Text → Text
quoted value = mute (visible_mattermost_text value)

unfoldable pub mattermost_code_span : Text → Text
unfolding quoted
mattermost_code_span value =
    let visible = quoted value in
    let delimiter = ticks (longest_run visible + 1) in delimiter ++ (visible ++ delimiter)
