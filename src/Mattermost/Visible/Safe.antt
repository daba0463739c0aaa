-- ===== src/Mattermost/Visible/Safe.antt =====
-- The text of `visibleMattermostText`: no control characters, and always UTF-8.
use sexton.Common.{
  ℕ, ◌+◌, ◌-◌, ◌*◌, ◌≤◌, ◌<◌, ◌≡◌, ◌≢◌, true, false, ◌&&◌, List, [], ◌∷◌, ◌++◌, ltb, ◌==◌, All,
  All-append, arith, inl, inr, Bool-cases,
}
use mathlib.Core.Path.{subst, sym}
use sexton.Common.Text.{Text, codes}
use sexton.Mattermost.Runes.{Rune, encoded, invalid, runes_from, runes, write_each}
use sexton.Mattermost.Runes.Decode.{
  IsRune, runes_from-IsRune, runes-append, IsHigh, IsRune-IsHigh, IsRune-IsAscii, IsRune-pair,
  ascii-IsRune,
}
use sexton.Mattermost.Visible.{hex_byte, show_ascii, show_rune, visible_mattermost_text}

-- No control character of ASCII.
abbrev pub IsPrintable : ℕ → Type 0
IsPrintable c = (0x20 ≤ c) × (c ≢ 0x7f)

High-Printable : (s : Text) → All IsHigh s → All IsPrintable s
High-Printable [] h = tt
High-Printable (c ∷ s) (hc, h) = ((omega arith, λ e. omega arith), High-Printable s h)

hex-Printable : (c : ℕ) → All IsPrintable (hex_byte c)
hex-Printable c = ground arith

show_rune-Printable : (r : Rune) → IsRune r → All IsPrintable (show_rune r)
unfolding show_rune show_ascii
show_rune-Printable (invalid c) h = ground (arith, hex-Printable c)
show_rune-Printable (encoded c []) h = ground (arith, hex-Printable c)
show_rune-Printable (encoded c (b ∷ s)) h =
    ground (arith, hex-Printable b, High-Printable (c ∷ b ∷ s) (IsRune-IsHigh c b s h))

write_each-All :
    (P : ℕ → Type 0) (show : Rune → Text) (rs : List Rune)
    → ((r : Rune) → IsRune r → All P (show r))
    → All IsRune rs
    → All P (write_each show rs)
unfolding write_each
write_each-All P show [] f h = tt
write_each-All P show (r ∷ rs) f (hr, h) =
    All-append P (show r) (write_each show rs) (f r hr) (write_each-All P show rs f h)

pub visible-IsPrintable : (value : Text) → All IsPrintable (visible_mattermost_text value)
unfolding visible_mattermost_text
visible-IsPrintable value =
    write_each-All IsPrintable show_rune (runes value) show_rune-Printable
      (runes_from-IsRune 0 value)

-- The code point of a rune of two bytes.
abbrev pub point_of_two : ℕ → ℕ → ℕ
point_of_two c b = (c - 0xc0) * 64 + (b - 0x80)

-- A rune that is no control character of Unicode, that is, none of U+0000 to U+001F and of U+007F to
-- U+009F: one byte that is none of ASCII, or a point of two bytes that lies behind; runes of three and
-- four bytes have higher points. A byte that starts no rune is none either.
abbrev pub IsShown : Rune → Type 0
IsShown (encoded c []) = IsRune (encoded c []) × IsPrintable c
IsShown (encoded c (b ∷ [])) = IsRune (encoded c (b ∷ [])) × (0xa0 ≤ point_of_two c b)
IsShown (encoded c (b ∷ d ∷ s)) = IsRune (encoded c (b ∷ d ∷ s))
IsShown (invalid c) = false ≡ true

-- What is shown, in front of what is shown.
abbrev pub Shows : Text → Type 0
Shows s = (t : Text) → All IsShown (runes t) → All IsShown (runes (s ++ t))

abbrev IsPlain : ℕ → Type 0
IsPlain c = (0x20 ≤ c) × (c < 0x7f)

plain-Shows : (s t : Text) → All IsPlain s → All IsShown (runes t) → All IsShown (runes (s ++ t))
plain-Shows [] t h e = e
plain-Shows (c ∷ s) t ((lo, hi), h) e =
    subst (All IsShown) (sym (runes-append c [] (s ++ t) (ascii-IsRune c (omega arith))))
      ((ascii-IsRune c (omega arith), (lo, λ k. omega arith)), plain-Shows s t h e)

pub byte-Shows : (c : ℕ) → 0x20 ≤ c → c < 0x7f → Shows (c ∷ [])
byte-Shows c lo hi t e = plain-Shows (c ∷ []) t ((lo, hi), tt) e

pub IsShown-IsRune : (c : ℕ) (s : Text) → IsShown (encoded c s) → IsRune (encoded c s)
IsShown-IsRune c [] h = h.0
IsShown-IsRune c (b ∷ []) h = h.0
IsShown-IsRune c (b ∷ d ∷ s) h = h

-- A rune that is shown, as it is.
pub rune-Shows : (c : ℕ) (s : Text) → IsShown (encoded c s) → Shows (c ∷ s)
rune-Shows c s h t e = subst (All IsShown) (sym (runes-append c s t (IsShown-IsRune c s h))) (h, e)

hex-Plain : (c : ℕ) → All IsPlain (hex_byte c)
hex-Plain c = ground arith

show_ascii-Plain : (c : ℕ) → c < 0x80 → All IsPlain (show_ascii c)
unfolding show_ascii
show_ascii-Plain c h = ground (arith, hex-Plain c)

-- What a rune of several bytes is if it is not escaped.
kept-IsShown :
    (c b : ℕ) (s : Text)
    → IsRune (encoded c (b ∷ s))
    → (c == 0xc2 && ltb b 0xa0) ≡ false
    → IsShown (encoded c (b ∷ s))
kept-IsShown c b [] h k = let (x, y, z, w) = IsRune-pair c b h in (h, ground arith)
kept-IsShown c b (d ∷ s) h k = h

show_rune-Shows : (r : Rune) → IsRune r → Shows (show_rune r)
unfolding show_rune
show_rune-Shows (invalid c) h t e =
    plain-Shows (codes "\\x" ++ hex_byte c) t (ground (arith, hex-Plain c)) e
show_rune-Shows (encoded c []) h t e =
    plain-Shows (show_ascii c) t (show_ascii-Plain c (IsRune-IsAscii c h)) e
show_rune-Shows (encoded c (b ∷ s)) h t e = elim (Bool-cases (c == 0xc2 && ltb b 0xa0)) [
  | inl k ↦ rw k (plain-Shows (codes "\\u00" ++ hex_byte b) t (ground (arith, hex-Plain b)) e)
  | inr k ↦ rw k (rune-Shows c (b ∷ s) (kept-IsShown c b s h k) t e)
]

-- A loop that writes what is shown for each rune.
pub write_each-IsShown :
    (P : Rune → Type 0) (show : Rune → Text) (rs : List Rune)
    → ((r : Rune) → P r → Shows (show r))
    → All P rs
    → All IsShown (runes (write_each show rs))
unfolding write_each runes_from
write_each-IsShown P show [] f h = tt
write_each-IsShown P show (r ∷ rs) f (hr, h) =
    f r hr (write_each show rs) (write_each-IsShown P show rs f h)

-- The text that is shown is UTF-8 without control characters.
pub visible_text-IsShown : (value : Text) → All IsShown (runes (visible_mattermost_text value))
unfolding visible_mattermost_text
visible_text-IsShown value =
    write_each-IsShown IsRune show_rune (runes value) show_rune-Shows (runes_from-IsRune 0 value)
