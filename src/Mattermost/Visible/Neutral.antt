-- ===== src/Mattermost/Visible/Neutral.antt =====
-- What the texts of formatter.go hold: no mention and no markup that the program has not put there.
use sexton.Common.{
  ℕ, ◌≡◌, refl, Bool, true, false, not, ◌&&◌, ◌||◌, List, [], ◌∷◌, ◌++◌, ◌==◌, if◌then◌else◌, All,
  All-append, arith,
}
use mathlib.Core.Path.{subst, sym}
use sexton.Common.Text.{Text, has_prefix, has_prefix-append}
use sexton.Mattermost.Runes.{Rune, encoded, invalid, runes, write_each}
use sexton.Mattermost.Runes.Decode.{
  IsRune, runes_from-IsRune, bytes, runes-bytes, IsHigh, IsRune-IsHigh,
}
use sexton.Mattermost.Visible.{
  visible_mattermost_text, zero_width_space, mute, is_markup, neutral_ascii, neutral_rune,
  neutral_mattermost_text,
}
use sexton.Mattermost.Visible.Safe.{
  IsPrintable, visible-IsPrintable, IsShown, write_each-IsShown, visible_text-IsShown,
}
use sexton.Mattermost.Visible.Shown.{neutral_rune-Shows}

-- Whether each `@` is followed by a zero width space, so that it mentions nobody.
unfoldable pub is_muted : Text → Bool
is_muted [] = true
is_muted (c ∷ s) = (if c == b'@' then has_prefix s zero_width_space else true) && is_muted s

-- The same, and whether each character of markup stands behind a backslash of its own; the first
-- argument tells whether the next byte does.
unfoldable pub is_neutral : Bool → Text → Bool
is_neutral escaped [] = not escaped
is_neutral escaped (c ∷ s) =
    let rest = is_neutral (not escaped && c == b'\\') s in
    if escaped
    then is_markup c && rest
    else if c == b'@'
    then has_prefix s zero_width_space && rest
    else (c == b'\\' || not (is_markup c)) && rest

has_prefix-more : (s t p : Text) → has_prefix s p ≡ true → has_prefix (s ++ t) p ≡ true
unfolding has_prefix
has_prefix-more s t [] h = refl
has_prefix-more [] t (c ∷ p) h = cc
has_prefix-more (d ∷ s) t (c ∷ p) h = ground (arith, has_prefix-more s t p)

pub is_muted-append :
    (s t : Text) → is_muted s ≡ true → is_muted t ≡ true → is_muted (s ++ t) ≡ true
unfolding is_muted
is_muted-append [] t h k = k
is_muted-append (c ∷ s) t h k =
    ground (arith, has_prefix-more s t zero_width_space, is_muted-append s t)

High-muted : (s t : Text) → All IsHigh s → is_muted t ≡ true → is_muted (s ++ t) ≡ true
unfolding is_muted
High-muted [] t h k = k
High-muted (c ∷ s) t (hc, h) k = ground (arith, High-muted s t h k)

-- A text without a mention that is muted by `mute`.
mute-prefix : (t : Text) → has_prefix (zero_width_space ++ t) zero_width_space ≡ true
mute-prefix t = has_prefix-append zero_width_space t

pub mute-muted : (s : Text) → is_muted (mute s) ≡ true
unfolding is_muted mute
mute-muted [] = refl
mute-muted (c ∷ s) = ground (arith, mute-muted s, mute-prefix (mute s))

pub mute-Printable : (s : Text) → All IsPrintable s → All IsPrintable (mute s)
unfolding mute
mute-Printable [] h = tt
mute-Printable (c ∷ s) (hc, h) = ground (arith, mute-Printable s h)

neutral_ascii-neutral :
    (c : ℕ) (t : Text) → is_neutral false t ≡ true → is_neutral false (neutral_ascii c ++ t) ≡ true
unfolding is_neutral neutral_ascii is_markup
neutral_ascii-neutral c t h = ground (arith, mute-prefix t)

High-neutral :
    (s t : Text) → All IsHigh s → is_neutral false t ≡ true → is_neutral false (s ++ t) ≡ true
unfolding is_neutral is_markup
High-neutral [] t h k = k
High-neutral (c ∷ s) t (hc, h) k = ground (arith, High-neutral s t h k)

neutral-write_each :
    (rs : List Rune) → All IsRune rs → is_neutral false (write_each neutral_rune rs) ≡ true
unfolding write_each neutral_rune
neutral-write_each [] h = unfold is_neutral in refl
neutral-write_each (invalid c ∷ rs) (hr, h) =
    High-neutral (0xef ∷ 0xbf ∷ 0xbd ∷ []) (write_each neutral_rune rs) (omega arith)
      (neutral-write_each rs h)
neutral-write_each (encoded c [] ∷ rs) (hr, h) =
    neutral_ascii-neutral c (write_each neutral_rune rs) (neutral-write_each rs h)
neutral-write_each (encoded c (b ∷ s) ∷ rs) (hr, h) =
    High-neutral (c ∷ b ∷ s) (write_each neutral_rune rs) (IsRune-IsHigh c b s hr)
      (neutral-write_each rs h)

neutral-muted : (e : Bool) (s : Text) → is_neutral e s ≡ true → is_muted s ≡ true
unfolding is_neutral is_muted is_markup
neutral-muted e [] h = refl
neutral-muted true (c ∷ s) h = ground (arith, neutral-muted false s)
neutral-muted false (c ∷ s) h = ground (arith, neutral-muted (c == b'\\') s)

neutral_rune-Printable : (r : Rune) → All IsPrintable (bytes r) → All IsPrintable (neutral_rune r)
unfolding neutral_rune neutral_ascii is_markup
neutral_rune-Printable (invalid c) h = omega arith
neutral_rune-Printable (encoded c []) h = ground arith
neutral_rune-Printable (encoded c (b ∷ s)) h = h

All-append_parts : (P : ℕ → Type 0) (s t : Text) → All P (s ++ t) → All P s × All P t
All-append_parts P [] t h = (tt, h)
All-append_parts P (c ∷ s) t (hc, h) = let (x, y) = All-append_parts P s t h in ((hc, x), y)

neutral-Printable :
    (rs : List Rune)
    → All IsPrintable (write_each bytes rs)
    → All IsPrintable (write_each neutral_rune rs)
unfolding write_each
neutral-Printable [] h = tt
neutral-Printable (r ∷ rs) h =
    let (x, y) = All-append_parts IsPrintable (bytes r) (write_each bytes rs) h in
    All-append IsPrintable (neutral_rune r) (write_each neutral_rune rs)
      (neutral_rune-Printable r x) (neutral-Printable rs y)

pub neutral_mattermost_text-IsPrintable :
    (value : Text)
    → All IsPrintable (neutral_mattermost_text value)
      × All IsShown (runes (neutral_mattermost_text value))
      × (is_neutral false (neutral_mattermost_text value) ≡ true)
      × (is_muted (neutral_mattermost_text value) ≡ true)
unfolding neutral_mattermost_text
neutral_mattermost_text-IsPrintable value =
    let visible = visible_mattermost_text value in
    let rs = runes visible in
    let neutral = neutral-write_each rs (runes_from-IsRune 0 visible) in
    (
      neutral-Printable rs
          (subst (All IsPrintable) (sym (runes-bytes visible)) (visible-IsPrintable value)),
      write_each-IsShown IsShown neutral_rune rs neutral_rune-Shows (visible_text-IsShown value),
      neutral,
      neutral-muted false (write_each neutral_rune rs) neutral,
    )
