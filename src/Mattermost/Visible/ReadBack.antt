-- ===== src/Mattermost/Visible/ReadBack.antt =====
-- `neutralMattermostText` can be taken back.
use sexton.Common.{
  ℕ, zero, suc, ◌≡◌, ◌≢◌, refl, Bool, true, false, List, [], ◌∷◌, ◌++◌, ◌==◌, if◌then◌else◌, All,
  arith,
}
use mathlib.Core.Path.{◌∙◌}
use sexton.Common.Text.{Text}
use sexton.Mattermost.Runes.{Rune, encoded, invalid, runes, write_each}
use sexton.Mattermost.Runes.Decode.{bytes, runes-bytes, IsHigh, IsRune-IsHigh}
use sexton.Mattermost.Visible.{
  visible_mattermost_text, is_markup, neutral_ascii, neutral_rune, neutral_mattermost_text,
}
use sexton.Mattermost.Visible.Safe.{IsShown, IsShown-IsRune, visible_text-IsShown}

-- A reader that takes back what `neutralMattermostText` adds: whether the next byte stands behind a
-- backslash, and how many bytes are passed over.
unfoldable pub read_back_from : Bool → ℕ → Text → Text
read_back_from escaped n [] = []
read_back_from escaped (suc n) (c ∷ s) = read_back_from escaped n s
read_back_from true zero (c ∷ s) = c ∷ read_back_from false 0 s
read_back_from false zero (c ∷ s) =
    let rest = read_back_from (c == b'\\') (if c == b'@' then 3 else 0) s in
    if c == b'\\' then rest else c ∷ rest

abbrev pub read_back : Text → Text
read_back s = read_back_from false 0 s

read_back-plain : (c : ℕ) (t : Text) → c ≢ b'\\' → c ≢ b'@' → read_back (c ∷ t) ≡ c ∷ read_back t
unfolding read_back_from
read_back-plain c t h k = ground arith

read_back-High : (s t : Text) → All IsHigh s → read_back (s ++ t) ≡ s ++ read_back t
read_back-High [] t h = refl
read_back-High (c ∷ s) t (hc, h) =
    rw (read_back-plain c (s ++ t) (λ e. omega arith) (λ e. omega arith), read_back-High s t h) refl

read_back-neutral_ascii : (c : ℕ) (t : Text) → read_back (neutral_ascii c ++ t) ≡ c ∷ read_back t
unfolding read_back_from neutral_ascii is_markup
read_back-neutral_ascii c t = ground arith

read_back-neutral_rune :
    (r : Rune) (t : Text) → IsShown r → read_back (neutral_rune r ++ t) ≡ bytes r ++ read_back t
unfolding neutral_rune
read_back-neutral_rune (invalid c) t h = cc
read_back-neutral_rune (encoded c []) t h = read_back-neutral_ascii c t
read_back-neutral_rune (encoded c (b ∷ s)) t h =
    read_back-High (c ∷ b ∷ s) t (IsRune-IsHigh c b s (IsShown-IsRune c (b ∷ s) h))

read_back-write_each :
    (rs : List Rune) → All IsShown rs → read_back (write_each neutral_rune rs) ≡ write_each bytes rs
unfolding write_each read_back_from
read_back-write_each [] h = refl
read_back-write_each (r ∷ rs) (hr, h) =
    rw (read_back-neutral_rune r (write_each neutral_rune rs) hr, read_back-write_each rs h) refl

-- What `neutralMattermostText` adds to the visible text, and nothing else, can be taken off again:
-- a reader that drops each escaping backslash and the three bytes behind each `@` finds the visible
-- text, whatever the value is.
pub read_back-neutral_mattermost_text :
    (value : Text) → read_back (neutral_mattermost_text value) ≡ visible_mattermost_text value
unfolding neutral_mattermost_text
read_back-neutral_mattermost_text value =
    read_back-write_each (runes (visible_mattermost_text value)) (visible_text-IsShown value)
    ∙ runes-bytes (visible_mattermost_text value)
