-- ===== src/Mattermost/Visible/Shown.antt =====
-- What `neutralMattermostText` and `mute` write for the runes of a text without control characters: a
-- text without control characters.
use sexton.Common.{
  ℕ, ◌≡◌, refl, List, [], ◌∷◌, ◌++◌, ◌==◌, if◌then◌else◌, All, arith, Bool-cases, inl, inr, ap, ◌∙◌,
}
use mathlib.Core.Path.{subst, sym}
use sexton.Common.Text.{Text}
use sexton.Mattermost.Runes.{Rune, encoded, invalid, rune_size, runes, write_each}
use sexton.Mattermost.Runes.Decode.{bytes, runes-bytes, IsHigh, IsRune-IsHigh}
use sexton.Mattermost.Visible.{zero_width_space, mute, is_markup, neutral_ascii, neutral_rune}
use sexton.Mattermost.Visible.Safe.{
  IsShown, Shows, byte-Shows, rune-Shows, IsShown-IsRune, write_each-IsShown,
}

zero_width-Shows : Shows zero_width_space
zero_width-Shows = rune-Shows 0xe2 (0x80 ∷ 0x8b ∷ []) (unfold rune_size in refl)

-- What follows a rune in a text that is muted.
abbrev mute_ascii : ℕ → Text
mute_ascii c = if c == b'@' then b'@' ∷ zero_width_space else c ∷ []

ascii-Shows : (c : ℕ) → IsShown (encoded c []) → Shows (c ∷ [])
ascii-Shows c (h, p) = rune-Shows c [] (h, p)

at-Shows : Shows (b'@' ∷ zero_width_space)
at-Shows t e =
    byte-Shows b'@' (omega arith) (omega arith) (zero_width_space ++ t) (zero_width-Shows t e)

mute_ascii-Shows : (c : ℕ) → IsShown (encoded c []) → Shows (mute_ascii c)
mute_ascii-Shows c h t e = elim (Bool-cases (c == b'@')) [
  | inl k ↦ rw k (at-Shows t e)
  | inr k ↦ rw k (ascii-Shows c h t e)
]

neutral_ascii-Shows : (c : ℕ) → IsShown (encoded c []) → Shows (neutral_ascii c)
unfolding neutral_ascii
neutral_ascii-Shows c h t e = elim (Bool-cases (c == b'@')) [
  | inl k ↦ rw k (at-Shows t e)
  | inr k ↦ rw k (elim (Bool-cases (is_markup c)) [
    | inl m ↦ rw m (byte-Shows b'\\' (omega arith) (omega arith) (c ∷ t) (ascii-Shows c h t e))
    | inr m ↦ rw m (ascii-Shows c h t e)
  ])
]

pub neutral_rune-Shows : (r : Rune) → IsShown r → Shows (neutral_rune r)
unfolding neutral_rune
neutral_rune-Shows (invalid c) h = cc
neutral_rune-Shows (encoded c []) h = neutral_ascii-Shows c h
neutral_rune-Shows (encoded c (b ∷ s)) h = rune-Shows c (b ∷ s) h

-- `mute`, rune by rune.
mute_rune : Rune → Text
mute_rune (invalid c) = c ∷ []
mute_rune (encoded c []) = mute_ascii c
mute_rune (encoded c (b ∷ s)) = c ∷ b ∷ s

mute_rune-Shows : (r : Rune) → IsShown r → Shows (mute_rune r)
unfolding mute_rune
mute_rune-Shows (invalid c) h = cc
mute_rune-Shows (encoded c []) h = mute_ascii-Shows c h
mute_rune-Shows (encoded c (b ∷ s)) h = rune-Shows c (b ∷ s) h

mute-High : (s t : Text) → All IsHigh s → mute (s ++ t) ≡ s ++ mute t
unfolding mute
mute-High [] t h = refl
mute-High (c ∷ s) t (hc, h) = ground (arith, mute-High s t h)

mute-rune : (r : Rune) (t : Text) → IsShown r → mute (bytes r ++ t) ≡ mute_rune r ++ mute t
unfolding mute_rune mute
mute-rune (invalid c) t h = cc
mute-rune (encoded c []) t h = ground arith
mute-rune (encoded c (b ∷ s)) t h =
    mute-High (c ∷ b ∷ s) t (IsRune-IsHigh c b s (IsShown-IsRune c (b ∷ s) h))

mute-write_each :
    (rs : List Rune) → All IsShown rs → mute (write_each bytes rs) ≡ write_each mute_rune rs
unfolding write_each mute
mute-write_each [] h = refl
mute-write_each (r ∷ rs) (hr, h) =
    mute-rune r (write_each bytes rs) hr ∙ ap (λ t. mute_rune r ++ t) (mute-write_each rs h)

-- A text without control characters has none either if its mentions are muted.
pub mute-Shown : (s : Text) → All IsShown (runes s) → All IsShown (runes (mute s))
mute-Shown s h =
    subst (λ t. All IsShown (runes t)) (sym (mute-write_each (runes s) h) ∙ ap mute (runes-bytes s))
      (write_each-IsShown IsShown mute_rune (runes s) mute_rune-Shows h)
