-- ===== src/Mattermost/Runes.antt =====
-- `utf8.DecodeRuneInString` of Go, with which formatter.go walks a text: a text of bytes as the runes
-- that it encodes, and the bytes that encode none.
pub mod Decode
use sexton.Common.{
  ℕ, zero, suc, Bool, true, false, ◌&&◌, ◌||◌, List, [], ◌∷◌, ◌++◌, ltb, leb, ◌==◌, if◌then◌else◌,
  take,
}
use sexton.Common.Text.{Text}

-- The first byte of a rune with the others, or a byte at which none starts.
pub data Rune : Type 0 where
  encoded : ℕ → Text → Rune
  invalid : ℕ → Rune

-- Whether bytes are there that go on with a rune, and how many.
unfoldable pub conts : ℕ → Text → Bool
conts zero s = true
conts (suc n) [] = false
conts (suc n) (c ∷ s) = leb 0x80 c && (leb c 0xbf && conts n s)

unfoldable pub starts_pair : ℕ → Bool
starts_pair a = leb 0xc2 a && leb a 0xdf

-- The second byte of a longer rune, by the first.
unfoldable pub starts_triple : ℕ → ℕ → Bool
starts_triple a b =
    a == 0xe0 && leb 0xa0 b
    || a == 0xed && leb b 0x9f
    || leb 0xe1 a && (leb a 0xec || a == 0xee || a == 0xef)

unfoldable pub starts_quad : ℕ → ℕ → Bool
starts_quad a b = a == 0xf0 && leb 0x90 b || a == 0xf4 && leb b 0x8f || leb 0xf1 a && leb a 0xf3

-- How many bytes the rune takes whose first byte is given; 0 if none starts there.
unfoldable pub rune_size : ℕ → Text → ℕ
unfolding conts starts_pair starts_triple starts_quad
rune_size a [] = if ltb a 0x80 then 1 else 0
rune_size a (b ∷ s) =
    if ltb a 0x80
    then 1
    else if starts_pair a
    then (if conts 1 (b ∷ s) then 2 else 0)
    else if starts_triple a b
    then (if conts 2 (b ∷ s) then 3 else 0)
    else if starts_quad a b
    then (if conts 3 (b ∷ s) then 4 else 0)
    else 0

-- The runes of a text, behind some bytes of a rune that is known.
unfoldable pub runes_from : ℕ → Text → List Rune
runes_from n [] = []
runes_from (suc n) (c ∷ s) = runes_from n s
runes_from zero (c ∷ s) = elim (rune_size c s) [
  | zero ↦ invalid c ∷ runes_from 0 s
  | suc n ↦ encoded c (take n s) ∷ runes_from n s
]

-- The runes of a text.
abbrev pub runes : Text → List Rune
runes s = runes_from 0 s

-- A loop over runes that writes a text for each of them.
unfoldable pub write_each : (Rune → Text) → List Rune → Text
write_each show [] = []
write_each show (r ∷ rs) = show r ++ write_each show rs
