-- ===== src/Common/Space.antt =====
-- Go's `strings.TrimSpace`, `strings.Fields`, `strings.Contains` and `strings.ToLower` on texts of
-- bytes. The white space of Unicode is read as the bytes of its UTF-8. Of the letters outside ASCII
-- only two have a lower case in ASCII; a program that looks for ASCII words tells no others apart.
use mathlib.Core.List.{reverse}
use sexton.Common.Tests.{leb, ◌==◌, if◌then◌else◌}
use sexton.Common.Text.{Text, has_prefix}
use Prim.Native.Nat.{ℕ, zero, suc, ◌+◌}
use mathlib.Core.Bool.{Bool, false, ◌&&◌, ◌||◌}
use mathlib.Core.List.{List, [], ◌∷◌}

is_ascii_space : ℕ → Bool
is_ascii_space c = leb 9 c && leb c 13 || c == 32

-- The bytes of a white space that starts with a byte over 0x7f: two of them, or three.
is_space_pair : ℕ → ℕ → Bool
is_space_pair a b = a == 0xc2 && (b == 0x85 || b == 0xa0)

is_space_triple : ℕ → ℕ → ℕ → Bool
is_space_triple a b c =
    a == 0xe1 && b == 0x9a && c == 0x80
    || a == 0xe2 && b == 0x80 && (leb 0x80 c && leb c 0x8a || c == 0xa8 || c == 0xa9 || c == 0xaf)
    || a == 0xe2 && b == 0x81 && c == 0x9f
    || a == 0xe3 && b == 0x80 && c == 0x80

-- How many bytes a white space at the front takes; 0 if there is none.
space_width : Text → ℕ
unfolding is_ascii_space is_space_pair is_space_triple
space_width [] = 0
space_width (a ∷ []) = if is_ascii_space a then 1 else 0
space_width (a ∷ b ∷ []) = if is_ascii_space a then 1 else if is_space_pair a b then 2 else 0
space_width (a ∷ b ∷ c ∷ s) =
    if is_ascii_space a
    then 1
    else if is_space_pair a b
    then 2
    else if is_space_triple a b c
    then 3
    else 0

-- The same of a text that is read from its end.
space_width_back : Text → ℕ
unfolding is_ascii_space is_space_pair is_space_triple
space_width_back [] = 0
space_width_back (c ∷ []) = if is_ascii_space c then 1 else 0
space_width_back (c ∷ b ∷ []) = if is_ascii_space c then 1 else if is_space_pair b c then 2 else 0
space_width_back (c ∷ b ∷ a ∷ s) =
    if is_ascii_space c
    then 1
    else if is_space_pair b c
    then 2
    else if is_space_triple a b c
    then 3
    else 0

-- A text without the white space in front; the first argument is how many bytes of one are still to
-- come.
trim_by : (Text → ℕ) → ℕ → Text → Text
trim_by width n [] = []
trim_by width (suc n) (c ∷ s) = trim_by width n s
trim_by width zero (c ∷ s) = elim (width (c ∷ s)) [ zero ↦ c ∷ s | suc n ↦ trim_by width n s ]

-- `strings.TrimSpace`.
unfoldable pub trim_space : Text → Text
unfolding trim_by space_width space_width_back
trim_space s = reverse (trim_by space_width_back 0 (reverse (trim_by space_width 0 s)))

-- A field that is full is put out.
put_field : Text → List Text → List Text
put_field [] fs = fs
put_field (c ∷ s) fs = reverse (c ∷ s) ∷ fs

fields_from : ℕ → Text → Text → List Text
fields_from n field [] = put_field field []
fields_from (suc n) field (c ∷ s) = fields_from n field s
fields_from zero field (c ∷ s) = elim (space_width (c ∷ s)) [
  | zero ↦ fields_from 0 (c ∷ field) s
  | suc n ↦ put_field field (fields_from n [] s)
]

-- `strings.Fields`.
unfoldable pub fields : Text → List Text
unfolding fields_from put_field space_width
fields s = fields_from 0 [] s

-- `strings.Contains`, of a part that is not empty.
unfoldable pub contains : Text → Text → Bool
contains [] part = false
contains (c ∷ s) part = has_prefix (c ∷ s) part || contains s part

lower_byte : ℕ → ℕ
lower_byte c = if leb b'A' c && leb c b'Z' then c + 32 else c

-- `strings.ToLower`, of which the Kelvin sign and the dotted capital I have an ASCII result.
unfoldable pub to_lower : Text → Text
unfolding lower_byte
to_lower [] = []
to_lower (a ∷ []) = lower_byte a ∷ []
to_lower (a ∷ b ∷ []) =
    if a == 0xc4 && b == 0xb0 then b'i' ∷ [] else lower_byte a ∷ lower_byte b ∷ []
to_lower (a ∷ b ∷ c ∷ s) =
    let dotted = to_lower (c ∷ s) in
    let kelvin = to_lower s in
    let plain = lower_byte a ∷ to_lower (b ∷ c ∷ s) in
    if a == 0xc4 && b == 0xb0
    then b'i' ∷ dotted
    else if a == 0xe2 && b == 0x84 && c == 0xaa
    then b'k' ∷ kelvin
    else plain
