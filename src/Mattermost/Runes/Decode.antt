-- ===== src/Mattermost/Runes/Decode.antt =====
-- What is read of a text rune by rune: the runes are well formed, they make up the text, and the
-- runes of a text that starts with one are that one and those of the rest.
use sexton.Common.{
  ℕ, zero, suc, ◌≤◌, ◌<◌, ◌≡◌, refl, true, false, [], ◌∷◌, ◌++◌, ltb, take, length, All, ap, sym,
  ◌⊎◌, inl, inr, arith, append-nil,
}
use mathlib.Core.Path.{subst}
use sexton.Common.Text.{Text, drop}
use sexton.Mattermost.Runes.{
  Rune, encoded, invalid, conts, starts_pair, starts_triple, starts_quad, rune_size, runes_from,
  runes, write_each,
}

take-conts :
    (n : ℕ) (s t : Text)
    → conts n s ≡ true
    → (conts n (take n s ++ t) ≡ true) × (length (take n s) ≡ n)
unfolding conts
take-conts zero s t h = (refl, refl)
take-conts (suc n) [] t h = cc
take-conts (suc n) (c ∷ s) t h = ground (arith, take-conts n s t)

-- What the size of a rune says of its bytes.
abbrev Sized : ℕ → ℕ → Text → Type 0
Sized zero a s = ltb a 0x80 ≡ true
Sized (suc zero) a s = (ltb a 0x80 ≡ false) × (starts_pair a ≡ true) × (conts 1 s ≡ true)
Sized (suc (suc zero)) a [] = false ≡ true
Sized (suc (suc zero)) a (b ∷ s) =
    (ltb a 0x80 ≡ false)
    × (starts_pair a ≡ false)
    × (starts_triple a b ≡ true)
    × (conts 2 (b ∷ s) ≡ true)
Sized (suc (suc (suc zero))) a [] = false ≡ true
Sized (suc (suc (suc zero))) a (b ∷ s) =
    (ltb a 0x80 ≡ false)
    × (starts_pair a ≡ false)
    × (starts_triple a b ≡ false)
    × (starts_quad a b ≡ true)
    × (conts 3 (b ∷ s) ≡ true)
Sized (suc (suc (suc (suc n)))) a s = false ≡ true

size→Sized : (n a : ℕ) (s : Text) → rune_size a s ≡ suc n → Sized n a s
unfolding rune_size conts
size→Sized zero a [] h = ground arith
size→Sized (suc n) a [] h = absurd (ground arith)
size→Sized zero a (b ∷ s) h = ground arith
size→Sized (suc zero) a (b ∷ s) h = ground arith
size→Sized (suc (suc zero)) a (b ∷ s) h = ground arith
size→Sized (suc (suc (suc zero))) a (b ∷ s) h = ground arith
size→Sized (suc (suc (suc (suc n)))) a (b ∷ s) h = absurd (ground arith)

Sized→size : (n a : ℕ) (s : Text) → Sized n a s → rune_size a s ≡ suc n
unfolding rune_size
Sized→size zero a [] h = ground arith
Sized→size zero a (b ∷ s) h = ground arith
Sized→size (suc zero) a [] h = absurd (unfold conts in cc)
Sized→size (suc zero) a (b ∷ s) h = ground arith
Sized→size (suc (suc zero)) a [] h = cc
Sized→size (suc (suc zero)) a (b ∷ s) h = ground arith
Sized→size (suc (suc (suc zero))) a [] h = cc
Sized→size (suc (suc (suc zero))) a (b ∷ s) h = ground arith
Sized→size (suc (suc (suc (suc n)))) a s h = cc

Sized-take :
    (n a : ℕ) (s t : Text) → Sized n a s → Sized n a (take n s ++ t) × (length (take n s) ≡ n)
Sized-take zero a s t h = (h, refl)
Sized-take (suc zero) a s t (x, y, z) = let (more, len) = take-conts 1 s t z in ((x, y, more), len)
Sized-take (suc (suc zero)) a [] t h = cc
Sized-take (suc (suc zero)) a (b ∷ s) t (x, y, z, w) =
    let (more, len) = take-conts 2 (b ∷ s) t w in ((x, y, z, more), len)
Sized-take (suc (suc (suc zero))) a [] t h = cc
Sized-take (suc (suc (suc zero))) a (b ∷ s) t (x, y, z, v, w) =
    let (more, len) = take-conts 3 (b ∷ s) t w in ((x, y, z, v, more), len)
Sized-take (suc (suc (suc (suc n)))) a s t h = cc

-- The size of a rune hangs on its own bytes only.
rune_size-take :
    (n a : ℕ) (s t : Text)
    → rune_size a s ≡ suc n
    → (rune_size a (take n s ++ t) ≡ suc n) × (length (take n s) ≡ n)
rune_size-take n a s t h =
    let (sized, len) = Sized-take n a s t (size→Sized n a s h) in
    (Sized→size n a (take n s ++ t) sized, len)

-- A rune that is decoded is one of its own.
abbrev pub IsRune : Rune → Type 0
IsRune (encoded a s) = rune_size a s ≡ suc (length s)
IsRune (invalid a) = Unit

decode_sized :
    (n a : ℕ) (s : Text)
    → rune_size a s ≡ suc n
    → runes (a ∷ s) ≡ encoded a (take n s) ∷ runes_from n s
unfolding runes_from
decode_sized n a s h = rw (h, runes_from) refl

decode_invalid : (a : ℕ) (s : Text) → rune_size a s ≡ 0 → runes (a ∷ s) ≡ invalid a ∷ runes s
unfolding runes_from
decode_invalid a s h = rw (h, runes_from) refl

size_cases : (m : ℕ) → (m ≡ 0) ⊎ ((n : ℕ) × (m ≡ suc n))
size_cases zero = inl refl
size_cases (suc n) = inr (n, refl)

pub runes_from-IsRune : (n : ℕ) (s : Text) → All IsRune (runes_from n s)
unfolding runes_from
runes_from-IsRune n [] = tt
runes_from-IsRune (suc n) (c ∷ s) = runes_from-IsRune n s
runes_from-IsRune zero (c ∷ s) = elim (size_cases (rune_size c s)) [
  | inl e ↦ subst (All IsRune) (sym (decode_invalid c s e)) (tt, runes_from-IsRune 0 s)
  | inr (n, e) ↦
      subst (All IsRune) (sym (decode_sized n c s e)) (size_of_take n c s e, runes_from-IsRune n s)
]
  where
    size_of_take : (n a : ℕ) (s : Text) → rune_size a s ≡ suc n → IsRune (encoded a (take n s))
    size_of_take n a s e =
        let (size, len) = rune_size-take n a s [] e in
        rw len (subst (λ u. rune_size a u ≡ suc n) (append-nil (take n s)) size)

-- The bytes of a rune.
abbrev pub bytes : Rune → Text
bytes (encoded a s) = a ∷ s
bytes (invalid a) = a ∷ []

take-append : (s t : Text) → take (length s) (s ++ t) ≡ s
take-append [] [] = refl
take-append [] (c ∷ t) = refl
take-append (c ∷ s) t = ap (λ u. c ∷ u) (take-append s t)

skip-append : (s t : Text) → runes_from (length s) (s ++ t) ≡ runes t
unfolding runes_from
skip-append [] t = refl
skip-append (c ∷ s) t = skip-append s t

rune_size-append :
    (a : ℕ) (s t : Text) → rune_size a s ≡ suc (length s) → rune_size a (s ++ t) ≡ suc (length s)
rune_size-append a s t h =
    subst (λ u. rune_size a (u ++ t) ≡ suc (length s)) (take_all s)
      (rune_size-take (length s) a s t h).0
  where
    take_all : (u : Text) → take (length u) u ≡ u
    take_all [] = refl
    take_all (c ∷ u) = ap (λ v. c ∷ v) (take_all u)

-- A text that starts with a rune is decoded to that rune and the runes of the rest.
pub runes-append :
    (a : ℕ) (s t : Text) → IsRune (encoded a s) → runes (a ∷ s ++ t) ≡ encoded a s ∷ runes t
runes-append a s t h = cc (
  decode_sized (length s) a (s ++ t) (rune_size-append a s t h),
  take-append s t,
  skip-append s t,
)

abbrev pub IsHigh : ℕ → Type 0
IsHigh c = 0x80 ≤ c

conts-IsHigh : (s : Text) → conts (length s) s ≡ true → All IsHigh s
unfolding conts
conts-IsHigh [] h = tt
conts-IsHigh (c ∷ s) h = (ground arith, conts-IsHigh s (ground arith))

-- The bytes of a rune of several are not ASCII, and a rune of one is.
pub IsRune-IsHigh : (a b : ℕ) (s : Text) → IsRune (encoded a (b ∷ s)) → All IsHigh (a ∷ b ∷ s)
IsRune-IsHigh a b [] h =
    let (x, y, z) = size→Sized 1 a (b ∷ []) h in (ground arith, conts-IsHigh (b ∷ []) z)
IsRune-IsHigh a b (c ∷ []) h =
    let (x, y, z, w) = size→Sized 2 a (b ∷ c ∷ []) h in (ground arith, conts-IsHigh (b ∷ c ∷ []) w)
IsRune-IsHigh a b (c ∷ d ∷ []) h =
    let (x, y, z, v, w) = size→Sized 3 a (b ∷ c ∷ d ∷ []) h in
    (ground arith, conts-IsHigh (b ∷ c ∷ d ∷ []) w)
IsRune-IsHigh a b (c ∷ d ∷ e ∷ s) h =
    let impossible = size→Sized (suc (suc (suc (suc (length s))))) a (b ∷ c ∷ d ∷ e ∷ s) h in cc

-- The bytes of a rune of two.
pub IsRune-pair :
    (a b : ℕ) → IsRune (encoded a (b ∷ [])) → (0xc2 ≤ a) × (a ≤ 0xdf) × (0x80 ≤ b) × (b ≤ 0xbf)
unfolding starts_pair conts
IsRune-pair a b h =
    let (x, y, z) = size→Sized 1 a (b ∷ []) h in
    (ground arith, ground arith, ground arith, ground arith)

pub IsRune-IsAscii : (a : ℕ) → IsRune (encoded a []) → a < 0x80
unfolding rune_size
IsRune-IsAscii a h = ground arith

pub ascii-IsRune : (a : ℕ) → a < 0x80 → IsRune (encoded a [])
unfolding rune_size
ascii-IsRune a h = ground arith

take-drop : (n : ℕ) (s : Text) → take n s ++ drop n s ≡ s
take-drop zero s = refl
take-drop (suc n) [] = refl
take-drop (suc n) (c ∷ s) = ap (λ u. c ∷ u) (take-drop n s)

runes_from-bytes : (n : ℕ) (s : Text) → write_each bytes (runes_from n s) ≡ drop n s
unfolding runes_from write_each
runes_from-bytes zero [] = refl
runes_from-bytes (suc n) [] = refl
runes_from-bytes (suc n) (c ∷ s) = runes_from-bytes n s
runes_from-bytes zero (c ∷ s) = elim (size_cases (rune_size c s)) [
  | inl e ↦ rw (e, runes_from, write_each, runes_from-bytes 0 s) refl
  | inr (n, e) ↦ rw (e, runes_from, write_each, runes_from-bytes n s, take-drop n s) refl
]

-- A text is the bytes of its runes.
pub runes-bytes : (s : Text) → write_each bytes (runes s) ≡ s
runes-bytes s = runes_from-bytes 0 s
