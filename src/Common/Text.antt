-- ===== src/Common/Text.antt =====
-- Texts as lists of numbers: bytes where the program walks bytes, code points elsewhere. The
-- comparisons, joins and decimal prints that the program takes from Go's `strings` and `fmt`.
use Prim.Native.Nat.{ℕ, zero, suc, ◌+◌, ◌-◌, ◌*◌, ◌/◌, ◌%◌, ◌<◌}
use Prim.Native.Char.{code}
use Prim.Native.String.{String}
use mathlib.Core.Path.{◌≡◌, refl, ap, ◌∙◌}
use mathlib.Core.Logic.{◌≢◌, ◌↔◌, inl, inr}
use mathlib.Core.Bool.{Bool, true, false, ◌&&◌, ◌||◌}
use mathlib.Core.List.{List, [], ◌∷◌, ◌++◌}
use native.Mathlib.Omega.{arith}
use sexton.Common.Tests.{Bool-cases, ltb, ◌==◌, if◌then◌else◌}
use sexton.Common.Lists.{any, All, is_empty}

abbrev pub Text : Type 0
Text = List ℕ

-- The code points of a literal; these are its bytes when the text is ASCII.
abbrev pub codes : String → Text
codes String.[] = []
codes (String.◌∷◌ c s) = code c ∷ codes s

-- Go's `a == b` on strings.
unfoldable pub same : Text → Text → Bool
same [] [] = true
same [] (d ∷ t) = false
same (c ∷ s) [] = false
same (c ∷ s) (d ∷ t) = c == d && same s t

-- Go's `a < b` on strings.
unfoldable pub less : Text → Text → Bool
less [] [] = false
less [] (d ∷ t) = true
less (c ∷ s) [] = false
less (c ∷ s) (d ∷ t) = ltb c d || c == d && less s t

-- `strings.HasPrefix(s, prefix)`.
unfoldable pub has_prefix : Text → Text → Bool
has_prefix s [] = true
has_prefix [] (c ∷ p) = false
has_prefix (d ∷ s) (c ∷ p) = c == d && has_prefix s p

-- Membership, as in a lookup of a `map[string]bool`.
unfoldable pub elem : Text → List Text → Bool
elem t ts = any (λ u. same u t) ts

-- `strings.Join(parts, sep)`.
unfoldable pub join : List Text → Text → Text
join [] sep = []
join (p ∷ []) sep = p
join (p ∷ q ∷ ps) sep = p ++ (sep ++ join (q ∷ ps) sep)

-- The digits of `n`, the last one first out; `n` is fuel enough, since every round divides by ten.
digits : ℕ → ℕ → Text → Text
digits zero n out = out
digits (suc f) n out =
    let out' = (b'0' + n % 10) ∷ out in
    let rest = digits f (n / 10) out' in if ltb n 10 then out' else rest

-- `%d` of a number that is not negative.
unfoldable pub decimal : ℕ → Text
unfolding digits
decimal n = digits (suc n) n []

digits-All :
    (P : ℕ → Type 0) (f n : ℕ) (out : Text)
    → ((d : ℕ) → d < 10 → P (b'0' + d))
    → All P out
    → All P (digits f n out)
unfolding digits
digits-All P zero n out h k = k
digits-All P (suc f) n out h k =
    let out' = (b'0' + n % 10) ∷ out in
    let k' : All P out' = (h (n % 10) (omega arith), k) in
    elim (Bool-cases (ltb n 10)) [
      | inl e ↦ rw e k'
      | inr e ↦ rw e (digits-All P f (n / 10) out' h k')
    ]

-- A decimal is made of digits.
pub decimal-All : (P : ℕ → Type 0) (n : ℕ) → ((d : ℕ) → d < 10 → P (b'0' + d)) → All P (decimal n)
unfolding decimal
decimal-All P n h = digits-All P (suc n) n [] h tt

same→eq : (s t : Text) → same s t ≡ true → s ≡ t
unfolding same
same→eq [] [] h = refl
same→eq [] (d ∷ t) h = cc
same→eq (c ∷ s) [] h = cc
same→eq (c ∷ s) (d ∷ t) h = ground (arith, same→eq s t)

pub same_refl : (s : Text) → same s s ≡ true
unfolding same
same_refl [] = refl
same_refl (c ∷ s) = ground (arith, same_refl s)

pub same_iff : (s t : Text) → (same s t ≡ true) ↔ (s ≡ t)
same_iff s t = (same→eq s t, λ e. rw e (same_refl t))

pub less_irrefl : (s : Text) → less s s ≡ false
unfolding less
less_irrefl [] = refl
less_irrefl (c ∷ s) = ground (arith, less_irrefl s)

pub less_trans : (s t u : Text) → less s t ≡ true → less t u ≡ true → less s u ≡ true
unfolding less
less_trans [] [] u h k = cc
less_trans [] (d ∷ t) [] h k = cc
less_trans [] (d ∷ t) (e ∷ u) h k = refl
less_trans (c ∷ s) [] u h k = cc
less_trans (c ∷ s) (d ∷ t) [] h k = cc
less_trans (c ∷ s) (d ∷ t) (e ∷ u) h k = ground (arith, less_trans s t u)

pub less-total : (s t : Text) → less s t ≡ false → same s t ≡ false → less t s ≡ true
unfolding less same
less-total [] [] h k = cc
less-total [] (d ∷ t) h k = cc
less-total (c ∷ s) [] h k = refl
less-total (c ∷ s) (d ∷ t) h k = ground (arith, less-total s t)

pub has_prefix-append : (p s : Text) → has_prefix (p ++ s) p ≡ true
unfolding has_prefix
has_prefix-append [] [] = refl
has_prefix-append [] (c ∷ s) = refl
has_prefix-append (c ∷ p) s = ground (arith, has_prefix-append p s)

-- A reader that takes ten times what it has read and the next digit reads the number.
module _ (read : ℕ → Text → ℕ)
    (step : (m c : ℕ) (s : Text) → read m (c ∷ s) ≡ read (m * 10 + (c - b'0')) s) where
  digits-read : (f n : ℕ) (out : Text) → n < f → read 0 (digits f n out) ≡ read n out
  unfolding digits
  digits-read zero n out h = absurd (omega arith)
  digits-read (suc f) n out h = elim (Bool-cases (ltb n 10)) [
    | inl e ↦ rw e (
        step 0 (b'0' + n % 10) out
        ∙ ap (λ m. read m out) {x = 0 * 10 + (b'0' + n % 10 - b'0')} {y = n} (ground arith))
    | inr e ↦ rw e (
        digits-read f (n / 10) ((b'0' + n % 10) ∷ out) (ground arith)
        ∙ step (n / 10) (b'0' + n % 10) out
        ∙ ap (λ m. read m out) {x = n / 10 * 10 + (b'0' + n % 10 - b'0')} {y = n} (ground arith))
  ]

  pub decimal-read : (n : ℕ) → read 0 (decimal n) ≡ read n []
  unfolding decimal
  decimal-read n = digits-read (suc n) n [] (omega arith)

digits_more : (f n c : ℕ) (out : Text) → is_empty (digits f n (c ∷ out)) ≡ false
unfolding digits
digits_more zero n c out = refl
digits_more (suc f) n c out = ground (arith, digits_more f (n / 10) (b'0' + n % 10) (c ∷ out))

pub is_empty-decimal : (n : ℕ) → is_empty (decimal n) ≡ false
unfolding decimal digits
is_empty-decimal n = ground (arith, digits_more n (n / 10) (b'0' + n % 10) [])

decimal_test : decimal 1205 ≡ codes "1205"
unfolding decimal
decimal_test = refl

decimal_zero : decimal 0 ≡ codes "0"
unfolding decimal
decimal_zero = refl

cons_head : ℕ → List Text → List Text
cons_head c [] = (c ∷ []) ∷ []
cons_head c (p ∷ ps) = (c ∷ p) ∷ ps

-- `strings.Split(s, sep)` at a separator of one byte.
unfoldable pub split : ℕ → Text → List Text
unfolding cons_head
split sep [] = [] ∷ []
split sep (c ∷ s) = let rest = split sep s in if c == sep then [] ∷ rest else cons_head c rest

abbrev pub Lacks : ℕ → Text → Type 0
Lacks b = All (λ c. c ≢ b)

-- A part that holds no separator is cut off as it is.
pub split-append :
    (sep : ℕ) (p rest : Text) → Lacks sep p → split sep (p ++ sep ∷ rest) ≡ p ∷ split sep rest
unfolding split
split-append sep [] rest h = ground arith
split-append sep (c ∷ p) rest (hc, h) = ground (arith, split-append sep p rest h)

-- A text without the separator is one part.
pub split_one : (sep : ℕ) (p : Text) → Lacks sep p → split sep p ≡ p ∷ []
unfolding split
split_one sep [] h = refl
split_one sep (c ∷ p) (hc, h) = ground (arith, split_one sep p h)

cons_head-append :
    (c : ℕ) (ps qs : List Text) → ps ≢ [] → cons_head c (ps ++ qs) ≡ cons_head c ps ++ qs
unfolding cons_head
cons_head-append c [] qs h = ground arith
cons_head-append c (p ∷ ps) qs h = refl

cons_head-nonempty : (c : ℕ) (ps : List Text) → cons_head c ps ≢ []
unfolding cons_head
cons_head-nonempty c [] = λ e. cc
cons_head-nonempty c (p ∷ ps) = λ e. cc

split-nonempty : (sep : ℕ) (s : Text) → split sep s ≢ []
unfolding split
split-nonempty sep [] = λ e. cc
split-nonempty sep (c ∷ s) = λ e. ground (arith, cons_head-nonempty c (split sep s))

-- A text is split behind any separator as its two sides are.
pub split-append_all :
    (sep : ℕ) (p rest : Text) → split sep (p ++ sep ∷ rest) ≡ split sep p ++ split sep rest
unfolding split
split-append_all sep [] rest = ground arith
split-append_all sep (c ∷ p) rest = ground (
  arith,
  split-append_all sep p rest,
  cons_head-append c (split sep p) (split sep rest) (split-nonempty sep p),
)

cons_head-Lacks :
    (sep c : ℕ) (ps : List Text) → c ≢ sep → All (Lacks sep) ps → All (Lacks sep) (cons_head c ps)
unfolding cons_head
cons_head-Lacks sep c [] h l = ((h, tt), tt)
cons_head-Lacks sep c (p ∷ ps) h (lp, l) = ((h, lp), l)

-- No part holds the separator.
pub split-Lacks : (sep : ℕ) (s : Text) → All (Lacks sep) (split sep s)
unfolding split
split-Lacks sep [] = (tt, tt)
split-Lacks sep (c ∷ s) = elim (Bool-cases (c == sep)) [
  | inl e ↦ rw e (tt, split-Lacks sep s)
  | inr e ↦ rw e (cons_head-Lacks sep c (split sep s) (λ k. ground arith) (split-Lacks sep s))
]

-- A slice `s[n:]`; the program takes none out of range.
abbrev pub drop : ℕ → Text → Text
drop zero s = s
drop (suc n) [] = []
drop (suc n) (c ∷ s) = drop n s
