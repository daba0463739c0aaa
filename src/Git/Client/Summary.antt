-- ===== src/Git/Client/Summary.antt =====
-- `commitSummaryRegex` of internal/git/git.go: the lines "[branch id] subject" that git prints for a
-- commit, of which `commit` takes the last. The expression matches from the start of a line; as the
-- text in brackets holds no "]", its end is the first "]", and as an id holds no space, it starts
-- behind the last one.
use sexton.Common.{
  ℕ, ◌≡◌, ◌≢◌, refl, ap, ◌∙◌, Bool, true, false, ◌&&◌, ◌||◌, Option, none, some, List, [], ◌∷◌,
  ◌++◌, arith, leb, ◌==◌, if◌then◌else◌, length, All-append,
}
use sexton.Common.Text.{Text, split, split-append, split-append_all, Lacks}

-- `[0-9a-fA-F]`.
is_hex : ℕ → Bool
is_hex c = leb b'0' c && leb c b'9' || leb b'a' c && leb c b'f' || leb b'A' c && leb c b'F'

all_hex : Text → Bool
all_hex [] = true
all_hex (c ∷ s) = is_hex c && all_hex s

-- An abbreviated object id.
unfoldable pub is_id : Text → Bool
unfolding all_hex is_hex
is_id s = all_hex s && leb 4 (length s) && leb (length s) 64

-- What stands before the first "]".
before_bracket : Text → Option Text
before_bracket [] = none
before_bracket (c ∷ s) =
    if c == b']' then some [] else elim (before_bracket s) [ none ↦ none | some t ↦ some (c ∷ t) ]

-- What stands behind the last space.
last_word : Text → Option Text
last_word [] = none
last_word (c ∷ s) = elim (last_word s) [
  | some w ↦ some w
  | none ↦ if c == b' ' then some s else none
]

id_in : Option Text → Option Text
id_in none = none
id_in (some w) = if is_id w then some w else none

id_between : Option Text → Option Text
id_between none = none
id_between (some body) = id_in (last_word body)

line_id : Text → Option Text
line_id [] = none
line_id (c ∷ s) = if c == b'[' then id_between (before_bracket s) else none

-- The id of the last line that has one.
last_id : List Text → Option Text
last_id [] = none
last_id (l ∷ ls) = elim (last_id ls) [ some w ↦ some w | none ↦ line_id l ]

unfoldable pub created_id : Text → Option Text
unfolding last_id line_id id_between id_in last_word before_bracket
created_id out = last_id (split 10 out)

-- The line of a commit.
abbrev pub summary_line : (label id subject : Text) → Text
summary_line label id subject = b'[' ∷ ((label ++ b' ' ∷ id) ++ b']' ∷ subject)

before_bracket-append : (p q : Text) → Lacks b']' p → before_bracket (p ++ b']' ∷ q) ≡ some p
unfolding before_bracket
before_bracket-append [] q h = refl
before_bracket-append (c ∷ p) q (hc, h) = ground (arith, before_bracket-append p q h)

last_word-none : (s : Text) → Lacks b' ' s → last_word s ≡ none
unfolding last_word
last_word-none [] h = refl
last_word-none (c ∷ s) (hc, h) = ground (arith, last_word-none s h)

last_word-append : (p s : Text) → Lacks b' ' s → last_word (p ++ b' ' ∷ s) ≡ some s
unfolding last_word
last_word-append [] s h = ground (arith, last_word-none s h)
last_word-append (c ∷ p) s h = ground (arith, last_word-append p s h)

-- A byte that is no hexadecimal digit is none of an id.
Lacks-all_hex : (b : ℕ) (s : Text) → is_hex b ≡ false → all_hex s ≡ true → Lacks b s
unfolding all_hex is_hex
Lacks-all_hex b [] h k = tt
Lacks-all_hex b (c ∷ s) h k = ((λ e. ground arith), Lacks-all_hex b s h (ground arith))

is_id-all_hex : (s : Text) → is_id s ≡ true → all_hex s ≡ true
unfolding is_id
is_id-all_hex s h = ground arith

Lacks-is_id : (b : ℕ) (s : Text) → is_hex b ≡ false → is_id s ≡ true → Lacks b s
Lacks-is_id b s h k = Lacks-all_hex b s h (is_id-all_hex s k)

bracket_no_hex : is_hex b']' ≡ false
unfolding is_hex
bracket_no_hex = refl

space_no_hex : is_hex b' ' ≡ false
unfolding is_hex
space_no_hex = refl

newline_no_hex : is_hex 10 ≡ false
unfolding is_hex
newline_no_hex = refl

line_id-summary :
    (label id subject : Text)
    → Lacks b']' label
    → is_id id ≡ true
    → line_id (summary_line label id subject) ≡ some id
unfolding line_id id_between id_in
line_id-summary label id subject h k =
    ap id_between (
      before_bracket-append (label ++ b' ' ∷ id) subject (
        All-append (λ c. c ≢ b']') label (b' ' ∷ id) h
          ((λ e. cc), Lacks-is_id b']' id bracket_no_hex k)))
    ∙ ap id_in (last_word-append label id (Lacks-is_id b' ' id space_no_hex k))
    ∙ ground (arith)

last_id-append : (xs ys : List Text) (i : Text) → last_id ys ≡ some i → last_id (xs ++ ys) ≡ some i
unfolding last_id
last_id-append [] ys i h = h
last_id-append (x ∷ xs) ys i h = ground (arith, last_id-append xs ys i h)

last_id-cons : (l : Text) (ls : List Text) → last_id ls ≡ none → last_id (l ∷ ls) ≡ line_id l
unfolding last_id
last_id-cons l ls h = rw h refl

Lacks-summary_line :
    (label id subject : Text)
    → Lacks 10 label
    → is_id id ≡ true
    → Lacks 10 subject
    → Lacks 10 (summary_line label id subject)
Lacks-summary_line label id subject h k l = (
  (λ e. cc),
  All-append (λ c. c ≢ 10) (label ++ b' ' ∷ id) (b']' ∷ subject)
      (All-append (λ c. c ≢ 10) label (b' ' ∷ id) h ((λ e. cc), Lacks-is_id 10 id newline_no_hex k))
      ((λ e. cc), l),
)

-- The object id of a commit is read off the output that git prints for it, whatever text stands in
-- the lines before its summary "[label id] subject", if the id has 4 to 64 hexadecimal digits, the
-- label holds no "]" and no line break, the subject holds no line break, and in the lines behind the
-- summary no other id is found.
pub created_id-summary :
    (before label id subject rest : Text)
    → Lacks b']' label
    → Lacks 10 label
    → is_id id ≡ true
    → Lacks 10 subject
    → created_id rest ≡ none
    → (created_id (summary_line label id subject ++ 10 ∷ rest) ≡ some id)
      × (created_id (before ++ 10 ∷ (summary_line label id subject ++ 10 ∷ rest)) ≡ some id)
unfolding created_id
created_id-summary before label id subject rest h n k l e =
    let found : last_id (split 10 (summary_line label id subject ++ 10 ∷ rest)) ≡ some id =
      ap last_id (
        split-append 10 (summary_line label id subject) rest
          (Lacks-summary_line label id subject n k l))
      ∙ last_id-cons (summary_line label id subject) (split 10 rest) e
      ∙ line_id-summary label id subject h k in
    (
      found,
      ap last_id (split-append_all 10 before (summary_line label id subject ++ 10 ∷ rest))
          ∙ last_id-append (split 10 before) _ id found,
    )
