-- ===== src/Git/Status/Branch.antt =====
-- `parseBranchLine` of internal/git/status.go: the line "## name...upstream [ahead 1, behind 2]".
-- The two regular expressions are read as what they match: `branchRegex` is a name with neither dots
-- nor spaces, an optional "...upstream" and an optional " [counts]"; each part is as long as it can
-- be, and no shorter one can match, since what may follow it cannot start with one of its bytes.
pub mod Counts
pub mod RoundTrip
use sexton.Common.{
  ℕ, ◌+◌, ◌-◌, ◌*◌, ◌^◌, ◌≡◌, refl, ◌∙◌, Bool, not, ◌&&◌, ◌||◌, Option, none, some, [], ◌∷◌, ltb,
  leb, ◌==◌, if◌then◌else◌, is_empty, arith,
}
use sexton.Common.Text.{Text, codes, has_prefix, drop}
use sexton.Git.Status.{Status, new_status}

-- `\s`: tab, line feed, form feed, carriage return, space.
is_blank : ℕ → Bool
is_blank c = c == 9 || c == 10 || c == 12 || c == 13 || c == 32

-- The longest front of a text whose bytes pass the test, and the rest.
pub span : (ℕ → Bool) → Text → Text × Text
span p [] = ([], [])
span p (c ∷ s) = let rest = span p s in if p c then (c ∷ rest.0, rest.1) else ([], c ∷ s)

in_name : ℕ → Bool
in_name c = not (c == b'.' || is_blank c)

not_blank : ℕ → Bool
not_blank c = not (is_blank c)

-- A `(?:\.\.\.(\S+))?` before the rest: what is left behind it.
upstream : Text → Text
upstream s =
    let behind = span not_blank (drop 3 s) in
    if has_prefix s (codes "...") && not (is_empty behind.0) then behind.1 else s

-- The body of "body]" at the end of a text, with no line feed in it.
bracketed : Text → Option Text
bracketed [] = none
bracketed (c ∷ []) = if c == b']' then some [] else none
bracketed (c ∷ d ∷ s) = elim (bracketed (d ∷ s)) [
  | none ↦ none
  | some body ↦ if c == 10 then none else some (c ∷ body)
]

nonempty : Option Text → Option Text
nonempty none = none
nonempty (some []) = none
nonempty (some (c ∷ s)) = some (c ∷ s)

-- A `(?: \[(.+)\])?$`: the counts, which are empty where the part is left out.
counts : Text → Option Text
counts [] = some []
counts (c ∷ s) =
    if has_prefix (c ∷ s) (codes " [") then nonempty (bracketed (drop 2 (c ∷ s))) else none

-- `branchRegex`, on what stands behind "## ": the name and the counts.
match_branch : Text → Option (Text × Text)
match_branch s =
    let named = span in_name s in
    if is_empty named.0
    then none
    else elim (counts (upstream named.1)) [ none ↦ none | some c ↦ some (named.0, c) ]

-- `strconv.Atoi` on digits, its error ignored: the number, or the largest that an int holds.
digits_value : ℕ → Text → ℕ
digits_value n [] = n
digits_value n (c ∷ s) = digits_value (n * 10 + (c - b'0')) s

atoi : Text → ℕ
atoi s = let n = digits_value 0 s in if ltb n (2 ^ 63) then n else 2 ^ 63 - 1

pub is_digit : ℕ → Bool
is_digit c = leb b'0' c && leb c b'9'

-- One match of `(ahead|behind) (\d+)` at the front of a text, stored in the status.
store_count : Status → Text → Status
store_count s t =
    let a = (span is_digit (drop 6 t)).0 in
    let b = (span is_digit (drop 7 t)).0 in
    if has_prefix t (codes "ahead ") && not (is_empty a)
    then record s { ahead = atoi a }
    else if has_prefix t (codes "behind ") && not (is_empty b)
    then record s { behind = atoi b }
    else s

-- `FindAllStringSubmatch`, and the loop over the matches. No match can start inside another, so
-- every position is tried.
pub store_counts : Status → Text → Status
store_counts s [] = s
store_counts s (c ∷ t) = store_counts (store_count s (c ∷ t)) t

-- What stands before the first "..." behind the first byte.
cut_dots : Text → Text
cut_dots [] = []
cut_dots (c ∷ s) = let rest = cut_dots s in if has_prefix s (codes "...") then c ∷ [] else c ∷ rest

-- The branch of a line that `branchRegex` does not match: up to "...", unless that is at the front.
fallback : Text → Text
fallback s = if has_prefix s (codes "...") then s else cut_dots s

finish_branch : Status → Text → Option (Text × Text) → Status
finish_branch s line none = record s { branch = fallback line }
finish_branch s line (some (name, c)) = store_counts (record s { branch = name }) c

-- `parseBranchLine`, on the line behind its "## ".
unfoldable pub parse_branch_line : Status → Text → Status
unfolding is_blank span in_name not_blank upstream bracketed nonempty counts match_branch
    digits_value atoi is_digit store_count store_counts cut_dots fallback finish_branch
parse_branch_line s line = finish_branch s line (match_branch line)

-- Two statuses with the same entries and lists.
pub record SameLists (s t : Status) : Type 0 where
  pub modified : t.modified ≡ s.modified
  pub added : t.added ≡ s.added
  pub deleted : t.deleted ≡ s.deleted
  pub untracked : t.untracked ≡ s.untracked
  pub entries : t.entries ≡ s.entries

SameLists-trans : {s t u : Status} → SameLists s t → SameLists t u → SameLists s u
SameLists-trans h k = record {
  modified = k.modified ∙ h.modified;
  added = k.added ∙ h.added;
  deleted = k.deleted ∙ h.deleted;
  untracked = k.untracked ∙ h.untracked;
  entries = k.entries ∙ h.entries;
}

store_count-SameLists : (s : Status) (t : Text) → SameLists s (store_count s t)
unfolding store_count
store_count-SameLists s t = ground arith

store_counts-SameLists : (s : Status) (t : Text) → SameLists s (store_counts s t)
unfolding store_counts
store_counts-SameLists s [] = ground arith
store_counts-SameLists s (c ∷ t) =
    SameLists-trans (store_count-SameLists s (c ∷ t))
      (store_counts-SameLists (store_count s (c ∷ t)) t)

finish_branch-SameLists :
    (s : Status) (line : Text) (o : Option (Text × Text)) → SameLists s (finish_branch s line o)
unfolding finish_branch
finish_branch-SameLists s line none = ground arith
finish_branch-SameLists s line (some (name, c)) =
    SameLists-trans {t = record s { branch = name }} (ground arith) (store_counts-SameLists _ c)

-- The branch line changes none of the lists.
pub parse_branch_line-SameLists :
    (s : Status) (line : Text) → SameLists s (parse_branch_line s line)
unfolding parse_branch_line
parse_branch_line-SameLists s line = finish_branch-SameLists s line (match_branch line)

tracking :
    parse_branch_line new_status (codes "main...origin/main [ahead 12, behind 3]")
    ≡ record new_status { branch = codes "main"; ahead = 12; behind = 3 }
unfolding parse_branch_line has_prefix
tracking = refl

dotted :
    parse_branch_line new_status (codes "v1.2...origin/v1.2")
    ≡ record new_status { branch = codes "v1.2" }
unfolding parse_branch_line has_prefix
dotted = refl

-- The counts of a branch with a dot in its name are lost.
dotted_counts :
    parse_branch_line new_status (codes "v1.2...origin/v1.2 [ahead 1]")
    ≡ record new_status { branch = codes "v1.2" }
unfolding parse_branch_line has_prefix
dotted_counts = refl

unborn :
    parse_branch_line new_status (codes "No commits yet on main")
    ≡ record new_status { branch = codes "No commits yet on main" }
unfolding parse_branch_line has_prefix
unborn = refl
