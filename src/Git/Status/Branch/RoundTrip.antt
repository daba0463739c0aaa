-- ===== src/Git/Status/Branch/RoundTrip.antt =====
-- `parseBranchLine` reads back the branch line that git prints behind its "## ".
use sexton.Common.{
  ℕ, zero, suc, ◌^◌, ◌<◌, ◌≡◌, ◌≢◌, refl, ap, ◌∙◌, true, false, Option, none, some, [], ◌∷◌, ◌++◌,
  if◌then◌else◌, is_empty, All, All-append, arith,
}
use sexton.Common.Text.{Text, codes, has_prefix, decimal, decimal-All, Lacks}
use sexton.Git.Status.{new_status}
use sexton.Git.Status.Branch.{
  is_blank, in_name, not_blank, upstream, bracketed, nonempty, counts, match_branch, is_digit,
  store_count, store_counts, finish_branch, parse_branch_line,
}
use sexton.Git.Status.Branch.Counts.{Ends, span-append, store-ahead, store-behind}

-- How far a branch is from its upstream, as git prints it: nothing, one of the counts, or both.
abbrev tracking_body : ℕ → ℕ → Text
tracking_body zero zero = []
tracking_body (suc a) zero = codes "ahead " ++ (decimal (suc a) ++ [])
tracking_body zero (suc b) = codes "behind " ++ (decimal (suc b) ++ [])
tracking_body (suc a) (suc b) =
    codes "ahead " ++ (decimal (suc a) ++ (codes ", behind " ++ (decimal (suc b) ++ [])))

abbrev in_brackets : Text → Text
in_brackets [] = []
in_brackets (c ∷ body) = codes " [" ++ ((c ∷ body) ++ codes "]")

-- The branch line, behind its "## ", of a branch with an upstream.
abbrev pub print_branch : Text → Text → ℕ → ℕ → Text
print_branch name remote ahead behind =
    name ++ (codes "..." ++ (remote ++ in_brackets (tracking_body ahead behind)))

-- A byte that is no white space.
abbrev pub IsSolid : ℕ → Type 0
IsSolid c = (c ≢ 9) × (c ≢ 10) × (c ≢ 12) × (c ≢ 13) × (c ≢ 32)

abbrev pub IsNameByte : ℕ → Type 0
IsNameByte c = IsSolid c × (c ≢ b'.')

solid : (s : Text) → All IsSolid s → All (λ c. not_blank c ≡ true) s
unfolding not_blank is_blank
solid [] h = tt
solid (c ∷ s) (hc, h) = (ground arith, solid s h)

named : (s : Text) → All IsNameByte s → All (λ c. in_name c ≡ true) s
unfolding in_name is_blank
named [] h = tt
named (c ∷ s) (hc, h) = (ground arith, named s h)

-- What stands in the brackets.
bracketed-append : (body : Text) → Lacks 10 body → bracketed (body ++ codes "]") ≡ some body
unfolding bracketed
bracketed-append [] h = refl
bracketed-append (c ∷ []) (hc, h) = ground arith
bracketed-append (c ∷ d ∷ s) (hc, h) = ground (arith, bracketed-append (d ∷ s) h)

counts-in_brackets : (body : Text) → Lacks 10 body → counts (in_brackets body) ≡ some body
unfolding counts has_prefix nonempty
counts-in_brackets [] h = refl
counts-in_brackets (c ∷ body) h = rw (bracketed-append (c ∷ body) h) refl

decimal-Lacks : (n : ℕ) → Lacks 10 (decimal n)
decimal-Lacks n = decimal-All (λ c. c ≢ 10) n λ d h e. omega arith

ahead-Lacks : (n : ℕ) (t : Text) → Lacks 10 t → Lacks 10 (codes "ahead " ++ (decimal n ++ t))
ahead-Lacks n t h =
    All-append (λ c. c ≢ 10) (codes "ahead ") (decimal n ++ t) (omega arith)
      (All-append (λ c. c ≢ 10) (decimal n) t (decimal-Lacks n) h)

behind-Lacks : (n : ℕ) (t : Text) → Lacks 10 t → Lacks 10 (codes "behind " ++ (decimal n ++ t))
behind-Lacks n t h =
    All-append (λ c. c ≢ 10) (codes "behind ") (decimal n ++ t) (omega arith)
      (All-append (λ c. c ≢ 10) (decimal n) t (decimal-Lacks n) h)

tracking_body-Lacks : (a b : ℕ) → Lacks 10 (tracking_body a b)
tracking_body-Lacks zero zero = tt
tracking_body-Lacks (suc a) zero = ahead-Lacks (suc a) [] tt
tracking_body-Lacks zero (suc b) = behind-Lacks (suc b) [] tt
tracking_body-Lacks (suc a) (suc b) =
    ahead-Lacks (suc a) (codes ", behind " ++ (decimal (suc b) ++ [])) (
      All-append (λ c. c ≢ 10) (codes ", ") (codes "behind " ++ (decimal (suc b) ++ []))
        (omega arith) (behind-Lacks (suc b) [] tt))

store_counts-tracking_body :
    (name : Text) (a b : ℕ)
    → a < 2 ^ 63
    → b < 2 ^ 63
    → store_counts (record new_status { branch = name }) (tracking_body a b)
      ≡ record new_status { branch = name; ahead = a; behind = b }
unfolding store_counts
store_counts-tracking_body name zero zero m n = refl
store_counts-tracking_body name (suc a) zero m n =
    store-ahead (record new_status { branch = name }) (suc a) [] m tt
store_counts-tracking_body name zero (suc b) m n =
    store-behind (record new_status { branch = name }) (suc b) [] n tt
store_counts-tracking_body name (suc a) (suc b) m n =
    store-ahead (record new_status { branch = name }) (suc a)
      (codes ", behind " ++ (decimal (suc b) ++ [])) m (unfold is_digit in refl)
    ∙ unfold store_count has_prefix in
      store-behind (record new_status { branch = name; ahead = suc a }) (suc b) [] n tt

-- What is left of the line behind the upstream.
upstream-append :
    (remote t : Text)
    → is_empty remote ≡ false
    → All IsSolid remote
    → Ends not_blank t
    → upstream (codes "..." ++ (remote ++ t)) ≡ t
unfolding upstream has_prefix
upstream-append remote t re hr e = rw (span-append not_blank remote t (solid remote hr) e, re) refl

in_brackets-Ends : (body : Text) → Ends not_blank (in_brackets body)
unfolding not_blank is_blank
in_brackets-Ends [] = tt
in_brackets-Ends (c ∷ body) = refl

-- `branchRegex` behind the name.
abbrev matched : Text × Text → Option (Text × Text)
matched named =
    if is_empty named.0
    then none
    else elim (counts (upstream named.1)) [ none ↦ none | some c ↦ some (named.0, c) ]

match_branch-print :
    (name remote body : Text)
    → is_empty name ≡ false
    → All IsNameByte name
    → is_empty remote ≡ false
    → All IsSolid remote
    → Lacks 10 body
    → match_branch (name ++ (codes "..." ++ (remote ++ in_brackets body))) ≡ some (name, body)
unfolding match_branch
match_branch-print name remote body he hn re hr l =
    ap matched (
      span-append in_name name (codes "..." ++ (remote ++ in_brackets body)) (named name hn)
        (unfold in_name in refl))
    ∙ rw
        (
          he,
          upstream-append remote (in_brackets body) re hr (in_brackets-Ends body),
          counts-in_brackets body l,
        )
        refl

-- The branch line that git prints for a branch with an upstream is read back: its name, and how many
-- commits it is ahead and behind, each of which git leaves out if it is zero. The name is not empty and
-- has no dot and no white space, the upstream is not empty and has no white space, and the counts are
-- below 2 ^ 63.
pub parse-print_branch :
    (name remote : Text) (ahead behind : ℕ)
    → is_empty name ≡ false
    → All IsNameByte name
    → is_empty remote ≡ false
    → All IsSolid remote
    → ahead < 2 ^ 63
    → behind < 2 ^ 63
    → parse_branch_line new_status (print_branch name remote ahead behind)
      ≡ record new_status { branch = name; ahead = ahead; behind = behind }
unfolding parse_branch_line
parse-print_branch name remote ahead behind he hn re hr m n =
    ap (finish_branch new_status (print_branch name remote ahead behind)) (
      match_branch-print name remote (tracking_body ahead behind) he hn re hr
        (tracking_body-Lacks ahead behind))
    ∙ unfold finish_branch in store_counts-tracking_body name ahead behind m n
