-- ===== src/Git/Status/Branch/Counts.antt =====
-- The numbers of a branch line, and the loop over the matches of "ahead 1" and "behind 2".
use sexton.Common.{
  ℕ, ◌^◌, ◌<◌, ◌≡◌, refl, ap, ◌∙◌, Bool, true, false, not, [], ◌∷◌, ◌++◌, if◌then◌else◌, is_empty,
  All, arith,
}
use sexton.Common.Text.{
  Text, codes, has_prefix, decimal, decimal-All, decimal-read, is_empty-decimal,
}
use sexton.Git.Status.{Status}
use sexton.Git.Status.Branch.{span, digits_value, atoi, is_digit, store_count, store_counts}

-- A text that does not start with a byte of the test.
abbrev pub Ends : (ℕ → Bool) → Text → Type 0
Ends p [] = Unit
Ends p (c ∷ s) = p c ≡ false

pub span-append :
    (p : ℕ → Bool) (s t : Text) → All (λ c. p c ≡ true) s → Ends p t → span p (s ++ t) ≡ (s, t)
unfolding span
span-append p [] [] h e = refl
span-append p [] (c ∷ t) h e = rw e refl
span-append p (c ∷ s) t (hc, h) e = rw (hc, span-append p s t h e) refl

decimal-digits : (n : ℕ) → All (λ c. is_digit c ≡ true) (decimal n)
unfolding is_digit
decimal-digits n = decimal-All (λ c. is_digit c ≡ true) n λ d h. ground arith

atoi-decimal : (n : ℕ) → n < 2 ^ 63 → atoi (decimal n) ≡ n
unfolding atoi digits_value
atoi-decimal n h = rw (decimal-read digits_value (λ m c s. refl) n) (ground arith)

-- Digits hold no match.
store_counts-digits :
    (s : Status) (ds t : Text)
    → All (λ c. is_digit c ≡ true) ds
    → store_counts s (ds ++ t) ≡ store_counts s t
unfolding store_counts store_count has_prefix is_digit
store_counts-digits s [] t h = refl
store_counts-digits s (c ∷ ds) t (hc, h) = ground (arith, store_counts-digits s ds t h)

abbrev set_ahead : Status → Text → Status
set_ahead s d = if not (is_empty d) then record s { ahead = atoi d } else s

set_ahead-decimal :
    (s : Status) (n : ℕ) → n < 2 ^ 63 → set_ahead s (decimal n) ≡ record s { ahead = n }
set_ahead-decimal s n h =
    rw (is_empty-decimal n) (ap (λ k. record s { ahead = k }) (atoi-decimal n h))

match_ahead :
    (s : Status) (r : Text)
    → store_counts s (codes "ahead " ++ r) ≡ store_counts (set_ahead s (span is_digit r).0) r
unfolding store_counts store_count has_prefix
match_ahead s r = refl

-- The count that is stored, and what the loop goes on with.
pub store-ahead :
    (s : Status) (n : ℕ) (t : Text)
    → n < 2 ^ 63
    → Ends is_digit t
    → store_counts s (codes "ahead " ++ (decimal n ++ t)) ≡ store_counts (record s { ahead = n }) t
store-ahead s n t h e =
    match_ahead s (decimal n ++ t)
    ∙ ap (λ x. store_counts (set_ahead s x.0) (decimal n ++ t))
        (span-append is_digit (decimal n) t (decimal-digits n) e)
    ∙ ap (λ u. store_counts u (decimal n ++ t)) (set_ahead-decimal s n h)
    ∙ store_counts-digits (record s { ahead = n }) (decimal n) t (decimal-digits n)

abbrev set_behind : Status → Text → Status
set_behind s d = if not (is_empty d) then record s { behind = atoi d } else s

set_behind-decimal :
    (s : Status) (n : ℕ) → n < 2 ^ 63 → set_behind s (decimal n) ≡ record s { behind = n }
set_behind-decimal s n h =
    rw (is_empty-decimal n) (ap (λ k. record s { behind = k }) (atoi-decimal n h))

match_behind :
    (s : Status) (r : Text)
    → store_counts s (codes "behind " ++ r) ≡ store_counts (set_behind s (span is_digit r).0) r
unfolding store_counts store_count has_prefix
match_behind s r = refl

-- The count that is stored, and what the loop goes on with.
pub store-behind :
    (s : Status) (n : ℕ) (t : Text)
    → n < 2 ^ 63
    → Ends is_digit t
    → store_counts s (codes "behind " ++ (decimal n ++ t))
      ≡ store_counts (record s { behind = n }) t
store-behind s n t h e =
    match_behind s (decimal n ++ t)
    ∙ ap (λ x. store_counts (set_behind s x.0) (decimal n ++ t))
        (span-append is_digit (decimal n) t (decimal-digits n) e)
    ∙ ap (λ u. store_counts u (decimal n ++ t)) (set_behind-decimal s n h)
    ∙ store_counts-digits (record s { behind = n }) (decimal n) t (decimal-digits n)
