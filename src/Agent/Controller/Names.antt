-- ===== src/Agent/Controller/Names.antt =====
-- The configured names of agents, in a container whose identifiers have been validated.
use sexton.Common.{
  ◌≡◌, ◌⊎◌, refl, ap, ◌∙◌, Bool, true, false, ◌||◌, Option, none, some, List, [], ◌∷◌, ◌++◌, keep,
  any, Bool-cases, inl, inr, if◌then◌else◌, is_some, arith,
}
use sexton.Common.Result.{Result, ok, err}
use sexton.Common.Text.{Text, same_iff, same_refl}
use sexton.Config.Repo.{ResolvedRepo}
use sexton.Agent.Controller.{
  single, match_single, or_else, has_path, has_name, has_base, resolve_agent, find, validate_from,
  validate_repo_identifiers, not_found, LookupError,
}
use sexton.Agent.Controller.Lookup.{Known, Known-cons, Known-head, round}

-- The names that a round leaves.
abbrev named : ResolvedRepo → List (Text × Text) → List (Text × Text)
named a names = if a.explicit_name then (a.name, a.path) ∷ names else names

Known-named :
    (n : Text) (a : ResolvedRepo) (names : List (Text × Text))
    → Known n names
    → Known n (named a names)
Known-named n a names h = elim (Bool-cases a.explicit_name) [
  | inl e ↦ rw e (Known-cons n a.name a.path names h)
  | inr e ↦ rw e h
]

-- A name that is known already is no later agent's configured one.
no_name :
    (n : Text) (paths names : List (Text × Text)) (bs : List ResolvedRepo)
    → validate_from paths names bs ≡ ok tt
    → Known n names
    → keep (has_name n) bs ≡ []
unfolding keep
no_name n paths names [] h k = refl
no_name n paths names (b ∷ bs) h k = elim (Bool-cases (has_name n b)) [
  | inl e ↦
      let r = round paths names b bs h in
      let eq = (same_iff b.name n).0 (ground arith) in
      let explicit : b.explicit_name ≡ true = ground arith in
      absurd (cc (r.new_name, explicit, k, ap (λ q. is_some (find q names)) eq))
  | inr e ↦
      let r = round paths names b bs h in
      rw e
        (no_name n ((b.path, b.name) ∷ paths) (named b names) bs r.valid (Known-named n b names k))
]

keep_cons :
    (p : ResolvedRepo → Bool) (b : ResolvedRepo) (bs : List ResolvedRepo)
    → p b ≡ true
    → keep p (b ∷ bs) ≡ b ∷ keep p bs
unfolding keep
keep_cons p b bs h = ground arith

one_name :
    (a : ResolvedRepo) (paths names : List (Text × Text)) (xs ys : List ResolvedRepo)
    → a.explicit_name ≡ true
    → validate_from paths names (xs ++ a ∷ ys) ≡ ok tt
    → keep (has_name a.name) (xs ++ a ∷ ys) ≡ a ∷ []
unfolding keep
one_name a paths names [] ys x h =
    let r = round paths names a ys h in
    let known : Known a.name (named a names) = rw x (Known-head a.name a.path names) in
    let none_later = no_name a.name ((a.path, a.name) ∷ paths) (named a names) ys r.valid known in
    keep_cons (has_name a.name) a ys (ground (arith, same_refl a.name)) ∙ ap (λ t. a ∷ t) none_later
one_name a paths names (b ∷ xs) ys x h = elim (Bool-cases (has_name a.name b)) [
  | inl e ↦
      let r = round paths names b (xs ++ a ∷ ys) h in
      let eq = (same_iff b.name a.name).0 (ground arith) in
      let explicit : b.explicit_name ≡ true = ground arith in
      let known : Known b.name (named b names) = rw explicit (Known-head b.name b.path names) in
      let later =
        no_name b.name ((b.path, b.name) ∷ paths) (named b names) (xs ++ a ∷ ys) r.valid known in
      let found = one_name a ((b.path, b.name) ∷ paths) (named b names) xs ys x r.valid in
      absurd (cc (later, found, ap (λ q. keep (has_name q) (xs ++ a ∷ ys)) eq))
  | inr e ↦
      let r = round paths names b (xs ++ a ∷ ys) h in
      rw e (one_name a ((b.path, b.name) ∷ paths) (named b names) xs ys x r.valid)
]

keep-any : (p : ResolvedRepo → Bool) (bs : List ResolvedRepo) → any p bs ≡ false → keep p bs ≡ []
unfolding keep any
keep-any p [] h = refl
keep-any p (b ∷ bs) h = ground (arith, keep-any p bs)

-- In a container whose identifiers are valid, the configured name of an agent finds that agent, if no
-- agent has a path that is spelled like the name.
pub resolve_agent-name :
    (a : ResolvedRepo) (xs ys : List ResolvedRepo)
    → validate_repo_identifiers (xs ++ a ∷ ys) ≡ ok tt
    → a.explicit_name ≡ true
    → any (has_path a.name) (xs ++ a ∷ ys) ≡ false
    → resolve_agent a.name (xs ++ a ∷ ys) ≡ ok a
unfolding validate_repo_identifiers resolve_agent match_single
resolve_agent-name a xs ys h x p =
    rw (keep-any (has_path a.name) (xs ++ a ∷ ys) p, one_name a [] [] xs ys x h) refl

single_one :
    (q : Text) (found : List ResolvedRepo) (a : ResolvedRepo)
    → single q found ≡ ok (some a)
    → found ≡ a ∷ []
single_one q [] a h = cc
single_one q (b ∷ []) a h = cc
single_one q (b ∷ c ∷ found) a h = cc

keep_first :
    (p : ResolvedRepo → Bool) (bs : List ResolvedRepo) (a : ResolvedRepo)
    → keep p bs ≡ a ∷ []
    → p a ≡ true
unfolding keep
keep_first p [] a h = cc
keep_first p (b ∷ bs) a h = ground (arith, keep_first p bs a)

match_single-ok :
    (q : Text) (p : ResolvedRepo → Bool) (bs : List ResolvedRepo) (a : ResolvedRepo)
    → match_single q bs p ≡ ok (some a)
    → p a ≡ true
unfolding match_single
match_single-ok q p bs a h = keep_first p bs a (single_one q (keep p bs) a h)

or_else-ok :
    (r : Result LookupError (Option ResolvedRepo)) (rest : Result LookupError ResolvedRepo)
    (a : ResolvedRepo)
    → or_else r rest ≡ ok a
    → (r ≡ ok (some a)) ⊎ (rest ≡ ok a)
or_else-ok (err e) rest a h = cc
or_else-ok (ok (some b)) rest a h = inl cc
or_else-ok (ok none) rest a h = inr h

-- An agent that is found has the identifier as its path, as its configured name, or as the last
-- component of its path.
resolve_agent-ok :
    (q : Text) (bs : List ResolvedRepo) (a : ResolvedRepo)
    → resolve_agent q bs ≡ ok a
    → (has_path q a || has_name q a || has_base q a) ≡ true
unfolding resolve_agent
resolve_agent-ok q bs a h = elim (or_else-ok (match_single q bs (has_path q)) _ a h) [
  | inl e ↦ let found = match_single-ok q (has_path q) bs a e in ground arith
  | inr e ↦ elim (or_else-ok (match_single q bs (has_name q)) _ a e) [
    | inl f ↦ let found = match_single-ok q (has_name q) bs a f in ground arith
    | inr f ↦ elim (or_else-ok (match_single q bs (has_base q)) (not_found q) a f) [
      | inl g ↦ let found = match_single-ok q (has_base q) bs a g in ground arith
      | inr g ↦ cc
    ]
  ]
]
