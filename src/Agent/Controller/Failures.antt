-- ===== src/Agent/Controller/Failures.antt =====
-- With which error a lookup fails, and that what it finds is an agent of the container.
use sexton.Common.{
  ◌≡◌, refl, Bool, true, false, not, ◌||◌, Option, none, some, List, [], ◌∷◌, keep, any,
  if◌then◌else◌, is_empty, arith, All, inl, inr, Bool-cases,
}
use mathlib.Core.Path.{subst}
use sexton.Common.Result.{Result, ok, err, ok_inj}
use sexton.Common.Text.{Text}
use sexton.Config.Repo.{ResolvedRepo}
use sexton.Agent.Controller.{
  repo_not_found, ambiguous_repo, LookupError, single, match_single, has_path, has_name, has_base,
  or_else, not_found, resolve_agent,
}

-- What a search says of whether there is a match.
abbrev Tells : Bool → Result LookupError (Option ResolvedRepo) → Type 0
Tells found (ok none) = found ≡ false
Tells found (ok (some a)) = found ≡ true
Tells found (err e) = (found ≡ true) × (e.cause ≡ ambiguous_repo)

single-Tells :
    (q : Text) (found : List ResolvedRepo) → Tells (not (is_empty found)) (single q found)
single-Tells q [] = refl
single-Tells q (a ∷ []) = refl
single-Tells q (a ∷ b ∷ found) = (refl, refl)

keep-any :
    (p : ResolvedRepo → Bool) (agents : List ResolvedRepo)
    → not (is_empty (keep p agents)) ≡ any p agents
unfolding keep any
keep-any p [] = refl
keep-any p (a ∷ agents) = ground (arith, keep-any p agents)

match_single-Tells :
    (q : Text) (agents : List ResolvedRepo) (p : ResolvedRepo → Bool)
    → Tells (any p agents) (match_single q agents p)
unfolding match_single
match_single-Tells q agents p =
    subst (λ b. Tells b (single q (keep p agents))) (keep-any p agents)
      (single-Tells q (keep p agents))

-- What the result of a lookup says of whether anything matches.
abbrev TellsAll : Bool → Result LookupError ResolvedRepo → Type 0
TellsAll found (ok a) = found ≡ true
TellsAll found (err e) = (e.cause ≡ (if found then ambiguous_repo else repo_not_found))

or_else-Tells :
    (b c : Bool) (r : Result LookupError (Option ResolvedRepo))
    (rest : Result LookupError ResolvedRepo)
    → Tells b r
    → TellsAll c rest
    → TellsAll (b || c) (or_else r rest)
or_else-Tells b c (ok none) rest h k = rw h k
or_else-Tells b c (ok (some a)) rest h k = rw h refl
or_else-Tells b c (err e) rest (h, k) l = rw h k

resolve_agent-Tells :
    (q : Text) (agents : List ResolvedRepo)
    → TellsAll
        (any (has_path q) agents || (any (has_name q) agents || (any (has_base q) agents || false)))
        (resolve_agent q agents)
unfolding resolve_agent
resolve_agent-Tells q agents =
    or_else-Tells (any (has_path q) agents)
      (any (has_name q) agents || (any (has_base q) agents || false))
      (match_single q agents (has_path q)) _ (match_single-Tells q agents (has_path q))
      (or_else-Tells (any (has_name q) agents) (any (has_base q) agents || false)
        (match_single q agents (has_name q)) _ (match_single-Tells q agents (has_name q))
        (or_else-Tells (any (has_base q) agents) false (match_single q agents (has_base q))
          (not_found q) (match_single-Tells q agents (has_base q)) refl))

-- Whether some agent has the identifier for its path, its explicit name or the base of its path.
abbrev pub matches_any : Text → List ResolvedRepo → Bool
matches_any q agents =
    any (has_path q) agents || (any (has_name q) agents || any (has_base q) agents)

-- A lookup that fails does so over a repository that is not found if nothing matches the identifier,
-- and over an ambiguous one otherwise.
pub resolve_agent-cause :
    (q : Text) (agents : List ResolvedRepo) (e : LookupError)
    → resolve_agent q agents ≡ err e
    → e.cause ≡ (if matches_any q agents then ambiguous_repo else repo_not_found)
resolve_agent-cause q agents e h =
    let told =
      subst
        (TellsAll (
          any (has_path q) agents
          || (any (has_name q) agents || (any (has_base q) agents || false))))
        h (resolve_agent-Tells q agents) in
    ground (arith, told)

module _ (P : ResolvedRepo → Type 0) where
  abbrev FindsIn : Result LookupError (Option ResolvedRepo) → Type 0
  FindsIn (ok (some a)) = P a
  FindsIn _ = Unit

  single-FindsIn : (q : Text) (found : List ResolvedRepo) → All P found → FindsIn (single q found)
  single-FindsIn q [] h = tt
  single-FindsIn q (a ∷ []) (ha, h) = ha
  single-FindsIn q (a ∷ b ∷ found) h = tt

  keep-All :
      (p : ResolvedRepo → Bool) (agents : List ResolvedRepo) → All P agents → All P (keep p agents)
  unfolding keep
  keep-All p [] h = tt
  keep-All p (a ∷ agents) (ha, h) = elim (Bool-cases (p a)) [
    | inl e ↦ rw e (ha, keep-All p agents h)
    | inr e ↦ rw e (keep-All p agents h)
  ]

  match_single-FindsIn :
      (q : Text) (agents : List ResolvedRepo) (p : ResolvedRepo → Bool)
      → All P agents
      → FindsIn (match_single q agents p)
  unfolding match_single
  match_single-FindsIn q agents p h = single-FindsIn q (keep p agents) (keep-All p agents h)

  or_else-FindsIn :
      (r : Result LookupError (Option ResolvedRepo)) (rest : Result LookupError ResolvedRepo)
      (a : ResolvedRepo)
      → FindsIn r
      → (rest ≡ ok a → P a)
      → or_else r rest ≡ ok a
      → P a
  or_else-FindsIn (ok none) rest a h k e = k e
  or_else-FindsIn (ok (some b)) rest a h k e = subst P (ok_inj e) h
  or_else-FindsIn (err l) rest a h k e = cc

  -- What is found has every property that all agents have.
  pub resolve_agent-All :
      (q : Text) (agents : List ResolvedRepo) (a : ResolvedRepo)
      → All P agents
      → resolve_agent q agents ≡ ok a
      → P a
  unfolding resolve_agent
  resolve_agent-All q agents a h =
      or_else-FindsIn (match_single q agents (has_path q)) _ a
        (match_single-FindsIn q agents (has_path q) h)
        (or_else-FindsIn (match_single q agents (has_name q)) _ a
          (match_single-FindsIn q agents (has_name q) h)
          (or_else-FindsIn (match_single q agents (has_base q)) (not_found q) a
            (match_single-FindsIn q agents (has_base q) h) (λ e. cc)))
