-- ===== src/Agent/Controller.antt =====
-- internal/agent/controller.go, and `validateRepoIdentifiers` of internal/agent/container.go: how an
-- identifier finds the agent of a repository. An agent is known by its configuration; a Go map is an
-- association list.
pub mod Lookup
pub mod Names
pub mod Failures
mod Tests
use sexton.Common.{
  Bool, true, false, ◌&&◌, Option, none, some, List, [], ◌∷◌, ◌++◌, map, keep, if◌then◌else◌,
}
use sexton.Common.Result.{Result, ok, err, ◌>>=◌}
use sexton.Common.Sort.{sort}
use sexton.Common.Text.{Text, codes, same, less}
use sexton.Config.Path.{base}
use sexton.Config.Repo.{ResolvedRepo}

-- `ErrRepoNotFound` and `ErrAmbiguousRepo`.
pub data LookupCause : Type 0 where
  repo_not_found ambiguous_repo : LookupCause

pub record LookupError : Type 0 where
  pub query : Text
  pub matches : List Text
  pub cause : LookupCause

-- `matchDescriptions`.
describe : ResolvedRepo → Text
describe a = if a.explicit_name then a.name ++ (codes " (" ++ (a.path ++ codes ")")) else a.path

unfoldable pub match_descriptions : List ResolvedRepo → List Text
unfolding describe
match_descriptions matches = sort less (map describe matches)

-- The outcome of a search, by what it has found; `none` stands for a null agent.
abbrev pub single : Text → List ResolvedRepo → Result LookupError (Option ResolvedRepo)
single query [] = ok none
single query (a ∷ []) = ok (some a)
single query (a ∷ b ∷ found) =
    err (record {
      query = query;
      matches = match_descriptions (a ∷ b ∷ found);
      cause = ambiguous_repo;
    })

-- `matchSingle`.
unfoldable pub match_single :
    Text → List ResolvedRepo → (ResolvedRepo → Bool) → Result LookupError (Option ResolvedRepo)
match_single query agents match = single query (keep match agents)

-- `if ag != nil || err != nil { return ag, err }`.
abbrev pub or_else :
    Result LookupError (Option ResolvedRepo)
    → Result LookupError ResolvedRepo
    → Result LookupError ResolvedRepo
or_else (err e) rest = err e
or_else (ok (some a)) rest = ok a
or_else (ok none) rest = rest

abbrev pub has_path : Text → ResolvedRepo → Bool
has_path repo a = same a.path repo

abbrev pub has_name : Text → ResolvedRepo → Bool
has_name repo a = a.explicit_name && same a.name repo

abbrev pub has_base : Text → ResolvedRepo → Bool
has_base repo a = same (base a.path) repo

abbrev pub not_found : Text → Result LookupError ResolvedRepo
not_found repo = err (record { query = repo; matches = []; cause = repo_not_found })

-- `ResolveAgent`.
unfoldable pub resolve_agent : Text → List ResolvedRepo → Result LookupError ResolvedRepo
resolve_agent repo agents = or_else (match_single repo agents (has_path repo)) (
    or_else (match_single repo agents (has_name repo))
      (or_else (match_single repo agents (has_base repo)) (not_found repo)))

pub data DuplicateError : Type 0 where
  duplicate_path : (path previous name : Text) → DuplicateError
  duplicate_name : (name previous path : Text) → DuplicateError

-- A lookup in a map.
unfoldable pub find : Text → List (Text × Text) → Option Text
find key [] = none
find key ((k, v) ∷ m) = let rest = find key m in if same k key then some v else rest

-- `paths[ag.cfg.Path] = ag.cfg.Name`, if the path is new.
unfoldable pub put_path :
    ResolvedRepo → List (Text × Text) → Result DuplicateError (List (Text × Text))
put_path a paths = elim (find a.path paths) [
  | some previous ↦ err (duplicate_path a.path previous a.name)
  | none ↦ ok ((a.path, a.name) ∷ paths)
]

-- `names[ag.cfg.Name] = ag.cfg.Path`, of an explicit name, if it is new.
unfoldable pub put_name :
    ResolvedRepo → List (Text × Text) → Result DuplicateError (List (Text × Text))
put_name a names =
    if a.explicit_name
    then elim (find a.name names) [
      | some previous ↦ err (duplicate_name a.name previous a.path)
      | none ↦ ok ((a.name, a.path) ∷ names)
    ]
    else ok names

-- The loop of `validateRepoIdentifiers`, over the maps `paths` and `names`.
unfoldable pub validate_from :
    (paths names : List (Text × Text)) → List ResolvedRepo → Result DuplicateError (Unit {0})
validate_from paths names [] = ok tt
validate_from paths names (a ∷ rest) = do
  paths' ← put_path a paths
  names' ← put_name a names
  validate_from paths' names' rest

-- `validateRepoIdentifiers`.
unfoldable pub validate_repo_identifiers : List ResolvedRepo → Result DuplicateError (Unit {0})
validate_repo_identifiers agents = validate_from [] [] agents
