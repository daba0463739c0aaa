-- ===== src/Rpc.antt =====
-- internal/rpc/controller.go: what the server asks of the agents, and the errors that it tells apart.
pub mod Handler
use sexton.Common.{ℕ, Bool, true, false, List, ◌++◌, Option}
use sexton.Common.Duration.{Time, Duration}
use sexton.Common.Result.{Result}
use sexton.Common.Text.{Text, codes, join}

-- `RepoInfo`; a zero time is 0, and no time that remains is negative.
pub record RepoInfo : Type 0 where
  pub path : Text
  pub name : Text
  pub state : Text
  pub branch : Text
  pub last_sync : Time
  pub last_commit : Text
  pub last_change : Time
  pub error : Text
  pub attention_detail : Text
  pub snooze_remaining : ℕ
  pub holdout_remaining : ℕ

-- The errors of a controller: one that wraps `ErrRepoNotFound`, an `AmbiguousRepoError`, and any
-- other.
pub data ControlError : Type 0 where
  repo_not_found : Text → ControlError
  ambiguous_repo : Text → List Text → ControlError
  other_error : Text → ControlError

-- `Error` of each; the first argument is `strconv.Quote`.
unfoldable pub control_error_text : (Text → Text) → ControlError → Text
control_error_text quote (repo_not_found query) = codes "repo not found: " ++ quote query
control_error_text quote (ambiguous_repo query matches) =
    codes "ambiguous repo "
    ++ (quote query
        ++ (codes "; matches: "
            ++ (join matches (codes ", ") ++ codes "; use configured name or full path")))
control_error_text quote (other_error text) = text

-- `errors.Is` with `ErrRepoNotFound` and `ErrAmbiguousRepo`.
abbrev pub is_repo_not_found : ControlError → Bool
is_repo_not_found (repo_not_found query) = true
is_repo_not_found _ = false

abbrev pub is_ambiguous_repo : ControlError → Bool
is_ambiguous_repo (ambiguous_repo query matches) = true
is_ambiguous_repo _ = false

-- `AgentController`, whose operations may change a world.
pub record AgentController (W : Type 0) : Type 0 where
  pub repo_status : Text → W → Result ControlError (List RepoInfo) × W
  pub trigger_sync : Text → W → Option ControlError × W
  pub snooze_repo : Text → Duration → W → Result ControlError Time × W
  pub resume_repo : Text → W → Result ControlError Text × W
