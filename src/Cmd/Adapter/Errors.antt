-- ===== src/Cmd/Adapter/Errors.antt =====
-- How the control plane answers for an identifier that no agent has, or several.
use sexton.Common.{ℕ, ◌≡◌, refl, Bool, true, false, if◌then◌else◌, is_empty}
use sexton.Common.Duration.{Time, Duration}
use sexton.Common.Result.{Result, ok, err, map_err, err_inj}
use mathlib.Core.Path.{subst, sym}
use sexton.Common.Text.{Text}
use sexton.Git.Errors.{Fault}
use sexton.Config.Repo.{ResolvedRepo}
use sexton.Agent.Holdout.{Zone}
use sexton.Agent.Controller.{LookupCause, LookupError, resolve_agent}
use sexton.Agent.Controller.Failures.{matches_any, resolve_agent-cause}
use sexton.Rpc.{ControlError}
use sexton.Rpc.Handler.{
  Code, not_found, invalid_argument, operation_error, handle_status, handle_sync, handle_snooze,
  handle_resume,
}
use sexton.Cmd.Adapter.{
  Container, control_error, resolve, repo_status, trigger_repo, snooze_repo, resume_repo,
  container_adapter,
}

-- The code of an error of `resolveAgent`, by whether anything has the identifier.
code_of : Bool → Code
code_of found = if found then invalid_argument else not_found

control_error-code :
    (quote : Text → Text) (found : Bool) (l : LookupError)
    → l.cause ≡ (if found then LookupCause.ambiguous_repo else LookupCause.repo_not_found)
    → (operation_error quote (control_error l)).code ≡ code_of found
unfolding operation_error code_of
control_error-code quote true l h = rw h refl
control_error-code quote false l h = rw h refl

resolve-code :
    (quote : Text → Text) (repo : Text) (c : Container) (e : ControlError)
    → resolve repo c ≡ err e
    → (operation_error quote e).code ≡ code_of (matches_any repo c.configs)
unfolding resolve
resolve-code quote repo c e h = by_lookup (resolve_agent repo c.configs) refl h
  where
    by_lookup :
        (r : Result LookupError ResolvedRepo)
        → r ≡ resolve_agent repo c.configs
        → map_err control_error r ≡ err e
        → (operation_error quote e).code ≡ code_of (matches_any repo c.configs)
    by_lookup (ok a) k m = cc
    by_lookup (err l) k m =
        subst (λ x. (operation_error quote x).code ≡ code_of (matches_any repo c.configs))
          (err_inj m)
          (control_error-code quote (matches_any repo c.configs) l
            (resolve_agent-cause repo c.configs l (sym k)))

module _ (zone : Zone) (rfc3339 : Time → Text) (branch_of : ResolvedRepo → Result Fault Text)
    (now now' : Time) where
  module _ (quote : Text → Text) where
    -- An identifier that is not empty and whose lookup fails is an error of its own for every
    -- request: all four answer with it, whatever the duration of a snooze is if it can be read, and
    -- none changes anything. The code is that of an argument that is not valid if some
    -- repository has the identifier for its path, its explicit name or the base of its path, and
    -- `NotFound` otherwise.
    pub operation_error-resolve :
        (show_duration : ℕ → Text) (parse_duration : Text → Result Text Duration) (repo text : Text)
        (d : Duration) (c : Container) (e : ControlError)
        → resolve repo c ≡ err e
        → is_empty repo ≡ false
        → parse_duration text ≡ ok d
        → (handle_status quote
              (container_adapter zone rfc3339 branch_of now now')
              rfc3339
              show_duration
              repo
              c
            ≡ (err (operation_error quote e), c))
          × (handle_sync quote (container_adapter zone rfc3339 branch_of now now') repo c
              ≡ (err (operation_error quote e), c))
          × (handle_snooze quote
                (container_adapter zone rfc3339 branch_of now now')
                parse_duration
                rfc3339
                repo
                text
                c
              ≡ (err (operation_error quote e), c))
          × (handle_resume quote (container_adapter zone rfc3339 branch_of now now') repo c
              ≡ (err (operation_error quote e), c))
          × ((operation_error quote e).code
              ≡ (if matches_any repo c.configs then invalid_argument else not_found))
    unfolding handle_status handle_sync handle_snooze handle_resume repo_status trigger_repo
        snooze_repo resume_repo
    operation_error-resolve show_duration parse_duration repo text d c e h n p = (
      rw (n, h) refl,
      rw h refl,
      rw (p, h) refl,
      rw h refl,
      unfold code_of in resolve-code quote repo c e h,
    )
