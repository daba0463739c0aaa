-- ===== src/Cmd/Tests.antt =====
-- A container of two repositories behind both front ends.
use sexton.Common.{
  ℕ, ◌-◌, ◌+◌, ◌*◌, ◌%◌, ◌≡◌, refl, true, false, none, [], ◌∷◌, keep, arith, if◌then◌else◌,
}
use sexton.Common.Duration.{Duration, plus, second}
use sexton.Common.Result.{Result, ok, err}
use sexton.Common.Sort.{sort}
use sexton.Common.Space.{trim_space, fields, to_lower}
use sexton.Common.Text.{Text, codes, same, less, split, decimal}
use sexton.Git.Errors.{Fault}
use sexton.Config.Path.{base}
use sexton.Config.Repo.{ResolvedRepo}
use sexton.Agent.Holdout.{Zone}
use sexton.Agent.State.{new_agent}
use sexton.Agent.State.Control.Consistent.{new_agent-IsConsistent}
use sexton.Agent.Controller.{resolve_agent, match_single, match_descriptions}
use sexton.Agent.Controller.Failures.{matches_any}
use sexton.Rpc.{ControlError, ambiguous_repo}
use sexton.Rpc.Handler.{
  invalid_argument, not_found, operation_error, handle_status, handle_sync, handle_snooze,
  handle_resume,
}
use sexton.Mattermost.Commands.{Env, dispatch}
use sexton.Cmd.Adapter.{
  Container, resolve, trigger_repo, snooze_repo, resume_repo, container_adapter,
}
use sexton.Cmd.Adapter.Effects.{AllConsistent, requests-AllConsistent}
use sexton.Cmd.Adapter.Errors.{operation_error-resolve}
use sexton.Cmd.Chat.{mattermost_adapter, ask_sync, said_by, by_rpc, dispatch-Agree}

abbrev day : ℕ
day = 86_400 * second

abbrev utc : Zone
utc = record { day_start = λ t. t - t % day; next_day = λ t. t + day }

abbrev repo : Text → ResolvedRepo
repo path = record {
  path = path;
  name = path;
  explicit_name = false;
  poll_interval = plus 1;
  branch = codes "main";
  remote = codes "origin";
  ssh_key = [];
  commit_message_prompt = [];
  commit_policy = codes "none";
  commit_regions = [];
  policy_defaulted = true;
  local_config_error = none;
  holdout_windows = [];
  hooks = record {
    pre_commit = [];
    post_commit = [];
    post_pull = [];
    pre_push = [];
    post_sync = [];
  };
}

abbrev container : Container
container = record {
  configs = repo (codes "/a/notes") ∷ repo (codes "/b/notes") ∷ [];
  agent_at = λ path. new_agent;
  alerts = [];
}

abbrev branch_of : ResolvedRepo → Result Fault Text
branch_of cfg = ok (codes "main")

abbrev any_duration : Text → Result Text Duration
any_duration text = ok (plus second)

abbrev notes_error : ControlError
notes_error = ambiguous_repo (codes "notes") (codes "/a/notes" ∷ codes "/b/notes" ∷ [])

notes_ambiguous : resolve (codes "notes") container ≡ err notes_error
unfolding resolve resolve_agent match_single match_descriptions keep sort same less base split
notes_ambiguous = refl

operation_error-resolve_example :
    (handle_status
        (λ t. t)
        (container_adapter utc decimal branch_of 5 6)
        decimal
        decimal
        (codes "notes")
        container
      ≡ (err (operation_error (λ t. t) notes_error), container))
    × (handle_sync (λ t. t) (container_adapter utc decimal branch_of 5 6) (codes "notes") container
        ≡ (err (operation_error (λ t. t) notes_error), container))
    × (handle_snooze
          (λ t. t)
          (container_adapter utc decimal branch_of 5 6)
          any_duration
          decimal
          (codes "notes")
          (codes "1s")
          container
        ≡ (err (operation_error (λ t. t) notes_error), container))
    × (handle_resume
          (λ t. t)
          (container_adapter utc decimal branch_of 5 6)
          (codes "notes")
          container
        ≡ (err (operation_error (λ t. t) notes_error), container))
    × ((operation_error (λ t. t) notes_error).code
        ≡ (if matches_any (codes "notes") container.configs then invalid_argument else not_found))
operation_error-resolve_example =
    operation_error-resolve utc decimal branch_of 5 6 (λ t. t) decimal any_duration (codes "notes")
      (codes "1s") (plus second) container notes_error notes_ambiguous refl refl

requests-AllConsistent_example :
    AllConsistent utc decimal branch_of 5 6
      (trigger_repo utc decimal branch_of 5 6 (codes "/a/notes") container).1
    × AllConsistent utc decimal branch_of 5 6
        (snooze_repo utc decimal branch_of 5 6 (codes "/a/notes") (plus second) container).1
    × AllConsistent utc decimal branch_of 5 6
        (resume_repo utc decimal branch_of 5 6 (codes "/a/notes") container).1
requests-AllConsistent_example =
    requests-AllConsistent utc decimal branch_of 5 6 (codes "/a/notes") (plus second) container
      (omega arith) (tt, (tt, tt)) (λ q. new_agent-IsConsistent)

abbrev library : Env
library = record {
  lower = to_lower;
  parse_duration = any_duration;
  rfc3339 = decimal;
  show_duration = decimal;
  version = codes "v1";
  now = 9 * second;
}

dispatch-Agree_example :
    ((dispatch library
        (mattermost_adapter (λ t. t) (container_adapter utc decimal branch_of 5 6))
        (codes "Sync /a/notes")
        container).0.0
      ≡ said_by
          (λ t. t)
          (container_adapter utc decimal branch_of 5 6)
          library
          (ask_sync (codes "/a/notes"))
          (by_rpc
            (λ t. t)
            (container_adapter utc decimal branch_of 5 6)
            library
            (ask_sync (codes "/a/notes"))
            container).0)
    × ((dispatch library
          (mattermost_adapter (λ t. t) (container_adapter utc decimal branch_of 5 6))
          (codes "Sync /a/notes")
          container).1
        ≡ (by_rpc
            (λ t. t)
            (container_adapter utc decimal branch_of 5 6)
            library
            (ask_sync (codes "/a/notes"))
            container).1)
unfolding fields trim_space to_lower
dispatch-Agree_example =
    dispatch-Agree (λ t. t) (container_adapter utc decimal branch_of 5 6) library
      (ask_sync (codes "/a/notes")) (codes "Sync /a/notes") (codes "Sync") [] container refl refl tt
