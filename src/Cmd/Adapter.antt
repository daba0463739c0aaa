-- ===== src/Cmd/Adapter.antt =====
-- `containerAdapter` of cmd/sexton/agent.go: the controller of the control plane over the agents of a
-- container. An agent is a pointer in Go; here a store holds the agents by the paths of their
-- repositories, which the container has made sure are different. The clock's readings of one request
-- are parameters, as are the time zone, what git answers for a repository's branch, and what a time
-- prints. The alerts that an operation raises are kept, the latest first.
pub mod Errors
pub mod Effects
use sexton.Common.{
  ℕ, ◌≡◌, refl, Bool, true, false, Option, none, some, List, [], ◌∷◌, ◌++◌, map, if◌then◌else◌,
  is_empty,
}
use sexton.Common.Duration.{Time, Duration, add_duration}
use sexton.Common.Result.{Result, ok, err, map_err}
use sexton.Common.Text.{Text, codes, same}
use sexton.Git.Errors.{Fault}
use sexton.Config.Repo.{ResolvedRepo}
use sexton.Agent.Holdout.{Zone}
use sexton.Agent.State.{Agent, Windows, state_name, windows_of, snooze_remaining, holdout_remaining}
use sexton.Agent.State.Control.{
  Refusal, in_holdout, is_paused, not_paused, Answer, resumed, holdout_remains, refused,
  trigger_sync, snooze, resume,
}
use sexton.Agent.Controller.{LookupError, LookupCause, resolve_agent}
use sexton.Rpc.{
  RepoInfo, ControlError, repo_not_found, ambiguous_repo, other_error, AgentController,
}

pub record Container : Type 0 where
  pub configs : List ResolvedRepo
  pub agent_at : Text → Agent
  pub alerts : List (Text × Text)

-- The agents with one of them changed.
unfoldable pub put_agent : Text → Agent → (Text → Agent) → Text → Agent
put_agent path a agents q = if same q path then a else agents q

abbrev said : ResolvedRepo → Text → List (Text × Text) → List (Text × Text)
said cfg message alerts = (cfg.name, message) ∷ alerts

abbrev control_error : LookupError → ControlError
control_error e = elim e.cause [
  | LookupCause.repo_not_found ↦ repo_not_found e.query
  | LookupCause.ambiguous_repo ↦ ambiguous_repo e.query e.matches
]

-- `resolveAgent`.
unfoldable pub resolve : Text → Container → Result ControlError ResolvedRepo
resolve repo c = map_err control_error (resolve_agent repo c.configs)

module _ (rfc3339 : Time → Text) where
  -- The texts of the errors and the answers of the agent's operations.
  unfoldable pub refusal_text : Refusal → Text
  refusal_text (in_holdout end) = codes "agent is in holdout until '" ++ (rfc3339 end ++ codes "'")
  refusal_text is_paused = codes "agent is snoozed"
  refusal_text (not_paused s) =
      codes "agent is not errored or snoozed (state: '" ++ (state_name s ++ codes "')")

  unfoldable pub answer_text : Answer → Result ControlError Text
  unfolding refusal_text
  answer_text resumed = ok (codes "resumed")
  answer_text (holdout_remains end) = ok (codes "holdout remains active until " ++ rfc3339 end)
  answer_text (refused r) = err (other_error (refusal_text r))

  unfoldable pub refusal_error : Option Refusal → Option ControlError
  unfolding refusal_text
  refusal_error none = none
  refusal_error (some r) = some (other_error (refusal_text r))

-- `Branch`, of what git has answered.
unfoldable pub branch_text : Result Fault Text → Text
branch_text (ok branch) = branch
branch_text (err f) = codes "unknown"

module _ (zone : Zone) (rfc3339 : Time → Text) (branch_of : ResolvedRepo → Result Fault Text)
    (now now' : Time) where
  abbrev windows : ResolvedRepo → Windows
  windows cfg = windows_of zone cfg.holdout_windows

  -- `agentToRepoInfo`.
  unfoldable pub agent_to_repo_info : Container → ResolvedRepo → RepoInfo
  agent_to_repo_info c cfg =
      let a = c.agent_at cfg.path in
      record {
        path = cfg.path;
        name = cfg.name;
        state = state_name a.state;
        branch = branch_text (branch_of cfg);
        last_sync = a.last_sync;
        last_commit = a.last_commit;
        last_change = a.last_change;
        error = a.error_detail;
        attention_detail = a.attention_detail;
        snooze_remaining = snooze_remaining (windows cfg) now a;
        holdout_remaining = holdout_remaining (windows cfg) now' a;
      }

  info_of : Container → Result ControlError ResolvedRepo → Result ControlError (List RepoInfo)
  info_of c (ok cfg) = ok (agent_to_repo_info c cfg ∷ [])
  info_of c (err e) = err e

  -- `RepoStatus`.
  unfoldable pub repo_status : Text → Container → Result ControlError (List RepoInfo) × Container
  unfolding info_of
  repo_status repo c =
      if is_empty repo
      then (ok (map (agent_to_repo_info c) c.configs), c)
      else (info_of c (resolve repo c), c)

  trigger_at : Container → Result ControlError ResolvedRepo → Option ControlError × Container
  trigger_at c (err e) = (some e, c)
  trigger_at c (ok cfg) =
      let r = trigger_sync (windows cfg) now now' (c.agent_at cfg.path) in
      (refusal_error rfc3339 r.1, record c { agent_at = put_agent cfg.path r.0 c.agent_at })

  -- `TriggerSync`.
  unfoldable pub trigger_repo : Text → Container → Option ControlError × Container
  unfolding trigger_at
  trigger_repo repo c = trigger_at c (resolve repo c)

  snooze_at :
      Container → Duration → Result ControlError ResolvedRepo → Result ControlError Time × Container
  snooze_at c d (err e) = (err e, c)
  snooze_at c d (ok cfg) =
      let a = snooze (windows cfg) d now now' (c.agent_at cfg.path) in
      (
        ok (add_duration now d),
        record c {
          agent_at = put_agent cfg.path a c.agent_at;
          alerts = said cfg (codes "snoozed") c.alerts;
        },
      )

  -- `SnoozeRepo`.
  unfoldable pub snooze_repo : Text → Duration → Container → Result ControlError Time × Container
  unfolding snooze_at
  snooze_repo repo d c = snooze_at c d (resolve repo c)

  resumed_alerts : ResolvedRepo → Answer → List (Text × Text) → List (Text × Text)
  resumed_alerts cfg (refused r) alerts = alerts
  resumed_alerts cfg resumed alerts = said cfg (codes "resumed") alerts
  resumed_alerts cfg (holdout_remains end) alerts = said cfg (codes "resumed") alerts

  resume_at : Container → Result ControlError ResolvedRepo → Result ControlError Text × Container
  unfolding resumed_alerts
  resume_at c (err e) = (err e, c)
  resume_at c (ok cfg) =
      let r = resume (windows cfg) now now' (c.agent_at cfg.path) in
      (
        answer_text rfc3339 r.1,
        record c {
          agent_at = put_agent cfg.path r.0 c.agent_at;
          alerts = resumed_alerts cfg r.1 c.alerts;
        },
      )

  -- `ResumeRepo`.
  unfoldable pub resume_repo : Text → Container → Result ControlError Text × Container
  unfolding resume_at
  resume_repo repo c = resume_at c (resolve repo c)

  -- The adapter as the controller of the server.
  abbrev pub container_adapter : AgentController Container
  container_adapter = record {
    repo_status = repo_status;
    trigger_sync = trigger_repo;
    snooze_repo = snooze_repo;
    resume_repo = resume_repo;
  }
