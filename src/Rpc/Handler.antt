-- ===== src/Rpc/Handler.antt =====
-- internal/rpc/handler.go: the requests of the control plane over any controller. `strconv.Quote`,
-- `time.ParseDuration`, and what times and durations print are parameters.
use sexton.Common.{
  ℕ, ◌+◌, ◌-◌, ◌%◌, Option, none, some, List, [], ◌++◌, map, ltb, ◌==◌, if◌then◌else◌,
}
use sexton.Common.Duration.{Time, Duration, second}
use sexton.Common.Result.{Result, ok, err}
use sexton.Common.Text.{Text, codes}
use sexton.Rpc.{
  RepoInfo, ControlError, control_error_text, is_repo_not_found, is_ambiguous_repo, AgentController,
}

-- The codes of gRPC that the handler answers with.
pub data Code : Type 0 where
  not_found invalid_argument failed_precondition : Code

pub record StatusError : Type 0 where
  pub code : Code
  pub message : Text

-- The message `RepoStatus` of the protocol, as far as the handler sets it.
pub record RepoMessage : Type 0 where
  pub path : Text
  pub name : Text
  pub state : Text
  pub branch : Text
  pub last_commit : Text
  pub last_sync : Text
  pub last_change : Text
  pub error : Text
  pub attention_detail : Text
  pub snooze_remaining : Text
  pub holdout_remaining : Text

-- `d.Round(time.Second)`, of a duration that is not negative.
unfoldable pub round_second : ℕ → ℕ
round_second d = let r = d % second in if ltb (r + r) second then d - r else d + (second - r)

module _ (quote : Text → Text) where
  -- `operationError`.
  unfoldable pub operation_error : ControlError → StatusError
  operation_error e =
      if is_repo_not_found e
      then record { code = not_found; message = control_error_text quote e }
      else if is_ambiguous_repo e
      then record { code = invalid_argument; message = control_error_text quote e }
      else record { code = failed_precondition; message = control_error_text quote e }

module _ (rfc3339 : Time → Text) (show_duration : ℕ → Text) where
  abbrev message_time : Time → Text
  message_time t = if t == 0 then [] else rfc3339 t

  abbrev message_duration : ℕ → Text
  message_duration d = if ltb 0 d then show_duration (round_second d) else []

  -- The loop's body in `Status`.
  unfoldable pub repo_message : RepoInfo → RepoMessage
  repo_message info = record {
    path = info.path;
    name = info.name;
    state = info.state;
    branch = info.branch;
    last_commit = info.last_commit;
    last_sync = message_time info.last_sync;
    last_change = message_time info.last_change;
    error = info.error;
    attention_detail = info.attention_detail;
    snooze_remaining = message_duration info.snooze_remaining;
    holdout_remaining = message_duration info.holdout_remaining;
  }

module _ {W : Type 0} (quote : Text → Text) (ctrl : AgentController W) where
  -- A result, with its error as a status of gRPC.
  abbrev pub answer :
      {A B : Type 0} → (A → B) → Result ControlError A × W → Result StatusError B × W
  answer f (ok a, w) = (ok (f a), w)
  answer f (err e, w) = (err (operation_error quote e), w)

  -- `Status`.
  unfoldable pub handle_status :
      (Time → Text) → (ℕ → Text) → Text → W → Result StatusError (List RepoMessage) × W
  handle_status rfc3339 show_duration repo w =
      answer (map (repo_message rfc3339 show_duration)) (ctrl.repo_status repo w)

  unfoldable pub sync_answer : Option ControlError × W → Result StatusError Text × W
  sync_answer (none, w) = (ok (codes "sync triggered"), w)
  sync_answer (some e, w) = (err (operation_error quote e), w)

  -- `Sync`.
  unfoldable pub handle_sync : Text → W → Result StatusError Text × W
  unfolding sync_answer
  handle_sync repo w = sync_answer (ctrl.trigger_sync repo w)

  invalid_duration : Text → Text → StatusError
  invalid_duration text reason = record {
    code = invalid_argument;
    message = codes "invalid snooze duration " ++ (quote text ++ (codes ": " ++ reason));
  }

  snooze_parsed :
      (Time → Text) → Text → Text → Result Text Duration → W → Result StatusError Text × W
  snooze_parsed rfc3339 repo text (err reason) w = (err (invalid_duration text reason), w)
  snooze_parsed rfc3339 repo text (ok d) w = answer rfc3339 (ctrl.snooze_repo repo d w)

  -- `Snooze`.
  unfoldable pub handle_snooze :
      (Text → Result Text Duration) → (Time → Text) → Text → Text → W → Result StatusError Text × W
  unfolding snooze_parsed invalid_duration
  handle_snooze parse_duration rfc3339 repo text w =
      snooze_parsed rfc3339 repo text (parse_duration text) w

  -- `Resume`.
  unfoldable pub handle_resume : Text → W → Result StatusError Text × W
  handle_resume repo w = answer (λ message. message) (ctrl.resume_repo repo w)
