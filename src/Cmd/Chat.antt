-- ===== src/Cmd/Chat.antt =====
-- `mattermostAdapter` of cmd/sexton/agent.go: the commands of the chat over the controller of the
-- control plane. An error goes on as its text.
use sexton.Common.{◌≡◌, refl, true, Option, none, some, List, ◌∷◌, ◌++◌, map}
use sexton.Common.Result.{Result, ok, err, is_ok}
use sexton.Common.Space.{trim_space, fields}
use sexton.Common.Text.{Text, codes, same}
use sexton.Rpc.{
  RepoInfo, ControlError, repo_not_found, ambiguous_repo, other_error, control_error_text,
  AgentController,
}
use sexton.Rpc.Handler.{
  StatusError, operation_error, handle_sync, handle_snooze, handle_resume, sync_answer, answer,
}
use sexton.Mattermost.Format.{
  RepoStatus, format_error, format_sync_response, format_snooze_response, format_resume_response,
}
use sexton.Mattermost.Commands.{
  Env, CommandHandler, dispatch, dispatch_command, dispatch_sync, dispatch_snooze, dispatch_resume,
  synced, answered,
}

-- The copy of the fields in `Status`.
unfoldable pub repo_status_of : RepoInfo → RepoStatus
repo_status_of info = record {
  name = info.name;
  path = info.path;
  state = info.state;
  branch = info.branch;
  last_sync = info.last_sync;
  last_commit = info.last_commit;
  last_change = info.last_change;
  error = info.error;
  attention_detail = info.attention_detail;
  snooze_remaining = info.snooze_remaining;
  holdout_remaining = info.holdout_remaining;
}

module _ {W : Type 0} (quote : Text → Text) (ctrl : AgentController W) where
  -- A result with its error as a text.
  abbrev texted : {A B : Type 0} → (A → B) → Result ControlError A × W → Result Text B × W
  texted f (ok a, w) = (ok (f a), w)
  texted f (err e, w) = (err (control_error_text quote e), w)

  abbrev texted_error : Option ControlError × W → Option Text × W
  texted_error (none, w) = (none, w)
  texted_error (some e, w) = (some (control_error_text quote e), w)

  -- `mattermostAdapter`.
  unfoldable pub mattermost_adapter : CommandHandler W
  mattermost_adapter = record {
    status = λ repo w. texted (map repo_status_of) (ctrl.repo_status repo w);
    sync = λ repo w. texted_error (ctrl.trigger_sync repo w);
    snooze = λ repo d w. texted (λ until. until) (ctrl.snooze_repo repo d w);
    resume = λ repo w. texted (λ message. message) (ctrl.resume_repo repo w);
  }

-- A request that changes something, as it is asked in both ways.
pub data Ask : Type 0 where
  ask_sync : Text → Ask
  ask_snooze : Text → Text → Ask
  ask_resume : Text → Ask

abbrev ask_name : Ask → Text
ask_name (ask_sync repo) = codes "sync"
ask_name (ask_snooze repo text) = codes "snooze"
ask_name (ask_resume repo) = codes "resume"

abbrev ask_args : Ask → List Text → List Text
ask_args (ask_sync repo) args = repo ∷ args
ask_args (ask_snooze repo text) args = repo ∷ text ∷ args
ask_args (ask_resume repo) args = repo ∷ args

is_ok-ok : {E A : Type 0} (r : Result E A) → is_ok r ≡ true → (a : A) × (r ≡ ok a)
is_ok-ok (ok a) h = (a, refl)
is_ok-ok (err e) h = cc

module _ {W : Type 0} (quote : Text → Text) (ctrl : AgentController W) (env : Env) where
  -- The duration of a snooze can be read.
  abbrev IsReadable : Ask → Type 0
  IsReadable (ask_snooze repo text) = is_ok (env.parse_duration text) ≡ true
  IsReadable _ = Unit

  -- What the server makes of it.
  abbrev pub by_rpc : Ask → W → Result StatusError Text × W
  by_rpc (ask_sync repo) w = handle_sync quote ctrl repo w
  by_rpc (ask_snooze repo text) w =
      handle_snooze quote ctrl env.parse_duration env.rfc3339 repo text w
  by_rpc (ask_resume repo) w = handle_resume quote ctrl repo w

  -- How the chat puts what the server answers.
  abbrev pub put : Ask → Text → Text
  put (ask_sync repo) m = format_sync_response repo
  put (ask_snooze repo text) m = codes "snoozed '" ++ (repo ++ (codes "' until " ++ m))
  put (ask_resume repo) m = format_resume_response m repo

  abbrev pub said_by : Ask → Result StatusError Text → Text
  said_by ask (ok m) = put ask m
  said_by ask (err e) = format_error e.message

  abbrev Agree : Ask → Text × W → Result StatusError Text × W → Type 0
  Agree ask chat rpc = (chat.0 ≡ said_by ask rpc.0) × (chat.1 ≡ rpc.1)

  operation_error-message :
      (e : ControlError) → (operation_error quote e).message ≡ control_error_text quote e
  unfolding operation_error
  operation_error-message (repo_not_found query) = refl
  operation_error-message (ambiguous_repo query matches) = refl
  operation_error-message (other_error text) = refl

  failed-Agree :
      (e : ControlError)
      → format_error (control_error_text quote e) ≡ format_error (operation_error quote e).message
  failed-Agree e = rw (operation_error-message e) refl

  synced-Agree :
      (repo : Text) (r : Option ControlError × W)
      → Agree
          (ask_sync repo)
          (synced env (mattermost_adapter quote ctrl) repo (texted_error quote ctrl r))
          (sync_answer quote ctrl r)
  unfolding synced sync_answer
  synced-Agree repo (none, w) = (refl, refl)
  synced-Agree repo (some e, w) = (failed-Agree e, refl)

  answered-Agree :
      {A : Type 0} (ask : Ask) (f : A → Text) (g : A → Text) (r : Result ControlError A × W)
      → ((a : A) → f a ≡ put ask (g a))
      → Agree ask
          (answered env (mattermost_adapter quote ctrl) f (texted quote ctrl (λ a. a) r))
          (answer quote ctrl g r)
  answered-Agree ask f g (ok a, w) h = (h a, refl)
  answered-Agree ask f g (err e, w) h = (failed-Agree e, refl)

  ask-Agree :
      (ask : Ask) (args : List Text) (w : W)
      → IsReadable ask
      → Agree ask
          (dispatch_command env
            (mattermost_adapter quote ctrl)
            (ask_name ask)
            (ask_args ask args)
            w)
          (by_rpc ask w)
  unfolding dispatch_command same dispatch_sync dispatch_snooze dispatch_resume handle_sync
      handle_snooze handle_resume mattermost_adapter format_snooze_response
  ask-Agree (ask_sync repo) args w h = synced-Agree repo (ctrl.trigger_sync repo w)
  ask-Agree (ask_snooze repo text) args w h =
      let (d, e) = is_ok-ok (env.parse_duration text) h in
      rw e (
        answered-Agree (ask_snooze repo text) (format_snooze_response env.rfc3339 repo) env.rfc3339
          (ctrl.snooze_repo repo d w) (λ until. refl))
  ask-Agree (ask_resume repo) args w h =
      answered-Agree (ask_resume repo) (λ m. format_resume_response m repo) (λ m. m)
        (ctrl.resume_repo repo w) (λ m. refl)

  -- The chat and the control plane do the same: a message whose first word is `sync`, `snooze` or
  -- `resume` in lower case, with the arguments that this command requires behind it and any others
  -- behind them, changes the world as the same request to the server does, and is answered with what
  -- the server answers, in the words of the chat; a duration has to be one that can be read.
  pub dispatch-Agree :
      (ask : Ask) (text cmd : Text) (args : List Text) (w : W)
      → fields (trim_space text) ≡ cmd ∷ ask_args ask args
      → env.lower cmd ≡ ask_name ask
      → IsReadable ask
      → ((dispatch env (mattermost_adapter quote ctrl) text w).0.0 ≡ said_by ask (by_rpc ask w).0)
        × ((dispatch env (mattermost_adapter quote ctrl) text w).1 ≡ (by_rpc ask w).1)
  unfolding dispatch
  dispatch-Agree ask text cmd args w h k readable = rw (h, k) (ask-Agree ask args w readable)
