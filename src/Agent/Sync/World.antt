-- ===== src/Agent/Sync/World.antt =====
-- What a sync meets: the operations of the interface `gitClient`, the hooks and the language model,
-- each of which may fail; the clock; the cancellation of its context; and the requests that other
-- goroutines serve while it runs. All of it is an `Env` over a type of worlds, since none of it is
-- decided by the agent.
pub use sexton.Git.Errors.{
  Cause, canceled, nothing_to_commit, conflict, no_remote, dirty_working_tree, Fault,
}
use sexton.Common.{ℕ, ◌≡◌, Bool, true, Option, List, All}
use sexton.Common.Duration.{Time}
use sexton.Common.Result.{Result, err}
use sexton.Common.Text.{Text}
use sexton.Git.Status.{Status}
use sexton.Agent.Policy.{Policy}
use sexton.Agent.State.Control.Requests.{Request, IsSound}

-- `ResolvedHook` of internal/config/model.go, its environment left to the operation that runs it.
pub record ResolvedHook : Type 0 where
  pub command : Text
  pub timeout : ℕ
  pub dir : Text

pub data Op : Type 0 where
  branch : Op
  status : Op
  unmerged : Op
  stage_all : Op
  stage_regions : List Text → Op
  commit : Text → Op
  commit_only : Text → List Text → Op
  show_name_status : Text → Op
  show : Text → Op
  show_stat : Text → Op
  reword_commit : Text → Text → Text → Op
  pull : Text → Text → Op
  push : Text → Text → Op
  rebase_abort : Op
  short_head : Op
  commit_time : Op
  run_hook : Text → ResolvedHook → Op
  llm_complete : Text → Text → Op

-- What an operation returns if it does not fail.
abbrev pub Answer : Op → Type 0
Answer branch = Text
Answer status = Option Status
Answer unmerged = List Text
Answer stage_all = Unit
Answer (stage_regions regions) = Unit
Answer (commit message) = Text
Answer (commit_only message regions) = Text
Answer (show_name_status sha) = Option Status
Answer (show sha) = Text
Answer (show_stat sha) = Text
Answer (reword_commit name sha message) = Unit
Answer (pull remote name) = Bool
Answer (push remote name) = Unit
Answer rebase_abort = Unit
Answer short_head = Text
Answer commit_time = Time
Answer (run_hook phase hook) = Unit
Answer (llm_complete prompt diff) = Text

pub record Env (W : Type 0) : Type 0 where
  pub perform : (op : Op) → W → Result Fault (Answer op) × W
  pub now : W → Time × W
  pub requests : W → List Request × W
  -- `errors.Is(ctx.Err(), context.Canceled)`.
  pub is_canceled : W → Bool
  -- `strconv.Quote`, which goes by Unicode's tables of printable characters.
  pub quote : Text → Text

-- What the program relies on: a canceled context stays canceled, an operation reports a cancellation
-- only if the context is canceled, and no snooze ends at the zero time.
pub record IsReliable {W : Type 0} (env : Env W) : Type 0 where
  pub perform_sticky :
      (op : Op) (w : W) → env.is_canceled w ≡ true → env.is_canceled (env.perform op w).1 ≡ true
  pub now_sticky : (w : W) → env.is_canceled w ≡ true → env.is_canceled (env.now w).1 ≡ true
  pub requests_sticky :
      (w : W) → env.is_canceled w ≡ true → env.is_canceled (env.requests w).1 ≡ true
  pub honest :
      (op : Op) (w : W) (f : Fault)
      → (env.perform op w).0 ≡ err f
      → f.is canceled ≡ true
      → env.is_canceled (env.perform op w).1 ≡ true
  pub sound : (w : W) → All IsSound (env.requests w).0

-- `AlertFiles` and `AlertEvent` of internal/agent/alerter.go; the name of the repository and the
-- time of the alert are left out.
pub record AlertFiles : Type 0 where
  pub modified : List Text
  pub added : List Text
  pub deleted : List Text

pub record AlertEvent : Type 0 where
  pub severity : Text
  pub message : Text
  pub fault : Option Fault
  pub files : Option AlertFiles
  pub commit_message : Text

-- What an observer sees of a sync: each operation with its outcome and whether the context is canceled
-- behind it, and each alert.
pub data Event : Type 0 where
  did : (op : Op) → Result Fault (Answer op) → Bool → Event
  alerted : AlertEvent → Event

-- The part of `ResolvedRepo` that a sync reads, and whether there is a language model.
pub record Hooks : Type 0 where
  pub pre_commit : List ResolvedHook
  pub post_commit : List ResolvedHook
  pub post_pull : List ResolvedHook
  pub pre_push : List ResolvedHook
  pub post_sync : List ResolvedHook

pub record SyncConfig : Type 0 where
  pub branch_name : Text
  pub remote : Text
  pub commit_policy : Policy
  pub commit_regions : List Text
  pub commit_message_prompt : Text
  pub hooks : Hooks
  pub has_llm : Bool
