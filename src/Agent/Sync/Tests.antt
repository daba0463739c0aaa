-- ===== src/Agent/Sync/Tests.antt =====
-- Syncs in a world that is one number, a clock that advances with each operation, and their theorems.
use sexton.Common.{
  ℕ, ◌+◌, ◌≡◌, refl, sym, ap, ◌∙◌, Bool, true, false, none, some, List, [], ◌∷◌, any, keep,
}
use sexton.Common.Result.{Result, ok, err}
use sexton.Common.Text.{Text, codes, elem, less, same, has_prefix}
use sexton.Common.Sort.{sort}
use sexton.Git.Status.{Status, new_status}
use sexton.Agent.Policy.{policy_all, policy_regions, partition_status}
use sexton.Agent.State.{Windows, new_agent, is_syncing}
use sexton.Agent.State.Control.Consistent.{IsConsistent, EndsLater, new_agent-IsConsistent}
use sexton.Agent.Sync.World.{
  Op, Answer, Fault, Cause, canceled, conflict, Env, IsReliable, SyncConfig, Hooks, branch, status,
  unmerged, stage_all, stage_regions, commit, commit_only, show_name_status, show, show_stat,
  reword_commit, pull, push, rebase_abort, short_head, commit_time, run_hook, llm_complete,
}
use sexton.Agent.Sync.Monad.{Sys}
use sexton.Agent.Sync.Remote.{sync}
use sexton.Agent.Run.{Reaches, starts, goes_on, ticks, run_rests, run-Only_permitted}
use sexton.Git.Command.{Host}
use sexton.Agent.Sync.Rests.{sync_rests}
use sexton.Agent.Sync.Trace.Permitted.{Only, permitted}
use sexton.Agent.Sync.Trace.Settled.{IsSettled, sync-IsSettled}
use sexton.Agent.Sync.Trace.NoPull.{no_pull}
use sexton.Agent.Sync.Trace.Refused.{
  is_branch, only_asks, sync_foreign_branch, sync_conflicted, sync_pull_paused,
}

abbrev is_conflict : Cause → Bool
is_conflict conflict = true
is_conflict _ = false

-- A new note, and a tracked one outside the regions.
abbrev changes : Status
changes = record new_status {
  modified = codes "src/b" ∷ [];
  untracked = codes "doc/a" ∷ [];
  entries =
      record { path = codes "doc/a"; old_path = []; x = b'?'; y = b'?' }
      ∷ record { path = codes "src/b"; old_path = []; x = b'M'; y = b' ' }
      ∷ [];
}

abbrev answer : List Text → (op : Op) → Result Fault (Answer op)
answer marked branch = ok (codes "main")
answer marked status = ok (some changes)
answer marked unmerged = ok marked
answer marked stage_all = ok tt
answer marked (stage_regions regions) = ok tt
answer marked (commit message) = ok (codes "abc")
answer marked (commit_only message regions) = ok (codes "abc")
answer marked (show_name_status sha) = ok none
answer marked (show sha) = ok []
answer marked (show_stat sha) = ok []
answer marked (reword_commit name sha message) = ok tt
answer marked (pull remote name) = err (record { text = codes "conflict"; is = is_conflict })
answer marked (push remote name) = ok tt
answer marked rebase_abort = ok tt
answer marked short_head = ok (codes "abc")
answer marked commit_time = ok 5
answer marked (run_hook phase hook) = ok tt
answer marked (llm_complete prompt diff) = ok (codes "notes")

abbrev env : List Text → Env ℕ
env marked = record {
  perform = λ op w. (answer marked op, w + 1);
  now = λ w. (w, w);
  requests = λ w. ([], w);
  is_canceled = λ w. false;
  quote = λ t. t;
}

abbrev reports_cancel : {A : Type 0} → Result Fault A → Bool
reports_cancel (ok a) = false
reports_cancel (err f) = f.is canceled

never_canceled : (marked : List Text) (op : Op) → reports_cancel (answer marked op) ≡ false
never_canceled marked (pull remote name) = refl
never_canceled marked _ = refl

reliable : (marked : List Text) → IsReliable (env marked)
reliable marked = record {
  perform_sticky = λ op w h. h;
  now_sticky = λ w h. h;
  requests_sticky = λ w h. h;
  honest = λ op w f e c. sym (never_canceled marked op) ∙ ap reports_cancel e ∙ c;
  sound = λ w. tt;
}

abbrev no_holdout : Windows
no_holdout = λ now. none

no_holdout-EndsLater : EndsLater no_holdout
no_holdout-EndsLater = λ now end e. cc

abbrev no_hooks : Hooks
no_hooks = record {
  pre_commit = [];
  post_commit = [];
  post_pull = [];
  pre_push = [];
  post_sync = [];
}

abbrev everything : SyncConfig
everything = record {
  branch_name = codes "main";
  remote = codes "origin";
  commit_policy = policy_all;
  commit_regions = [];
  commit_message_prompt = [];
  hooks = no_hooks;
  has_llm = false;
}

abbrev documents : SyncConfig
documents = record everything { commit_policy = policy_regions; commit_regions = codes "doc/" ∷ [] }

abbrev elsewhere : SyncConfig
elsewhere = record everything { branch_name = codes "other" }

abbrev start : Sys ℕ
start = record { agent = new_agent; world = 7; events = [] }

-- The sync commits, meets a conflict in the pull, and has it aborted.
sync_rests_example :
    (is_syncing (sync (env []) no_holdout everything start).agent.state ≡ false)
    × IsConsistent (sync (env []) no_holdout everything start).agent
sync_rests_example =
    sync_rests (env []) no_holdout everything (reliable []) no_holdout-EndsLater start refl
      new_agent-IsConsistent

sync-IsSettled_example : IsSettled (sync (env []) no_holdout everything start).events
sync-IsSettled_example = sync-IsSettled (env []) no_holdout everything start refl

sync_foreign_branch_example : Only is_branch (sync (env []) no_holdout elsewhere start).events
unfolding same
sync_foreign_branch_example =
    sync_foreign_branch (env []) no_holdout elsewhere (codes "main") start (λ w. refl) refl tt

sync_conflicted_example :
    Only only_asks (sync (env (codes "a" ∷ [])) no_holdout everything start).events
sync_conflicted_example =
    sync_conflicted (env (codes "a" ∷ [])) no_holdout everything changes (codes "a") [] start
      (λ w. refl) refl (λ w. refl) tt

sync_pull_paused_example : Only no_pull (sync (env []) no_holdout documents start).events
unfolding partition_status any keep elem sort has_prefix less same
sync_pull_paused_example =
    sync_pull_paused (env []) no_holdout documents changes start (λ w. refl) refl tt

-- The first sync, and the one of the next tick.
abbrev first_sync : Sys ℕ
first_sync = sync (env []) no_holdout everything start

abbrev next_sync : Sys ℕ
next_sync = sync (env []) no_holdout everything first_sync

Reaches-next : Reaches (env []) no_holdout everything next_sync
Reaches-next = goes_on first_sync next_sync (starts 7) (ticks first_sync)

run_rests_example : (is_syncing next_sync.agent.state ≡ false) × IsConsistent next_sync.agent
run_rests_example =
    run_rests (env []) no_holdout everything (reliable []) no_holdout-EndsLater next_sync
      Reaches-next

run-Only_permitted_example : Only (permitted policy_all []) next_sync.events
run-Only_permitted_example =
    run-Only_permitted (env []) no_holdout everything next_sync Reaches-next

-- A git that prints nothing, a hook that succeeds, and a model that fails.
abbrev silent : Host ℕ
silent = record {
  start_git = λ variables args w.
      (record { stdout = []; stderr = []; run_error = none; context_error = none }, w + 1);
  environ = [];
  quote = λ t. t;
  parse_rfc3339 = λ t. ok 5;
}
