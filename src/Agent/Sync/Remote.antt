-- ===== src/Agent/Sync/Remote.antt =====
-- The phases of `sync` behind the commit: attention, pull, push, and the end of a sync; and `sync`.
pub mod Safe
use sexton.Common.{
  ℕ, ◌-◌, Bool, true, false, not, ◌&&◌, ◌||◌, Option, none, some, List, [], ◌∷◌, ◌++◌, ltb,
  if◌then◌else◌, is_empty, length, take, map,
}
use sexton.Common.Duration.{Time}
use sexton.Common.Result.{Result, ok, err}
use sexton.Common.Sort.{sort}
use sexton.Common.Text.{Text, codes, same, less, join, decimal}
use sexton.Git.Status.{Status}
use sexton.Agent.Policy.{PolicyPartition, partition_status, put}
use sexton.Agent.State.{Agent, Windows, is_syncing, resting_state}
use sexton.Agent.Sync.World.{
  Op, Answer, Fault, Cause, canceled, conflict, no_remote, dirty_working_tree, Env, SyncConfig,
  AlertEvent, AlertFiles, pull, push, rebase_abort, short_head, commit_time,
}
use sexton.Agent.Sync.Monad.{
  Sys, M, return, stop, ◌>>=◌, ◌>>◌, perform, critical, context_canceled, sync_canceled, stop_if,
  alert, alert_if, plain_alert, should_abort, set_error, fail, attempt, run_hooks,
}
use sexton.Agent.Sync.Phases.{
  Committed, open_sync, check_branch, read_status, check_unmerged, commit_selected,
}

abbrev unique : List Text → List Text → List Text
unique [] seen = seen
unique (p ∷ ps) seen = unique ps (put p seen)

abbrev path_limit : ℕ
path_limit = 10

-- `formatAttentionDetail`; `quote` is `strconv.Quote`.
unfoldable pub format_attention_detail : (Text → Text) → List Text → Bool → Text
format_attention_detail quote paths tracked =
    let sorted = sort less (unique paths []) in
    let visible = take path_limit sorted in
    let hidden = length sorted - length visible in
    join (map quote visible) (codes ", ")
    ++ ((if ltb 0 hidden then codes ", +" ++ (decimal hidden ++ codes " more") else [])
        ++ (if tracked then codes " (pulls paused)" else []))

-- The critical section of `completeSync`.
unfoldable pub complete_section : Windows → Text → Time → Time → Time → Agent → Agent
complete_section windows sha commit_at now now' a = resting_state windows now' (record a {
  last_sync = now;
  last_commit = if is_empty sha then a.last_commit else sha;
  last_change = if ltb 0 commit_at then commit_at else a.last_change;
  error_detail = [];
})

abbrev files_of : Option Status → Option AlertFiles
files_of none = none
files_of (some s) =
    some (record { modified = s.modified; added = s.added ++ s.untracked; deleted = s.deleted })

-- The alert of a sync that created a change.
abbrev change_alert : Committed → AlertEvent
change_alert c = record {
  severity = codes "info";
  message = codes "sync complete";
  fault = none;
  files = files_of c.committed_status;
  commit_message = c.commit_message;
}

module _ {W : Type 0} (env : Env W) (windows : Windows) (cfg : SyncConfig) where
  -- `finishSuccessfulSync`, behind which the sync returns.
  unfoldable pub finish : {A : Type 0} → Text → Time → Bool → Committed → M W A
  finish sha commit_at had_error c = do
    critical env windows (λ now now' a. (complete_section windows sha commit_at now now' a, tt))
    alert_if env windows had_error (plain_alert (codes "info") (codes "recovered from error") none)
    alert_if env windows c.created_change (change_alert c)
    stop

  -- `restAfterIncompleteSync`.
  unfoldable pub rest_after_incomplete : M W (Unit {0})
  rest_after_incomplete = critical env windows (λ now _ a. (resting_state windows now a, tt))

  -- The critical sections of `setAttention` and `clearAttention`: whether there is something to say.
  abbrev set_attention_section : Text → Agent → Agent × Bool
  set_attention_section detail a =
      (record a { attention_detail = detail }, not (same a.attention_detail detail))

  abbrev clear_attention_section : Agent → Agent × Bool
  clear_attention_section a =
      (record a { attention_detail = [] }, not (is_empty a.attention_detail))

  unfoldable pub update_attention : PolicyPartition → M W (Unit {0})
  update_attention part =
      let detail =
        format_attention_detail env.quote part.unselected_paths part.has_tracked_unselected in
      if is_empty part.unselected_paths
      then (do
        cleared ← critical env windows (λ _ _ a. clear_attention_section a)
        alert_if env windows cleared
            (plain_alert (codes "info") (codes "local changes resolved") none)
        should_abort env windows)
      else (do
        news ← critical env windows (λ _ _ a. set_attention_section detail a)
        alert_if env windows news (plain_alert (codes "attention") detail none)
        should_abort env windows)

  unfoldable pub abort_then : {A : Type 0} → Fault → Result Fault (Unit {0}) → M W A
  abort_then f (ok _) = do set_error env windows (codes "rebase conflict") f; stop
  abort_then f (err g) = do
    set_error env windows (codes "rebase conflict; abort failed")
        (record f { text = f.text ++ (codes " (abort: " ++ (g.text ++ codes ")")) })
    stop

  -- A failed pull that is no conflict and that no cancellation has caused.
  unfoldable pub pull_refused : Bool → Committed → Fault → M W Bool
  pull_refused had_error c f =
      if f.is no_remote
      then (do should_abort env windows; finish [] 0 had_error c)
      else if f.is dirty_working_tree
      then (do should_abort env windows; rest_after_incomplete; stop)
      else (do set_error env windows (codes "pull failed") f; stop)

  -- A pull that was canceled may have left a rebase behind.
  unfoldable pub pull_over : Bool → Bool → Committed → Fault → M W Bool
  pull_over true had_error c f = do perform env windows rebase_abort; stop
  pull_over false had_error c f = pull_refused had_error c f

  -- What a failed pull leads to, case by case.
  unfoldable pub pull_failed : Bool → Committed → Fault → M W Bool
  pull_failed had_error c f =
      if f.is conflict
      then (do r ← perform env windows rebase_abort; abort_then f r)
      else (do over ← sync_canceled env windows f; pull_over over had_error c f)

  unfoldable pub pulled_or : Bool → Committed → Result Fault Bool → M W Bool
  pulled_or had_error c (ok pulled) = return pulled
  pulled_or had_error c (err f) = pull_failed had_error c f

  -- The pull, which tracked unselected changes pause.
  unfoldable pub pull_changes : PolicyPartition → Bool → Committed → M W Bool
  pull_changes part had_error c =
      if part.has_tracked_unselected
      then return false
      else (do r ← perform env windows (pull cfg.remote cfg.branch_name); pulled_or had_error c r)

  unfoldable pub after_pull : Bool → M W (Unit {0})
  after_pull pulled = do
    should_abort env windows
    if pulled
        then (do
          run_hooks env windows (codes "post_pull") cfg.hooks.post_pull
          should_abort env windows)
        else return tt

  unfoldable pub push_refused : Bool → Committed → Fault → M W (Unit {0})
  push_refused had_error c f =
      if f.is no_remote
      then (do should_abort env windows; finish [] 0 had_error c)
      else (do set_error env windows (codes "push failed") f; stop)

  unfoldable pub pushed_or : Bool → Committed → Result Fault (Unit {0}) → M W (Unit {0})
  pushed_or had_error c (ok _) = return tt
  pushed_or had_error c (err f) = do
    over ← sync_canceled env windows f
    stop_if env windows over
    push_refused had_error c f

  unfoldable pub push_changes : Bool → Committed → M W (Unit {0})
  push_changes had_error c = do
    run_hooks env windows (codes "pre_push") cfg.hooks.pre_push
    should_abort env windows
    r ← perform env windows (push cfg.remote cfg.branch_name)
    pushed_or had_error c r
    should_abort env windows

  unfoldable pub conclude : Bool → Committed → M W (Unit {0})
  conclude had_error c = do
    run_hooks env windows (codes "post_sync") cfg.hooks.post_sync
    should_abort env windows
    sha ← attempt env windows short_head (codes "failed to read HEAD")
    should_abort env windows
    commit_at ← attempt env windows commit_time (codes "failed to read commit time")
    should_abort env windows
    finish sha commit_at had_error c

  -- `sync` behind its conflict check.
  unfoldable pub after_check : Bool → PolicyPartition → M W (Unit {0})
  after_check had_error part = do
    c ← commit_selected env windows cfg part
    update_attention part
    pulled ← pull_changes part had_error c
    after_pull pulled
    push_changes had_error c
    conclude had_error c

  -- `sync` behind its partition of the status.
  unfoldable pub sync_partition : Bool → Status → PolicyPartition → M W (Unit {0})
  sync_partition had_error s part = do check_unmerged env windows cfg s; after_check had_error part

  -- `sync` behind its check of the branch.
  unfoldable pub after_branch : Bool → M W (Unit {0})
  after_branch had_error = do
    s ← read_status env windows cfg
    sync_partition had_error s (partition_status cfg.commit_policy cfg.commit_regions s)

  -- `sync` behind its opening.
  unfoldable pub sync_body : Bool → M W (Unit {0})
  unfolding after_branch sync_partition after_check
  sync_body had_error = do check_branch env windows cfg; after_branch had_error

  -- The deferred `clearCanceledSyncState`.
  abbrev pub clear_section : Time → Agent → Agent
  clear_section now a = if is_syncing a.state then resting_state windows now a else a

  unfoldable pub clear_canceled : Bool → M W (Unit {0})
  clear_canceled false = return tt
  clear_canceled true = critical env windows (λ now _ a. (clear_section now a, tt))

  unfoldable pub deferred : M W (Unit {0})
  deferred = do c ← context_canceled env windows; clear_canceled c

  unfoldable pub run_body : Option Bool → Sys W → Sys W
  run_body none s = s
  run_body (some had_error) s = (deferred (sync_body had_error s).1).1

  -- `sync`.
  unfoldable pub sync : Sys W → Sys W
  sync s = let opened = open_sync env windows cfg s in run_body opened.0 opened.1
