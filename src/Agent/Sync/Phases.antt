-- ===== src/Agent/Sync/Phases.antt =====
-- The phases of `sync`, up to the commit: the opening, the branch, the status, the conflict check and
-- the commit with its message.
pub mod Safe
pub use sexton.Git.Errors.{fault_of, wrap}
use sexton.Common.{
  ℕ, ◌*◌, Bool, true, false, not, ◌&&◌, ◌||◌, Option, none, some, List, [], ◌∷◌, ◌++◌, ltb,
  if◌then◌else◌, is_empty, length,
}
use sexton.Common.Duration.{Time}
use sexton.Common.Result.{Result, ok, err}
use sexton.Common.Text.{Text, codes, same, join, decimal}
use sexton.Git.Message.{generate_commit_message}
use sexton.Git.Status.{Status, new_status, has_changes}
use sexton.Agent.Policy.{
  Policy, policy_all, policy_regions, policy_none, PolicyPartition, partition_status,
}
use sexton.Agent.State.{Agent, Windows, State, syncing, manual_snooze_active, resting_state}
use sexton.Agent.Sync.World.{
  Op, Answer, Fault, Cause, canceled, nothing_to_commit, Env, SyncConfig, branch, status, unmerged,
  stage_all, stage_regions, commit, commit_only, show_name_status, show, show_stat, reword_commit,
  llm_complete,
}
use sexton.Agent.Sync.Monad.{
  M, return, stop, ◌>>=◌, ◌>>◌, perform, critical, context_canceled, sync_canceled, stop_if,
  should_abort, set_error, fail, attempt, run_hooks,
}

abbrev pub max_diff_bytes : ℕ
max_diff_bytes = 32 * 1024

-- config.DefaultCommitMessagePrompt.
unfoldable pub default_commit_message_prompt : Text
default_commit_message_prompt =
    codes
      "Summarize the following git diff as a concise commit message. Use imperative mood. Be specific about what changed."

unfoldable pub placeholder_commit_message : Text
placeholder_commit_message = codes "sexton: pending summary"

-- What a sync has committed: `createdChange`, `committedStatus` and `commitMsg`.
pub record Committed : Type 0 where
  pub created_change : Bool
  pub committed_status : Option Status
  pub commit_message : Text

abbrev pub nothing_committed : Committed
nothing_committed = record { created_change = false; committed_status = none; commit_message = [] }

-- The critical section with which a sync opens: `some hadError` if it goes on.
unfoldable pub open_by : Option Time → Windows → Time → Time → Agent → Agent × Option Bool
open_by (some end) windows now now' a =
    (resting_state windows now' (record a { holdout_until = end }), none)
open_by none windows now now' a =
    let b = if a.snooze_pending || ltb 0 a.snooze_until then resting_state windows now' a else a in
    if manual_snooze_active now a
    then (resting_state windows now' a, none)
    else (record b { holdout_until = 0; state = syncing }, some (not (is_empty b.error_detail)))

unfoldable pub open_section : Windows → Time → Time → Agent → Agent × Option Bool
unfolding open_by
open_section windows now now' a = open_by (windows now) windows now now' a

module _ {W : Type 0} (env : Env W) (windows : Windows) (cfg : SyncConfig) where
  unfoldable pub go_on : {A : Type 0} → Option A → M W A
  go_on none = stop
  go_on (some a) = return a

  -- The opening: whether the agent had an error.
  unfoldable pub open_sync : M W Bool
  open_sync = do
    c ← context_canceled env windows
    stop_if env windows c
    opened ← critical env windows (open_section windows)
    go_on opened

  unfoldable pub match_branch : Result Fault Text → M W (Unit {0})
  match_branch (ok current) =
      if same current cfg.branch_name
      then return tt
      else fail env windows (codes "branch mismatch") (
          fault_of (
            codes "configured branch "
            ++ (env.quote cfg.branch_name ++ (codes ", current branch " ++ env.quote current))))
  match_branch (err f) =
      fail env windows (codes "branch mismatch")
        (wrap (codes "failed to determine current branch: ") f)

  -- `validateBranch` and what follows its error.
  unfoldable pub check_branch : M W (Unit {0})
  check_branch = do
    current ← perform env windows branch
    match_branch current
    should_abort env windows

  abbrev pub or_new : Option Status → Status
  or_new none = new_status
  or_new (some s) = s

  unfoldable pub read_status : M W Status
  read_status = do
    s ← attempt env windows status (codes "failed to read git status")
    should_abort env windows
    return (or_new s)

  unfoldable pub refuse_unmerged : List Text → M W (Unit {0})
  refuse_unmerged [] = return tt
  refuse_unmerged (p ∷ ps) = do
    set_error env windows (codes "unresolved conflict") (
        fault_of (
          decimal (length (p ∷ ps)) ++ (codes " unmerged path(s): " ++ join (p ∷ ps) (codes ", "))))
    stop

  -- The refusal of a tree with conflict markers.
  unfoldable pub check_unmerged : Status → M W (Unit {0})
  check_unmerged s =
      if has_changes s
      then (do
        paths ← attempt env windows unmerged (codes "failed to check for unmerged paths")
        refuse_unmerged paths
        should_abort env windows)
      else return tt

  unfoldable pub stage : Policy → List Text → M W (Unit {0})
  stage policy_all regions = attempt env windows stage_all (codes "staging failed")
  stage policy_regions regions =
      attempt env windows (stage_regions regions) (codes "staging failed")
  stage policy_none regions = return tt

  -- A tree in which nothing is left to commit is no failure; the object id is empty then.
  unfoldable pub created : Result Fault Text → M W Text
  created (ok sha) = return sha
  created (err f) =
      if f.is nothing_to_commit then return [] else fail env windows (codes "commit failed") f

  unfoldable pub create_commit : Policy → List Text → M W Text
  create_commit policy_all regions = do
    r ← perform env windows (commit placeholder_commit_message)
    created r
  create_commit policy_regions regions = do
    r ← perform env windows (commit_only placeholder_commit_message regions)
    created r
  create_commit policy_none regions = return []

  -- The two ends of a failure in `generateCommitMessage`: the error if the sync is canceled, and
  -- the fallback if not.
  unfoldable pub fall_back :
      {A : Type 0} → Text → (A → M W (Result Fault Text)) → Result Fault A → M W (Result Fault Text)
  fall_back fallback next (ok a) = next a
  fall_back fallback next (err f) = do
    c ← sync_canceled env windows f
    return (if c then err f else ok fallback)

  abbrev prompt : Text
  prompt =
      if is_empty cfg.commit_message_prompt
      then default_commit_message_prompt
      else cfg.commit_message_prompt

  unfoldable pub complete : Text → Text → M W (Result Fault Text)
  complete fallback diff = do
    r ← perform env windows (llm_complete prompt diff)
    fall_back fallback (λ text. return (ok (if is_empty text then fallback else text))) r

  unfoldable pub summarize : Text → Text → Text → M W (Result Fault Text)
  summarize sha fallback diff =
      if ltb max_diff_bytes (length diff)
      then (do r ← perform env windows (show_stat sha); fall_back fallback (complete fallback) r)
      else complete fallback diff

  -- `generateCommitMessage`.
  unfoldable pub generate_message : Text → Option Status → M W (Result Fault Text)
  generate_message sha s =
      if cfg.has_llm
      then (do
        r ← perform env windows (show sha)
        fall_back (generate_commit_message s) (summarize sha (generate_commit_message s)) r)
      else return (ok (generate_commit_message s))

  unfoldable pub or_message : Result Fault Text → M W Text
  or_message (ok message) = return message
  or_message (err f) = fail env windows (codes "commit message generation failed") f

  -- What is done with a commit that was created: it is described, summarized and reworded.
  unfoldable pub describe_commit : Text → M W Committed
  describe_commit [] = return nothing_committed
  describe_commit (c ∷ sha) = do
    s ← attempt env windows (show_name_status (c ∷ sha)) (codes "failed to describe commit")
    m ← generate_message (c ∷ sha) s
    message ← or_message m
    attempt env windows (reword_commit cfg.branch_name (c ∷ sha) message)
        (codes "commit reword failed")
    should_abort env windows
    run_hooks env windows (codes "post_commit") cfg.hooks.post_commit
    should_abort env windows
    return (record { created_change = true; committed_status = s; commit_message = message })

  -- The commit of the selected changes.
  unfoldable pub commit_selected : PolicyPartition → M W Committed
  commit_selected part =
      if part.has_selected_changes
      then (do
        run_hooks env windows (codes "pre_commit") cfg.hooks.pre_commit
        should_abort env windows
        stage cfg.commit_policy part.regions
        should_abort env windows
        sha ← create_commit cfg.commit_policy part.regions
        describe_commit sha)
      else return nothing_committed
