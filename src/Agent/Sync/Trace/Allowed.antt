-- ===== src/Agent/Sync/Trace/Allowed.antt =====
-- Which operations a set of them has to contain, for the phases of a sync.
use sexton.Common.{◌≡◌, Bool, true, List}
use sexton.Common.Text.{Text}
use sexton.Agent.Policy.{Policy, policy_all, policy_regions, policy_none}
use sexton.Agent.Sync.World.{
  Op, ResolvedHook, branch, status, unmerged, stage_all, stage_regions, commit, commit_only,
  show_name_status, show, show_stat, reword_commit, llm_complete, push, rebase_abort, short_head,
  commit_time, run_hook,
}

-- The operations that a sync makes under any policy, but for its pull.
pub record AllowsReads (allowed : Op → Bool) : Type 0 where
  pub branch_ok : allowed branch ≡ true
  pub status_ok : allowed status ≡ true
  pub unmerged_ok : allowed unmerged ≡ true
  pub hook_ok : (phase : Text) (h : ResolvedHook) → allowed (run_hook phase h) ≡ true
  pub abort_ok : allowed rebase_abort ≡ true
  pub push_ok : (remote name : Text) → allowed (push remote name) ≡ true
  pub head_ok : allowed short_head ≡ true
  pub time_ok : allowed commit_time ≡ true

-- The operations that describe a commit.
pub record AllowsReword (allowed : Op → Bool) : Type 0 where
  pub describe_ok : (sha : Text) → allowed (show_name_status sha) ≡ true
  pub show_ok : (sha : Text) → allowed (show sha) ≡ true
  pub stat_ok : (sha : Text) → allowed (show_stat sha) ≡ true
  pub llm_ok : (prompt diff : Text) → allowed (llm_complete prompt diff) ≡ true
  pub reword_ok : (name sha message : Text) → allowed (reword_commit name sha message) ≡ true

-- The operations that stage and commit under a policy.
abbrev pub AllowsCommit : (Op → Bool) → Policy → List Text → Type 0
AllowsCommit allowed policy_all regions =
    (allowed stage_all ≡ true) × ((m : Text) → allowed (commit m) ≡ true)
AllowsCommit allowed policy_regions regions =
    (allowed (stage_regions regions) ≡ true) × ((m : Text) → allowed (commit_only m regions) ≡ true)
AllowsCommit allowed policy_none regions = Unit
