-- ===== src/Agent/Sync/Trace/NoPull.antt =====
-- The operations of a sync but for its pull.
use sexton.Common.{refl, Bool, true, false, List}
use sexton.Common.Text.{Text}
use sexton.Git.Status.{Status}
use sexton.Agent.Policy.{Policy, policy_all, policy_regions, policy_none, partition_status}
use sexton.Agent.State.{Windows}
use sexton.Agent.Sync.World.{Op, Env, SyncConfig, pull}
use sexton.Agent.Sync.Phases.{Committed, commit_selected}
use sexton.Agent.Sync.Trace.{Trace, IsClosed}
use sexton.Agent.Sync.Trace.Allowed.{AllowsReads, AllowsReword, AllowsCommit}
use sexton.Agent.Sync.Trace.Phases.{Stays}
use sexton.Agent.Sync.Trace.Commit.{commit_selected-Holds}

abbrev pub no_pull : Op → Bool
no_pull (pull remote name) = false
no_pull _ = true

pub no_pull-reads : AllowsReads no_pull
no_pull-reads = record {
  branch_ok = refl;
  status_ok = refl;
  unmerged_ok = refl;
  hook_ok = λ phase h. refl;
  abort_ok = refl;
  push_ok = λ remote name. refl;
  head_ok = refl;
  time_ok = refl;
}

no_pull-rewords : AllowsReword no_pull
no_pull-rewords = record {
  describe_ok = λ sha. refl;
  show_ok = λ sha. refl;
  stat_ok = λ sha. refl;
  llm_ok = λ prompt diff. refl;
  reword_ok = λ name sha message. refl;
}

any_policy : (p : Policy) (rs : List Text) → AllowsCommit no_pull p rs
any_policy policy_all rs = (refl, λ m. refl)
any_policy policy_regions rs = (refl, λ m. refl)
any_policy policy_none rs = tt

-- The commit of a sync makes no pull.
pub no_pull-commits :
    {W : Type 0} (env : Env W) (windows : Windows) (cfg : SyncConfig) (P : Trace → Type 0)
    (closed : IsClosed P no_pull) (st : Status)
    → Stays env windows cfg P no_pull closed {A = Committed}
        (commit_selected env windows cfg (partition_status cfg.commit_policy cfg.commit_regions st))
no_pull-commits env windows cfg P closed st =
    commit_selected-Holds env windows cfg P no_pull closed no_pull-reads no_pull-rewords _
      (any_policy cfg.commit_policy _)
