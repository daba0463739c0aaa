-- ===== src/Agent/Sync/Trace/Permitted.antt =====
-- What the commit policy permits a sync to do, and that a sync does nothing else.
use sexton.Common.{◌≡◌, refl, sym, Bool, true, false, ◌&&◌, ◌||◌, List, [], ◌∷◌, any, keep, arith}
use mathlib.Core.Path.{subst}
use sexton.Common.Text.{Text, elem, same_refl}
use sexton.Git.Status.{Status}
use sexton.Agent.Policy.{
  Policy, policy_all, policy_regions, policy_none, PolicyPartition, partition_status,
}
use sexton.Agent.Policy.Partition.{partition_status-regions, policy_none-selects_nothing}
use sexton.Agent.State.{Windows}
use sexton.Agent.Sync.World.{
  Op, Env, SyncConfig, did, alerted, stage_all, stage_regions, commit, commit_only, reword_commit,
}
use sexton.Agent.Sync.Monad.{Sys}
use sexton.Agent.Sync.Phases.{Committed, commit_selected}
use sexton.Agent.Sync.Remote.{sync, sync_body}
use sexton.Agent.Sync.Trace.{Trace, IsClosed, Holds-bind}
use sexton.Agent.Sync.Trace.Allowed.{AllowsReads, AllowsReword, AllowsCommit}
use sexton.Agent.Sync.Trace.Phases.{
  Stays, check_branch-Holds, read_status-Holds, pull_changes-Holds, sync_partition-Holds,
  sync-Holds,
}
use sexton.Agent.Sync.Trace.Commit.{commit_selected-Holds, commit_nothing-Holds}

-- Every operation of the events is an allowed one.
abbrev pub Only : (Op → Bool) → Trace → Type 0
Only allowed [] = Unit
Only allowed (did op r over ∷ es) = (allowed op ≡ true) × Only allowed es
Only allowed (alerted e ∷ es) = Only allowed es

pub Only-IsClosed : (allowed : Op → Bool) → IsClosed (Only allowed) allowed
Only-IsClosed allowed = record { alerts = λ e es p. p; ops = λ op r over es h p. (h, p) }

abbrev commits_all : Policy → Bool
commits_all policy_all = true
commits_all _ = false

abbrev commits_regions : Policy → Bool
commits_regions policy_regions = true
commits_regions _ = false

-- Whether every one of some regions is a configured one.
abbrev pub configured : List Text → List Text → Bool
configured regions [] = true
configured regions (r ∷ rs) = elem r regions && configured regions rs

-- The operations that a policy permits: to stage and to commit everything is for `all`, to stage
-- and to commit some of the configured regions for `regions`, and `none` rewords nothing either.
abbrev pub permitted : Policy → List Text → Op → Bool
permitted policy regions stage_all = commits_all policy
permitted policy regions (stage_regions rs) = commits_regions policy && configured regions rs
permitted policy regions (commit m) = commits_all policy
permitted policy regions (commit_only m rs) = commits_regions policy && configured regions rs
permitted policy regions (reword_commit name sha m) = commits_all policy || commits_regions policy
permitted policy regions _ = true

permitted-reads : (p : Policy) (regions : List Text) → AllowsReads (permitted p regions)
permitted-reads p regions = record {
  branch_ok = refl;
  status_ok = refl;
  unmerged_ok = refl;
  hook_ok = λ phase h. refl;
  abort_ok = refl;
  push_ok = λ remote name. refl;
  head_ok = refl;
  time_ok = refl;
}

permitted-rewords :
    (p : Policy) (regions : List Text)
    → (commits_all p || commits_regions p) ≡ true
    → AllowsReword (permitted p regions)
permitted-rewords p regions h = record {
  describe_ok = λ sha. refl;
  show_ok = λ sha. refl;
  stat_ok = λ sha. refl;
  llm_ok = λ prompt diff. refl;
  reword_ok = λ name sha message. h;
}

permitted-commits :
    (p : Policy) (regions rs : List Text)
    → configured regions rs ≡ true
    → AllowsCommit (permitted p regions) p rs
permitted-commits policy_all regions rs h = (refl, λ m. refl)
permitted-commits policy_regions regions rs h = (h, λ m. h)
permitted-commits policy_none regions rs h = tt

-- What is kept of a list stays in any list that holds it.
configured-keep :
    (p : Text → Bool) (regions xs : List Text)
    → ((r : Text) → elem r xs ≡ true → elem r regions ≡ true)
    → configured regions (keep p xs) ≡ true
unfolding keep elem any
configured-keep p regions [] h = refl
configured-keep p regions (x ∷ xs) h =
    let tail_in = configured-keep p regions xs (λ r e. h r (ground arith)) in
    let head_in : elem x regions ≡ true = h x (rw same_refl) in ground arith

module _ {W : Type 0} (env : Env W) (windows : Windows) (cfg : SyncConfig) where
  abbrev here : Op → Bool
  here = permitted cfg.commit_policy cfg.commit_regions

  abbrev part_of : Status → PolicyPartition
  part_of st = partition_status cfg.commit_policy cfg.commit_regions st

  part_regions : (st : Status) → configured cfg.commit_regions (part_of st).regions ≡ true
  part_regions st =
      rw partition_status-regions
        (configured-keep _ cfg.commit_regions cfg.commit_regions (λ r e. e))

  committing :
      (st : Status)
      → (commits_all cfg.commit_policy || commits_regions cfg.commit_policy) ≡ true
      → Stays env windows cfg
          (Only here)
          here
          (Only-IsClosed here)
          {A = Committed}
          (commit_selected env windows cfg (part_of st))
  committing st h =
      commit_selected-Holds env windows cfg (Only here) here (Only-IsClosed here)
        (permitted-reads cfg.commit_policy cfg.commit_regions)
        (permitted-rewords cfg.commit_policy cfg.commit_regions h) (part_of st)
        (permitted-commits cfg.commit_policy cfg.commit_regions (part_of st).regions
          (part_regions st))

  commits :
      (p : Policy) (st : Status)
      → cfg.commit_policy ≡ p
      → Stays env windows cfg
          (Only here)
          here
          (Only-IsClosed here)
          {A = Committed}
          (commit_selected env windows cfg (part_of st))
  commits policy_all st e = committing st (rw e)
  commits policy_regions st e = committing st (rw e)
  commits policy_none st e =
      commit_nothing-Holds env windows cfg (Only here) here (Only-IsClosed here) (part_of st) (
        subst (λ q. (partition_status q cfg.commit_regions st).has_selected_changes ≡ false) (sym e)
          (policy_none-selects_nothing cfg.commit_regions st))

  permitted_body :
      (had : Bool)
      → Stays env windows cfg
          (Only here)
          here
          (Only-IsClosed here)
          {A = Unit {0}}
          (sync_body env windows cfg had)
  unfolding sync_body
  permitted_body had =
      Holds-bind env (Only here)
        (check_branch-Holds env windows cfg (Only here) here (Only-IsClosed here) reads)
        λ _.
          Holds-bind env (Only here)
            (read_status-Holds env windows cfg (Only here) here (Only-IsClosed here) reads)
            λ st.
              sync_partition-Holds env windows cfg (Only here) here (Only-IsClosed here) reads had
                st (part_of st) (commits cfg.commit_policy st refl)
                λ c.
                  pull_changes-Holds env windows cfg (Only here) here (Only-IsClosed here) reads
                    (part_of st) had c λ e remote name. refl
    where
      reads : AllowsReads here
      reads = permitted-reads cfg.commit_policy cfg.commit_regions

  -- Every operation of a sync, with whatever answers, is one that the commit policy permits: under
  -- `all` it stages and commits everything or nothing, under `regions` it stages and commits only
  -- configured regions, and under `none` it neither stages nor commits nor rewords.
  pub sync-Only_permitted :
      (s : Sys W)
      → Only (permitted cfg.commit_policy cfg.commit_regions) s.events
      → Only (permitted cfg.commit_policy cfg.commit_regions) (sync env windows cfg s).events
  sync-Only_permitted s h =
      sync-Holds env windows cfg (Only here) here (Only-IsClosed here) permitted_body s h
