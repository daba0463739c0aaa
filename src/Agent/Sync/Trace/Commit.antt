-- ===== src/Agent/Sync/Trace/Commit.antt =====
-- The events of the commit of a sync.
use sexton.Common.{◌≡◌, Bool, false, Option, List, [], ◌∷◌, ltb, length}
use sexton.Common.Result.{Result, ok, err}
use sexton.Common.Text.{Text}
use sexton.Git.Status.{Status}
use sexton.Agent.Policy.{Policy, policy_all, policy_regions, policy_none, PolicyPartition}
use sexton.Agent.State.{Windows}
use sexton.Agent.Sync.World.{
  Op, Fault, nothing_to_commit, Env, SyncConfig, stage_all, stage_regions, commit, commit_only,
  show, show_stat,
}
use sexton.Agent.Sync.Monad.{M}
use sexton.Agent.Sync.Phases.{
  Committed, stage, created, create_commit, fall_back, complete, summarize, generate_message,
  or_message, describe_commit, commit_selected, max_diff_bytes, placeholder_commit_message,
}
use sexton.Agent.Sync.Trace.{Trace, IsClosed, Holds-bind, Holds-return, canceled-Holds}
use sexton.Agent.Sync.Trace.Allowed.{AllowsReads, AllowsReword, AllowsCommit}
use sexton.Agent.Sync.Trace.Phases.{Stays, abort, if-Holds, over, asks, tries, hooks}

module _ {W : Type 0} (env : Env W) (windows : Windows) (cfg : SyncConfig) (P : Trace → Type 0)
    (allowed : Op → Bool) (closed : IsClosed P allowed) where
  abbrev Keeps : {A : Type 0} → M W A → Type 0
  Keeps {A = A} m = Stays env windows cfg P allowed closed {A = A} m

  stage-Holds :
      (p : Policy) (rs : List Text)
      → AllowsCommit allowed p rs
      → Keeps {A = Unit {0}} (stage env windows cfg p rs)
  unfolding stage
  stage-Holds policy_all rs h = tries env windows cfg P allowed closed stage_all _ h.0
  stage-Holds policy_regions rs h = tries env windows cfg P allowed closed (stage_regions rs) _ h.0
  stage-Holds policy_none rs h = Holds-return env P tt tt

  created-Holds : (r : Result Fault Text) → Keeps {A = Text} (created env windows cfg r)
  unfolding created
  created-Holds (ok sha) = Holds-return env P sha tt
  created-Holds (err f) =
      if-Holds env windows cfg P allowed closed _ _ (f.is nothing_to_commit)
        (Holds-return env P [] tt) (over env windows cfg P allowed closed _ f)

  create_commit-Holds :
      (p : Policy) (rs : List Text)
      → AllowsCommit allowed p rs
      → Keeps {A = Text} (create_commit env windows cfg p rs)
  unfolding create_commit
  create_commit-Holds policy_all rs h =
      Holds-bind env P
        (asks env windows cfg P allowed closed (commit placeholder_commit_message) (h.1 _))
        created-Holds
  create_commit-Holds policy_regions rs h =
      Holds-bind env P
        (asks env windows cfg P allowed closed (commit_only placeholder_commit_message rs) (h.1 _))
        created-Holds
  create_commit-Holds policy_none rs h = Holds-return env P [] tt

  fall_back-Holds :
      {A : Type 0} (fallback : Text) (next : A → M W (Result Fault Text)) (r : Result Fault A)
      → ((a : A) → Keeps {A = Result Fault Text} (next a))
      → Keeps {A = Result Fault Text} (fall_back env windows cfg fallback next r)
  unfolding fall_back
  fall_back-Holds fallback next (ok a) k = k a
  fall_back-Holds fallback next (err f) k =
      Holds-bind env P (canceled-Holds env windows P allowed closed f) λ c. Holds-return env P _ tt

  or_message-Holds : (r : Result Fault Text) → Keeps {A = Text} (or_message env windows cfg r)
  unfolding or_message
  or_message-Holds (ok message) = Holds-return env P message tt
  or_message-Holds (err f) = over env windows cfg P allowed closed _ f

  module _ (reads : AllowsReads allowed) (rewords : AllowsReword allowed) where
    complete-Holds :
        (fallback diff : Text)
        → Keeps {A = Result Fault Text} (complete env windows cfg fallback diff)
    unfolding complete
    complete-Holds fallback diff =
        Holds-bind env P (asks env windows cfg P allowed closed _ (rewords.llm_ok _ diff))
          λ r. fall_back-Holds fallback _ r λ text. Holds-return env P _ tt

    summarize-Holds :
        (sha fallback diff : Text)
        → Keeps {A = Result Fault Text} (summarize env windows cfg sha fallback diff)
    unfolding summarize
    summarize-Holds sha fallback diff =
        if-Holds env windows cfg P allowed closed _ _ (ltb max_diff_bytes (length diff))
          (Holds-bind env P
            (asks env windows cfg P allowed closed (show_stat sha) (rewords.stat_ok sha))
            λ r. fall_back-Holds fallback _ r (complete-Holds fallback))
          (complete-Holds fallback diff)

    generate_message-Holds :
        (sha : Text) (s : Option Status)
        → Keeps {A = Result Fault Text} (generate_message env windows cfg sha s)
    unfolding generate_message
    generate_message-Holds sha s =
        if-Holds env windows cfg P allowed closed _ _ cfg.has_llm
          (Holds-bind env P (asks env windows cfg P allowed closed (show sha) (rewords.show_ok sha))
            λ r. fall_back-Holds _ _ r (summarize-Holds sha _))
          (Holds-return env P _ tt)

    describe_commit-Holds :
        (sha : Text) → Keeps {A = Committed} (describe_commit env windows cfg sha)
    unfolding describe_commit
    describe_commit-Holds [] = Holds-return env P _ tt
    describe_commit-Holds (c ∷ sha) =
        Holds-bind env P
          (tries env windows cfg P allowed closed _ _ (rewords.describe_ok (c ∷ sha)))
          λ s. Holds-bind env P (generate_message-Holds (c ∷ sha) s) λ m.
            Holds-bind env P (or_message-Holds m) λ message.
              Holds-bind env P
                (tries env windows cfg P allowed closed _ _ (rewords.reword_ok _ (c ∷ sha) message))
                λ _. Holds-bind env P (abort env windows cfg P allowed closed) λ _.
                  Holds-bind env P (hooks env windows cfg P allowed closed reads _ _) λ _.
                    Holds-bind env P (abort env windows cfg P allowed closed)
                      λ _. Holds-return env P _ tt

    -- The commit of the selected changes, if the policy's operations are allowed.
    pub commit_selected-Holds :
        (part : PolicyPartition)
        → AllowsCommit allowed cfg.commit_policy part.regions
        → Keeps {A = Committed} (commit_selected env windows cfg part)
    unfolding commit_selected
    commit_selected-Holds part h =
        if-Holds env windows cfg P allowed closed _ _ part.has_selected_changes
          (Holds-bind env P (hooks env windows cfg P allowed closed reads _ _) λ _.
            Holds-bind env P (abort env windows cfg P allowed closed) λ _.
              Holds-bind env P (stage-Holds cfg.commit_policy part.regions h) λ _.
                Holds-bind env P (abort env windows cfg P allowed closed) λ _.
                  Holds-bind env P (create_commit-Holds cfg.commit_policy part.regions h)
                    describe_commit-Holds)
          (Holds-return env P _ tt)

  -- Nothing is selected, and nothing is committed.
  pub commit_nothing-Holds :
      (part : PolicyPartition)
      → part.has_selected_changes ≡ false
      → Keeps {A = Committed} (commit_selected env windows cfg part)
  unfolding commit_selected
  commit_nothing-Holds part e = rw e (Holds-return env P _ tt)
