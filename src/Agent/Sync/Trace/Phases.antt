-- ===== src/Agent/Sync/Trace/Phases.antt =====
-- The events of each phase of a sync, and of the whole, under what its operations are allowed to be.
use sexton.Common.{
  ◌≡◌, Bool, true, false, Option, none, some, List, [], ◌∷◌, if◌then◌else◌, is_empty,
}
use sexton.Common.Duration.{Time}
use sexton.Common.Result.{Result, ok, err}
use sexton.Common.Text.{Text, same}
use sexton.Git.Status.{Status, has_changes}
use sexton.Agent.Policy.{PolicyPartition}
use sexton.Agent.State.{Windows}
use sexton.Agent.Sync.World.{
  Op, Fault, nothing_to_commit, no_remote, dirty_working_tree, conflict, Env, SyncConfig,
  ResolvedHook, branch, status, unmerged, stage_all, stage_regions, commit, commit_only,
  show_name_status, show, show_stat, reword_commit, llm_complete, pull, push, rebase_abort,
  short_head, commit_time, run_hook,
}
use sexton.Agent.Sync.Monad.{Sys, M, ◌>>=◌, set_error, stop, return}
use sexton.Agent.Sync.Phases.{
  Committed, go_on, open_sync, match_branch, check_branch, read_status, refuse_unmerged,
  check_unmerged, commit_selected,
}
use sexton.Agent.Sync.Remote.{
  finish, rest_after_incomplete, update_attention, abort_then, pull_failed, pull_refused, pull_over,
  pulled_or, pull_changes, after_pull, push_refused, pushed_or, push_changes, conclude,
  sync_partition, sync_body, after_check, clear_canceled, deferred, run_body, sync,
}
use sexton.Agent.Sync.Trace.Allowed.{AllowsReads}
use sexton.Agent.Sync.Trace.{
  Trace, Any, IsClosed, Holds, Yields, Holds-bind, Holds-return, Holds-stop, perform-Holds,
  critical-Holds, alert_if-Holds, context-Holds, canceled-Holds, stop_if-Holds, should_abort-Holds,
  set_error-Holds, fail-Holds, try-Holds, run_hooks-Holds,
}

module _ {W : Type 0} (env : Env W) (windows : Windows) (cfg : SyncConfig) (P : Trace → Type 0)
    (allowed : Op → Bool) (closed : IsClosed P allowed) where
  abbrev pub Stays : {A : Type 0} → M W A → Type 0
  Stays {A = A} m = Holds env P {A = A} Any m

  pub abort : Stays {A = Unit {0}} (sexton.Agent.Sync.Monad.should_abort env windows)
  abort = should_abort-Holds env windows P allowed closed

  pub if-Holds :
      {A : Type 0} {R : A → Type 0} (x y : M W A) (b : Bool)
      → Holds env P {A = A} R x
      → Holds env P {A = A} R y
      → Holds env P {A = A} R (if b then x else y)
  if-Holds x y true p q = p
  if-Holds x y false p q = q

  pub over :
      {A : Type 0} {R : A → Type 0} (message : Text) (f : Fault)
      → Holds env P {A = A} R (sexton.Agent.Sync.Monad.fail env windows message f)
  over message f = fail-Holds env windows P allowed closed message f

  -- A fault that the sync reports, and its return.
  pub report :
      {A : Type 0} {R : A → Type 0} (message : Text) (f : Fault)
      → Holds env P {A = A} R (set_error env windows message f >>= λ _. stop)
  report message f =
      Holds-bind env P (set_error-Holds env windows P allowed closed message f)
        λ _. Holds-stop env P

  pub asks :
      (op : Op)
      → allowed op ≡ true
      → Stays {A = Result Fault (sexton.Agent.Sync.World.Answer op)}
          (sexton.Agent.Sync.Monad.perform env windows op)
  asks op h = perform-Holds env windows P allowed closed op Any h λ w. tt

  pub tries :
      (op : Op) (message : Text)
      → allowed op ≡ true
      → Stays {A = sexton.Agent.Sync.World.Answer op}
          (sexton.Agent.Sync.Monad.attempt env windows op message)
  tries op message h = try-Holds env windows P allowed closed op message h

  open_sync-Holds : Stays {A = Bool} (open_sync env windows cfg)
  unfolding open_sync
  open_sync-Holds = Holds-bind env P (context-Holds env windows P allowed closed) λ c.
      Holds-bind env P (stop_if-Holds env windows P allowed closed c)
        λ _. Holds-bind env P (critical-Holds env windows P allowed closed _) go
    where
      go : (o : Option Bool) → Stays {A = Bool} (go_on env windows cfg o)
      go none = unfold go_on in Holds-stop env P
      go (some a) = unfold go_on in Holds-return env P a tt

  pub match_branch-Holds :
      (r : Result Fault Text) → Stays {A = Unit {0}} (match_branch env windows cfg r)
  unfolding match_branch
  match_branch-Holds (ok current) =
      if-Holds _ _ (same current cfg.branch_name) (Holds-return env P tt tt) (over _ _)
  match_branch-Holds (err f) = over _ _

  module _ (reads : AllowsReads allowed) where
    pub hooks :
        (phase : Text) (hs : List ResolvedHook)
        → Stays {A = Unit {0}} (sexton.Agent.Sync.Monad.run_hooks env windows phase hs)
    hooks phase hs = run_hooks-Holds env windows P allowed closed phase hs (reads.hook_ok phase)

    pub check_branch-Holds : Stays {A = Unit {0}} (check_branch env windows cfg)
    unfolding check_branch
    check_branch-Holds =
        Holds-bind env P (asks branch reads.branch_ok)
          λ r. Holds-bind env P (match_branch-Holds r) λ _. abort

    pub read_status-Holds : Stays {A = Status} (read_status env windows cfg)
    unfolding read_status
    read_status-Holds =
        Holds-bind env P (tries status _ reads.status_ok)
          λ s. Holds-bind env P abort λ _. Holds-return env P _ tt

    refuse_unmerged-Holds :
        (ps : List Text) → Stays {A = Unit {0}} (refuse_unmerged env windows cfg ps)
    unfolding refuse_unmerged
    refuse_unmerged-Holds [] = Holds-return env P tt tt
    refuse_unmerged-Holds (p ∷ ps) = report _ _

    check_unmerged-Holds : (s : Status) → Stays {A = Unit {0}} (check_unmerged env windows cfg s)
    unfolding check_unmerged
    check_unmerged-Holds s =
        if-Holds _ _ (has_changes s)
          (Holds-bind env P (tries unmerged _ reads.unmerged_ok)
            λ ps. Holds-bind env P (refuse_unmerged-Holds ps) λ _. abort)
          (Holds-return env P tt tt)

    finish-Holds :
        {A : Type 0} {R : A → Type 0} (sha : Text) (at : Time) (had : Bool) (c : Committed)
        → Holds env P {A = A} R (finish env windows cfg sha at had c)
    unfolding finish
    finish-Holds sha at had c =
        Holds-bind env P (critical-Holds env windows P allowed closed _) λ _.
          Holds-bind env P (alert_if-Holds env windows P allowed closed had _) λ _.
            Holds-bind env P (alert_if-Holds env windows P allowed closed c.created_change _)
              λ _. Holds-stop env P

    update_attention-Holds :
        (part : PolicyPartition) → Stays {A = Unit {0}} (update_attention env windows cfg part)
    unfolding update_attention
    update_attention-Holds part =
        if-Holds _ _ (is_empty part.unselected_paths)
          (Holds-bind env P (critical-Holds env windows P allowed closed _)
            λ b. Holds-bind env P (alert_if-Holds env windows P allowed closed b _) λ _. abort)
          (Holds-bind env P (critical-Holds env windows P allowed closed _)
            λ b. Holds-bind env P (alert_if-Holds env windows P allowed closed b _) λ _. abort)

    pub abort_then-Holds :
        {A : Type 0} {R : A → Type 0} (f : Fault) (r : Result Fault (Unit {0}))
        → Holds env P {A = A} R (abort_then env windows cfg f r)
    unfolding abort_then
    abort_then-Holds f (ok _) = report _ _
    abort_then-Holds f (err g) = report _ _

    pub pull_refused-Holds :
        (had : Bool) (c : Committed) (f : Fault)
        → Stays {A = Bool} (pull_refused env windows cfg had c f)
    unfolding pull_refused rest_after_incomplete
    pull_refused-Holds had c f =
        if-Holds _ _ (f.is no_remote) (Holds-bind env P abort λ _. finish-Holds _ _ _ _) (
          if-Holds _ _ (f.is dirty_working_tree)
            (Holds-bind env P abort λ _.
              Holds-bind env P (critical-Holds env windows P allowed closed _)
                λ _. Holds-stop env P)
            (report _ _))

    pull_over-Holds :
        (b had : Bool) (c : Committed) (f : Fault)
        → Stays {A = Bool} (pull_over env windows cfg b had c f)
    unfolding pull_over
    pull_over-Holds true had c f =
        Holds-bind env P (asks rebase_abort reads.abort_ok) λ _. Holds-stop env P
    pull_over-Holds false had c f = pull_refused-Holds had c f

    pulled_or-Holds :
        (had : Bool) (c : Committed) (r : Result Fault Bool)
        → Stays {A = Bool} (pulled_or env windows cfg had c r)
    unfolding pulled_or pull_failed
    pulled_or-Holds had c (ok pulled) = Holds-return env P pulled tt
    pulled_or-Holds had c (err f) =
        if-Holds _ _ (f.is conflict)
          (Holds-bind env P (asks rebase_abort reads.abort_ok) λ r. abort_then-Holds f r)
          (Holds-bind env P (canceled-Holds env windows P allowed closed f)
            λ b. pull_over-Holds b had c f)

    -- A pull that is paused, or allowed.
    pub pull_changes-Holds :
        (part : PolicyPartition) (had : Bool) (c : Committed)
        → (part.has_tracked_unselected ≡ false
            → (remote name : Text) → allowed (pull remote name) ≡ true)
        → Stays {A = Bool} (pull_changes env windows cfg part had c)
    unfolding pull_changes
    pull_changes-Holds part had c may = go part.has_tracked_unselected may
      where
        go :
            (b : Bool)
            → (b ≡ false → (remote name : Text) → allowed (pull remote name) ≡ true)
            → Stays {A = Bool} (
                if b
                then return false
                else sexton.Agent.Sync.Monad.perform env windows (pull cfg.remote cfg.branch_name)
                  >>= pulled_or env windows cfg had c)
        go true k = Holds-return env P false tt
        go false k =
            Holds-bind env P (asks (pull cfg.remote cfg.branch_name) (k mathlib.Core.Path.refl _ _))
              λ r. pulled_or-Holds had c r

    after_pull-Holds : (pulled : Bool) → Stays {A = Unit {0}} (after_pull env windows cfg pulled)
    unfolding after_pull
    after_pull-Holds pulled = Holds-bind env P abort λ _.
        if-Holds _ _ pulled (Holds-bind env P (hooks _ _) λ _. abort) (Holds-return env P tt tt)

    pushed_or-Holds :
        (had : Bool) (c : Committed) (r : Result Fault (Unit {0}))
        → Stays {A = Unit {0}} (pushed_or env windows cfg had c r)
    unfolding pushed_or push_refused
    pushed_or-Holds had c (ok _) = Holds-return env P tt tt
    pushed_or-Holds had c (err f) =
        Holds-bind env P (canceled-Holds env windows P allowed closed f) λ b.
          Holds-bind env P (stop_if-Holds env windows P allowed closed b) λ _.
            if-Holds _ _ (f.is no_remote) (Holds-bind env P abort λ _. finish-Holds _ _ _ _)
              (report _ _)

    push_changes-Holds :
        (had : Bool) (c : Committed) → Stays {A = Unit {0}} (push_changes env windows cfg had c)
    unfolding push_changes
    push_changes-Holds had c = Holds-bind env P (hooks _ _) λ _. Holds-bind env P abort λ _.
        Holds-bind env P (asks _ (reads.push_ok _ _))
          λ r. Holds-bind env P (pushed_or-Holds had c r) λ _. abort

    conclude-Holds :
        (had : Bool) (c : Committed) → Stays {A = Unit {0}} (conclude env windows cfg had c)
    unfolding conclude
    conclude-Holds had c = Holds-bind env P (hooks _ _) λ _. Holds-bind env P abort λ _.
        Holds-bind env P (tries short_head _ reads.head_ok) λ sha. Holds-bind env P abort λ _.
          Holds-bind env P (tries commit_time _ reads.time_ok)
            λ at. Holds-bind env P abort λ _. finish-Holds sha at had c

    -- Behind the commit and the pull.
    pub sync_partition-Holds :
        (had : Bool) (s : Status) (part : PolicyPartition)
        → Stays {A = Committed} (commit_selected env windows cfg part)
        → ((c : Committed) → Stays {A = Bool} (pull_changes env windows cfg part had c))
        → Stays {A = Unit {0}} (sync_partition env windows cfg had s part)
    unfolding sync_partition after_check
    sync_partition-Holds had s part commits pulls = Holds-bind env P (check_unmerged-Holds s) λ _.
        Holds-bind env P commits λ c. Holds-bind env P (update_attention-Holds part) λ _.
          Holds-bind env P (pulls c) λ pulled.
            Holds-bind env P (after_pull-Holds pulled)
              λ _. Holds-bind env P (push_changes-Holds had c) λ _. conclude-Holds had c

  -- A sync around its body.
  pub sync-Holds :
      ((had : Bool) → Stays {A = Unit {0}} (sync_body env windows cfg had))
      → (s : Sys W) → P s.events
      → P (sync env windows cfg s).events
  unfolding sync
  sync-Holds body s p = run (open_sync env windows cfg s) (open_sync-Holds.at s p)
    where
      cleared : (c : Bool) → Stays {A = Unit {0}} (clear_canceled env windows cfg c)
      cleared true = unfold clear_canceled in critical-Holds env windows P allowed closed _
      cleared false = unfold clear_canceled in Holds-return env P tt tt

      closing : Stays {A = Unit {0}} (deferred env windows cfg)
      closing =
          unfold deferred in Holds-bind env P (context-Holds env windows P allowed closed) cleared

      ended : (x : Option (Unit {0}) × Sys W) → Yields env P Any x → P x.1.events
      ended (some a, t) q = q.0
      ended (none, t) q = q

      run :
          (x : Option Bool × Sys W)
          → Yields env P Any x
          → P (run_body env windows cfg x.0 x.1).events
      run (none, t) q = unfold run_body in q
      run (some had, t) q =
          unfold run_body in ended _ (closing.at _ (ended _ ((body had).at t q.0)))
