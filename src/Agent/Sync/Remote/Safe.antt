-- ===== src/Agent/Sync/Remote/Safe.antt =====
-- What the phases of a sync behind the commit keep, and `sync` behind its opening, which never falls
-- through: it returns from one of its phases with the agent at rest, or with the context canceled.
use sexton.Common.{◌≡◌, refl, inr, Bool, true, false, is_empty, arith}
use sexton.Common.Duration.{Time}
use sexton.Common.Result.{Result, ok, err}
use sexton.Common.Text.{Text}
use sexton.Git.Status.{Status}
use sexton.Agent.Policy.{PolicyPartition}
use sexton.Agent.State.{Agent, Windows, is_syncing}
use sexton.Agent.State.Resting.{resting_state-is_syncing}
use sexton.Agent.State.Control.Consistent.{
  IsConsistent, restable, EndsLater, resting_state-IsConsistent,
}
use sexton.Agent.Sync.World.{
  Fault, conflict, no_remote, dirty_working_tree, Env, IsReliable, SyncConfig, rebase_abort,
}
use sexton.Agent.Sync.Monad.{Sys, stop, ◌>>=◌, set_error}
use sexton.Agent.Sync.Monad.Safe.{
  RunsAgent, Running, Resting, Leads, IsHonest, HonestResult, Leads-bind, Leads-return, Leads-stop,
  perform-Leads, perform-Resting, critical-Running, critical-Resting, alert_if-Running,
  alert_if-Resting, Checked, canceled_or-Leads, stop_if-Leads, set_error-Leads, attempt-Leads,
}
use sexton.Agent.Sync.Phases.{Committed}
use sexton.Agent.Sync.Phases.Safe.{
  Runs, abort, if-Leads, Leads-pre, hooks-Leads, check_branch-Leads, read_status-Leads,
  check_unmerged-Leads, commit_selected-Leads,
}
use sexton.Agent.Sync.Remote.{
  complete_section, finish, rest_after_incomplete, update_attention, abort_then, pull_failed,
  pulled_or, pull_changes, after_pull, pushed_or, push_changes, conclude, sync_partition, sync_body,
  after_check, pull_refused, pull_over, push_refused,
}

module _ {W : Type 0} (env : Env W) (windows : Windows) (cfg : SyncConfig)
    (reliable : IsReliable env) (later : EndsLater windows) where
  complete_section-rests :
      (sha : Text) (commit_at t u : Time) (a : Agent)
      → RunsAgent a
      → (is_syncing (complete_section windows sha commit_at t u a).state ≡ false)
        × IsConsistent (complete_section windows sha commit_at t u a)
  unfolding complete_section
  complete_section-rests sha commit_at t u a h = (
    resting_state-is_syncing windows u _,
    resting_state-IsConsistent windows later u _ (ground (arith, h.1)),
  )

  finish-Leads :
      {A : Type 0} {Q : A → Sys W → Type 0} (sha : Text) (commit_at : Time) (had : Bool)
      (c : Committed)
      → Leads env {A = A} (Running env) Q (finish env windows cfg sha commit_at had c)
  unfolding finish
  finish-Leads sha commit_at had c =
      Leads-bind env
        (critical-Resting env windows reliable later _ (complete_section-rests sha commit_at))
        λ _. Leads-bind env (alert_if-Resting env windows reliable later had _) λ _.
          Leads-bind env (alert_if-Resting env windows reliable later c.created_change _)
            λ _. Leads-stop env

  rest_after-Leads :
      Leads env {A = Unit {0}}
        (Running env)
        (λ _. Resting env)
        (rest_after_incomplete env windows cfg)
  unfolding rest_after_incomplete
  rest_after-Leads = critical-Resting env windows reliable later _ (λ t u a h. (
    resting_state-is_syncing windows t a,
    resting_state-IsConsistent windows later t a (restable h.1),
  ))

  update_attention-Leads :
      (part : PolicyPartition)
      → Runs env windows cfg reliable later {A = Unit {0}} (update_attention env windows cfg part)
  unfolding update_attention
  update_attention-Leads part =
      if-Leads env windows cfg reliable later _ _ (is_empty part.unselected_paths)
        (Leads-bind env
          (critical-Running env windows reliable later _ (λ t u a h. (h.0, ground (arith, h.1))))
          λ b.
            Leads-bind env (alert_if-Running env windows reliable later b _)
              λ _. (abort env windows cfg reliable later))
        (Leads-bind env
          (critical-Running env windows reliable later _ (λ t u a h. (h.0, ground (arith, h.1))))
          λ b.
            Leads-bind env (alert_if-Running env windows reliable later b _)
              λ _. (abort env windows cfg reliable later))

  -- A fault that the sync reports, and its return.
  report-Leads :
      {A : Type 0} {Q : A → Sys W → Type 0} (message : Text) (f : Fault)
      → Leads env {A = A} (Running env) Q (set_error env windows message f >>= λ _. stop)
  report-Leads message f =
      Leads-bind env (set_error-Leads env windows reliable later message f) λ _. Leads-stop env

  result-Running :
      {A : Type 0} (r : Result Fault A) (s : Sys W) → HonestResult env r s → Running env s
  result-Running (ok a) s p = p
  result-Running (err f) s p = p.0

  abort_then-Leads :
      {A : Type 0} {Q : A → Sys W → Type 0} (f : Fault) (r : Result Fault (Unit {0}))
      → Leads env {A = A} (Running env) Q (abort_then env windows cfg f r)
  unfolding abort_then
  abort_then-Leads f (ok _) = report-Leads _ _
  abort_then-Leads f (err g) = report-Leads _ _

  pull_refused-Leads :
      (had : Bool) (c : Committed) (f : Fault)
      → Runs env windows cfg reliable later {A = Bool} (pull_refused env windows cfg had c f)
  unfolding pull_refused
  pull_refused-Leads had c f =
      if-Leads env windows cfg reliable later _ _ (f.is no_remote)
        (Leads-bind env (abort env windows cfg reliable later) λ _. finish-Leads _ _ _ _)
        (if-Leads env windows cfg reliable later _ _ (f.is dirty_working_tree)
          (Leads-bind env (abort env windows cfg reliable later)
            λ _. Leads-bind env rest_after-Leads λ _. Leads-stop env)
          (report-Leads _ _))

  pull_over-Leads :
      (over had : Bool) (c : Committed) (f : Fault)
      → Leads env {A = Bool}
          (Checked env windows reliable later over)
          (λ _. Running env)
          (pull_over env windows cfg over had c f)
  unfolding pull_over Checked
  pull_over-Leads true had c f =
      Leads-pre env windows cfg reliable later
        (λ s p. record { rests = inr (p.1 refl); consistent = p.0.consistent })
        (Leads-bind env (perform-Resting env windows reliable later rebase_abort)
          λ _. Leads-stop env)
  pull_over-Leads false had c f =
      Leads-pre env windows cfg reliable later (λ s p. p.0) (pull_refused-Leads had c f)

  pull_failed-Leads :
      (had : Bool) (c : Committed) (f : Fault)
      → Leads env {A = Bool}
          (λ s. Running env s × IsHonest env f s)
          (λ _. Running env)
          (pull_failed env windows cfg had c f)
  unfolding pull_failed
  pull_failed-Leads had c f =
      if-Leads env windows cfg reliable later _ _ (f.is conflict)
        (Leads-pre env windows cfg reliable later (λ s p. p.0)
          (Leads-bind env (perform-Leads env windows reliable later rebase_abort) λ r.
            Leads-pre env windows cfg reliable later (result-Running r) (abort_then-Leads f r)))
        (Leads-bind env (canceled_or-Leads env windows reliable later f)
          λ over. pull_over-Leads over had c f)

  pulled_or-Leads :
      (had : Bool) (c : Committed) (r : Result Fault Bool)
      → Leads env {A = Bool}
          (HonestResult env r)
          (λ _. Running env)
          (pulled_or env windows cfg had c r)
  unfolding pulled_or
  pulled_or-Leads had c (ok pulled) = Leads-return env pulled
  pulled_or-Leads had c (err f) = pull_failed-Leads had c f

  pull_changes-Leads :
      (part : PolicyPartition) (had : Bool) (c : Committed)
      → Runs env windows cfg reliable later {A = Bool} (pull_changes env windows cfg part had c)
  unfolding pull_changes
  pull_changes-Leads part had c =
      if-Leads env windows cfg reliable later _ _ part.has_tracked_unselected
        (Leads-return env false)
        (Leads-bind env (perform-Leads env windows reliable later _) λ r. pulled_or-Leads had c r)

  after_pull-Leads :
      (pulled : Bool)
      → Runs env windows cfg reliable later {A = Unit {0}} (after_pull env windows cfg pulled)
  unfolding after_pull
  after_pull-Leads pulled = Leads-bind env (abort env windows cfg reliable later) λ _.
      if-Leads env windows cfg reliable later _ _ pulled
        (Leads-bind env (hooks-Leads env windows cfg reliable later _ _)
          λ _. (abort env windows cfg reliable later))
        (Leads-return env tt)

  push_refused-Leads :
      (had : Bool) (c : Committed) (f : Fault)
      → Runs env windows cfg reliable later {A = Unit {0}} (push_refused env windows cfg had c f)
  unfolding push_refused
  push_refused-Leads had c f =
      if-Leads env windows cfg reliable later _ _ (f.is no_remote)
        (Leads-bind env (abort env windows cfg reliable later) λ _. finish-Leads _ _ _ _)
        (report-Leads _ _)

  pushed_or-Leads :
      (had : Bool) (c : Committed) (r : Result Fault (Unit {0}))
      → Leads env {A = Unit {0}}
          (HonestResult env r)
          (λ _. Running env)
          (pushed_or env windows cfg had c r)
  unfolding pushed_or
  pushed_or-Leads had c (ok _) = Leads-return env tt
  pushed_or-Leads had c (err f) =
      Leads-bind env (canceled_or-Leads env windows reliable later f) λ over.
        Leads-bind env (stop_if-Leads env windows reliable later over)
          λ _. push_refused-Leads had c f

  push_changes-Leads :
      (had : Bool) (c : Committed)
      → Runs env windows cfg reliable later {A = Unit {0}} (push_changes env windows cfg had c)
  unfolding push_changes
  push_changes-Leads had c = Leads-bind env (hooks-Leads env windows cfg reliable later _ _) λ _.
      Leads-bind env (abort env windows cfg reliable later) λ _.
        Leads-bind env (perform-Leads env windows reliable later _)
          λ r. Leads-bind env (pushed_or-Leads had c r) λ _. (abort env windows cfg reliable later)

  conclude-Leads :
      {Q : Unit {0} → Sys W → Type 0} (had : Bool) (c : Committed)
      → Leads env {A = Unit {0}} (Running env) Q (conclude env windows cfg had c)
  unfolding conclude
  conclude-Leads had c = Leads-bind env (hooks-Leads env windows cfg reliable later _ _) λ _.
      Leads-bind env (abort env windows cfg reliable later) λ _.
        Leads-bind env (attempt-Leads env windows reliable later _ _) λ sha.
          Leads-bind env (abort env windows cfg reliable later) λ _.
            Leads-bind env (attempt-Leads env windows reliable later _ _) λ commit_at.
              Leads-bind env (abort env windows cfg reliable later)
                λ _. finish-Leads sha commit_at had c

  sync_partition-Leads :
      {Q : Unit {0} → Sys W → Type 0} (had : Bool) (s : Status) (part : PolicyPartition)
      → Leads env {A = Unit {0}} (Running env) Q (sync_partition env windows cfg had s part)
  unfolding sync_partition after_check
  sync_partition-Leads had s part =
      Leads-bind env (check_unmerged-Leads env windows cfg reliable later s) λ _.
        Leads-bind env (commit_selected-Leads env windows cfg reliable later part) λ c.
          Leads-bind env (update_attention-Leads part) λ _.
            Leads-bind env (pull_changes-Leads part had c) λ pulled.
              Leads-bind env (after_pull-Leads pulled)
                λ _. Leads-bind env (push_changes-Leads had c) λ _. conclude-Leads had c

  -- A sync that was opened never falls through: it returns from one of its phases.
  pub sync_body-Leads :
      {Q : Unit {0} → Sys W → Type 0} (had : Bool)
      → Leads env {A = Unit {0}} (Running env) Q (sync_body env windows cfg had)
  unfolding sync_body
  sync_body-Leads had = Leads-bind env (check_branch-Leads env windows cfg reliable later) λ _.
      Leads-bind env (read_status-Leads env windows cfg reliable later)
        λ s. sync_partition-Leads had s _
