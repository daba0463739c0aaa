-- ===== src/Agent/Sync/Trace/Refused.antt =====
-- What a sync leaves undone: on a foreign branch, over unresolved conflicts, and over tracked changes
-- that the policy does not select.
use sexton.Common.{◌≡◌, refl, sym, Bool, true, false, List, [], ◌∷◌, some, Option}
use mathlib.Core.Path.{subst}
use sexton.Common.Result.{Result, ok, err}
use sexton.Common.Text.{Text, same}
use sexton.Git.Status.{Status, has_changes}
use sexton.Agent.Policy.{PolicyPartition, partition_status}
use sexton.Agent.State.{Windows}
use sexton.Agent.Sync.World.{Op, Fault, Env, SyncConfig, branch, status, unmerged}
use sexton.Agent.Sync.Monad.{Sys, M, ◌>>=◌, return, should_abort}
use sexton.Agent.Sync.Phases.{
  match_branch, check_branch, read_status, or_new, check_unmerged, refuse_unmerged,
}
use sexton.Agent.Sync.Remote.{sync, sync_body, sync_partition, after_branch, after_check}
use sexton.Agent.Sync.Trace.{
  Any, Never, Holds, Holds-bind, Holds-bind_with, Holds-return, perform-Holds, attempt-Holds, OnOk,
  Holds-never,
}
use sexton.Agent.Sync.Trace.Phases.{
  abort, over, report, asks, match_branch-Holds, check_branch-Holds, pull_changes-Holds,
  sync_partition-Holds, sync-Holds,
}
use sexton.Agent.Sync.Trace.NoPull.{no_pull, no_pull-reads, no_pull-commits}
use sexton.Agent.Sync.Trace.Permitted.{Only, Only-IsClosed}

abbrev pub is_branch : Op → Bool
is_branch branch = true
is_branch _ = false

-- The questions that a sync asks before it does anything.
abbrev pub only_asks : Op → Bool
only_asks branch = true
only_asks status = true
only_asks unmerged = true
only_asks _ = false

ok_inj : {A : Type 0} {a b : A} → ◌≡◌ {A = Result Fault A} (ok a) (ok b) → a ≡ b
ok_inj h = cc

on_ok : {A : Type 0} (r : Result Fault A) (b : A) → r ≡ ok b → OnOk (λ a. a ≡ b) r
on_ok (ok a) b e = ok_inj e
on_ok (err f) b e = tt

module _ {W : Type 0} (env : Env W) (windows : Windows) (cfg : SyncConfig) where
  module _ (allowed : Op → Bool) where
    abbrev Asks : {A : Type 0} → (A → Type 0) → M W A → Type 0
    Asks {A = A} R m = Holds env (Only allowed) {A = A} R m

    foreign_match :
        (current : Text) (r : Result Fault Text)
        → r ≡ ok current
        → same current cfg.branch_name ≡ false
        → Asks {A = Unit {0}} Never (match_branch env windows cfg r)
    unfolding match_branch
    foreign_match current (ok c) e ne =
        let here : same c cfg.branch_name ≡ false = rw (ok_inj e) ne in
        rw here (over env windows cfg (Only allowed) allowed (Only-IsClosed allowed) _ _)
    foreign_match current (err f) e ne =
        over env windows cfg (Only allowed) allowed (Only-IsClosed allowed) _ _

    foreign_next :
        (current : Text)
        → same current cfg.branch_name ≡ false
        → (r : Result Fault Text) → r ≡ ok current
        → Asks {A = Unit {0}} Never
            (match_branch env windows cfg r >>= λ _. should_abort env windows)
    foreign_next current ne r e =
        Holds-never env (Only allowed) (λ _. should_abort env windows)
          (foreign_match current r e ne)

    -- The branch that git always answers.
    foreign-Never :
        (current : Text)
        → allowed branch ≡ true
        → ((w : W) → (env.perform branch w).0 ≡ ok current)
        → same current cfg.branch_name ≡ false
        → Asks {A = Unit {0}} Never (check_branch env windows cfg)
    unfolding check_branch
    foreign-Never current h answers ne =
        Holds-bind_with env (Only allowed)
          (perform-Holds env windows (Only allowed) allowed (Only-IsClosed allowed) branch
            (λ r. r ≡ ok current) h answers)
          (foreign_next current ne)

    answered :
        (st : Status) (s : Option Status)
        → s ≡ some st
        → Asks {A = Status}
            (λ x. x ≡ st)
            (should_abort env windows >>= λ _. return (or_new env windows cfg s))
    answered st s e =
        Holds-bind env (Only allowed)
          (abort env windows cfg (Only allowed) allowed (Only-IsClosed allowed))
          λ _. Holds-return env (Only allowed) (or_new env windows cfg s) (rw e)

    -- The status that git always answers.
    status-known :
        (st : Status)
        → allowed status ≡ true
        → ((w : W) → (env.perform status w).0 ≡ ok (some st))
        → Asks {A = Status} (λ s. s ≡ st) (read_status env windows cfg)
    unfolding read_status
    status-known st h answers =
        Holds-bind_with env (Only allowed)
          (attempt-Holds env windows (Only allowed) allowed (Only-IsClosed allowed) status _
            (λ s. s ≡ some st) h (λ w. on_ok (env.perform status w).0 (some st) (answers w)))
          (answered st)

    refused_all :
        (p : Text) (ps qs : List Text)
        → qs ≡ p ∷ ps
        → Asks {A = Unit {0}} Never (refuse_unmerged env windows cfg qs)
    unfolding refuse_unmerged
    refused_all p ps [] e = cc
    refused_all p ps (q ∷ qs) e =
        report env windows cfg (Only allowed) allowed (Only-IsClosed allowed) _ _

    refused :
        (p : Text) (ps qs : List Text)
        → qs ≡ p ∷ ps
        → Asks {A = Unit {0}} Never
            (refuse_unmerged env windows cfg qs >>= λ _. should_abort env windows)
    refused p ps qs e =
        Holds-never env (Only allowed) (λ _. should_abort env windows) (refused_all p ps qs e)

    -- Paths with conflict markers, which git always answers.
    conflicted-Never :
        (st : Status) (p : Text) (ps : List Text)
        → allowed unmerged ≡ true
        → ((w : W) → (env.perform unmerged w).0 ≡ ok (p ∷ ps))
        → has_changes st ≡ true
        → Asks {A = Unit {0}} Never (check_unmerged env windows cfg st)
    unfolding check_unmerged
    conflicted-Never st p ps h answers changed = rw changed (
        Holds-bind_with env (Only allowed)
          (attempt-Holds env windows (Only allowed) allowed (Only-IsClosed allowed) unmerged _
            (λ qs. qs ≡ p ∷ ps) h (λ w. on_ok (env.perform unmerged w).0 (p ∷ ps) (answers w)))
          (refused p ps))

  abbrev part_of : Status → PolicyPartition
  part_of st = partition_status cfg.commit_policy cfg.commit_regions st

  -- If git names a branch other than the configured one, a sync asks for the branch and does nothing
  -- else: it reads no status, runs no hook, and neither commits nor pulls nor pushes.
  pub sync_foreign_branch :
      (current : Text) (s : Sys W)
      → ((w : W) → (env.perform branch w).0 ≡ ok current)
      → same current cfg.branch_name ≡ false
      → Only is_branch s.events
      → Only is_branch (sync env windows cfg s).events
  sync_foreign_branch current s answers ne p =
      sync-Holds env windows cfg (Only is_branch) is_branch (Only-IsClosed is_branch) body s p
    where
      body : (had : Bool) → Asks is_branch {A = Unit {0}} Any (sync_body env windows cfg had)
      body had =
          unfold sync_body in
          Holds-never env (Only is_branch) (λ _. after_branch env windows cfg had)
            (foreign-Never is_branch current refl answers ne)

  -- If git reports a status with changes and paths with conflict markers, a sync asks for the branch,
  -- the status and those paths at most: it runs no hook, and it neither stages nor commits nor pulls
  -- nor pushes.
  pub sync_conflicted :
      (st : Status) (path : Text) (paths : List Text) (s : Sys W)
      → ((w : W) → (env.perform status w).0 ≡ ok (some st))
      → has_changes st ≡ true
      → ((w : W) → (env.perform unmerged w).0 ≡ ok (path ∷ paths))
      → Only only_asks s.events
      → Only only_asks (sync env windows cfg s).events
  sync_conflicted st path paths s reads changed conflicts p =
      sync-Holds env windows cfg (Only only_asks) only_asks (Only-IsClosed only_asks) body s p
    where
      asked : Asks only_asks {A = Unit {0}} Any (check_branch env windows cfg)
      asked =
          unfold check_branch in
          Holds-bind env (Only only_asks)
            (asks env windows cfg (Only only_asks) only_asks (Only-IsClosed only_asks) branch refl)
            λ r.
              Holds-bind env (Only only_asks)
                (match_branch-Holds env windows cfg (Only only_asks) only_asks
                  (Only-IsClosed only_asks) r)
                λ _. abort env windows cfg (Only only_asks) only_asks (Only-IsClosed only_asks)

      refused :
          (had : Bool) (x : Status)
          → x ≡ st
          → Asks only_asks {A = Unit {0}} Any (sync_partition env windows cfg had x (part_of x))
      refused had x e =
          unfold sync_partition in
          Holds-never env (Only only_asks) (λ _. after_check env windows cfg had (part_of x))
            (conflicted-Never only_asks x path paths refl conflicts (rw e changed))

      body : (had : Bool) → Asks only_asks {A = Unit {0}} Any (sync_body env windows cfg had)
      body had =
          unfold sync_body in
          Holds-bind env (Only only_asks) asked λ _.
            Holds-bind_with env (Only only_asks) (status-known only_asks st refl reads)
              (refused had)

  -- If the status that git reports has tracked changes that the policy does not select, a sync does
  -- not pull.
  pub sync_pull_paused :
      (st : Status) (s : Sys W)
      → ((w : W) → (env.perform status w).0 ≡ ok (some st))
      → (partition_status cfg.commit_policy cfg.commit_regions st).has_tracked_unselected ≡ true
      → Only no_pull s.events
      → Only no_pull (sync env windows cfg s).events
  sync_pull_paused st s reads dirt p =
      sync-Holds env windows cfg (Only no_pull) no_pull (Only-IsClosed no_pull) body s p
    where
      rest :
          (had : Bool) (x : Status)
          → x ≡ st
          → Asks no_pull {A = Unit {0}} Any (sync_partition env windows cfg had x (part_of x))
      rest had x e =
          sync_partition-Holds env windows cfg (Only no_pull) no_pull (Only-IsClosed no_pull)
            no_pull-reads had x (part_of x)
            (no_pull-commits env windows cfg (Only no_pull) (Only-IsClosed no_pull) x)
            λ c.
              pull_changes-Holds env windows cfg (Only no_pull) no_pull (Only-IsClosed no_pull)
                no_pull-reads (part_of x) had c
                λ clean remote name.
                  absurd (cc (subst (λ y. (part_of y).has_tracked_unselected ≡ true) (sym e) dirt))

      body : (had : Bool) → Asks no_pull {A = Unit {0}} Any (sync_body env windows cfg had)
      body had =
          unfold sync_body in
          Holds-bind env (Only no_pull)
            (check_branch-Holds env windows cfg (Only no_pull) no_pull (Only-IsClosed no_pull)
              no_pull-reads)
            λ _. Holds-bind_with env (Only no_pull) (status-known no_pull st refl reads) (rest had)
