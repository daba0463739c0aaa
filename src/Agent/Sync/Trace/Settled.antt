-- ===== src/Agent/Sync/Trace/Settled.antt =====
-- A pull that fails over a conflict, or because it was canceled, may leave a rebase behind: a sync
-- never leaves one without having asked git to abort it at once.
use sexton.Common.{
  ◌≡◌, refl, sym, Option, Bool, true, false, not, ◌&&◌, ◌||◌, [], ◌∷◌, arith, Bool-cases, inl, inr,
}
use sexton.Common.Result.{Result, ok, err}
use sexton.Common.Text.{Text}
use sexton.Agent.Policy.{PolicyPartition}
use sexton.Agent.State.{Windows}
use sexton.Agent.Sync.World.{
  Op, Answer, Fault, canceled, conflict, Env, SyncConfig, Event, did, alerted, pull, rebase_abort,
}
use mathlib.Core.Path.{subst}
use sexton.Agent.Sync.Monad.{Sys, M, sync_canceled, context_canceled, perform}
use sexton.Agent.Sync.Phases.{Committed}
use sexton.Agent.Sync.Remote.{sync, sync_body, pulled_or, pull_failed, pull_over, pull_changes}
use sexton.Agent.Sync.Trace.{Trace, Any, IsClosed, Holds-bind, Holds-return, Yields}
use sexton.Agent.Sync.Trace.Phases.{
  Stays, if-Holds, check_branch-Holds, read_status-Holds, abort_then-Holds, pull_refused-Holds,
  sync_partition-Holds, sync-Holds,
}
use sexton.Agent.Sync.Trace.NoPull.{no_pull, no_pull-reads, no_pull-commits}

-- The failures of a pull that may leave a rebase behind: a conflict, and any failure once the context
-- is canceled, whatever its cause says, since git is killed with the context.
abbrev unfinished : Bool → Result Fault Bool → Bool
unfinished over (ok pulled) = false
unfinished over (err f) = f.is conflict || (over || f.is canceled)

abbrev needs_abort : Event → Bool
needs_abort (did (pull remote name) r over) = unfinished over r
needs_abort _ = false

abbrev is_abort : Event → Bool
is_abort (did rebase_abort r over) = true
is_abort _ = false

-- Of the events, the latest first: each that needs an abort has one right behind it. The argument
-- says whether the event behind these is one.
abbrev settled_behind : Bool → Trace → Bool
settled_behind b [] = true
settled_behind b (e ∷ es) = (not (needs_abort e) || b) && settled_behind (is_abort e) es

abbrev pub IsSettled : Trace → Type 0
IsSettled es = settled_behind false es ≡ true

settled_any : (b : Bool) (es : Trace) → IsSettled es → settled_behind b es ≡ true
settled_any b [] h = refl
settled_any b (e ∷ es) h = ground arith

calm : (e : Event) (es : Trace) → needs_abort e ≡ false → IsSettled es → IsSettled (e ∷ es)
calm e es c h = let rest = settled_any (is_abort e) es h in ground arith

quiet :
    (op : Op) (r : Result Fault (Answer op)) (over : Bool)
    → no_pull op ≡ true
    → needs_abort (did op r over) ≡ false
quiet (pull remote name) r over h = cc
quiet _ r over h = refl

IsSettled-IsClosed : IsClosed IsSettled no_pull
IsSettled-IsClosed = record {
  alerts = λ e es h. calm (alerted e) es refl h;
  ops = λ op r over es h k. calm (did op r over) es (quiet op r over h) k;
}

aborted :
    (r : Result Fault (Unit {0})) (over : Bool) (e : Event) (es all : Trace)
    → all ≡ e ∷ es
    → IsSettled es
    → IsSettled (did rebase_abort r over ∷ all)
aborted r over e es all eq h =
    let rest = settled_any (is_abort e) es h in
    subst (λ t. IsSettled (did rebase_abort r over ∷ t)) (sym eq) (ground arith)

module _ {W : Type 0} (env : Env W) (windows : Windows) (cfg : SyncConfig) where
  abbrev Settles : {A : Type 0} → M W A → Type 0
  Settles {A = A} m = Stays env windows cfg IsSettled no_pull IsSettled-IsClosed {A = A} m

  abbrev Ends : Option Bool × Sys W → Type 0
  Ends x = Yields env IsSettled {A = Bool} Any x

  -- A pull that was canceled is aborted; any other failure needs no abort.
  over-settled :
      (b over had : Bool) (c : Committed) (f : Fault) (remote name : Text) (s : Sys W) (es : Trace)
      → (b ≡ false → (over || f.is canceled) ≡ false)
      → f.is conflict ≡ false
      → s.events ≡ did (pull remote name) (err f) over ∷ es
      → IsSettled es
      → Ends (pull_over env windows cfg b had c f s)
  unfolding pull_over perform
  over-settled true over had c f remote name s es n k e h =
      aborted (env.perform rebase_abort s.world).0
        (env.is_canceled (env.perform rebase_abort s.world).1) (did (pull remote name) (err f) over)
        es s.events e h
  over-settled false over had c f remote name s es n k e h =
      let alone = n refl in
      (pull_refused-Holds env windows cfg IsSettled no_pull IsSettled-IsClosed no_pull-reads had c
          f).at
        s (subst IsSettled (sym e) (calm (did (pull remote name) (err f) over) es (ground arith) h))

  -- The answer to a request for an abort, and the state behind it.
  abbrev answer_of : Sys W → Result Fault (Unit {0})
  answer_of s = (env.perform rebase_abort s.world).0

  abbrev asked : Sys W → Sys W
  asked s = record s {
    world = (env.perform rebase_abort s.world).1;
    events =
        did rebase_abort (answer_of s) (env.is_canceled (env.perform rebase_abort s.world).1)
        ∷ s.events;
  }

  -- What follows a pull.
  pulled_or-settled :
      (had : Bool) (c : Committed) (r : Result Fault Bool) (remote name : Text) (s : Sys W)
      (es : Trace)
      → s.events ≡ did (pull remote name) r (env.is_canceled s.world) ∷ es
      → IsSettled es
      → Ends (pulled_or env windows cfg had c r s)
  unfolding pulled_or pull_failed perform
  pulled_or-settled had c (ok pulled) remote name s es e h = (
    subst IsSettled (sym e)
        (calm (did (pull remote name) (ok pulled) (env.is_canceled s.world)) es refl h),
    tt,
  )
  pulled_or-settled had c (err f) remote name s es e h = elim (Bool-cases (f.is conflict)) [
    | inl k ↦ rw k (
        (abort_then-Holds env windows cfg IsSettled no_pull IsSettled-IsClosed no_pull-reads f
            (answer_of s)).at
          (asked s)
          (aborted (answer_of s) (env.is_canceled (env.perform rebase_abort s.world).1)
            (did (pull remote name) (err f) (env.is_canceled s.world)) es s.events e h))
    | inr k ↦ rw k (
        unfold sync_canceled context_canceled in
        over-settled (env.is_canceled s.world || f.is canceled) (env.is_canceled s.world) had c f
          remote name s es (λ n. n) k e h)
  ]

  pull-settled :
      (part : PolicyPartition) (had : Bool) (c : Committed)
      → Settles {A = Bool} (pull_changes env windows cfg part had c)
  unfolding pull_changes
  pull-settled part had c =
      if-Holds env windows cfg IsSettled no_pull IsSettled-IsClosed _ _ part.has_tracked_unselected
        (Holds-return env IsSettled false tt)
        (record {
          at = λ s p.
              unfold perform in
              pulled_or-settled had c _ cfg.remote cfg.branch_name _ s.events refl p;
        })

  settled_body : (had : Bool) → Settles {A = Unit {0}} (sync_body env windows cfg had)
  unfolding sync_body
  settled_body had =
      Holds-bind env IsSettled
        (check_branch-Holds env windows cfg IsSettled no_pull IsSettled-IsClosed no_pull-reads)
        λ _.
          Holds-bind env IsSettled
            (read_status-Holds env windows cfg IsSettled no_pull IsSettled-IsClosed no_pull-reads)
            λ st.
              sync_partition-Holds env windows cfg IsSettled no_pull IsSettled-IsClosed
                no_pull-reads had st _
                (no_pull-commits env windows cfg IsSettled IsSettled-IsClosed st)
                (pull-settled _ had)

  -- If it is so of the events before a sync, it is so behind it, under any answers of its environment:
  -- behind each pull that failed over a conflict, over a cancellation, or for any reason while the
  -- context is canceled, the next thing that is done is to ask git to abort the rebase.
  pub sync-IsSettled : (s : Sys W) → IsSettled s.events → IsSettled (sync env windows cfg s).events
  sync-IsSettled s h =
      sync-Holds env windows cfg IsSettled no_pull IsSettled-IsClosed settled_body s h
