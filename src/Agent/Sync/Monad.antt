-- ===== src/Agent/Sync/Monad.antt =====
-- The steps that a sync is made of. A sync changes the agent, the world and the list of events (the
-- latest first), and may return early: that is `none`, and nothing behind it is done. Before each
-- critical section of the sync the requests of other goroutines that came in between are served.
pub mod Safe
use sexton.Common.{
  ℕ, Bool, true, false, not, ◌&&◌, ◌||◌, Option, none, some, List, [], ◌∷◌, ◌++◌, if◌then◌else◌,
  is_empty,
}
use sexton.Common.Duration.{Time}
use sexton.Common.Result.{Result, ok, err}
use sexton.Common.Text.{Text, codes, same}
use sexton.Git.Status.{Status}
use sexton.Agent.State.{
  Agent, Windows, holdout, manual_snooze_active, clear_snooze, resting_state, drain_sync_requests,
}
use sexton.Agent.State.Control.Requests.{serve_all}
use sexton.Agent.Sync.World.{
  Op, Answer, Fault, Cause, canceled, Env, AlertEvent, AlertFiles, Event, did, alerted,
  ResolvedHook, run_hook,
}

pub record Sys (W : Type 0) : Type 0 where
  pub agent : Agent
  pub world : W
  pub events : List Event

abbrev pub M : Type 0 → Type 0 → Type 0
M W A = Sys W → Option A × Sys W

abbrev pub return : {W A : Type 0} → A → M W A
return a s = (some a, s)

-- The `return` of `sync`.
abbrev pub stop : {W A : Type 0} → M W A
stop s = (none, s)

infixl 5 ◌>>=◌ ◌>>◌
abbrev pub ◌>>=◌ : {W A B : Type 0} → M W A → (A → M W B) → M W B
◌>>=◌ m f s = elim (m s).0 [ none ↦ (none, (m s).1) | some a ↦ f a (m s).1 ]

abbrev pub ◌>>◌ : {W A B : Type 0} → M W A → M W B → M W B
m >> k = m >>= λ _. k

-- `pauseIfRequested`, with its readings of the clock.
pause_by : Option Time → Windows → Time → Time → Agent → Agent × Bool
pause_by (some end) windows now now' a = (
  record a { holdout_until = end; state = holdout; snooze_pending = false; sync_queued = false },
  true,
)
pause_by none windows now now' a =
    if not a.snooze_pending
    then (a, false)
    else if not (manual_snooze_active now a)
    then (clear_snooze a, false)
    else (drain_sync_requests (resting_state windows now' a), true)

unfoldable pub pause_if_requested : Windows → Time → Time → Agent → Agent × Bool
unfolding pause_by
pause_if_requested windows now now' a = pause_by (windows now) windows now now' a

-- `formatErrorDetail`; the message that it is given is not empty, and there is an error.
abbrev pub format_error_detail : Text → Fault → Text
format_error_detail message f =
    if is_empty message then f.text else message ++ (codes ": " ++ f.text)

abbrev pub plain_alert : Text → Text → Option Fault → AlertEvent
plain_alert severity message fault = record {
  severity = severity;
  message = message;
  fault = fault;
  files = none;
  commit_message = [];
}

module _ {W : Type 0} (env : Env W) (windows : Windows) where
  unfoldable pub perform : (op : Op) → M W (Result Fault (Answer op))
  perform op s =
      let r = env.perform op s.world in
      (some r.0, record s { world = r.1; events = did op r.0 (env.is_canceled r.1) ∷ s.events })

  -- A section under the agent's mutex, with two readings of the clock; one that reads it less often
  -- passes over the others.
  unfoldable pub critical : {A : Type 0} → (Time → Time → Agent → Agent × A) → M W A
  critical section s =
      let r = env.requests s.world in
      let t = env.now r.1 in
      let u = env.now t.1 in
      let x = section t.0 u.0 (serve_all windows r.0 s.agent) in
      (some x.1, record s { agent = x.0; world = u.1 })

  -- The alerter is called behind the critical section; whether it delivers is not the agent's doing.
  unfoldable pub alert : AlertEvent → M W (Unit {0})
  alert event s = (some tt, record s { events = alerted event ∷ s.events })

  unfoldable pub context_canceled : M W Bool
  context_canceled s = (some (env.is_canceled s.world), s)

  -- `syncCanceled(ctx, err)`.
  unfoldable pub sync_canceled : Fault → M W Bool
  sync_canceled f = do c ← context_canceled; return (c || f.is canceled)

  unfoldable pub stop_if : Bool → M W (Unit {0})
  stop_if true = stop
  stop_if false = return tt

  -- `if a.shouldAbortSync(ctx) { return }`.
  unfoldable pub should_abort : M W (Unit {0})
  should_abort = do
    c ← context_canceled
    stop_if c
    paused ← critical (pause_if_requested windows)
    stop_if paused

  -- The critical section of `setError`: whether the detail is news.
  abbrev pub record_error : Text → Time → Agent → Agent × Bool
  record_error detail now a = (
    resting_state windows now (record a { error_detail = detail }),
    not (same a.error_detail detail),
  )

  unfoldable pub alert_if : Bool → AlertEvent → M W (Unit {0})
  alert_if true event = alert event
  alert_if false event = return tt

  -- `setError`.
  unfoldable pub set_error : Text → Fault → M W (Unit {0})
  set_error message f = do
    news ← critical (λ now _ a. record_error (format_error_detail message f) now a)
    alert_if news (plain_alert (codes "error") message (some f))

  -- `if a.syncCanceled(ctx, err) { return }; a.setError(message, err); return`.
  unfoldable pub fail : {A : Type 0} → Text → Fault → M W A
  fail message f = do c ← sync_canceled f; stop_if c; set_error message f; stop

  unfoldable pub or_fail : {A : Type 0} → Text → Result Fault A → M W A
  or_fail message (ok a) = return a
  or_fail message (err f) = fail message f

  -- An operation whose failure ends the sync.
  unfoldable pub attempt : (op : Op) → Text → M W (Answer op)
  attempt op message = do r ← perform op; or_fail message r

  -- `runHooks`, the failure of a hook ending the sync.
  unfoldable pub run_hooks : Text → List ResolvedHook → M W (Unit {0})
  run_hooks phase [] = return tt
  run_hooks phase (h ∷ hs) = do
    attempt (run_hook phase h) (phase ++ codes " hook failed")
    run_hooks phase hs
