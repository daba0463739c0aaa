-- ===== src/Agent/Sync/Monad/Safe.antt =====
-- What each step of a sync keeps. While the sync runs the agent is consistent and in the state
-- `Syncing`; where the sync returns the agent is consistent, and it is at rest unless the context is
-- canceled, in which case the deferred section puts it to rest.
use sexton.Common.{
  ◌<◌, ◌≡◌, refl, ◌∙◌, ◌⊎◌, inl, inr, Bool, true, false, not, Option, none, some, List, [], ◌∷◌,
  if◌then◌else◌, arith,
}
use sexton.Common.Duration.{Time}
use sexton.Common.Result.{Result, ok, err}
use sexton.Common.Text.{Text}
use sexton.Agent.State.{Agent, Windows, is_syncing, manual_snooze_active, drain_sync_requests}
use sexton.Agent.State.Resting.{resting_state-is_syncing}
use sexton.Agent.State.Control.Consistent.{
  IsConsistent, restable, EndsLater, resting_state-IsConsistent,
}
use sexton.Agent.State.Control.Requests.{serve_all, serve_all-is_syncing, serve_all-IsConsistent}
use sexton.Agent.Sync.World.{Op, Fault, canceled, Env, IsReliable, AlertEvent, ResolvedHook}
use sexton.Agent.Sync.Monad.{
  Sys, M, return, stop, ◌>>=◌, pause_by, pause_if_requested, perform, critical, alert,
  context_canceled, sync_canceled, stop_if, should_abort, record_error, alert_if, set_error, fail,
  or_fail, attempt, run_hooks,
}

abbrev pub RunsAgent : Agent → Type 0
RunsAgent a = (is_syncing a.state ≡ true) × IsConsistent a

module _ {W : Type 0} (env : Env W) where
  pub record Running (s : Sys W) : Type 0 where
    pub syncing_now : is_syncing s.agent.state ≡ true
    pub consistent : IsConsistent s.agent

  pub record Resting (s : Sys W) : Type 0 where
    pub rests : (is_syncing s.agent.state ≡ false) ⊎ (env.is_canceled s.world ≡ true)
    pub consistent : IsConsistent s.agent

  -- The end of a step: a result with what it comes with, or an early return.
  abbrev pub Ends : {A : Type 0} → (A → Sys W → Type 0) → Option A × Sys W → Type 0
  Ends Q (some a, s) = Q a s
  Ends Q (none, s) = Resting s

  pub record Leads {A : Type 0} (P : Sys W → Type 0) (Q : A → Sys W → Type 0) (m : M W A)
      : Type 0 where
    pub at : (s : Sys W) → P s → Ends Q (m s)

  -- An error that a canceled context has caused is met only once it is canceled.
  abbrev pub IsHonest : Fault → Sys W → Type 0
  IsHonest f s = f.is canceled ≡ true → env.is_canceled s.world ≡ true

  abbrev pub HonestResult : {A : Type 0} → Result Fault A → Sys W → Type 0
  HonestResult (ok a) s = Running s
  HonestResult (err f) s = Running s × IsHonest f s

  pub Leads-bind :
      {A B : Type 0} {P : Sys W → Type 0} {Q : A → Sys W → Type 0} {R : B → Sys W → Type 0}
      {m : M W A} {f : A → M W B}
      → Leads P Q m
      → ((a : A) → Leads (Q a) R (f a))
      → Leads P R (m >>= f)
  Leads-bind {Q} {R} {m} {f} h k = record { at = λ s p. go (m s) (h.at s p) }
    where
      go :
          (x : Option _ × Sys W)
          → Ends Q x
          → Ends R (elim x.0 [ none ↦ (none, x.1) | some a ↦ f a x.1 ])
      go (some a, s) q = (k a).at s q
      go (none, s) r = r

  pub Leads-return : {A : Type 0} {P : Sys W → Type 0} (a : A) → Leads P (λ _. P) (return a)
  Leads-return a = record { at = λ s p. p }

  pub Leads-stop : {A : Type 0} {Q : A → Sys W → Type 0} → Leads Resting Q stop
  Leads-stop = record { at = λ s p. p }

module _ {W : Type 0} (env : Env W) (windows : Windows) (reliable : IsReliable env)
    (later : EndsLater windows) where
  honest_result :
      {A : Type 0} (s : Sys W) (r : Result Fault A)
      → Running env s
      → ((f : Fault) → r ≡ err f → IsHonest env f s)
      → HonestResult env r s
  honest_result s (ok a) p h = p
  honest_result s (err f) p h = (p, h f refl)

  pub perform-Leads :
      (op : Op) → Leads env (Running env) (HonestResult env) (perform env windows op)
  unfolding perform
  perform-Leads op = record {
    at = λ s p.
        honest_result _ (env.perform op s.world).0
          (record { syncing_now = p.syncing_now; consistent = p.consistent })
          (reliable.honest op s.world);
  }

  -- An operation after the end of the sync was decided.
  pub perform-Resting :
      (op : Op) → Leads env (Resting env) (λ _. Resting env) (perform env windows op)
  unfolding perform
  perform-Resting op = record {
    at = λ s p. record {
      rests = elim p.rests [
        | inl at_rest ↦ inl at_rest
        | inr over ↦ inr (reliable.perform_sticky op s.world over)
      ];
      consistent = p.consistent;
    };
  }

  served :
      (s : Sys W) → Running env s → RunsAgent (serve_all windows (env.requests s.world).0 s.agent)
  served s p = (
    serve_all-is_syncing windows (env.requests s.world).0 s.agent ∙ p.syncing_now,
    serve_all-IsConsistent windows later (env.requests s.world).0 s.agent (reliable.sound s.world)
        p.consistent,
  )

  -- A critical section that keeps the sync running.
  pub critical-Running :
      {A : Type 0} (f : Time → Time → Agent → Agent × A)
      → ((t u : Time) (a : Agent) → RunsAgent a → RunsAgent (f t u a).0)
      → Leads env (Running env) (λ _. Running env) (critical env windows f)
  unfolding critical
  critical-Running f keeps = record {
    at = λ s p. let k = keeps _ _ _ (served s p) in record { syncing_now = k.0; consistent = k.1 };
  }

  -- A critical section that puts the agent to rest.
  pub critical-Resting :
      {A : Type 0} (f : Time → Time → Agent → Agent × A)
      → ((t u : Time) (a : Agent)
          → RunsAgent a
          → (is_syncing (f t u a).0.state ≡ false) × IsConsistent (f t u a).0)
      → Leads env (Running env) (λ _. Resting env) (critical env windows f)
  unfolding critical
  critical-Resting f rests = record {
    at = λ s p. let k = rests _ _ _ (served s p) in record { rests = inl k.0; consistent = k.1 };
  }

  pub alert_if-Leads :
      (b : Bool) (event : AlertEvent) {P : Sys W → Type 0}
      → ((s : Sys W) (es : List _) → P s → P (record s { events = es }))
      → Leads env P (λ _. P) (alert_if env windows b event)
  unfolding alert_if alert
  alert_if-Leads true event k = record { at = λ s p. k s _ p }
  alert_if-Leads false event k = record { at = λ s p. p }

  pub alert_if-Running :
      (b : Bool) (event : AlertEvent)
      → Leads env (Running env) (λ _. Running env) (alert_if env windows b event)
  alert_if-Running b event =
      alert_if-Leads b event
        (λ s es p. record { syncing_now = p.syncing_now; consistent = p.consistent })

  pub alert_if-Resting :
      (b : Bool) (event : AlertEvent)
      → Leads env (Resting env) (λ _. Resting env) (alert_if env windows b event)
  alert_if-Resting b event =
      alert_if-Leads b event (λ s es p. record { rests = p.rests; consistent = p.consistent })

  drained : (a : Agent) → IsConsistent a → IsConsistent (drain_sync_requests a)
  drained a h = ground arith

  -- The two ways of a pause: with `true` the agent is at rest, with `false` the sync goes on.
  PauseSpec : Agent × Bool → Type 0
  PauseSpec (a, true) = (is_syncing a.state ≡ false) × IsConsistent a
  PauseSpec (a, false) = RunsAgent a

  if-PauseSpec :
      (x y : Agent × Bool) (b : Bool)
      → (b ≡ true → PauseSpec x)
      → PauseSpec y
      → PauseSpec (if b then x else y)
  if-PauseSpec x y true h k = h refl
  if-PauseSpec x y false h k = k

  pause_by-spec :
      (o : Option Time) (t u : Time) (a : Agent)
      → ((end : Time) → o ≡ some end → 0 < end)
      → RunsAgent a
      → PauseSpec (pause_by o windows t u a)
  unfolding pause_by PauseSpec
  pause_by-spec (some end) t u a after (r, c) = let pos : 0 < end = after end refl in ground arith
  pause_by-spec none t u a after (r, c) =
      if-PauseSpec _ _ (not a.snooze_pending) (λ _. (r, c))
        (if-PauseSpec _ _ (not (manual_snooze_active t a)) (λ _. ground arith)
          (
            resting_state-is_syncing windows u a,
            drained _ (resting_state-IsConsistent windows later u a (restable c)),
          ))

  pause-spec : (t u : Time) (a : Agent) → RunsAgent a → PauseSpec (pause_if_requested windows t u a)
  unfolding pause_if_requested
  pause-spec t u a h = pause_by-spec (windows t) t u a (later t) h

  -- What is decided by a pause: a sync that goes on, or its return.
  Paused : Bool → Sys W → Type 0
  Paused true s = Resting env s
  Paused false s = Running env s

  paused :
      (s : Sys W) (x : Agent × Bool) (w : W)
      → PauseSpec x
      → Paused x.1 (record s { agent = x.0; world = w })
  unfolding PauseSpec Paused
  paused s (a, true) w h = record { rests = inl h.0; consistent = h.1 }
  paused s (a, false) w h = record { syncing_now = h.0; consistent = h.1 }

  pause-Leads : Leads env (Running env) Paused (critical env windows (pause_if_requested windows))
  unfolding critical
  pause-Leads = record { at = λ s p. paused s _ _ (pause-spec _ _ _ (served s p)) }

  stop_if-Paused : (b : Bool) → Leads env (Paused b) (λ _. Running env) (stop_if env windows b)
  unfolding stop_if Paused
  stop_if-Paused true = record { at = λ s p. p }
  stop_if-Paused false = record { at = λ s p. p }

  -- A test of the context, and a return if it is canceled.
  unfoldable pub Checked : Bool → Sys W → Type 0
  Checked b s = Running env s × (b ≡ true → env.is_canceled s.world ≡ true)

  canceled-Leads : Leads env (Running env) Checked (context_canceled env windows)
  unfolding context_canceled Checked
  canceled-Leads = record { at = λ s p. (p, λ e. e) }

  pub canceled_or-Leads :
      (f : Fault)
      → Leads env (λ s. Running env s × IsHonest env f s) Checked (sync_canceled env windows f)
  unfolding sync_canceled context_canceled Checked
  canceled_or-Leads f = record { at = λ s p. (p.0, λ e. ground (arith, p.1)) }

  pub stop_if-Leads : (b : Bool) → Leads env (Checked b) (λ _. Running env) (stop_if env windows b)
  unfolding stop_if Checked
  stop_if-Leads true = record {
    at = λ s p. record { rests = inr (p.1 refl); consistent = p.0.consistent };
  }
  stop_if-Leads false = record { at = λ s p. p.0 }

  -- `shouldAbortSync`.
  pub should_abort-Leads : Leads env (Running env) (λ _. Running env) (should_abort env windows)
  unfolding should_abort
  should_abort-Leads =
      Leads-bind env canceled-Leads
        λ c. Leads-bind env (stop_if-Leads c) λ _. Leads-bind env pause-Leads λ b. stop_if-Paused b

  record_error-rests :
      (detail : Text) (t : Time) (a : Agent)
      → RunsAgent a
      → (is_syncing (record_error env windows detail t a).0.state ≡ false)
        × IsConsistent (record_error env windows detail t a).0
  record_error-rests detail t a h = (
    resting_state-is_syncing windows t _,
    resting_state-IsConsistent windows later t (record a { error_detail = detail })
        (ground (arith, h.1)),
  )

  -- `setError` puts the agent to rest.
  pub set_error-Leads :
      (message : Text) (f : Fault)
      → Leads env (Running env) (λ _. Resting env) (set_error env windows message f)
  unfolding set_error
  set_error-Leads message f =
      Leads-bind env (critical-Resting _ (λ t u a h. record_error-rests _ t a h))
        λ news. alert_if-Resting news _

  pub fail-Leads :
      {A : Type 0} {Q : A → Sys W → Type 0} (message : Text) (f : Fault)
      → Leads env (λ s. Running env s × IsHonest env f s) Q (fail env windows message f)
  unfolding fail
  fail-Leads message f = Leads-bind env (canceled_or-Leads f) λ c.
      Leads-bind env (stop_if-Leads c)
        λ _. Leads-bind env (set_error-Leads message f) λ _. Leads-stop env

  pub or_fail-Leads :
      {A : Type 0} (message : Text) (r : Result Fault A)
      → Leads env (HonestResult env r) (λ _. Running env) (or_fail env windows message r)
  unfolding or_fail
  or_fail-Leads message (ok a) = record { at = λ s p. p }
  or_fail-Leads message (err f) = fail-Leads message f

  -- An operation whose failure ends the sync.
  pub attempt-Leads :
      (op : Op) (message : Text)
      → Leads env (Running env) (λ _. Running env) (attempt env windows op message)
  unfolding attempt
  attempt-Leads op message = Leads-bind env (perform-Leads op) λ r. or_fail-Leads message r

  pub run_hooks-Leads :
      (phase : Text) (hs : List ResolvedHook)
      → Leads env (Running env) (λ _. Running env) (run_hooks env windows phase hs)
  unfolding run_hooks
  run_hooks-Leads phase [] = Leads-return env tt
  run_hooks-Leads phase (h ∷ hs) = Leads-bind env (attempt-Leads _ _) λ _. run_hooks-Leads phase hs
