-- ===== src/Agent/Sync/Trace.antt =====
-- What a sync is seen to do: a logic for the events of its steps. `Holds` says of a step that the
-- events keep a predicate, wherever the step ends, and of its result a predicate of its own.
pub mod Allowed
pub mod Phases
pub mod Commit
pub mod Permitted
pub mod Settled
pub mod NoPull
pub mod Refused
use sexton.Common.{◌≡◌, Bool, true, false, Option, none, some, List, [], ◌∷◌}
use sexton.Common.Duration.{Time}
use sexton.Common.Result.{Result, ok, err}
use sexton.Common.Text.{Text}
use sexton.Agent.State.{Agent, Windows}
use sexton.Agent.Sync.World.{
  Op, Answer, Fault, Env, AlertEvent, Event, did, alerted, ResolvedHook, run_hook,
}
use sexton.Agent.Sync.Monad.{
  Sys, M, return, stop, ◌>>=◌, perform, critical, alert, context_canceled, sync_canceled, stop_if,
  should_abort, alert_if, set_error, fail, or_fail, attempt, run_hooks,
}

abbrev pub Trace : Type 0
Trace = List Event

abbrev pub Any : {A : Type 0} → A → Type 0
Any a = Unit

abbrev pub Never : {A : Type 0} → A → Type 0
Never a = ⊥

-- A predicate of the answer, if there is one.
abbrev pub OnOk : {A : Type 0} → (A → Type 0) → Result Fault A → Type 0
OnOk R (ok a) = R a
OnOk R (err f) = Unit

Any-ok : {A : Type 0} (r : Result Fault A) → OnOk Any r
Any-ok (ok a) = tt
Any-ok (err f) = tt

-- A predicate that an alert keeps, and each allowed operation whatever it answers.
pub record IsClosed (P : Trace → Type 0) (allowed : Op → Bool) : Type 0 where
  pub alerts : (e : AlertEvent) (es : Trace) → P es → P (alerted e ∷ es)
  pub ops :
      (op : Op) (r : Result Fault (Answer op)) (over : Bool) (es : Trace)
      → allowed op ≡ true
      → P es
      → P (did op r over ∷ es)

module _ {W : Type 0} (env : Env W) (P : Trace → Type 0) where
  abbrev pub Yields : {A : Type 0} → (A → Type 0) → Option A × Sys W → Type 0
  Yields R (some a, s) = P s.events × R a
  Yields R (none, s) = P s.events

  pub record Holds {A : Type 0} (R : A → Type 0) (m : M W A) : Type 0 where
    pub at : (s : Sys W) → P s.events → Yields R (m s)

  -- A step after one of whose result something is known.
  pub Holds-bind_with :
      {A B : Type 0} {R : A → Type 0} {Q : B → Type 0} {m : M W A} {f : A → M W B}
      → Holds R m
      → ((a : A) → R a → Holds Q (f a))
      → Holds Q (m >>= f)
  Holds-bind_with {R} {Q} {m} {f} h k = record { at = λ s p. go (m s) (h.at s p) }
    where
      go :
          (x : Option _ × Sys W)
          → Yields R x
          → Yields Q (elim x.0 [ none ↦ (none, x.1) | some a ↦ f a x.1 ])
      go (some a, s) q = (k a q.1).at s q.0
      go (none, s) q = q

  pub Holds-bind :
      {A B : Type 0} {R : A → Type 0} {Q : B → Type 0} {m : M W A} {f : A → M W B}
      → Holds R m
      → ((a : A) → Holds Q (f a))
      → Holds Q (m >>= f)
  Holds-bind h k = Holds-bind_with h λ a _. k a

  -- Nothing follows a step that never goes on.
  pub Holds-never :
      {A B : Type 0} {Q : B → Type 0} {m : M W A} (f : A → M W B)
      → Holds Never m
      → Holds Q (m >>= f)
  Holds-never f h = Holds-bind_with {f = f} h λ a n. absurd n

  pub Holds-return : {A : Type 0} {R : A → Type 0} (a : A) → R a → Holds R (return a)
  Holds-return a r = record { at = λ s p. (p, r) }

  pub Holds-stop : {A : Type 0} {R : A → Type 0} → Holds {A = A} R stop
  Holds-stop = record { at = λ s p. p }

module _ {W : Type 0} (env : Env W) (windows : Windows) (P : Trace → Type 0) (allowed : Op → Bool)
    (closed : IsClosed P allowed) where
  pub perform-Holds :
      (op : Op) (R : Result Fault (Answer op) → Type 0)
      → allowed op ≡ true
      → ((w : W) → R (env.perform op w).0)
      → Holds env P R (perform env windows op)
  unfolding perform
  perform-Holds op R yes_op r = record {
    at = λ s p. (closed.ops op _ _ s.events yes_op p, r s.world);
  }

  pub critical-Holds :
      {A : Type 0} (f : Time → Time → Agent → Agent × A) → Holds env P Any (critical env windows f)
  unfolding critical
  critical-Holds f = record { at = λ s p. (p, tt) }

  pub alert_if-Holds : (b : Bool) (e : AlertEvent) → Holds env P Any (alert_if env windows b e)
  unfolding alert_if alert
  alert_if-Holds true e = record { at = λ s p. (closed.alerts e s.events p, tt) }
  alert_if-Holds false e = Holds-return env P tt tt

  pub context-Holds : Holds env P Any (context_canceled env windows)
  unfolding context_canceled
  context-Holds = record { at = λ s p. (p, tt) }

  pub canceled-Holds : (f : Fault) → Holds env P Any (sync_canceled env windows f)
  unfolding sync_canceled
  canceled-Holds f = Holds-bind env P context-Holds λ c. Holds-return env P _ tt

  pub stop_if-Holds : (b : Bool) → Holds env P Any (stop_if env windows b)
  unfolding stop_if
  stop_if-Holds true = Holds-stop env P
  stop_if-Holds false = Holds-return env P tt tt

  pub should_abort-Holds : Holds env P Any (should_abort env windows)
  unfolding should_abort
  should_abort-Holds = Holds-bind env P context-Holds λ c.
      Holds-bind env P (stop_if-Holds c)
        λ _. Holds-bind env P (critical-Holds _) λ b. stop_if-Holds b

  pub set_error-Holds :
      (message : Text) (f : Fault) → Holds env P Any (set_error env windows message f)
  unfolding set_error
  set_error-Holds message f = Holds-bind env P (critical-Holds _) λ news. alert_if-Holds news _

  -- A failure returns.
  pub fail-Holds :
      {A : Type 0} {R : A → Type 0} (message : Text) (f : Fault)
      → Holds env P R (fail env windows message f)
  unfolding fail
  fail-Holds message f = Holds-bind env P (canceled-Holds f) λ c.
      Holds-bind env P (stop_if-Holds c)
        λ _. Holds-bind env P (set_error-Holds message f) λ _. Holds-stop env P

  or_fail-Holds :
      {A : Type 0} (R : A → Type 0) (message : Text) (r : Result Fault A)
      → OnOk R r
      → Holds env P R (or_fail env windows message r)
  unfolding or_fail
  or_fail-Holds R message (ok a) h = Holds-return env P a h
  or_fail-Holds R message (err f) h = fail-Holds message f

  -- An operation whose failure ends the sync, and what is known of its answer.
  pub attempt-Holds :
      (op : Op) (message : Text) (R : Answer op → Type 0)
      → allowed op ≡ true
      → ((w : W) → OnOk R (env.perform op w).0)
      → Holds env P R (attempt env windows op message)
  unfolding attempt
  attempt-Holds op message R yes_op r =
      Holds-bind_with env P (perform-Holds op (OnOk R) yes_op r) λ x h. or_fail-Holds R message x h

  pub try-Holds :
      (op : Op) (message : Text)
      → allowed op ≡ true
      → Holds env P Any (attempt env windows op message)
  try-Holds op message yes_op = attempt-Holds op message Any yes_op λ w. Any-ok _

  pub run_hooks-Holds :
      (phase : Text) (hs : List ResolvedHook)
      → ((h : ResolvedHook) → allowed (run_hook phase h) ≡ true)
      → Holds env P Any (run_hooks env windows phase hs)
  unfolding run_hooks
  run_hooks-Holds phase [] k = Holds-return env P tt tt
  run_hooks-Holds phase (h ∷ hs) k =
      Holds-bind env P (try-Holds _ _ (k h)) λ _. run_hooks-Holds phase hs k
