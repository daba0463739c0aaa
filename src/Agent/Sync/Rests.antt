-- ===== src/Agent/Sync/Rests.antt =====
-- Every sync comes to rest: whatever the operations answer, whatever requests come in between, and
-- wherever the sync returns, it leaves a consistent agent that is not in the state `Syncing`.
use sexton.Common.{
  ◌≡◌, refl, inl, inr, Bool, true, false, ◌||◌, Option, none, some, if◌then◌else◌, arith,
  Bool-cases, ltb,
}
use sexton.Common.Duration.{Time}
use sexton.Agent.State.{Agent, Windows, syncing, is_syncing, manual_snooze_active, resting_state}
use sexton.Agent.State.Resting.{resting_state-is_syncing}
use sexton.Agent.State.Control.Consistent.{
  IsConsistent, IsRestable, restable, EndsLater, resting_state-IsConsistent,
}
use sexton.Agent.State.Control.Requests.{serve_all, serve_all-IsConsistent}
use sexton.Agent.Sync.World.{Env, IsReliable, SyncConfig}
use sexton.Agent.Sync.Monad.{Sys, critical, context_canceled, stop_if, ◌>>=◌}
use sexton.Agent.Sync.Monad.Safe.{RunsAgent, Running, Resting, Ends}
use sexton.Agent.Sync.Phases.{go_on, open_sync, open_by, open_section}
use sexton.Agent.Sync.Remote.{clear_section, clear_canceled, deferred, run_body, sync}
use sexton.Agent.Sync.Remote.Safe.{sync_body-Leads}

abbrev AtRest : Agent → Type 0
AtRest a = (is_syncing a.state ≡ false) × IsConsistent a

module _ {W : Type 0} (env : Env W) (windows : Windows) (cfg : SyncConfig)
    (reliable : IsReliable env) (later : EndsLater windows) where
  started :
      (b : Agent) → IsConsistent b → RunsAgent (record b { holdout_until = 0; state = syncing })
  started b h = ground arith

  rested : (t : Time) (a : Agent) → IsRestable a → AtRest (resting_state windows t a)
  rested t a h =
      (resting_state-is_syncing windows t a, resting_state-IsConsistent windows later t a h)

  either :
      (x y : Agent) (b : Bool) → IsConsistent x → IsConsistent y → IsConsistent (if b then x else y)
  either x y true p q = p
  either x y false p q = q

  -- The two ways of the opening: `none` returns, `some` goes on.
  Opens : Agent × Option Bool → Type 0
  Opens (a, none) = AtRest a
  Opens (a, some had) = RunsAgent a

  if-Opens : (x y : Agent × Option Bool) (b : Bool) → Opens x → Opens y → Opens (if b then x else y)
  if-Opens x y true p q = p
  if-Opens x y false p q = q

  open_by-Opens :
      (o : Option Time) (t u : Time) (a : Agent) → IsConsistent a → Opens (open_by o windows t u a)
  unfolding open_by Opens
  open_by-Opens (some end) t u a h =
      rested u (record a { holdout_until = end }) (ground (arith, restable h))
  open_by-Opens none t u a h = if-Opens _ _ (manual_snooze_active t a) (rested u a (restable h)) (
      started _
        (either _ _ (a.snooze_pending || ltb 0 a.snooze_until) (rested u a (restable h)).1 h))

  open_section-Opens :
      (t u : Time) (a : Agent) → IsConsistent a → Opens (open_section windows t u a)
  unfolding open_section
  open_section-Opens t u a h = open_by-Opens (windows t) t u a h

  Opened : Option Bool × Sys W → Type 0
  Opened (none, s) = AtRest s.agent
  Opened (some had, s) = Running env s

  served :
      (s : Sys W)
      → IsConsistent s.agent
      → IsConsistent (serve_all windows (env.requests s.world).0 s.agent)
  served s h =
      serve_all-IsConsistent windows later (env.requests s.world).0 s.agent (reliable.sound s.world)
        h

  go_on-Opened :
      (x : Agent × Option Bool) (s : Sys W) (w : W)
      → Opens x
      → Opened (go_on env windows cfg x.1 (record s { agent = x.0; world = w }))
  unfolding Opens Opened go_on
  go_on-Opened (a, none) s w h = h
  go_on-Opened (a, some had) s w h = record { syncing_now = h.0; consistent = h.1 }

  open-Opened :
      (c : Bool) (s : Sys W)
      → AtRest s.agent
      → Opened (
          (stop_if env windows c >>= λ _.
          critical env windows (open_section windows) >>= go_on env windows cfg)
            s)
  unfolding stop_if critical Opened
  open-Opened true s h = h
  open-Opened false s h = go_on-Opened _ s _ (open_section-Opens _ _ _ (served s h.1))

  open_sync-Opened : (s : Sys W) → AtRest s.agent → Opened (open_sync env windows cfg s)
  unfolding open_sync context_canceled
  open_sync-Opened s h = open-Opened (env.is_canceled s.world) s h

  clear_section-rests :
      (t : Time) (a : Agent) → IsConsistent a → AtRest (clear_section env windows cfg t a)
  clear_section-rests t a h = elim (Bool-cases (is_syncing a.state)) [
    | inl e ↦ rw e (rested t a (restable h))
    | inr e ↦ rw e (e, h)
  ]

  clear_canceled-rests :
      (c : Bool) (s : Sys W)
      → env.is_canceled s.world ≡ c
      → Resting env s
      → AtRest (clear_canceled env windows cfg c s).1.agent
  unfolding clear_canceled critical
  clear_canceled-rests true s e h = clear_section-rests _ _ (served s h.consistent)
  clear_canceled-rests false s e h = (ground (arith, h.rests), h.consistent)

  deferred-rests : (s : Sys W) → Resting env s → AtRest (deferred env windows cfg s).1.agent
  unfolding deferred context_canceled
  deferred-rests s h = clear_canceled-rests (env.is_canceled s.world) s refl h

  body_over : (x : Option (Unit {0}) × Sys W) → Ends env (λ _ s. Resting env s) x → Resting env x.1
  body_over (none, s) h = h
  body_over (some _, s) h = h

  run_body-rests :
      (x : Option Bool × Sys W) → Opened x → AtRest (run_body env windows cfg x.0 x.1).agent
  unfolding run_body Opened
  run_body-rests (none, s) h = h
  run_body-rests (some had, s) h =
      deferred-rests _ (body_over _ ((sync_body-Leads env windows cfg reliable later had).at s h))

  -- A sync that starts with a consistent agent that is not syncing ends with one, whatever the git
  -- operations, the hooks and the language model answer, whatever the clock reads, and whatever
  -- requests come in between, given that a canceled context stays canceled, that an operation
  -- reports a cancellation only under a canceled context, and that no snooze and no holdout ends at
  -- the zero time.
  pub sync_rests :
      (s : Sys W)
      → is_syncing s.agent.state ≡ false
      → IsConsistent s.agent
      → (is_syncing (sync env windows cfg s).agent.state ≡ false)
        × IsConsistent (sync env windows cfg s).agent
  unfolding sync
  sync_rests s e h = run_body-rests (open_sync env windows cfg s) (open_sync-Opened s (e, h))
