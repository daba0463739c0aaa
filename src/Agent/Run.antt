-- ===== src/Agent/Run.antt =====
-- The goroutine `run` of internal/agent/agent.go: a sync at the start, and then one of its cases after
-- the other, with the requests of other goroutines in between. What it does next is decided by the
-- ticker, the channels and the timer, so it is a relation; once the agent is stopped, there is no
-- further step.
use sexton.Common.{◌≡◌, refl, ◌∙◌, true, false, List, [], All}
use sexton.Common.Duration.{Time}
use sexton.Agent.State.{Windows, new_agent, is_syncing}
use sexton.Agent.State.Control.Consistent.{
  IsConsistent, EndsLater, new_agent-IsConsistent, queue_sync-IsConsistent,
}
use sexton.Agent.State.Control.Requests.{
  Request, do_expire, IsSound, serve, serve_all, serve_all-IsConsistent, serve_all-is_syncing,
  serve-is_syncing, serve-IsConsistent,
}
use sexton.Agent.Sync.World.{Env, IsReliable, SyncConfig}
use sexton.Agent.Sync.Monad.{Sys}
use sexton.Agent.Sync.Remote.{sync}
use sexton.Agent.Sync.Rests.{sync_rests}
use sexton.Agent.Sync.Trace.Permitted.{Only, permitted, sync-Only_permitted}

-- The receive from `syncCh`.
abbrev received : {W : Type 0} → Sys W → Sys W
received s = record s { agent = record s.agent { sync_queued = false } }

module _ {W : Type 0} (env : Env W) (windows : Windows) (cfg : SyncConfig) where
  -- The cases of the loop, and what other goroutines do.
  pub data Step : Sys W → Sys W → Type 0 where
    ticks : (s : Sys W) → Step s (sync env windows cfg s)
    receives : (s : Sys W) → s.agent.sync_queued ≡ true → Step s (sync env windows cfg (received s))
    expires :
        (s : Sys W) (now : Time)
        → s.agent.snooze_timer ≡ true
        → Step s (record s { agent = serve windows (do_expire now) s.agent })
    serves :
        (s : Sys W) (rs : List Request)
        → All IsSound rs
        → Step s (record s { agent = serve_all windows rs s.agent })

  -- The states that the loop gets to, from a new agent in any world.
  pub data Reaches : Sys W → Type 0 where
    starts :
        (w : W)
        → Reaches (sync env windows cfg (record { agent = new_agent; world = w; events = [] }))
    goes_on : (s t : Sys W) → Reaches s → Step s t → Reaches t

  abbrev Rests : Sys W → Type 0
  Rests s = (is_syncing s.agent.state ≡ false) × IsConsistent s.agent

  Step-Rests : IsReliable env → EndsLater windows → (s t : Sys W) → Step s t → Rests s → Rests t
  Step-Rests reliable later s _ (ticks _) (e, h) = sync_rests env windows cfg reliable later s e h
  Step-Rests reliable later s _ (receives _ q) (e, h) =
      sync_rests env windows cfg reliable later (received s) e
        (queue_sync-IsConsistent windows later s.agent false h)
  Step-Rests reliable later s _ (expires _ now q) (e, h) = (
    serve-is_syncing windows (do_expire now) s.agent ∙ e,
    serve-IsConsistent windows later (do_expire now) s.agent tt h,
  )
  Step-Rests reliable later s _ (serves _ rs sound) (e, h) = (
    serve_all-is_syncing windows rs s.agent ∙ e,
    serve_all-IsConsistent windows later rs s.agent sound h,
  )

  -- Between the steps of its loop the agent is at rest: in every state that `run` gets to, it is not
  -- in the state `Syncing`, and it is consistent, whatever the operations answer and whatever other
  -- goroutines request, given that a canceled context stays canceled, that an operation reports a
  -- cancellation only under a canceled context, and that no snooze and no holdout ends at the zero time.
  pub run_rests :
      IsReliable env
      → EndsLater windows
      → (s : Sys W) → Reaches s
      → (is_syncing s.agent.state ≡ false) × IsConsistent s.agent
  run_rests reliable later _ (starts w) =
      sync_rests env windows cfg reliable later
        (record { agent = new_agent; world = w; events = [] }) refl new_agent-IsConsistent
  run_rests reliable later t (goes_on s _ r step) =
      Step-Rests reliable later s t step (run_rests reliable later s r)

  Step-Only :
      (s t : Sys W)
      → Step s t
      → Only (permitted cfg.commit_policy cfg.commit_regions) s.events
      → Only (permitted cfg.commit_policy cfg.commit_regions) t.events
  Step-Only s _ (ticks _) h = sync-Only_permitted env windows cfg s h
  Step-Only s _ (receives _ q) h = sync-Only_permitted env windows cfg (received s) h
  Step-Only s _ (expires _ now q) h = h
  Step-Only s _ (serves _ rs sound) h = h

  -- However long the agent runs, every operation that it has asked for is one that the commit policy
  -- permits.
  pub run-Only_permitted :
      (s : Sys W) → Reaches s → Only (permitted cfg.commit_policy cfg.commit_regions) s.events
  run-Only_permitted _ (starts w) =
      sync-Only_permitted env windows cfg (record { agent = new_agent; world = w; events = [] }) tt
  run-Only_permitted t (goes_on s _ r step) = Step-Only s t step (run-Only_permitted s r)
