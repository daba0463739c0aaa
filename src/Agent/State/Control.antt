-- ===== src/Agent/State/Control.antt =====
-- The requests that reach an agent from outside and from its timers: `TriggerSync`, `Snooze`,
-- `Resume`, `handleHoldoutTransition` and `handleSnoozeExpiry` of internal/agent/agent.go.
pub mod Consistent
pub mod Requests
use sexton.Common.{
  ℕ, Bool, true, false, not, ◌&&◌, ◌||◌, Option, none, some, [], ltb, if◌then◌else◌, is_empty,
}
use sexton.Common.Duration.{Time, Duration}
use sexton.Agent.State.{
  State, watching, syncing, error, snoozed, holdout, attention, Agent, Windows, is_syncing,
  is_snoozed, is_holdout, clear_snooze, drain_sync_requests, queue_sync, start_snooze,
  manual_snooze_active, resting_state,
}

-- The errors with which a request is refused.
pub data Refusal : Type 0 where
  in_holdout : Time → Refusal
  is_paused : Refusal
  not_paused : State → Refusal

-- What `Resume` answers.
pub data Answer : Type 0 where
  resumed : Answer
  holdout_remains : Time → Answer
  refused : Refusal → Answer

-- The state of an agent in a holdout: `holdoutUntil`, and `Holdout` unless a sync is running.
abbrev pub enter_holdout : Time → Agent → Agent
enter_holdout end a = record a {
  holdout_until = end;
  state = if is_syncing a.state then a.state else holdout;
}

module _ (windows : Windows) where
  -- `if a.state != Syncing { a.restingStateLocked() }`.
  unfoldable pub rest_unless_syncing : Time → Agent → Agent
  rest_unless_syncing now a = if is_syncing a.state then a else resting_state windows now a

  trigger_by : Option Time → Time → Agent → Agent × Option Refusal
  trigger_by (some end) now' a = (enter_holdout end a, some (in_holdout end))
  trigger_by none now' a =
      let b = rest_unless_syncing now' a in
      if is_snoozed b.state then (b, some is_paused) else (queue_sync b, none)

  -- `TriggerSync`.
  unfoldable pub trigger_sync : Time → Time → Agent → Agent × Option Refusal
  unfolding trigger_by rest_unless_syncing
  trigger_sync now now' a = trigger_by (windows now) now' a

  -- `Snooze`, up to its alert.
  unfoldable pub snooze : Duration → Time → Time → Agent → Agent
  snooze d now now' a =
      let b = start_snooze now d a in
      if is_syncing b.state
      then record b { snooze_pending = true }
      else resting_state windows now' b

  -- The two tests with which `Resume` begins.
  abbrev manual_snoozed : Time → Agent → Bool
  manual_snoozed now a = is_snoozed a.state || a.snooze_pending || manual_snooze_active now a

  abbrev pub can_resume : Time → Agent → Bool
  can_resume now a = manual_snoozed now a || not (is_empty a.error_detail)

  resume_by : Option Time → Time → Time → Agent → Agent × Answer
  resume_by (some end) now now' a =
      let b = record (clear_snooze a) { error_detail = []; holdout_until = end } in
      if can_resume now a
      then (rest_unless_syncing now' b, holdout_remains end)
      else (enter_holdout end a, refused (in_holdout end))
  resume_by none now now' a =
      let b = record (clear_snooze a) { error_detail = [] } in
      if can_resume now a
      then (queue_sync (rest_unless_syncing now' b), resumed)
      else (a, refused (not_paused a.state))

  -- `Resume`; it sends its sync request behind the critical section.
  unfoldable pub resume : Time → Time → Agent → Agent × Answer
  unfolding resume_by rest_unless_syncing
  resume now now' a = resume_by (windows now) now now' a

  transition_by : Option Time → Time → Agent → Agent
  transition_by (some end) now' a =
      let b = enter_holdout end a in if is_syncing a.state then b else drain_sync_requests b
  transition_by none now' a = if is_holdout a.state then resting_state windows now' a else a

  -- `handleHoldoutTransition`.
  unfoldable pub handle_holdout_transition : Time → Time → Agent → Agent
  unfolding transition_by
  handle_holdout_transition now now' a = transition_by (windows now) now' a

  abbrev wakes : State → Bool
  wakes watching = true
  wakes attention = true
  wakes _ = false

  -- `handleSnoozeExpiry`.
  unfoldable pub handle_snooze_expiry : Time → Agent → Agent
  handle_snooze_expiry now a =
      let b = clear_snooze a in
      let c = resting_state windows now b in
      if is_syncing b.state then b else if wakes c.state then queue_sync c else c
