-- ===== src/Agent/State.antt =====
-- The state of an agent (internal/agent/state.go and the struct `Agent` of internal/agent/agent.go),
-- and the sections of agent.go that run under its mutex. Each such section is one step, and takes
-- the clock's readings of its calls of `a.now()`, in order. Of the fields, a zero `time.Time` is 0,
-- the timer is whether one is armed, and the channel of sync requests, which has room for one, is
-- whether it holds one. Where a method alerts or answers, it returns what it says.

pub mod Control
pub mod Resting
use sexton.Common.{
  ℕ, ◌-◌, Bool, true, false, not, ◌&&◌, ◌||◌, Option, none, some, List, ltb, if◌then◌else◌,
  is_empty, is_some,
}
use sexton.Common.Duration.{Time, Duration, add_duration}
use sexton.Common.Text.{Text, same, codes}
use sexton.Config.Holdout.{ResolvedHoldoutWindow}
use sexton.Agent.Holdout.{Zone, holdout_status_at}

pub data State : Type 0 where
  watching syncing error snoozed holdout attention : State

-- `String`.
unfoldable pub state_name : State → Text
state_name watching = codes "watching"
state_name syncing = codes "syncing"
state_name error = codes "error"
state_name snoozed = codes "snoozed"
state_name holdout = codes "holdout"
state_name attention = codes "attention"

abbrev pub is_syncing : State → Bool
is_syncing syncing = true
is_syncing _ = false

abbrev pub is_snoozed : State → Bool
is_snoozed snoozed = true
is_snoozed _ = false

abbrev pub is_holdout : State → Bool
is_holdout holdout = true
is_holdout _ = false

pub record Agent : Type 0 where
  pub state : State
  pub snooze_timer : Bool
  pub snooze_until : Time
  pub snooze_pending : Bool
  pub holdout_until : Time
  pub error_detail : Text
  pub attention_detail : Text
  pub last_sync : Time
  pub last_commit : Text
  pub last_change : Time
  pub sync_queued : Bool

-- `NewAgent`: the fields that it sets, and the zero values of the others.
abbrev pub new_agent : Agent
new_agent = record {
  state = watching;
  snooze_timer = false;
  snooze_until = 0;
  snooze_pending = false;
  holdout_until = 0;
  error_detail = codes "";
  attention_detail = codes "";
  last_sync = 0;
  last_commit = codes "";
  last_change = 0;
  sync_queued = false;
}

-- `manualSnoozeActiveLocked`.
abbrev pub manual_snooze_active : Time → Agent → Bool
manual_snooze_active now a = ltb 0 a.snooze_until && ltb now a.snooze_until

-- `clearSnoozeLocked`, and `clearExpiredSnoozeLocked`, which does the same.
abbrev pub clear_snooze : Agent → Agent
clear_snooze a = record a { snooze_timer = false; snooze_until = 0; snooze_pending = false }

-- `drainSyncRequestsLocked`.
abbrev pub drain_sync_requests : Agent → Agent
drain_sync_requests a = record a { sync_queued = false }

-- The send on `syncCh` that does nothing if a request is pending.
abbrev pub queue_sync : Agent → Agent
queue_sync a = record a { sync_queued = true }

-- `startSnoozeLocked` with `resetSnoozeTimerLocked`: the time until which the agent is snoozed.
abbrev pub start_snooze : Time → Duration → Agent → Agent
start_snooze now d a = record a {
  snooze_until = add_duration now d;
  snooze_timer = true;
  sync_queued = false;
}

-- The last switch of `restingStateLocked`.
abbrev pub idle_state : Agent → State
idle_state a =
    if not (is_empty a.error_detail)
    then error
    else if not (is_empty a.attention_detail)
    then attention
    else watching

-- What the holdout windows say at a time.
abbrev pub Windows : Type 0
Windows = Time → Option Time

unfoldable pub windows_of : Zone → List ResolvedHoldoutWindow → Windows
windows_of zone windows now = holdout_status_at zone windows now

-- `restingStateLocked` behind its test of the holdout windows.
abbrev pub rest_idle : Time → Agent → Agent
rest_idle now a =
    let b = record a { holdout_until = 0 } in
    let c = if b.snooze_pending || ltb 0 b.snooze_until then clear_snooze b else b in
    if manual_snooze_active now b
    then record b { snooze_pending = false; state = snoozed }
    else record c { state = idle_state c }

rest_by : Option Time → Time → Agent → Agent
rest_by (some end) now a = record a { holdout_until = end; state = holdout }
rest_by none now a = rest_idle now a

module _ (windows : Windows) where
  -- `restingStateLocked`.
  unfoldable pub resting_state : Time → Agent → Agent
  unfolding rest_by
  resting_state now a = rest_by (windows now) now a

  -- `SnoozeRemaining` and `HoldoutRemaining`, in nanoseconds.
  unfoldable pub snooze_remaining : Time → Agent → ℕ
  snooze_remaining now a = if is_snoozed a.state then a.snooze_until - now else 0

  unfoldable pub holdout_remaining : Time → Agent → ℕ
  holdout_remaining now a = if is_holdout a.state then a.holdout_until - now else 0
