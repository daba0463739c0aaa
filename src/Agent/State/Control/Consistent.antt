-- ===== src/Agent/State/Control/Consistent.antt =====
-- The invariant of an agent between its critical sections, and that every request keeps it.
use sexton.Common.{
  ◌≡◌, ◌<◌, refl, sym, lt→ltb, ◌⊎◌, Bool, true, false, Option, none, some, ltb, arith,
  if◌then◌else◌, is_empty, List, All, Bool-cases, inl, inr,
}
use sexton.Agent.Holdout.{Zone, holdout_status_at}
use sexton.Agent.Holdout.Windows.{holding_bounds}
use sexton.Config.Holdout.{ResolvedHoldoutWindow}
use sexton.Config.Holdout.Merge.{InDay}
use sexton.Common.Duration.{Time, Duration, add_duration}
use sexton.Agent.State.{
  watching, syncing, error, snoozed, holdout, attention, Agent, Windows, windows_of, rest_by,
  rest_idle, resting_state, new_agent, clear_snooze, start_snooze, is_syncing, is_snoozed,
  is_holdout,
}
use sexton.Agent.State.Control.{
  trigger_sync, trigger_by, snooze, resume, resume_by, transition_by, can_resume, wakes,
  rest_unless_syncing, enter_holdout, handle_holdout_transition, handle_snooze_expiry,
}

-- The state agrees with the details; a pending snooze has an end, and waits only for a sync or a
-- holdout to pass; a timer is armed exactly while there is a snooze.
pub record IsConsistent (a : Agent) : Type 0 where
  pub watching_clear :
      a.state ≡ watching → (is_empty a.error_detail ≡ true) × (is_empty a.attention_detail ≡ true)
  pub error_set : a.state ≡ error → is_empty a.error_detail ≡ false
  pub attention_set :
      a.state ≡ attention → (is_empty a.error_detail ≡ true) × (is_empty a.attention_detail ≡ false)
  pub snoozed_set : a.state ≡ snoozed → 0 < a.snooze_until
  pub holdout_set : a.state ≡ holdout → 0 < a.holdout_until
  pub pending_set : a.snooze_pending ≡ true → 0 < a.snooze_until
  pub pending_waits : a.snooze_pending ≡ true → (a.state ≡ syncing) ⊎ (a.state ≡ holdout)
  pub timer_armed : a.snooze_timer ≡ ltb 0 a.snooze_until

pub new_agent-IsConsistent : IsConsistent new_agent
new_agent-IsConsistent = ground arith

-- An active holdout ends after the zero time.
abbrev pub EndsLater : Windows → Type 0
EndsLater windows = (now end : Time) → windows now ≡ some end → 0 < end

-- The windows of a configuration, which lie within the day, end after the zero time.
pub windows_of-EndsLater :
    (zone : Zone) (ws : List ResolvedHoldoutWindow) → All InDay ws → EndsLater (windows_of zone ws)
unfolding windows_of holdout_status_at
windows_of-EndsLater zone ws d now end e =
    omega (arith, holding_bounds (zone.day_start now) now ws end d e)

-- What a state of rest needs: the details may be anything.
pub record IsRestable (a : Agent) : Type 0 where
  pub pending_set : a.snooze_pending ≡ true → 0 < a.snooze_until
  pub timer_armed : a.snooze_timer ≡ ltb 0 a.snooze_until

rest_idle-IsConsistent : (now : Time) (a : Agent) → IsRestable a → IsConsistent (rest_idle now a)
rest_idle-IsConsistent now a h = ground arith

rest_by-IsConsistent :
    (o : Option Time) (now : Time) (a : Agent)
    → ((end : Time) → o ≡ some end → 0 < end)
    → IsRestable a
    → IsConsistent (rest_by o now a)
unfolding rest_by
rest_by-IsConsistent (some end) now a later h = let after : 0 < end = later end refl in ground arith
rest_by-IsConsistent none now a later h = rest_idle-IsConsistent now a h

pub restable : {a : Agent} → IsConsistent a → IsRestable a
restable h = ground arith

module _ (windows : Windows) (later : EndsLater windows) where
  pub resting_state-IsConsistent :
      (now : Time) (a : Agent) → IsRestable a → IsConsistent (resting_state windows now a)
  unfolding resting_state
  resting_state-IsConsistent now a h = rest_by-IsConsistent (windows now) now a (later now) h

  if-IsConsistent :
      {a b : Agent} (c : Bool) → IsConsistent a → IsConsistent b → IsConsistent (if c then a else b)
  if-IsConsistent true h k = h
  if-IsConsistent false h k = k

  syncing-IsConsistent : (a : Agent) → is_syncing a.state ≡ true → IsRestable a → IsConsistent a
  syncing-IsConsistent a e h = ground arith

  pub queue_sync-IsConsistent :
      (a : Agent) (b : Bool) → IsConsistent a → IsConsistent (record a { sync_queued = b })
  queue_sync-IsConsistent a b h = ground arith

  enter_holdout-IsConsistent :
      (end : Time) (a : Agent) → 0 < end → IsRestable a → IsConsistent (enter_holdout end a)
  enter_holdout-IsConsistent end a after h = ground arith

  rest_unless_syncing-IsConsistent :
      (now : Time) (a : Agent) → IsRestable a → IsConsistent (rest_unless_syncing windows now a)
  unfolding rest_unless_syncing
  rest_unless_syncing-IsConsistent now a h = elim (Bool-cases (is_syncing a.state)) [
    | inl e ↦ rw e (syncing-IsConsistent a e h)
    | inr e ↦ rw e (resting_state-IsConsistent now a h)
  ]

  trigger_by-IsConsistent :
      (o : Option Time) (now : Time) (a : Agent)
      → ((end : Time) → o ≡ some end → 0 < end)
      → IsConsistent a
      → IsConsistent (trigger_by windows o now a).0
  unfolding trigger_by
  trigger_by-IsConsistent (some end) now a after h =
      enter_holdout-IsConsistent end a (after end refl) (restable h)
  trigger_by-IsConsistent none now a after h =
      let rested = rest_unless_syncing-IsConsistent now a (restable h) in
      elim (Bool-cases (is_snoozed (rest_unless_syncing windows now a).state)) [
        | inl e ↦ rw e rested
        | inr e ↦ rw e (queue_sync-IsConsistent _ true rested)
      ]

  pub trigger_sync-IsConsistent :
      (now now' : Time) (a : Agent)
      → IsConsistent a
      → IsConsistent (trigger_sync windows now now' a).0
  unfolding trigger_sync
  trigger_sync-IsConsistent now now' a h =
      trigger_by-IsConsistent (windows now) now' a (later now) h

  -- A snooze whose end is not the zero time.
  pub snooze-IsConsistent :
      (d : Duration) (now now' : Time) (a : Agent)
      → 0 < add_duration now d
      → IsConsistent a
      → IsConsistent (snooze windows d now now' a)
  unfolding snooze
  snooze-IsConsistent d now now' a after h = elim (Bool-cases (is_syncing a.state)) [
    | inl e ↦ rw e (ground arith)
    | inr e ↦ rw e (
        resting_state-IsConsistent now' (start_snooze now d a)
          (record { pending_set = λ _. after; timer_armed = sym (lt→ltb _ _ after) }))
  ]

  resume_by-IsConsistent :
      (o : Option Time) (now now' : Time) (a : Agent)
      → ((end : Time) → o ≡ some end → 0 < end)
      → IsConsistent a
      → IsConsistent (resume_by windows o now now' a).0
  unfolding resume_by
  resume_by-IsConsistent (some end) now now' a after h =
      elim (Bool-cases (can_resume windows now a)) [
        | inl e ↦ rw e (rest_unless_syncing-IsConsistent now' _ (ground arith))
        | inr e ↦ rw e (enter_holdout-IsConsistent end a (after end refl) (restable h))
      ]
  resume_by-IsConsistent none now now' a after h = elim (Bool-cases (can_resume windows now a)) [
    | inl e ↦
        rw e
          (queue_sync-IsConsistent _ true (rest_unless_syncing-IsConsistent now' _ (ground arith)))
    | inr e ↦ rw e h
  ]

  pub resume-IsConsistent :
      (now now' : Time) (a : Agent) → IsConsistent a → IsConsistent (resume windows now now' a).0
  unfolding resume
  resume-IsConsistent now now' a h = resume_by-IsConsistent (windows now) now now' a (later now) h

  transition_by-IsConsistent :
      (o : Option Time) (now : Time) (a : Agent)
      → ((end : Time) → o ≡ some end → 0 < end)
      → IsConsistent a
      → IsConsistent (transition_by windows o now a)
  unfolding transition_by
  transition_by-IsConsistent (some end) now a after h =
      let entered = enter_holdout-IsConsistent end a (after end refl) (restable h) in
      if-IsConsistent (is_syncing a.state) entered (queue_sync-IsConsistent _ false entered)
  transition_by-IsConsistent none now a after h = elim (Bool-cases (is_holdout a.state)) [
    | inl e ↦ rw e (resting_state-IsConsistent now a (restable h))
    | inr e ↦ rw e h
  ]

  pub handle_holdout_transition-IsConsistent :
      (now now' : Time) (a : Agent)
      → IsConsistent a
      → IsConsistent (handle_holdout_transition windows now now' a)
  unfolding handle_holdout_transition
  handle_holdout_transition-IsConsistent now now' a h =
      transition_by-IsConsistent (windows now) now' a (later now) h

  pub handle_snooze_expiry-IsConsistent :
      (now : Time) (a : Agent) → IsConsistent a → IsConsistent (handle_snooze_expiry windows now a)
  unfolding handle_snooze_expiry
  handle_snooze_expiry-IsConsistent now a h =
      let rested = resting_state-IsConsistent now (clear_snooze a) (ground arith) in
      elim (Bool-cases (is_syncing a.state)) [
        | inl e ↦ rw e (syncing-IsConsistent (clear_snooze a) e (ground arith))
        | inr e ↦
            rw e
              (elim (Bool-cases
                (wakes windows (resting_state windows now (clear_snooze a)).state)) [
                  | inl k ↦ rw k (queue_sync-IsConsistent _ true rested)
                  | inr k ↦ rw k rested
                ])
      ]
