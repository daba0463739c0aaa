-- ===== src/Agent/State/Resting.antt =====
-- What `restingStateLocked` chooses.
use sexton.Common.{◌≡◌, refl, Bool, true, false, not, Option, none, some, arith, is_empty}
use sexton.Common.Duration.{Time}
use sexton.Agent.State.{
  State, watching, error, snoozed, holdout, attention, Agent, Windows, manual_snooze_active,
  rest_by, resting_state, is_syncing,
}

-- The state that an agent at rest is to show: an active holdout comes first, then a snooze that has
-- not expired, then an error, then what needs attention.
abbrev pub shown_state : Option Time → Bool → Bool → Bool → State
shown_state (some end) snoozing failing noticing = holdout
shown_state none true failing noticing = snoozed
shown_state none false true noticing = error
shown_state none false false true = attention
shown_state none false false false = watching

module _ (windows : Windows) where
  rest_by-shown :
      (o : Option Time) (now : Time) (a : Agent)
      → (rest_by o now a).state
        ≡ shown_state o
            (manual_snooze_active now a)
            (not (is_empty a.error_detail))
            (not (is_empty a.attention_detail))
  unfolding rest_by
  rest_by-shown (some end) now a = refl
  rest_by-shown none now a = ground arith

  -- At rest, the state is the one that the holdout windows, the snooze, the error and the attention
  -- detail call for, whatever the state was before; it is never `Syncing`.
  resting_state-shown :
      (now : Time) (a : Agent)
      → (resting_state windows now a).state
        ≡ shown_state
            (windows now)
            (manual_snooze_active now a)
            (not (is_empty a.error_detail))
            (not (is_empty a.attention_detail))
  unfolding resting_state
  resting_state-shown now a = rest_by-shown (windows now) now a

  rest_by_idem :
      (o : Option Time) (now : Time) (a : Agent) → rest_by o now (rest_by o now a) ≡ rest_by o now a
  unfolding rest_by
  rest_by_idem (some end) now a = refl
  rest_by_idem none now a = ground arith

  -- Choosing the state of rest twice at one time is choosing it once: no field drifts.
  resting_state_idem :
      (now : Time) (a : Agent)
      → resting_state windows now (resting_state windows now a) ≡ resting_state windows now a
  unfolding resting_state
  resting_state_idem now a = rest_by_idem (windows now) now a

  rest_by-is_syncing :
      (o : Option Time) (now : Time) (a : Agent) → is_syncing (rest_by o now a).state ≡ false
  unfolding rest_by
  rest_by-is_syncing (some end) now a = refl
  rest_by-is_syncing none now a = ground arith

  pub resting_state-is_syncing :
      (now : Time) (a : Agent) → is_syncing (resting_state windows now a).state ≡ false
  unfolding resting_state
  resting_state-is_syncing now a = rest_by-is_syncing (windows now) now a
