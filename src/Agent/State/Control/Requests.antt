-- ===== src/Agent/State/Control/Requests.antt =====
-- Requests in any order: the invariant holds after every sequence of them, and while a sync runs
-- none of them takes the agent out of its state or puts a second one there.
use sexton.Common.{
  ◌≡◌, ◌<◌, refl, ◌∙◌, true, false, Option, none, some, List, [], ◌∷◌, arith, if◌then◌else◌,
  is_empty, All,
}
use sexton.Common.Duration.{Time, Duration, add_duration}
use sexton.Agent.State.{
  watching, snoozed, attention, Agent, Windows, resting_state, rest_by, is_syncing, clear_snooze,
  start_snooze, manual_snooze_active,
}
use sexton.Agent.State.Resting.{resting_state-is_syncing}
use sexton.Agent.State.Control.{
  trigger_sync, trigger_by, snooze, resume, resume_by, handle_holdout_transition, transition_by,
  handle_snooze_expiry, rest_unless_syncing, can_resume, resumed, is_paused,
}
use sexton.Agent.State.Control.Consistent.{
  IsConsistent, EndsLater, trigger_sync-IsConsistent, snooze-IsConsistent, resume-IsConsistent,
  handle_holdout_transition-IsConsistent, handle_snooze_expiry-IsConsistent,
}

-- A request, with the readings of the clock that serve it.
pub data Request : Type 0 where
  do_trigger : Time → Time → Request
  do_snooze : Duration → Time → Time → Request
  do_resume : Time → Time → Request
  do_transition : Time → Time → Request
  do_expire : Time → Request

-- A snooze ends after the zero time.
abbrev pub IsSound : Request → Type 0
IsSound (do_snooze d now now') = 0 < add_duration now d
IsSound _ = Unit

module _ (windows : Windows) where
  unfoldable pub serve : Request → Agent → Agent
  serve (do_trigger now now') a = (trigger_sync windows now now' a).0
  serve (do_snooze d now now') a = snooze windows d now now' a
  serve (do_resume now now') a = (resume windows now now' a).0
  serve (do_transition now now') a = handle_holdout_transition windows now now' a
  serve (do_expire now) a = handle_snooze_expiry windows now a

  unfoldable pub serve_all : List Request → Agent → Agent
  unfolding serve
  serve_all [] a = a
  serve_all (r ∷ rs) a = serve_all rs (serve r a)

module _ (windows : Windows) (later : EndsLater windows) where
  pub serve-IsConsistent :
      (r : Request) (a : Agent) → IsSound r → IsConsistent a → IsConsistent (serve windows r a)
  unfolding serve
  serve-IsConsistent (do_trigger now now') a s h =
      trigger_sync-IsConsistent windows later now now' a h
  serve-IsConsistent (do_snooze d now now') a s h =
      snooze-IsConsistent windows later d now now' a s h
  serve-IsConsistent (do_resume now now') a s h = resume-IsConsistent windows later now now' a h
  serve-IsConsistent (do_transition now now') a s h =
      handle_holdout_transition-IsConsistent windows later now now' a h
  serve-IsConsistent (do_expire now) a s h = handle_snooze_expiry-IsConsistent windows later now a h

  -- Whatever requests are served, and in whatever order, a consistent agent stays consistent, given
  -- that no active holdout and no snooze ends at the zero time.
  pub serve_all-IsConsistent :
      (rs : List Request) (a : Agent)
      → All IsSound rs
      → IsConsistent a
      → IsConsistent (serve_all windows rs a)
  unfolding serve_all
  serve_all-IsConsistent [] a s h = h
  serve_all-IsConsistent (r ∷ rs) a (s, ss) h =
      serve_all-IsConsistent rs (serve windows r a) ss (serve-IsConsistent r a s h)

module _ (windows : Windows) where
  rest_unless_syncing-is_syncing :
      (now : Time) (a : Agent)
      → is_syncing (rest_unless_syncing windows now a).state ≡ is_syncing a.state
  unfolding rest_unless_syncing
  rest_unless_syncing-is_syncing now a = ground (arith, resting_state-is_syncing windows now a)

  trigger_by-is_syncing :
      (o : Option Time) (now : Time) (a : Agent)
      → is_syncing (trigger_by windows o now a).0.state ≡ is_syncing a.state
  unfolding trigger_by
  trigger_by-is_syncing (some end) now a = ground arith
  trigger_by-is_syncing none now a = ground (arith, rest_unless_syncing-is_syncing now a)

  resume_by-is_syncing :
      (o : Option Time) (now now' : Time) (a : Agent)
      → is_syncing (resume_by windows o now now' a).0.state ≡ is_syncing a.state
  unfolding resume_by
  resume_by-is_syncing (some end) now now' a =
      let b = record (clear_snooze a) { error_detail = []; holdout_until = end } in
      ground (arith, rest_unless_syncing-is_syncing now' b)
  resume_by-is_syncing none now now' a =
      let b = record (clear_snooze a) { error_detail = [] } in
      ground (arith, rest_unless_syncing-is_syncing now' b)

  transition_by-is_syncing :
      (o : Option Time) (now : Time) (a : Agent)
      → is_syncing (transition_by windows o now a).state ≡ is_syncing a.state
  unfolding transition_by
  transition_by-is_syncing (some end) now a = ground arith
  transition_by-is_syncing none now a = ground (arith, resting_state-is_syncing windows now a)

  -- Only a sync enters or leaves its own state: after a request the agent is syncing exactly if it
  -- was before.
  pub serve-is_syncing :
      (r : Request) (a : Agent) → is_syncing (serve windows r a).state ≡ is_syncing a.state
  unfolding serve trigger_sync snooze resume handle_holdout_transition handle_snooze_expiry
  serve-is_syncing (do_trigger now now') a = trigger_by-is_syncing (windows now) now' a
  serve-is_syncing (do_snooze d now now') a =
      ground (arith, resting_state-is_syncing windows now' (start_snooze now d a))
  serve-is_syncing (do_resume now now') a = resume_by-is_syncing (windows now) now now' a
  serve-is_syncing (do_transition now now') a = transition_by-is_syncing (windows now) now' a
  serve-is_syncing (do_expire now) a =
      ground (arith, resting_state-is_syncing windows now (clear_snooze a))

  pub serve_all-is_syncing :
      (rs : List Request) (a : Agent)
      → is_syncing (serve_all windows rs a).state ≡ is_syncing a.state
  unfolding serve_all
  serve_all-is_syncing [] a = refl
  serve_all-is_syncing (r ∷ rs) a =
      serve_all-is_syncing rs (serve windows r a) ∙ serve-is_syncing r a

  -- An accepted resume with no holdout active and no sync running is answered `resumed`, leaves
  -- neither snooze nor error behind, shows `Watching` or `Attention` and asks for a sync.
  resume_clears :
      (now now' : Time) (a : Agent)
      → windows now ≡ none
      → windows now' ≡ none
      → is_syncing a.state ≡ false
      → can_resume windows now a ≡ true
      → ((resume windows now now' a).1 ≡ resumed)
        × ((resume windows now now' a).0.state
            ≡ (if is_empty a.attention_detail then watching else attention))
        × ((resume windows now now' a).0.error_detail ≡ [])
        × ((resume windows now now' a).0.snooze_until ≡ 0)
        × ((resume windows now now' a).0.sync_queued ≡ true)
  unfolding resume resume_by rest_unless_syncing resting_state rest_by
  resume_clears now now' a e e' n h = ground arith

  -- While the agent is snoozed, its snooze has not ended and no holdout is active, `TriggerSync` is
  -- refused, and no sync is queued by it.
  trigger_refused :
      (now : Time) (a : Agent)
      → windows now ≡ none
      → a.state ≡ snoozed
      → manual_snooze_active now a ≡ true
      → ((trigger_sync windows now now a).1 ≡ some is_paused)
        × ((trigger_sync windows now now a).0.sync_queued ≡ a.sync_queued)
  unfolding trigger_sync trigger_by rest_unless_syncing resting_state rest_by
  trigger_refused now a e s m = ground arith
