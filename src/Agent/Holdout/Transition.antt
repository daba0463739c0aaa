-- ===== src/Agent/Holdout/Transition.antt =====
-- The next holdout transition lies ahead, and until it comes the holdout state does not change, so
-- that a scheduler which sleeps until then misses nothing.
use sexton.Common.{
  ◌≤◌, ◌<◌, ◌≡◌, refl, ap, ◌∙◌, sym, true, Option, none, some, List, [], ◌∷◌, ltb, arith, All,
  Bool-cases, inl, inr, ltb→lt, is_some, some_inj,
}
use sexton.Common.Duration.{Time}
use sexton.Config.Holdout.{ResolvedHoldoutWindow}
use sexton.Config.Holdout.Merge.{IsSeparated, InDay}
use sexton.Agent.Holdout.{
  Zone, IsRegular, at_minute, holding, next_start, holdout_status_at, next_or, transition_after,
  next_holdout_transition_after,
}
use sexton.Agent.Holdout.Windows.{
  holding-Idle, Idle-holding, holding_until, holding_bounds, Idle-later, next_start-Idle,
  next_start_bounds, no_start-Idle,
}

module _ (zone : Zone) (regular : IsRegular zone) where
  open regular use {starts_before, ends_after, day_length, same_day, next_starts}

  same_status :
      (ws : List ResolvedHoldoutWindow) (now u : Time)
      → now ≤ u
      → u < zone.next_day (zone.day_start now)
      → holdout_status_at zone ws u ≡ holding (zone.day_start now) u ws
  unfolding holdout_status_at
  same_status ws now u le lt =
      ap (λ day. holding day u ws) (same_day now u (omega (arith, starts_before now)) lt)

  -- A holdout that is active stays so until its end.
  active_until :
      (ws : List ResolvedHoldoutWindow) (now u t : Time)
      → All InDay ws
      → holdout_status_at zone ws now ≡ some t
      → now ≤ u
      → u < t
      → is_some (holdout_status_at zone ws u) ≡ true
  active_until ws now u t d h le lt =
      let bounds = holding_bounds (zone.day_start now) now ws t d (unfold holdout_status_at in h) in
      let today : u < zone.next_day (zone.day_start now) = omega (arith, bounds, day_length now) in
      rw (same_status ws now u le today)
        (holding_until (zone.day_start now) now u ws t d (unfold holdout_status_at in h) le lt)

  -- The start of a later window today: nothing holds before it.
  idle_until_start :
      (ws : List ResolvedHoldoutWindow) (now u t : Time)
      → All InDay ws
      → IsSeparated ws
      → holdout_status_at zone ws now ≡ none
      → next_start (zone.day_start now) now ws ≡ some t
      → now ≤ u
      → u < t
      → holdout_status_at zone ws u ≡ none
  idle_until_start ws now u t d s h n le lt =
      let bounds = next_start_bounds (zone.day_start now) now ws t d n in
      let today : u < zone.next_day (zone.day_start now) = omega (arith, bounds, day_length now) in
      let idle = Idle-holding (zone.day_start now) now ws (unfold holdout_status_at in h) in
      same_status ws now u le today
      ∙ holding-Idle _ u ws (next_start-Idle (zone.day_start now) now u ws t d s idle n le lt)

  -- No window starts later today: nothing holds until the first one of tomorrow.
  idle_until_tomorrow :
      (w : ResolvedHoldoutWindow) (ws : List ResolvedHoldoutWindow) (now u : Time)
      → All InDay (w ∷ ws)
      → IsSeparated (w ∷ ws)
      → holdout_status_at zone (w ∷ ws) now ≡ none
      → next_start (zone.day_start now) now (w ∷ ws) ≡ none
      → now ≤ u
      → u < at_minute (zone.next_day (zone.day_start now)) w.start_minute
      → holdout_status_at zone (w ∷ ws) u ≡ none
  idle_until_tomorrow w ws now u (dw, d) (sw, s) h n le lt =
      elim (Bool-cases (ltb u (zone.next_day (zone.day_start now)))) [
        | inl today ↦
            let idle =
              Idle-holding (zone.day_start now) now (w ∷ ws) (unfold holdout_status_at in h) in
            same_status (w ∷ ws) now u le (ltb→lt _ _ today)
            ∙ holding-Idle _ u (w ∷ ws)
                (no_start-Idle (zone.day_start now) now u (w ∷ ws) idle n le)
        | inr over ↦
            let tomorrow : zone.next_day (zone.day_start now) ≤ u = ground arith in
            let morrow : Time = zone.next_day (zone.day_start now) in
            let day : zone.day_start u ≡ morrow =
              same_day morrow u (rw next_starts tomorrow)
                (omega (arith, day_length morrow, next_starts now))
              ∙ next_starts now in
            unfold holdout_status_at in
            (ap (λ m. holding m u (w ∷ ws)) day
              ∙ holding-Idle morrow u (w ∷ ws)
                  (ground arith, Idle-later morrow u w.start_minute w.end_minute ws lt dw.0 sw))
      ]

  transition_of :
      (ws : List ResolvedHoldoutWindow) (now : Time) (o : Option Time)
      → holdout_status_at zone ws now ≡ o
      → next_holdout_transition_after zone ws now ≡ transition_after zone ws now o
  unfolding next_holdout_transition_after
  transition_of ws now o h = ap (transition_after zone ws now) h

  next_or-later :
      (day now first t : Time) (ws : List ResolvedHoldoutWindow) (o : Option Time)
      → All InDay ws
      → now < zone.next_day day
      → next_start day now ws ≡ o
      → next_or zone day first o ≡ t
      → now < t
  unfolding next_or
  next_or-later day now first t ws none d h n e = omega (arith, e)
  next_or-later day now first t ws (some t') d h n e =
      omega (arith, e, next_start_bounds day now ws t' d n)

  transition_after-later :
      (ws : List ResolvedHoldoutWindow) (now t : Time) (o : Option Time)
      → All InDay ws
      → holdout_status_at zone ws now ≡ o
      → transition_after zone ws now o ≡ some t
      → now < t
  unfolding transition_after holdout_status_at
  transition_after-later ws now t (some t') d h e =
      omega (arith, holding_bounds (zone.day_start now) now ws t' d h, some_inj e)
  transition_after-later [] now t none d h e = cc
  transition_after-later (w ∷ ws) now t none d h e =
      next_or-later (zone.day_start now) now w.start_minute t (w ∷ ws) _ d (ends_after now) refl
        (some_inj e)

  -- In a zone whose local days last twenty-four hours each, and with windows that lie within the day:
  -- the next transition, if there is one, is later than now, so that a wait for it makes progress.
  pub next_holdout_transition_later :
      (ws : List ResolvedHoldoutWindow) (now t : Time)
      → All InDay ws
      → next_holdout_transition_after zone ws now ≡ some t
      → now < t
  next_holdout_transition_later ws now t d e =
      transition_after-later ws now t _ d refl (sym (transition_of ws now _ refl) ∙ e)

  next_or-idle :
      (w : ResolvedHoldoutWindow) (ws : List ResolvedHoldoutWindow) (now u t : Time)
      (o : Option Time)
      → All InDay (w ∷ ws)
      → IsSeparated (w ∷ ws)
      → holdout_status_at zone (w ∷ ws) now ≡ none
      → next_start (zone.day_start now) now (w ∷ ws) ≡ o
      → next_or zone (zone.day_start now) w.start_minute o ≡ t
      → now ≤ u
      → u < t
      → holdout_status_at zone (w ∷ ws) u ≡ none
  unfolding next_or
  next_or-idle w ws now u t none d s h n e le lt =
      idle_until_tomorrow w ws now u d s h n le (rw e lt)
  next_or-idle w ws now u t (some t') d s h n e le lt =
      idle_until_start (w ∷ ws) now u t' d s h n le (rw e lt)

  transition_after_sound :
      (ws : List ResolvedHoldoutWindow) (now u t : Time) (o : Option Time)
      → All InDay ws
      → IsSeparated ws
      → holdout_status_at zone ws now ≡ o
      → transition_after zone ws now o ≡ some t
      → now ≤ u
      → u < t
      → is_some (holdout_status_at zone ws u) ≡ is_some o
  unfolding transition_after
  transition_after_sound ws now u t (some t') d s h e le lt =
      active_until ws now u t' d h le (rw (some_inj e) lt)
  transition_after_sound [] now u t none d s h e le lt = cc
  transition_after_sound (w ∷ ws) now u t none d s h e le lt =
      ap is_some (next_or-idle w ws now u t _ d s h refl (some_inj e) le lt)

  -- With windows that lie within the day and do not touch, as the configuration resolves them, and
  -- in a zone whose days last twenty-four hours: at every time from now until the next transition a
  -- holdout is active exactly if one is active now.
  pub next_holdout_transition_sound :
      (ws : List ResolvedHoldoutWindow) (now u t : Time)
      → All InDay ws
      → IsSeparated ws
      → next_holdout_transition_after zone ws now ≡ some t
      → now ≤ u
      → u < t
      → is_some (holdout_status_at zone ws u) ≡ is_some (holdout_status_at zone ws now)
  next_holdout_transition_sound ws now u t d s e =
      transition_after_sound ws now u t _ d s refl (sym (transition_of ws now _ refl) ∙ e)
