-- ===== src/Agent/Holdout.antt =====
-- `holdoutStatusAt` and `nextHoldoutTransitionAfter` of internal/agent/agent.go. Where the days of
-- the local time zone begin is data of the machine: `Zone` stands for `time.Local`.
pub mod Windows
pub mod Transition
use sexton.Common.{
  ℕ, ◌+◌, ◌*◌, ◌≤◌, ◌<◌, ◌≡◌, Bool, true, false, ◌&&◌, Option, none, some, List, [], ◌∷◌, leb, ltb,
  if◌then◌else◌,
}
use sexton.Common.Duration.{Time, minute}
use sexton.Config.Holdout.{ResolvedHoldoutWindow, minutes_per_day}

pub record Zone : Type 0 where
  -- `time.Date(year, month, day, 0, 0, 0, 0, time.Local)` of the local day of a time.
  pub day_start : Time → Time
  -- `AddDate(0, 0, 1)` of the start of a day.
  pub next_day : Time → Time

-- A zone whose local days follow each other and last twenty-four hours each, as they do but for the
-- two days of a year on which the clocks change.
pub record IsRegular (z : Zone) : Type 0 where
  pub starts_before : (t : Time) → z.day_start t ≤ t
  pub ends_after : (t : Time) → t < z.next_day (z.day_start t)
  pub day_length :
      (t : Time) → z.next_day (z.day_start t) ≡ z.day_start t + minutes_per_day * minute
  pub same_day :
      (t u : Time)
      → z.day_start t ≤ u
      → u < z.next_day (z.day_start t)
      → z.day_start u ≡ z.day_start t
  pub next_starts :
      (t : Time) → z.day_start (z.next_day (z.day_start t)) ≡ z.next_day (z.day_start t)

-- The time of a minute of the day.
abbrev pub at_minute : Time → ℕ → Time
at_minute day m = day + m * minute

-- `!now.Before(start) && now.Before(end)`.
abbrev pub holds : Time → Time → ResolvedHoldoutWindow → Bool
holds day now w = leb (at_minute day w.start_minute) now && ltb now (at_minute day w.end_minute)

-- The loop of `holdoutStatusAt`: the end of the first window that holds.
pub holding : Time → Time → List ResolvedHoldoutWindow → Option Time
holding day now [] = none
holding day now (w ∷ ws) =
    let rest = holding day now ws in
    if holds day now w then some (at_minute day w.end_minute) else rest

-- The loop of `nextHoldoutTransitionAfter`: the first start after the time.
pub next_start : Time → Time → List ResolvedHoldoutWindow → Option Time
next_start day now [] = none
next_start day now (w ∷ ws) =
    let rest = next_start day now ws in
    if ltb now (at_minute day w.start_minute) then some (at_minute day w.start_minute) else rest

module _ (zone : Zone) where
  -- `holdoutStatusAt`: `some t` is `(true, t)`.
  unfoldable pub holdout_status_at : List ResolvedHoldoutWindow → Time → Option Time
  unfolding holding
  holdout_status_at windows now = holding (zone.day_start now) now windows

  pub next_or : Time → ℕ → Option Time → Time
  next_or day first none = at_minute (zone.next_day day) first
  next_or day first (some t) = t

  pub transition_after : List ResolvedHoldoutWindow → Time → Option Time → Option Time
  unfolding next_or
  transition_after ws now (some t) = some t
  transition_after [] now none = none
  transition_after (w ∷ ws) now none =
      some
        (next_or (zone.day_start now) w.start_minute (next_start (zone.day_start now) now (w ∷ ws)))

  -- `nextHoldoutTransitionAfter`: `none` is the zero time.
  unfoldable pub next_holdout_transition_after : List ResolvedHoldoutWindow → Time → Option Time
  unfolding next_start transition_after
  next_holdout_transition_after windows now =
      transition_after windows now (holdout_status_at windows now)
