-- ===== src/Agent/Tests.antt =====
-- Runs of the agent, and its theorems at them, in a zone at UTC.
use sexton.Common.{
  ℕ, ◌+◌, ◌-◌, ◌*◌, ◌%◌, ◌≡◌, ◌<◌, refl, true, none, some, List, [], ◌∷◌, All, any, keep, is_some,
  arith,
}
use sexton.Common.Duration.{Time, minute, plus}
use sexton.Common.Sort.{sort}
use sexton.Common.Text.{Text, codes, elem, less, same, has_prefix}
use sexton.Config.Holdout.{ResolvedHoldoutWindow, minutes_per_day}
use sexton.Config.Holdout.Merge.{IsSeparated, InDay}
use sexton.Git.Status.{Status, new_status}
use sexton.Git.Errors.{fault_of}
use sexton.Agent.Sync.World.{AlertEvent}
use sexton.Agent.Alerter.{Alerter}
use sexton.Agent.Holdout.{Zone, IsRegular, holdout_status_at, next_holdout_transition_after}
use sexton.Agent.Holdout.Transition.{next_holdout_transition_later, next_holdout_transition_sound}
use sexton.Agent.Policy.{policy_regions, partition_status}
use sexton.Agent.State.{windows_of, new_agent}
use sexton.Agent.State.Control.Consistent.{
  IsConsistent, new_agent-IsConsistent, windows_of-EndsLater,
}
use sexton.Agent.State.Control.Requests.{
  Request, do_trigger, do_snooze, do_resume, do_transition, do_expire, serve_all,
  serve_all-IsConsistent,
}

abbrev day : ℕ
day = minutes_per_day * minute

abbrev utc : Zone
utc = record { day_start = λ t. t - t % day; next_day = λ t. t + day }

utc-IsRegular : IsRegular utc
utc-IsRegular = record {
  starts_before = λ t. omega arith;
  ends_after = λ t. omega arith;
  day_length = λ t. refl;
  same_day = λ t u h k. omega arith;
  next_starts = λ t. omega arith;
}

-- From midnight to one, and from noon to half past one.
abbrev windows : List ResolvedHoldoutWindow
windows =
    record { start_minute = 0; end_minute = 60 }
    ∷ record { start_minute = 720; end_minute = 810 }
    ∷ []

windows-InDay : All InDay windows
windows-InDay = omega arith

windows-IsSeparated : IsSeparated windows
windows-IsSeparated = omega arith

-- Two in the morning of the tenth day, and the next noon.
abbrev at_two : Time
at_two = 9 * day + 120 * minute

abbrev at_noon : Time
at_noon = 9 * day + 720 * minute

noon_next : next_holdout_transition_after utc windows at_two ≡ some at_noon
unfolding next_holdout_transition_after holdout_status_at
noon_next = refl

next_holdout_transition_later_example : at_two < at_noon
next_holdout_transition_later_example =
    next_holdout_transition_later utc utc-IsRegular windows at_two at_noon windows-InDay noon_next

next_holdout_transition_sound_example :
    is_some (holdout_status_at utc windows (at_two + 300 * minute))
    ≡ is_some (holdout_status_at utc windows at_two)
next_holdout_transition_sound_example =
    next_holdout_transition_sound utc utc-IsRegular windows at_two (at_two + 300 * minute) at_noon
      windows-InDay windows-IsSeparated noon_next (omega arith) (omega arith)

abbrev requests : List Request
requests =
    do_trigger at_two (at_two + 1)
    ∷ do_snooze (plus minute) at_two (at_two + 2)
    ∷ do_expire (at_two + 2 * minute)
    ∷ do_transition at_noon (at_noon + 1)
    ∷ do_resume at_noon at_noon
    ∷ []

serve_all-IsConsistent_example :
    IsConsistent (serve_all (windows_of utc windows) requests new_agent)
serve_all-IsConsistent_example =
    serve_all-IsConsistent (windows_of utc windows) (windows_of-EndsLater utc windows windows-InDay)
      requests new_agent (tt, (omega arith, (tt, (tt, (tt, tt))))) new_agent-IsConsistent

-- A tracked file inside the region, one that was moved out of it, and a new file.
abbrev changes : Status
changes = record new_status {
  entries =
      record { path = codes "doc/a"; old_path = []; x = b'M'; y = b' ' }
      ∷ record { path = codes "src/b"; old_path = codes "doc/b"; x = b'R'; y = b' ' }
      ∷ record { path = codes "new"; old_path = []; x = b'?'; y = b'?' }
      ∷ [];
}

abbrev regions : List Text
regions = codes "doc/" ∷ codes "lib/" ∷ []

regions_run : partition_status policy_regions regions changes ≡ record {
  has_selected_changes = true;
  regions = codes "doc/" ∷ [];
  unselected_paths = codes "new" ∷ codes "src/b" ∷ [];
  has_tracked_unselected = true;
}
unfolding partition_status any keep elem sort has_prefix less same
regions_run = refl

-- An alerter that fails, and one that delivers; both count their calls.
abbrev failing : Alerter ℕ
failing = λ e n. (some (fault_of (codes "offline")), n + 1)

abbrev news : AlertEvent
news = record {
  severity = codes "info";
  message = codes "sync complete";
  fault = none;
  files = none;
  commit_message = [];
}
