-- ===== src/Config/Tests.antt =====
-- Runs of the clock and of the holdout windows, and the theorems at them.
use sexton.Common.{◌≡◌, refl, Option, some, List, [], ◌∷◌, any, arith}
use sexton.Common.Result.{ok, err}
use sexton.Common.Sort.{sort}
use sexton.Common.Text.{codes}
use sexton.Config.Holdout.{
  HoldoutWindowEntry, ResolvedHoldoutWindow, bad_end, merge_holdout_windows,
  resolve_holdout_windows, first_layer,
}
use sexton.Config.Holdout.Cover.{covered}
use sexton.Config.Holdout.Resolve.{entry_covers, resolve_covers}

abbrev night : Option HoldoutWindowEntry
night = some (record { start = codes "22:00"; end = codes "06:30" })

abbrev lunch : Option HoldoutWindowEntry
lunch = some (record { start = codes "12:00"; end = codes "13:00" })

abbrev late_lunch : Option HoldoutWindowEntry
late_lunch = some (record { start = codes "12:30"; end = codes "14:00" })

abbrev resolved : List ResolvedHoldoutWindow
resolved =
    record { start_minute = 0; end_minute = 390 }
    ∷ record { start_minute = 720; end_minute = 840 }
    ∷ record { start_minute = 1320; end_minute = 1440 }
    ∷ []

abbrev overlapping : List ResolvedHoldoutWindow
overlapping =
    record { start_minute = 750; end_minute = 840 }
    ∷ record { start_minute = 720; end_minute = 780 }
    ∷ []

-- The entry of a repository stands in place of the defaults.
overridden : resolve_holdout_windows (lunch ∷ []) (night ∷ lunch ∷ late_lunch ∷ []) [] ≡ ok resolved
unfolding resolve_holdout_windows merge_holdout_windows sort
overridden = refl

bad_end_refused :
    resolve_holdout_windows (some (record { start = codes "9:00"; end = codes "24:00" }) ∷ []) [] []
    ≡ err (bad_end (codes "24:00"))
unfolding resolve_holdout_windows
bad_end_refused = refl

resolve_covers_example :
    covered 1400 resolved ≡ any (entry_covers 1400) (night ∷ lunch ∷ late_lunch ∷ [])
unfolding first_layer
resolve_covers_example =
    resolve_covers (lunch ∷ []) (night ∷ lunch ∷ late_lunch ∷ []) [] resolved 1400 overridden
      (ground arith)
