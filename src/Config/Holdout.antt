-- ===== src/Config/Holdout.antt =====
-- internal/config/holdout.go: the holdout windows of a repository, as written in the configuration,
-- become intervals of minutes of the day that are sorted and merged. A `*HoldoutWindowEntry` that
-- may be nil is an `Option`.
pub mod Cover
pub mod Merge
pub mod Resolve
use sexton.Common.{
  ℕ, ◌+◌, ◌*◌, ◌≡◌, refl, Bool, ◌||◌, ◌&&◌, Option, none, some, List, [], ◌∷◌, ◌++◌, ltb, leb, ◌==◌,
  if◌then◌else◌, is_empty,
}
use sexton.Common.Result.{Result, ok, err, ◌>>=◌, ◌>>◌}
use sexton.Common.Sort.{sort}
use sexton.Common.Text.{Text}
use sexton.Config.Clock.{parse_clock_minute}

pub record HoldoutWindowEntry : Type 0 where
  pub start : Text
  pub end : Text

pub record ResolvedHoldoutWindow : Type 0 where
  pub start_minute : ℕ
  pub end_minute : ℕ

-- The errors of `resolveHoldoutWindows`, with the texts that they quote.
pub data HoldoutError : Type 0 where
  null_entry : HoldoutError
  bad_start : Text → HoldoutError
  bad_end : Text → HoldoutError
  same_ends : Text → Text → HoldoutError

abbrev pub minutes_per_day : ℕ
minutes_per_day = 24 * 60

-- The order of `sort.Slice`.
abbrev pub starts_before : ResolvedHoldoutWindow → ResolvedHoldoutWindow → Bool
starts_before v w =
    if v.start_minute == w.start_minute
    then ltb v.end_minute w.end_minute
    else ltb v.start_minute w.start_minute

-- `last.EndMinute = window.EndMinute`, if that is later.
abbrev pub extend : ResolvedHoldoutWindow → ResolvedHoldoutWindow → ResolvedHoldoutWindow
extend last w = record {
  start_minute = last.start_minute;
  end_minute = if ltb last.end_minute w.end_minute then w.end_minute else last.end_minute;
}

-- The loop over the sorted windows: `last` is the last of `merged`, which the loop may still extend.
pub merge_loop : ResolvedHoldoutWindow → List ResolvedHoldoutWindow → List ResolvedHoldoutWindow
merge_loop last [] = last ∷ []
merge_loop last (w ∷ ws) =
    let joined = merge_loop (extend last w) ws in
    let apart = last ∷ merge_loop w ws in
    if leb w.start_minute last.end_minute then joined else apart

pub merge_sorted : List ResolvedHoldoutWindow → List ResolvedHoldoutWindow
merge_sorted [] = []
merge_sorted (w ∷ ws) = merge_loop w ws

-- `mergeHoldoutWindows`.
unfoldable pub merge_holdout_windows : List ResolvedHoldoutWindow → List ResolvedHoldoutWindow
unfolding merge_sorted merge_loop
merge_holdout_windows windows = merge_sorted (sort starts_before windows)

-- The layer of the configuration that counts: the first that has entries.
unfoldable pub first_layer {ℓ} : {A : Type ℓ} → List A → List A → List A → List A
first_layer local entry defaults =
    if is_empty local then (if is_empty entry then defaults else entry) else local

-- The minutes between which a window lies, one interval or two.
pub split_window : ℕ → ℕ → List ResolvedHoldoutWindow
split_window s e =
    if ltb s e
    then record { start_minute = s; end_minute = e } ∷ []
    else record { start_minute = 0; end_minute = e }
      ∷ record { start_minute = s; end_minute = minutes_per_day }
      ∷ []

pub clock_or : HoldoutError → Option ℕ → Result HoldoutError ℕ
clock_or e none = err e
clock_or e (some m) = ok m

-- One round of the loop of `resolveHoldoutWindows`.
pub entry_windows : Option HoldoutWindowEntry → Result HoldoutError (List ResolvedHoldoutWindow)
entry_windows none = err null_entry
entry_windows (some w) = do
  s ← clock_or (bad_start w.start) (parse_clock_minute w.start)
  e ← clock_or (bad_end w.end) (parse_clock_minute w.end)
  if s == e then err (same_ends w.start w.end) else ok (split_window s e)

pub all_windows :
    List (Option HoldoutWindowEntry) → Result HoldoutError (List ResolvedHoldoutWindow)
all_windows [] = ok []
all_windows (x ∷ xs) = do ws ← entry_windows x; rest ← all_windows xs; ok (ws ++ rest)

-- `resolveHoldoutWindows`.
unfoldable pub resolve_holdout_windows :
    (defaults entry local : List (Option HoldoutWindowEntry))
    → Result HoldoutError (List ResolvedHoldoutWindow)
unfolding first_layer split_window clock_or entry_windows all_windows parse_clock_minute
resolve_holdout_windows defaults entry local = do
  ws ← all_windows (first_layer local entry defaults)
  ok (merge_holdout_windows ws)

-- The definition, with its parts shut.
pub resolve_holdout_windows_lem :
    (defaults entry local : List (Option HoldoutWindowEntry))
    → resolve_holdout_windows defaults entry local
      ≡ (all_windows (first_layer local entry defaults) >>= λ ws. ok (merge_holdout_windows ws))
unfolding resolve_holdout_windows
resolve_holdout_windows_lem defaults entry local = refl
