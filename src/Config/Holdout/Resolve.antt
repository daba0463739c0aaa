-- ===== src/Config/Holdout/Resolve.antt =====
-- `resolveHoldoutWindows`: which entries it accepts, and which minutes of the day the resolved
-- windows cover.
use sexton.Common.{
  ℕ, ◌<◌, ◌≡◌, refl, ◌∙◌, ap, Bool, true, false, not, ◌||◌, ◌&&◌, Option, none, some, List, [], ◌∷◌,
  ◌++◌, arith, ltb, leb, ◌==◌, if◌then◌else◌, Bool-cases, Option-cases, inl, inr, ◌⊎◌, All,
  All-append, any, any-append,
}
use sexton.Common.Result.{ok, is_ok}
use sexton.Config.Clock.{parse_clock_minute, parse_clock_minute-lt}
use sexton.Config.Holdout.{
  HoldoutWindowEntry, ResolvedHoldoutWindow, first_layer, split_window, clock_or, entry_windows,
  all_windows, resolve_holdout_windows, resolve_holdout_windows_lem, merge_holdout_windows,
  minutes_per_day,
}
use sexton.Config.Holdout.Cover.{covered}
use sexton.Config.Holdout.Merge.{IsSeparated, InDay, covered-merge, merge-IsSeparated, merge-InDay}

-- What an entry means: the minutes from its start up to its end, past midnight if the end is not
-- after the start.
abbrev in_range : ℕ → ℕ → ℕ → Bool
in_range s e m = if ltb s e then leb s m && ltb m e else leb s m || ltb m e

abbrev clock_covers : ℕ → Option ℕ → Option ℕ → Bool
clock_covers m (some s) (some e) = in_range s e m
clock_covers m (some s) none = false
clock_covers m none e = false

abbrev pub entry_covers : ℕ → Option HoldoutWindowEntry → Bool
entry_covers m none = false
entry_covers m (some w) = clock_covers m (parse_clock_minute w.start) (parse_clock_minute w.end)

-- Two clock times that differ.
abbrev clocks_ok : Option ℕ → Option ℕ → Bool
clocks_ok (some s) (some e) = not (s == e)
clocks_ok (some s) none = false
clocks_ok none e = false

abbrev is_valid : Option HoldoutWindowEntry → Bool
is_valid none = false
is_valid (some w) = clocks_ok (parse_clock_minute w.start) (parse_clock_minute w.end)

covered-split_window :
    (s e m : ℕ) → m < minutes_per_day → covered m (split_window s e) ≡ in_range s e m
unfolding split_window any
covered-split_window s e m h = ground arith

split_window-InDay :
    (s e : ℕ) → s < minutes_per_day → e < minutes_per_day → All InDay (split_window s e)
unfolding split_window
split_window-InDay s e h k = elim (Bool-cases (ltb s e)) [
  | inl lt ↦ rw lt (ground arith)
  | inr ge ↦ rw ge (omega arith)
]

-- What is known of the windows of an accepted entry.
record Renders (x : Option HoldoutWindowEntry) (vs : List ResolvedHoldoutWindow) : Type 0 where
  valid : is_valid x ≡ true
  covers : (m : ℕ) → m < minutes_per_day → covered m vs ≡ entry_covers m x
  within : All InDay vs

entry-Renders :
    (w : HoldoutWindowEntry) (s e : ℕ)
    → parse_clock_minute w.start ≡ some s
    → parse_clock_minute w.end ≡ some e
    → (s == e) ≡ false
    → Renders (some w) (split_window s e)
entry-Renders w s e p q d = record {
  valid = rw (p, q) (rw d);
  covers = λ m h. rw (p, q) (covered-split_window s e m h);
  within = split_window-InDay s e (parse_clock_minute-lt _ s p) (parse_clock_minute-lt _ e q);
}

-- An entry is accepted exactly when it is valid, and then its windows mean what it means.
entry_windows_lem :
    (x : Option HoldoutWindowEntry)
    → ((vs : List ResolvedHoldoutWindow) × (entry_windows x ≡ ok vs) × Renders x vs)
      ⊎ ((is_ok (entry_windows x) ≡ false) × (is_valid x ≡ false))
unfolding entry_windows clock_or
entry_windows_lem none = inr (refl, refl)
entry_windows_lem (some w) = elim (Option-cases (parse_clock_minute w.start)) [
  | inl p ↦ inr (rw p, rw p)
  | inr (s, p) ↦ elim (Option-cases (parse_clock_minute w.end)) [
    | inl q ↦ inr (rw (p, q), rw (p, q))
    | inr (e, q) ↦ elim (Bool-cases (s == e)) [
      | inl d ↦ inr (rw (p, q) (rw d), rw (p, q) (rw d))
      | inr d ↦ inl (split_window s e, rw (p, q) (rw d), entry-Renders w s e p q d)
    ]
  ]
]

pub every : (Option HoldoutWindowEntry → Bool) → List (Option HoldoutWindowEntry) → Bool
every p [] = true
every p (x ∷ xs) = p x && every p xs

record RendersAll (xs : List (Option HoldoutWindowEntry)) (vs : List ResolvedHoldoutWindow)
    : Type 0 where
  valid : every is_valid xs ≡ true
  covers : (m : ℕ) → m < minutes_per_day → covered m vs ≡ any (entry_covers m) xs
  within : All InDay vs

append-RendersAll :
    (x : Option HoldoutWindowEntry) (xs : List (Option HoldoutWindowEntry))
    (vs us : List ResolvedHoldoutWindow)
    → Renders x vs
    → RendersAll xs us
    → RendersAll (x ∷ xs) (vs ++ us)
unfolding every any
append-RendersAll x xs vs us r rs = record {
  valid = rw (r.valid, rs.valid);
  covers = λ m h. rw (any-append, r.covers m h, rs.covers m h);
  within = All-append InDay vs us r.within rs.within;
}

all_windows_lem :
    (xs : List (Option HoldoutWindowEntry))
    → ((vs : List ResolvedHoldoutWindow) × (all_windows xs ≡ ok vs) × RendersAll xs vs)
      ⊎ ((is_ok (all_windows xs) ≡ false) × (every is_valid xs ≡ false))
unfolding all_windows every any
all_windows_lem [] = inl ([], refl, record { valid = refl; covers = λ m h. refl; within = tt })
all_windows_lem (x ∷ xs) = elim (entry_windows_lem x) [
  | inr (bad, invalid) ↦ inr (ground arith, rw invalid)
  | inl (vs, e, r) ↦ elim (all_windows_lem xs) [
    | inr (bad, invalid) ↦ inr (ground arith, rw (r.valid, invalid))
    | inl (us, es, rs) ↦ inl (vs ++ us, rw (e, es), append-RendersAll x xs vs us r rs)
  ]
]

-- The layer that counts, resolved; the three theorems below are read off from this.
resolve_lem :
    (defaults entry local : List (Option HoldoutWindowEntry))
    → ((vs : List ResolvedHoldoutWindow) × (resolve_holdout_windows defaults entry local
          ≡ ok (merge_holdout_windows vs))
        × RendersAll (first_layer local entry defaults) vs)
      ⊎ ((is_ok (resolve_holdout_windows defaults entry local) ≡ false)
          × (every is_valid (first_layer local entry defaults) ≡ false))
resolve_lem defaults entry local = elim (all_windows_lem (first_layer local entry defaults)) [
  | inl (vs, e, r) ↦ inl (vs, bind_ok e, r)
  | inr (bad, invalid) ↦ inr (bind_err bad, invalid)
]
  where
    bind_ok :
        {vs : List ResolvedHoldoutWindow}
        → all_windows (first_layer local entry defaults) ≡ ok vs
        → resolve_holdout_windows defaults entry local ≡ ok (merge_holdout_windows vs)
    bind_ok e = resolve_holdout_windows_lem defaults entry local ∙ rw e

    bind_err :
        is_ok (all_windows (first_layer local entry defaults)) ≡ false
        → is_ok (resolve_holdout_windows defaults entry local) ≡ false
    bind_err bad = rw resolve_holdout_windows_lem (ground arith)

-- `resolveHoldoutWindows` succeeds exactly if every entry of the first layer that has any is not
-- null, has two times of the day, and has a start that differs from its end.
pub resolve-is_ok :
    (defaults entry local : List (Option HoldoutWindowEntry))
    → is_ok (resolve_holdout_windows defaults entry local)
      ≡ every is_valid (first_layer local entry defaults)
resolve-is_ok defaults entry local = elim (resolve_lem defaults entry local) [
  | inl (vs, e, r) ↦ rw (e, r.valid)
  | inr (bad, invalid) ↦ rw (bad, invalid)
]

-- If the holdout windows resolve, the resolved windows cover a minute of the day exactly if an entry
-- of the first layer that has any means it, a window whose end is not after its start running past
-- midnight.
pub resolve_covers :
    (defaults entry local : List (Option HoldoutWindowEntry)) (ws : List ResolvedHoldoutWindow)
    (m : ℕ)
    → resolve_holdout_windows defaults entry local ≡ ok ws
    → m < minutes_per_day
    → covered m ws ≡ any (entry_covers m) (first_layer local entry defaults)
resolve_covers defaults entry local ws m e h = elim (resolve_lem defaults entry local) [
  | inl (vs, e', r) ↦
      let same_windows : ws ≡ merge_holdout_windows vs = cc in
      rw (same_windows, covered-merge, r.covers m h)
  | inr (bad, invalid) ↦ absurd (cc (ap is_ok e))
]

-- If the holdout windows resolve, they lie within the day, and each ends before any later one starts.
pub resolve-IsSeparated :
    (defaults entry local : List (Option HoldoutWindowEntry)) (ws : List ResolvedHoldoutWindow)
    → resolve_holdout_windows defaults entry local ≡ ok ws
    → IsSeparated ws × All InDay ws
resolve-IsSeparated defaults entry local ws e = elim (resolve_lem defaults entry local) [
  | inl (vs, e', r) ↦
      let same_windows : ws ≡ merge_holdout_windows vs = cc in
      rw same_windows (merge-IsSeparated vs, merge-InDay vs r.within)
  | inr (bad, invalid) ↦ absurd (cc (ap is_ok e))
]
