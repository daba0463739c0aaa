-- ===== src/Config/Holdout/Merge.antt =====
-- `mergeHoldoutWindows`: the merged windows cover the same minutes, and they are ordered with a gap
-- between any two.
use sexton.Common.{
  ℕ, suc, ◌≤◌, ◌<◌, ◌≡◌, refl, ◌∙◌, false, ◌||◌, List, [], ◌∷◌, arith, leb, Bool-cases, leb→le,
  or_assoc, ap, sym, inl, inr, All, any,
}
use sexton.Common.Sort.{IsSorted, IsStrict, sort, any-sort, sort-IsSorted, All-sort}
use sexton.Config.Holdout.{
  ResolvedHoldoutWindow, starts_before, extend, merge_loop, merge_sorted, merge_holdout_windows,
  minutes_per_day,
}
use sexton.Config.Holdout.Cover.{holds_at, covered}

abbrev StartsFrom : ℕ → List ResolvedHoldoutWindow → Type 0
StartsFrom k = All (λ w. k ≤ w.start_minute)

abbrev IsOrdered : List ResolvedHoldoutWindow → Type 0
IsOrdered [] = Unit
IsOrdered (w ∷ ws) = StartsFrom w.start_minute ws × IsOrdered ws

-- Each window ends before any later one starts.
abbrev pub IsSeparated : List ResolvedHoldoutWindow → Type 0
IsSeparated [] = Unit
IsSeparated (w ∷ ws) = All (λ v. w.end_minute < v.start_minute) ws × IsSeparated ws

-- A window that lies within the day.
abbrev pub InDay : ResolvedHoldoutWindow → Type 0
InDay w = (w.start_minute ≤ w.end_minute) × (w.end_minute ≤ minutes_per_day)

StartsFrom-mono :
    (j k : ℕ) (ws : List ResolvedHoldoutWindow) → j ≤ k → StartsFrom k ws → StartsFrom j ws
StartsFrom-mono j k [] h s = tt
StartsFrom-mono j k (w ∷ ws) h (sw, s) = (omega arith, StartsFrom-mono j k ws h s)

starts_before-IsStrict : IsStrict starts_before
starts_before-IsStrict = (λ v w h. ground arith, λ u v w h k. ground arith)

ordered_tail :
    (w : ResolvedHoldoutWindow) (ws : List ResolvedHoldoutWindow)
    → All (λ v. starts_before v w ≡ false) ws
    → StartsFrom w.start_minute ws
ordered_tail w [] h = tt
ordered_tail w (v ∷ vs) (hv, hvs) = (ground arith, ordered_tail w vs hvs)

IsSorted-IsOrdered : (ws : List ResolvedHoldoutWindow) → IsSorted starts_before ws → IsOrdered ws
IsSorted-IsOrdered [] h = tt
IsSorted-IsOrdered (w ∷ ws) (hw, h) = (ordered_tail w ws hw, IsSorted-IsOrdered ws h)

holds_at-extend :
    (m : ℕ) (last w : ResolvedHoldoutWindow)
    → last.start_minute ≤ w.start_minute
    → w.start_minute ≤ last.end_minute
    → holds_at m (extend last w) ≡ (holds_at m last || holds_at m w)
holds_at-extend m last w h k = ground arith

covered-merge_loop :
    (m : ℕ) (last : ResolvedHoldoutWindow) (ws : List ResolvedHoldoutWindow)
    → StartsFrom last.start_minute ws
    → IsOrdered ws
    → covered m (merge_loop last ws) ≡ (holds_at m last || covered m ws)
unfolding merge_loop any
covered-merge_loop m last [] s o = refl
covered-merge_loop m last (w ∷ ws) (sw, s) (ow, o) =
    elim (Bool-cases (leb w.start_minute last.end_minute)) [
      | inl e ↦ rw e (
          covered-merge_loop m (extend last w) ws s o
          ∙ ap (λ b. b || covered m ws) (holds_at-extend m last w sw (leb→le _ _ e))
          ∙ sym (or_assoc (holds_at m last) (holds_at m w) (covered m ws)))
      | inr e ↦ rw e (ap (λ b. holds_at m last || b) (covered-merge_loop m w ws ow o))
    ]

merge_loop-StartsFrom :
    (k : ℕ) (last : ResolvedHoldoutWindow) (ws : List ResolvedHoldoutWindow)
    → k ≤ last.start_minute
    → StartsFrom k ws
    → StartsFrom k (merge_loop last ws)
unfolding merge_loop
merge_loop-StartsFrom k last [] h s = (h, tt)
merge_loop-StartsFrom k last (w ∷ ws) h (sw, s) =
    elim (Bool-cases (leb w.start_minute last.end_minute)) [
      | inl e ↦ rw e (merge_loop-StartsFrom k (extend last w) ws h s)
      | inr e ↦ rw e (h, merge_loop-StartsFrom k w ws sw s)
    ]

merge_loop-IsSeparated :
    (last : ResolvedHoldoutWindow) (ws : List ResolvedHoldoutWindow)
    → IsOrdered ws
    → IsSeparated (merge_loop last ws)
unfolding merge_loop
merge_loop-IsSeparated last [] o = (tt, tt)
merge_loop-IsSeparated last (w ∷ ws) (ow, o) =
    elim (Bool-cases (leb w.start_minute last.end_minute)) [
      | inl e ↦ rw e (merge_loop-IsSeparated (extend last w) ws o)
      | inr e ↦
          let gap : last.end_minute < w.start_minute = ground arith in
          rw e (
            merge_loop-StartsFrom (suc last.end_minute) w ws gap (StartsFrom-mono _ _ ws gap ow),
            merge_loop-IsSeparated w ws o,
          )
    ]

merge_loop-InDay :
    (last : ResolvedHoldoutWindow) (ws : List ResolvedHoldoutWindow)
    → InDay last
    → All InDay ws
    → All InDay (merge_loop last ws)
unfolding merge_loop
merge_loop-InDay last [] h s = (h, tt)
merge_loop-InDay last (w ∷ ws) h (hw, hs) = elim (Bool-cases (leb w.start_minute last.end_minute)) [
  | inl e ↦ rw e (merge_loop-InDay (extend last w) ws (ground arith, ground arith) hs)
  | inr e ↦ rw e (h, merge_loop-InDay w ws hw hs)
]

covered-merge_sorted :
    (m : ℕ) (ws : List ResolvedHoldoutWindow)
    → IsOrdered ws
    → covered m (merge_sorted ws) ≡ covered m ws
unfolding merge_sorted any
covered-merge_sorted m [] o = refl
covered-merge_sorted m (w ∷ ws) (ow, o) = covered-merge_loop m w ws ow o

merge_sorted-IsSeparated :
    (ws : List ResolvedHoldoutWindow) → IsOrdered ws → IsSeparated (merge_sorted ws)
unfolding merge_sorted
merge_sorted-IsSeparated [] o = tt
merge_sorted-IsSeparated (w ∷ ws) (ow, o) = merge_loop-IsSeparated w ws o

merge_sorted-InDay : (ws : List ResolvedHoldoutWindow) → All InDay ws → All InDay (merge_sorted ws)
unfolding merge_sorted
merge_sorted-InDay [] h = tt
merge_sorted-InDay (w ∷ ws) (hw, h) = merge_loop-InDay w ws hw h

sorted-IsOrdered : (ws : List ResolvedHoldoutWindow) → IsOrdered (sort starts_before ws)
sorted-IsOrdered ws = IsSorted-IsOrdered _ (sort-IsSorted starts_before starts_before-IsStrict ws)

-- The merged windows cover exactly the minutes that the given windows cover.
pub covered-merge :
    (m : ℕ) (ws : List ResolvedHoldoutWindow) → covered m (merge_holdout_windows ws) ≡ covered m ws
unfolding merge_holdout_windows
covered-merge m ws =
    covered-merge_sorted m _ (sorted-IsOrdered ws) ∙ any-sort starts_before (holds_at m) ws

-- Of the merged windows each ends before any later one starts, with a minute between them.
pub merge-IsSeparated : (ws : List ResolvedHoldoutWindow) → IsSeparated (merge_holdout_windows ws)
unfolding merge_holdout_windows
merge-IsSeparated ws = merge_sorted-IsSeparated _ (sorted-IsOrdered ws)

-- Windows that lie within the day are merged to windows that do.
pub merge-InDay :
    (ws : List ResolvedHoldoutWindow) → All InDay ws → All InDay (merge_holdout_windows ws)
unfolding merge_holdout_windows
merge-InDay ws h = merge_sorted-InDay _ (All-sort starts_before InDay ws h)
