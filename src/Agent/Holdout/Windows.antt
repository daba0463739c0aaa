-- ===== src/Agent/Holdout/Windows.antt =====
-- When the windows of a day hold: what the two loops of internal/agent/agent.go over them find.
use sexton.Common.{
  ℕ, ◌+◌, ◌*◌, ◌≤◌, ◌<◌, ◌≡◌, refl, true, false, none, some, List, [], ◌∷◌, ltb, arith, All,
  Bool-cases, inl, inr, is_some,
}
use sexton.Common.Duration.{Time, minute}
use sexton.Config.Holdout.{ResolvedHoldoutWindow, minutes_per_day}
use sexton.Config.Holdout.Merge.{IsSeparated, InDay}
use sexton.Agent.Holdout.{at_minute, holds, holding, next_start}

-- A window that does not hold at a time.
abbrev Idle : Time → Time → ResolvedHoldoutWindow → Type 0
Idle day u w = holds day u w ≡ false

pub holding-Idle :
    (day u : Time) (ws : List ResolvedHoldoutWindow) → All (Idle day u) ws → holding day u ws ≡ none
unfolding holding
holding-Idle day u [] h = refl
holding-Idle day u (w ∷ ws) (hw, h) = rw hw (holding-Idle day u ws h)

pub Idle-holding :
    (day u : Time) (ws : List ResolvedHoldoutWindow) → holding day u ws ≡ none → All (Idle day u) ws
unfolding holding
Idle-holding day u [] h = tt
Idle-holding day u (w ∷ ws) h = elim (Bool-cases (holds day u w)) [
  | inl e ↦ absurd (cc (rw e at h))
  | inr e ↦ (e, Idle-holding day u ws (rw e at h))
]

-- What holds now, ends later, and holds until then.
pub holding_until :
    (day now u : Time) (ws : List ResolvedHoldoutWindow) (t : Time)
    → All InDay ws
    → holding day now ws ≡ some t
    → now ≤ u
    → u < t
    → is_some (holding day u ws) ≡ true
unfolding holding
holding_until day now u [] t d h le lt = cc
holding_until day now u (w ∷ ws) t (dw, d) h le lt = elim (Bool-cases (holds day now w)) [
  | inl e ↦ let still : holds day u w ≡ true = ground arith in rw still
  | inr e ↦
      let later : is_some (holding day u ws) ≡ true =
        holding_until day now u ws t d (rw e at h) le lt in
      elim (Bool-cases (holds day u w)) [ inl k ↦ rw k | inr k ↦ rw k later ]
]

pub holding_bounds :
    (day now : Time) (ws : List ResolvedHoldoutWindow) (t : Time)
    → All InDay ws
    → holding day now ws ≡ some t
    → (now < t) × (t ≤ day + minutes_per_day * minute)
unfolding holding
holding_bounds day now [] t d h = cc
holding_bounds day now (w ∷ ws) t (dw, d) h = elim (Bool-cases (holds day now w)) [
  | inl e ↦ ground arith
  | inr e ↦ holding_bounds day now ws t d (rw e at h)
]

pub Idle-later :
    (day u : Time) (s e : ℕ) (ws : List ResolvedHoldoutWindow)
    → u < at_minute day s
    → s ≤ e
    → All (λ v. e < v.start_minute) ws
    → All (Idle day u) ws
Idle-later day u s e [] h le a = tt
Idle-later day u s e (w ∷ ws) h le (aw, a) = (ground arith, Idle-later day u s e ws h le a)

pub next_start-Idle :
    (day now u : Time) (ws : List ResolvedHoldoutWindow) (t : Time)
    → All InDay ws
    → IsSeparated ws
    → All (Idle day now) ws
    → next_start day now ws ≡ some t
    → now ≤ u
    → u < t
    → All (Idle day u) ws
unfolding next_start
next_start-Idle day now u [] t d s i h le lt = tt
next_start-Idle day now u (w ∷ ws) t (dw, d) (sw, s) (iw, i) h le lt =
    elim (Bool-cases (ltb now (at_minute day w.start_minute))) [
      | inl e ↦
          let first : u < at_minute day w.start_minute = ground arith in
          (ground arith, Idle-later day u w.start_minute w.end_minute ws first dw.0 sw)
      | inr e ↦ (ground arith, next_start-Idle day now u ws t d s i (rw e at h) le lt)
    ]

pub next_start_bounds :
    (day now : Time) (ws : List ResolvedHoldoutWindow) (t : Time)
    → All InDay ws
    → next_start day now ws ≡ some t
    → (now < t) × (t ≤ day + minutes_per_day * minute)
unfolding next_start
next_start_bounds day now [] t d h = cc
next_start_bounds day now (w ∷ ws) t (dw, d) h =
    elim (Bool-cases (ltb now (at_minute day w.start_minute))) [
      | inl e ↦ ground arith
      | inr e ↦ next_start_bounds day now ws t d (rw e at h)
    ]

pub no_start-Idle :
    (day now u : Time) (ws : List ResolvedHoldoutWindow)
    → All (Idle day now) ws
    → next_start day now ws ≡ none
    → now ≤ u
    → All (Idle day u) ws
unfolding next_start
no_start-Idle day now u [] i h le = tt
no_start-Idle day now u (w ∷ ws) (iw, i) h le =
    elim (Bool-cases (ltb now (at_minute day w.start_minute))) [
      | inl e ↦ absurd (cc (rw e at h))
      | inr e ↦ (ground arith, no_start-Idle day now u ws i (rw e at h) le)
    ]
