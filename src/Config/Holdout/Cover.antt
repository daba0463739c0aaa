-- ===== src/Config/Holdout/Cover.antt =====
-- The minutes that holdout windows cover.
use sexton.Common.{ℕ, Bool, ◌&&◌, List, ltb, leb, any}
use sexton.Config.Holdout.{ResolvedHoldoutWindow}

-- The test of `holdoutStatusAt`, on minutes: not before the start, and before the end.
abbrev pub holds_at : ℕ → ResolvedHoldoutWindow → Bool
holds_at m w = leb w.start_minute m && ltb m w.end_minute

abbrev pub covered : ℕ → List ResolvedHoldoutWindow → Bool
covered m ws = any (holds_at m) ws
