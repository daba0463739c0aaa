-- ===== src/Cmd/Alerts/Clients.antt =====
-- The clients that `buildAlerter` starts: which run behind it, and that none is left behind.
use sexton.Common.{
  ℕ, ◌≡◌, refl, Bool, true, false, not, ◌&&◌, ◌||◌, Option, none, some, List, [], ◌∷◌, ◌++◌, length,
  ◌==◌, if◌then◌else◌, is_empty, any, arith, inl, inr, Bool-cases,
}
use sexton.Common.Result.{Result, ok, err}
use sexton.Common.Space.{trim_space}
use sexton.Common.Text.{Text, codes, same}
use sexton.Config.Alerts.{AlertConfig, MattermostConfig}
use sexton.Cmd.Alerts.{
  Identity, Single, Built, Known, known, mattermost_identity, ingress_signature, stop_clients,
  started, shared, add_mattermost, add_alert, add_then, joined_result, build_from, build_alerter,
  Added, Gathered,
}

-- What the start and the stop of a client do to the set of those that run: a start that succeeds adds
-- its client, one that fails adds none, and a stop ends the one.
pub record Runs (W : Type 0) (start : ℕ → MattermostConfig → W → Option Text × W) (stop : ℕ → W → W)
    : Type 0 where
  pub runs : W → ℕ → Bool
  pub starts :
      (n : ℕ) (cfg : MattermostConfig) (w w' : W) (m : ℕ)
      → start n cfg w ≡ (none, w')
      → runs w' m ≡ (n == m || runs w m)
  pub fails :
      (n : ℕ) (cfg : MattermostConfig) (w w' : W) (e : Text) (m : ℕ)
      → start n cfg w ≡ (some e, w')
      → runs w' m ≡ runs w m
  pub stops : (n : ℕ) (w : W) (m : ℕ) → runs (stop n w) m ≡ (not (n == m) && runs w m)

-- Whether a client is among those that are known.
abbrev pub is_known : List Known → ℕ → Bool
is_known ks m = any (λ k. k.client == m) ks

module _ {W : Type 0} (lower quote : Text → Text)
    (start : ℕ → MattermostConfig → W → Option Text × W) (stop : ℕ → W → W)
    (r : Runs W start stop) where
  stops_all :
      (ks : List Known) (w : W) (m : ℕ)
      → r.runs (stop_clients lower quote start stop ks w) m ≡ (not (is_known ks m) && r.runs w m)
  unfolding stop_clients any
  stops_all [] w m = refl
  stops_all (k ∷ ks) w m =
      ground
        (arith, stops_all ks w m, r.stops k.client (stop_clients lower quote start stop ks w) m)

  -- Exactly the clients that are known run.
  abbrev RunsKnown : List Known → W → Type 0
  RunsKnown ks w = (m : ℕ) → r.runs w m ≡ is_known ks m

  abbrev RunsNone : W → Type 0
  RunsNone w = (m : ℕ) → r.runs w m ≡ false

  -- What is left behind by a part of `buildAlerter`.
  abbrev Leaves : {A : Type 0} → (A → List Known) → Result Text A × W → Type 0
  Leaves f (err e, w) = RunsNone w
  Leaves f (ok a, w) = RunsKnown (f a) w

  stopped :
      (ks : List Known) (w : W)
      → RunsKnown ks w
      → RunsNone (stop_clients lower quote start stop ks w)
  stopped ks w h m = ground (arith, stops_all ks w m, h m)

  started-Leaves :
      (cfg : MattermostConfig) (i : Identity) (ks : List Known) (w : W) (s : Option Text × W)
      → start (length ks) cfg w ≡ s
      → RunsKnown ks w
      → Leaves (λ a. a.1) (started lower quote start stop cfg i ks s)
  unfolding started any
  started-Leaves cfg i ks w (some e, w') h k =
      stopped ks w' (λ m. ground (arith, r.fails (length ks) cfg w w' e m h, k m))
  started-Leaves cfg i ks w (none, w') h k =
      λ m. ground (arith, r.starts (length ks) cfg w w' m h, k m)

  shared-Leaves :
      (cfg : MattermostConfig) (i : Identity) (ks : List Known) (o : Option Known) (w : W)
      → RunsKnown ks w
      → Leaves (λ a. a.1) (shared lower quote start stop cfg i ks o w)
  unfolding shared
  shared-Leaves cfg i ks none w k = started-Leaves cfg i ks w (start (length ks) cfg w) refl k
  shared-Leaves cfg i ks (some x) w k =
      elim (Bool-cases (same x.ingress (ingress_signature lower cfg))) [
        | inl e ↦ rw e k
        | inr e ↦ rw e (stopped ks w k)
      ]

  mattermost-Leaves :
      (o : Option MattermostConfig) (ks : List Known) (w : W)
      → RunsKnown ks w
      → Leaves (λ a. a.1) (add_mattermost lower quote start stop o ks w)
  unfolding add_mattermost
  mattermost-Leaves none ks w k = stopped ks w k
  mattermost-Leaves (some cfg) ks w k = elim (Bool-cases (is_empty (trim_space cfg.channel_id))) [
    | inl e ↦ rw e (stopped ks w k)
    | inr e ↦
        rw e
          (shared-Leaves cfg (mattermost_identity cfg) ks (known (mattermost_identity cfg) ks) w k)
  ]

  Leaves-if :
      {A : Type 0} (f : A → List Known) (b : Bool) (x y : Result Text A × W)
      → Leaves f x
      → Leaves f y
      → Leaves f (if b then x else y)
  Leaves-if f true x y h k = h
  Leaves-if f false x y h k = k

  add-Leaves :
      (ac : AlertConfig) (ks : List Known) (w : W)
      → RunsKnown ks w
      → Leaves (λ a. a.1) (add_alert lower quote start stop ac ks w)
  unfolding add_alert
  add-Leaves ac ks w k =
      Leaves-if (λ a. a.1) (same ac.kind (codes "log") || is_empty ac.kind) _ _ k
        (Leaves-if (λ a. a.1) (same ac.kind (codes "mattermost")) _ _
          (mattermost-Leaves ac.mattermost ks w k) (stopped ks w k))

  then-Leaves :
      (next : List Single → List Known → W → Result Text Gathered × W) (built : List Single)
      (a : Result Text Added × W)
      → ((b : List Single) (ks : List Known) (w : W)
          → RunsKnown ks w
          → Leaves (λ g. g.1) (next b ks w))
      → Leaves (λ a. a.1) a
      → Leaves (λ g. g.1) (add_then lower quote start stop next built a)
  unfolding add_then
  then-Leaves next built (err e, w) f h = h
  then-Leaves next built (ok (a, ks), w) f h = f (built ++ a ∷ []) ks w h

  build-Leaves :
      (acs : List AlertConfig) (built : List Single) (ks : List Known) (w : W)
      → RunsKnown ks w
      → Leaves (λ g. g.1) (build_from lower quote start stop acs built ks w)
  unfolding build_from
  build-Leaves [] built ks w h = h
  build-Leaves (ac ∷ acs) built ks w h =
      then-Leaves (build_from lower quote start stop acs) built
        (add_alert lower quote start stop ac ks w) (build-Leaves acs) (add-Leaves ac ks w h)

  joined-Leaves :
      (g : Result Text Gathered × W)
      → Leaves (λ x. x.1) g
      → Leaves (λ x. x.1) (joined_result lower quote start stop g)
  unfolding joined_result
  joined-Leaves (err e, w) h = h
  joined-Leaves (ok (built, ks), w) h = h

  -- The clients that run behind `buildAlerter`, and those that run behind its cleanup.
  abbrev pub Settles : Result Text (Built × List Known) × W → Type 0
  Settles (err e, w) = RunsNone w
  Settles (ok (built, ks), w) = RunsKnown ks w × RunsNone (stop_clients lower quote start stop ks w)

  built-Settles : (x : Result Text (Built × List Known) × W) → Leaves (λ x. x.1) x → Settles x
  built-Settles (err e, w) h = h
  built-Settles (ok (built, ks), w) h = (h, stopped ks w h)

  -- No client of the chat is left behind: if none runs before `buildAlerter`, none runs behind an
  -- error of it, whichever entry fails and for whatever reason; and if it succeeds, the clients that
  -- run are exactly those that its cleanup knows, and none of them runs behind the cleanup. This is
  -- given that a start that succeeds adds its client to those that run and no other, that one that
  -- fails adds none, and that a stop ends its client and no other.
  pub build_alerter-Settles :
      (alerts : List AlertConfig) (w : W)
      → RunsNone w
      → Settles (build_alerter lower quote start stop alerts w)
  unfolding build_alerter any
  build_alerter-Settles alerts w h = built-Settles (build_alerter lower quote start stop alerts w) (
      Leaves-if (λ x. x.1) (is_empty alerts) _ _ (λ m. ground (arith, h m))
        (joined-Leaves (build_from lower quote start stop alerts [] [] w)
          (build-Leaves alerts [] [] w (λ m. ground (arith, h m)))))
