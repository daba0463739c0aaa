-- ===== src/Cmd/Alerts.antt =====
-- `buildAlerter` of cmd/sexton/agent.go with what it calls: the alerters of a configuration, and the
-- clients of the chat that they share. A client is known by the number of clients that were started
-- before it; what its start does, and what a stop does, is a parameter over a world. An error is its
-- text, in which `strconv.Quote` is a parameter.
pub mod Clients
pub mod Canonical
mod Tests
use sexton.Common.{
  ℕ, suc, ◌≡◌, refl, Bool, true, false, not, ◌&&◌, ◌||◌, Option, none, some, List, [], ◌∷◌, ◌++◌,
  length, map, if◌then◌else◌, is_empty,
}
use sexton.Common.Result.{Result, ok, err, map_err}
use sexton.Common.Sort.{sort}
use sexton.Common.Space.{trim_space}
use sexton.Common.Text.{Text, codes, same, less, join}
use sexton.Config.Alerts.{AlertConfig, MattermostConfig}

-- `mattermostIngressIdentity`.
pub record Identity : Type 0 where
  pub url : Text
  pub auth_source : Text

abbrev pub same_identity : Identity → Identity → Bool
same_identity i j = same i.url j.url && same i.auth_source j.auth_source

-- `mattermostIdentity`.
unfoldable pub mattermost_identity : MattermostConfig → Identity
mattermost_identity cfg = record {
  url = cfg.url;
  auth_source =
      if is_empty cfg.token_env then codes "token:" ++ cfg.token else codes "env:" ++ cfg.token_env;
}

-- `effectiveMattermostTriggerWords`.
unfoldable pub effective_trigger_words : MattermostConfig → List Text
effective_trigger_words cfg =
    if is_empty cfg.trigger_words then codes "sexton" ∷ [] else cfg.trigger_words

module _ (lower : Text → Text) where
  -- The loop of `canonicalMattermostList`, with the case folded.
  normalized : List Text → List Text
  normalized [] = []
  normalized (value ∷ values) =
      let rest = normalized values in
      let value' = lower (trim_space value) in if is_empty value' then rest else value' ∷ rest

  -- `canonicalMattermostList`.
  unfoldable pub canonical_list : List Text → Text
  unfolding normalized
  canonical_list values = join (sort less (normalized values)) (0 ∷ [])

  -- `mattermostIngressSignature`.
  unfoldable pub ingress_signature : MattermostConfig → Text
  ingress_signature cfg =
      canonical_list cfg.allowed_users
      ++ (codes "|" ++ canonical_list (effective_trigger_words cfg))

-- The alerters that are built; one of the chat has the number of its client.
pub data Single : Type 0 where
  log_alerter : Single
  mattermost_alerter : ℕ → MattermostConfig → Single

-- What `buildAlerter` returns: one alerter, or a `MultiAlerter` of several.
pub data Built : Type 0 where
  one : Single → Built
  several : List Single → Built

-- The maps by identity and the clients, the latest first; there are as many clients as identities.
pub record Known : Type 0 where
  pub identity : Identity
  pub ingress : Text
  pub client : ℕ

unfoldable pub known : Identity → List Known → Option Known
known i [] = none
known i (k ∷ ks) = let rest = known i ks in if same_identity k.identity i then some k else rest

-- What an entry of the configuration gives, and what some of them do.
abbrev pub Added : Type 0
Added = Single × List Known

abbrev pub Gathered : Type 0
Gathered = List Single × List Known

module _ {W : Type 0} (lower quote : Text → Text)
    (start : ℕ → MattermostConfig → W → Option Text × W) (stop : ℕ → W → W) where
  -- `stopMattermostClients`, of the clients in the order of their starts.
  unfoldable pub stop_clients : List Known → W → W
  stop_clients [] w = w
  stop_clients (k ∷ ks) w = stop k.client (stop_clients ks w)

  -- An error, behind which the clients have been stopped.
  abbrev pub fail_with : {A : Type 0} → Text → List Known → W → Result Text A × W
  fail_with text ks w = (err text, stop_clients ks w)

  started : MattermostConfig → Identity → List Known → Option Text × W → Result Text Added × W
  started cfg i ks (some e, w) = fail_with (codes "mattermost client start failed: " ++ e) ks w
  started cfg i ks (none, w) = (
    ok (
      mattermost_alerter (length ks) cfg,
      record { identity = i; ingress = ingress_signature lower cfg; client = length ks } ∷ ks,
    ),
    w,
  )

  shared : MattermostConfig → Identity → List Known → Option Known → W → Result Text Added × W
  unfolding started
  shared cfg i ks none w = started cfg i ks (start (length ks) cfg w)
  shared cfg i ks (some k) w =
      if same k.ingress (ingress_signature lower cfg)
      then (ok (mattermost_alerter k.client cfg, ks), w)
      else fail_with
          (codes "mattermost entries for url "
            ++ (quote cfg.url
                ++ codes
                    " and the same auth source must use identical allowed_users and trigger_words"))
          ks w

  add_mattermost : Option MattermostConfig → List Known → W → Result Text Added × W
  unfolding shared
  add_mattermost none ks w =
      fail_with (codes "alert type 'mattermost' requires a mattermost config block") ks w
  add_mattermost (some cfg) ks w =
      let i = mattermost_identity cfg in
      if is_empty (trim_space cfg.channel_id)
      then fail_with (codes "alert type 'mattermost' requires a non-empty channel_id") ks w
      else shared cfg i ks (known i ks) w

  -- One round of the loop of `buildAlerter`.
  unfoldable pub add_alert : AlertConfig → List Known → W → Result Text Added × W
  unfolding add_mattermost
  add_alert ac ks w =
      if same ac.kind (codes "log") || is_empty ac.kind
      then (ok (log_alerter, ks), w)
      else if same ac.kind (codes "mattermost")
      then add_mattermost ac.mattermost ks w
      else fail_with (codes "unknown alert type '" ++ (ac.kind ++ codes "'")) ks w

  add_then :
      (List Single → List Known → W → Result Text Gathered × W)
      → List Single
      → Result Text Added × W
      → Result Text Gathered × W
  add_then next built (err e, w) = (err e, w)
  add_then next built (ok (a, ks), w) = next (built ++ a ∷ []) ks w

  -- The loop of `buildAlerter`, behind some entries.
  unfoldable pub build_from :
      List AlertConfig → List Single → List Known → W → Result Text Gathered × W
  unfolding add_then
  build_from [] built ks w = (ok (built, ks), w)
  build_from (ac ∷ acs) built ks w = add_then (build_from acs) built (add_alert ac ks w)

  abbrev pub joined : List Single → Built
  joined [] = several []
  joined (a ∷ []) = one a
  joined (a ∷ b ∷ rest) = several (a ∷ b ∷ rest)

  joined_result : Result Text Gathered × W → Result Text (Built × List Known) × W
  joined_result (err e, w) = (err e, w)
  joined_result (ok (built, ks), w) = (ok (joined built, ks), w)

  -- `buildAlerter`: the alerter, and the clients that its cleanup stops.
  unfoldable pub build_alerter : List AlertConfig → W → Result Text (Built × List Known) × W
  unfolding joined_result
  build_alerter alerts w =
      if is_empty alerts
      then (ok (one log_alerter, []), w)
      else joined_result (build_from alerts [] [] w)
