-- ===== src/Mattermost/Alerter.antt =====
-- internal/mattermost/alerter.go: alerts as posts of a channel, and those that ask for attention as
-- direct messages. The lines that it logs are left out.
pub mod Delivery
use sexton.Common.{
  ◌≡◌, refl, true, false, not, ◌&&◌, Option, none, some, List, [], ◌∷◌, if◌then◌else◌, is_empty,
  arith, ◌⊎◌, inl, inr, Bool-cases,
}
use sexton.Common.Result.{Result, ok, err}
use sexton.Common.Text.{Text, codes, same, join}
use sexton.Agent.Sync.World.{AlertEvent}
use sexton.Mattermost.Format.{format_alert}
use sexton.Mattermost.Client.{Client, Library, post_message}
use sexton.Mattermost.Client.Caches.{direct_channel_with}

-- The struct `Alerter`, its client kept apart.
pub record Alerter : Type 0 where
  pub channel_id : Text
  pub mention_users : List Text
  pub dm_users : List Text

abbrev put_error : Option Text → List Text → List Text
put_error none errs = errs
put_error (some e) errs = e ∷ errs

-- `errors.Join`, as a text.
abbrev joined : List Text → Option Text
joined [] = none
joined (e ∷ errs) = some (join (e ∷ errs) (codes "\n"))

module _ {V : Type 0} (lib : Library V) where
  direct_to : Text → Result Text Text × (Client × V) → Option Text × (Client × V)
  direct_to text (err e, s) = (some e, s)
  direct_to text (ok channel_id, (c, v)) =
      let r = post_message lib c channel_id text v in (r.0, (c, r.1))

  -- One round of the loop of `alertDirect`.
  unfoldable pub alert_user : Text → Text → Client × V → Option Text × (Client × V)
  unfolding direct_to
  alert_user text user (c, v) = direct_to text (direct_channel_with lib c user v)

  alert_users : Text → List Text → Client × V → List Text × (Client × V)
  alert_users text [] s = ([], s)
  alert_users text (user ∷ users) s =
      let r = alert_user text user s in
      let rest = alert_users text users r.1 in (put_error r.0 rest.0, rest.1)

  -- `alertDirect`: its error and what it leaves.
  unfoldable pub alert_direct :
      Alerter → Text → AlertEvent → Client × V → Option Text × (Client × V)
  unfolding alert_users
  alert_direct a repo e s =
      let r = alert_users (format_alert repo e []) a.dm_users s in (joined r.0, r.1)

  -- The post of the alert to the channel.
  unfoldable pub alert_channel :
      Alerter → Text → AlertEvent → Client × V → Option Text × (Client × V)
  alert_channel a repo e (c, v) =
      let r = post_message lib c a.channel_id (format_alert repo e a.mention_users) v in
      (r.0, (c, r.1))

  fall_back : Alerter → Text → AlertEvent → Option Text × (Client × V) → Option Text × (Client × V)
  fall_back a repo e (none, s) = (none, s)
  fall_back a repo e (some dm_err, s) =
      let r = alert_channel a repo e s in
      (elim r.0 [ none ↦ none | some post_err ↦ joined (dm_err ∷ post_err ∷ []) ], r.1)

  -- `Alert`.
  unfoldable pub alert : Alerter → Text → AlertEvent → Client × V → Option Text × (Client × V)
  unfolding fall_back
  alert a repo e s =
      if same e.severity (codes "attention") && not (is_empty a.dm_users)
      then fall_back a repo e (alert_direct a repo e s)
      else alert_channel a repo e s
