-- ===== src/Mattermost/Alerter/Delivery.antt =====
-- What an alert without an error has come to, told by the posts that the network has accepted.
use sexton.Common.{
  ◌≡◌, refl, true, false, Option, none, some, List, [], ◌∷◌, is_empty, arith, ◌⊎◌, inl, inr,
  Bool-cases,
}
use mathlib.Core.Path.{subst}
use sexton.Common.Result.{Result, ok, err}
use sexton.Common.Text.{Text, codes, same}
use sexton.Agent.Sync.World.{AlertEvent}
use sexton.Mattermost.Format.{format_alert}
use sexton.Mattermost.Client.{Client, Library}
use sexton.Mattermost.Client.Caches.{direct_channel_with}
use sexton.Mattermost.Client.Posts.{IsPosted, post_message-IsPosted}
use sexton.Mattermost.Alerter.{
  Alerter, put_error, joined, direct_to, alert_user, alert_users, alert_direct, alert_channel,
  fall_back, alert,
}

module _ {V : Type 0} (lib : Library V) where
  -- One user behind the other: the channel of each has been found, and the text posted to it.
  pub data AllReached (text : Text) : List Text → Client × V → Client × V → Type 0 where
    nobody : (s : Client × V) → AllReached text [] s s
    reached :
        (user : Text) (users : List Text) (s s' : Client × V) (channel_id : Text) (v : V)
        → (direct_channel_with lib s.0 user s.1).0 ≡ ok channel_id
        → IsPosted lib
            (direct_channel_with lib s.0 user s.1).1.0
            channel_id
            text
            (direct_channel_with lib s.0 user s.1).1.1
            v
        → AllReached text users ((direct_channel_with lib s.0 user s.1).1.0, v) s'
        → AllReached text (user ∷ users) s s'

  -- The post of the alert, with its mentions, to the channel.
  abbrev pub IsAnnounced : Alerter → Text → AlertEvent → Client × V → Client × V → Type 0
  IsAnnounced a repo e s s' =
      IsPosted lib s.0 a.channel_id (format_alert repo e a.mention_users) s.1 s'.1 × (s'.0 ≡ s.0)

  -- Where an alert has gone: to every direct user, without mentions; to the channel; or to the channel
  -- behind direct messages of which one has failed.
  pub data IsDelivered (a : Alerter) (repo : Text) (e : AlertEvent) (s s' : Client × V)
      : Type 0 where
    to_users :
        same e.severity (codes "attention") ≡ true
        → is_empty a.dm_users ≡ false
        → AllReached (format_alert repo e []) a.dm_users s s'
        → IsDelivered a repo e s s'
    to_channel :
        (same e.severity (codes "attention") ≡ false) ⊎ (is_empty a.dm_users ≡ true)
        → IsAnnounced a repo e s s'
        → IsDelivered a repo e s s'
    behind_users :
        (failure : Text)
        → same e.severity (codes "attention") ≡ true
        → is_empty a.dm_users ≡ false
        → (alert_direct lib a repo e s).0 ≡ some failure
        → IsAnnounced a repo e (alert_direct lib a repo e s).1 s'
        → IsDelivered a repo e s s'

  direct_to-IsPosted :
      (text : Text) (r : Result Text Text × (Client × V))
      → (direct_to lib text r).0 ≡ none
      → (channel_id : Text) × (v : V) × (r.0 ≡ ok channel_id)
        × IsPosted lib r.1.0 channel_id text r.1.1 v
        × ((direct_to lib text r).1 ≡ (r.1.0, v))
  unfolding direct_to
  direct_to-IsPosted text (err e, s) h = cc
  direct_to-IsPosted text (ok channel_id, (c, v)) h =
      (channel_id, _, refl, post_message-IsPosted lib c channel_id text v h, refl)

  put_none :
      (o : Option Text) (errs : List Text)
      → joined (put_error o errs) ≡ none
      → (o ≡ none) × (joined errs ≡ none)
  put_none none errs k = (refl, k)
  put_none (some e) errs k = cc

  alert_users-AllReached :
      (text : Text) (users : List Text) (s : Client × V)
      → joined (alert_users lib text users s).0 ≡ none
      → AllReached text users s (alert_users lib text users s).1
  unfolding alert_users alert_user
  alert_users-AllReached text [] s h = nobody s
  alert_users-AllReached text (user ∷ users) (c, v) h =
      let r = alert_user lib text user (c, v) in
      let (x, y) = put_none r.0 (alert_users lib text users r.1).0 h in
      let (channel_id, v', found, posted, left) =
        direct_to-IsPosted text (direct_channel_with lib c user v) x in
      reached user users (c, v) (alert_users lib text users r.1).1 channel_id v' found posted
        (subst (λ s'. AllReached text users s' (alert_users lib text users r.1).1) left
          (alert_users-AllReached text users r.1 y))

  alert_channel-IsAnnounced :
      (a : Alerter) (repo : Text) (e : AlertEvent) (s : Client × V)
      → (alert_channel lib a repo e s).0 ≡ none
      → IsAnnounced a repo e s (alert_channel lib a repo e s).1
  unfolding alert_channel
  alert_channel-IsAnnounced a repo e (c, v) h =
      (post_message-IsPosted lib c a.channel_id (format_alert repo e a.mention_users) v h, refl)

  -- The messages have gone out, or one has failed and the channel has been posted to.
  fall_back-cases :
      (a : Alerter) (repo : Text) (e : AlertEvent) (r : Option Text × (Client × V))
      → (fall_back lib a repo e r).0 ≡ none
      → ((r.0 ≡ none) × (r.1 ≡ (fall_back lib a repo e r).1))
        ⊎ ((failure : Text) × (r.0 ≡ some failure)
            × IsAnnounced a repo e r.1 (fall_back lib a repo e r).1)
  unfolding fall_back
  fall_back-cases a repo e (none, s) h = inl (refl, refl)
  fall_back-cases a repo e (some dm_err, s) h = inr (
    dm_err,
    refl,
    alert_channel-IsAnnounced a repo e s (no_error (alert_channel lib a repo e s).0 h),
  )
    where
      no_error :
          (o : Option Text)
          → (elim o [ none ↦ none | some post_err ↦ joined (dm_err ∷ post_err ∷ []) ]) ≡ none
          → o ≡ none
      no_error none k = refl
      no_error (some post_err) k = cc

  fall_back-IsDelivered :
      (a : Alerter) (repo : Text) (e : AlertEvent) (s : Client × V)
      → same e.severity (codes "attention") ≡ true
      → is_empty a.dm_users ≡ false
      → (fall_back lib a repo e (alert_direct lib a repo e s)).0 ≡ none
      → IsDelivered a repo e s (fall_back lib a repo e (alert_direct lib a repo e s)).1
  fall_back-IsDelivered a repo e s k m h =
      elim (fall_back-cases a repo e (alert_direct lib a repo e s) h) [
        | inl (n, left) ↦ to_users k m (
            subst (AllReached (format_alert repo e []) a.dm_users s) left (
              unfold alert_direct in
              alert_users-AllReached (format_alert repo e []) a.dm_users s n))
        | inr (failure, f, posted) ↦ behind_users failure k m f posted
      ]

  -- No alert is lost in silence. If `Alert` returns no error, then the network has been sent posts of
  -- it and has accepted them. Either it asks for attention, there are direct users, and for every one
  -- of them a channel has been found and the text without mentions posted there; or it does not ask
  -- for attention or there are none, and the text with mentions has been posted to the alerter's
  -- channel; or it does, there are, the direct messages have reported a failure, and behind them the
  -- text with mentions has been posted to the alerter's channel. The client and the network are left
  -- as the last of these posts leaves them.
  pub alert-IsDelivered :
      (a : Alerter) (repo : Text) (e : AlertEvent) (s : Client × V)
      → (alert lib a repo e s).0 ≡ none
      → IsDelivered a repo e s (alert lib a repo e s).1
  unfolding alert
  alert-IsDelivered a repo e s h = elim (Bool-cases (same e.severity (codes "attention"))) [
    | inl k ↦ elim (Bool-cases (is_empty a.dm_users)) [
      | inl m ↦ rw (k, m) (to_channel (inr m) (alert_channel-IsAnnounced a repo e s (ground arith)))
      | inr m ↦ rw (k, m) (fall_back-IsDelivered a repo e s k m (ground arith))
    ]
    | inr k ↦ rw k (to_channel (inl k) (alert_channel-IsAnnounced a repo e s (ground arith)))
  ]
