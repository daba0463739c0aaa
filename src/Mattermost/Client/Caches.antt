-- ===== src/Mattermost/Client/Caches.antt =====
-- `resolveUsername` and `DirectChannelWith` of internal/mattermost/client.go, with the caches in which
-- they look first.
pub mod Found
use sexton.Common.{
  ℕ, ◌≡◌, refl, Bool, true, false, Option, none, some, List, [], ◌∷◌, ◌++◌, leb, if◌then◌else◌,
  is_empty,
}
use sexton.Common.Result.{Result, ok, err}
use sexton.Common.Text.{Text, codes, same, decimal}
use sexton.Config.Path.{clean}
use sexton.Config.Alerts.{MattermostConfig}
use sexton.Mattermost.Client.{Client, Library, api_get, api_post}

unfoldable pub cached : Text → List (Text × Text) → Option Text
cached key [] = none
cached key ((k, v) ∷ m) = let rest = cached key m in if same k key then some v else rest

module _ {V : Type 0} (lib : Library V) where
  unfoldable pub named :
      Client → Text → Result Text (Text → Text) × V → Result Text Text × (Client × V)
  named c user_id (err e, v) = (err e, (c, v))
  named c user_id (ok user, v) =
      let name = user (codes "username") in
      if is_empty name
      then (err (codes "mattermost user '" ++ (user_id ++ codes "' has no username")), (c, v))
      else (ok name, (record c { user_cache = (user_id, name) ∷ c.user_cache }, v))

  unfoldable pub resolve_by : Option Text → Client → Text → V → Result Text Text × (Client × V)
  unfolding named
  resolve_by (some name) c user_id v = (ok name, (c, v))
  resolve_by none c user_id v =
      named c user_id (api_get lib c (codes "/api/v4/users/" ++ user_id) v)

  -- `resolveUsername`.
  unfoldable pub resolve_username : Client → Text → V → Result Text Text × (Client × V)
  unfolding resolve_by
  resolve_username c user_id v = resolve_by (cached user_id c.user_cache) c user_id v

  opened : Client → Text → Result Text (Text → Text) × V → Result Text Text × (Client × V)
  opened c name (err e, v) =
      (err (codes "open direct channel with '" ++ (name ++ (codes "': " ++ e))), (c, v))
  opened c name (ok channel, v) =
      let channel_id = channel (codes "id") in
      if is_empty channel_id
      then (err (codes "direct channel with '" ++ (name ++ codes "' has no id")), (c, v))
      else (
        ok channel_id,
        (record c { dm_channel_cache = (name, channel_id) ∷ c.dm_channel_cache }, v),
      )

  open_with : Client → Text → Result Text (Text → Text) × V → Result Text Text × (Client × V)
  unfolding opened
  open_with c name (err e, v) =
      (err (codes "resolve mattermost user '" ++ (name ++ (codes "': " ++ e))), (c, v))
  open_with c name (ok user, v) =
      let user_id = user (codes "id") in
      if is_empty user_id
      then (err (codes "mattermost user '" ++ (name ++ codes "' has no id")), (c, v))
      else opened c name (
          api_post lib c (codes "/api/v4/channels/direct")
            (lib.encode_list (c.bot_user_id ∷ user_id ∷ [])) v)

  channel_by : Option Text → Client → Text → V → Result Text Text × (Client × V)
  unfolding open_with
  channel_by (some channel_id) c name v = (ok channel_id, (c, v))
  channel_by none c name v =
      if is_empty c.bot_user_id
      then (
        err (codes "bot identity not resolved; direct channels require a started client"),
        (c, v),
      )
      else open_with c name
          (api_get lib c (codes "/api/v4/users/username/" ++ lib.path_escape name) v)

  -- `DirectChannelWith`.
  unfoldable pub direct_channel_with : Client → Text → V → Result Text Text × (Client × V)
  unfolding channel_by
  direct_channel_with c name v = channel_by (cached name c.dm_channel_cache) c name v
