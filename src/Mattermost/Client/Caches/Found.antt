-- ===== src/Mattermost/Client/Caches/Found.antt =====
-- The caches of the client: what has been found is found again without a request.
use sexton.Common.{
  ◌≡◌, refl, Bool, true, false, Option, none, some, List, [], ◌∷◌, ◌++◌, if◌then◌else◌, is_empty,
  inl, inr, Bool-cases,
}
use mathlib.Core.Path.{subst, sym}
use sexton.Common.Result.{Result, ok, err}
use sexton.Common.Text.{Text, codes, same_refl}
use sexton.Mattermost.Client.{Client, Library, api_get, api_post}
use sexton.Mattermost.Client.Caches.{
  cached, named, resolve_by, resolve_username, opened, open_with, channel_by, direct_channel_with,
}

cached-head : (k v : Text) (m : List (Text × Text)) → cached k ((k, v) ∷ m) ≡ some v
unfolding cached
cached-head k v m = rw (same_refl k) refl

module _ {V : Type 0} (lib : Library V) where
  -- What is left behind by a lookup of a name: either it fails and the client is as before, or the
  -- cache holds what it returns and nothing else of the client has changed.
  abbrev UserFound : Client → Text → Result Text Text × (Client × V) → Type 0
  UserFound c user_id (err e, (c', v')) = c' ≡ c
  UserFound c user_id (ok name, (c', v')) =
      (cached user_id c'.user_cache ≡ some name) × (record c' { user_cache = c.user_cache } ≡ c)

  UserFound-if :
      (c : Client) (user_id name e : Text) (v : V) (b : Bool)
      → UserFound c user_id (
          if b
          then (err e, (c, v))
          else (ok name, (record c { user_cache = (user_id, name) ∷ c.user_cache }, v)))
  UserFound-if c user_id name e v true = refl
  UserFound-if c user_id name e v false = (cached-head user_id name c.user_cache, refl)

  named-Found :
      (c : Client) (user_id : Text) (r : Result Text (Text → Text) × V)
      → UserFound c user_id (named lib c user_id r)
  unfolding named
  named-Found c user_id (err e, v) = refl
  named-Found c user_id (ok user, v) =
      UserFound-if c user_id (user (codes "username")) _ v (is_empty (user (codes "username")))

  resolve_by-Found :
      (o : Option Text) (c : Client) (user_id : Text) (v : V)
      → o ≡ cached user_id c.user_cache
      → UserFound c user_id (resolve_by lib o c user_id v)
  unfolding resolve_by
  resolve_by-Found (some name) c user_id v h = (sym h, refl)
  resolve_by-Found none c user_id v h =
      named-Found c user_id (api_get lib c (codes "/api/v4/users/" ++ user_id) v)

  -- The same of a channel.
  abbrev ChannelFound : Client → Text → Result Text Text × (Client × V) → Type 0
  ChannelFound c name (err e, (c', v')) = c' ≡ c
  ChannelFound c name (ok channel_id, (c', v')) =
      (cached name c'.dm_channel_cache ≡ some channel_id)
      × (record c' { dm_channel_cache = c.dm_channel_cache } ≡ c)

  ChannelFound-if :
      (c : Client) (name channel_id e : Text) (v : V) (b : Bool)
      → ChannelFound c name (
          if b then (err e, (c, v)) else (
            ok channel_id,
            (record c { dm_channel_cache = (name, channel_id) ∷ c.dm_channel_cache }, v),
          ))
  ChannelFound-if c name channel_id e v true = refl
  ChannelFound-if c name channel_id e v false =
      (cached-head name channel_id c.dm_channel_cache, refl)

  opened-Found :
      (c : Client) (name : Text) (r : Result Text (Text → Text) × V)
      → ChannelFound c name (opened lib c name r)
  unfolding opened
  opened-Found c name (err e, v) = refl
  opened-Found c name (ok channel, v) =
      ChannelFound-if c name (channel (codes "id")) _ v (is_empty (channel (codes "id")))

  open_with-Found :
      (c : Client) (name : Text) (r : Result Text (Text → Text) × V)
      → ChannelFound c name (open_with lib c name r)
  unfolding open_with
  open_with-Found c name (err e, v) = refl
  open_with-Found c name (ok user, v) = elim (Bool-cases (is_empty (user (codes "id")))) [
    | inl e ↦ rw e refl
    | inr e ↦ rw e (
        opened-Found c name (
          api_post lib c (codes "/api/v4/channels/direct")
            (lib.encode_list (c.bot_user_id ∷ user (codes "id") ∷ [])) v))
  ]

  channel_by-Found :
      (o : Option Text) (c : Client) (name : Text) (v : V)
      → o ≡ cached name c.dm_channel_cache
      → ChannelFound c name (channel_by lib o c name v)
  unfolding channel_by
  channel_by-Found (some channel_id) c name v h = (sym h, refl)
  channel_by-Found none c name v h = elim (Bool-cases (is_empty c.bot_user_id)) [
    | inl e ↦ rw e refl
    | inr e ↦ rw e (
        open_with-Found c name
          (api_get lib c (codes "/api/v4/users/username/" ++ lib.path_escape name) v))
  ]

  -- The name of a user that `resolveUsername` has found is found again without a request: the second
  -- call returns the same name and changes neither the client nor the network. Of the client the
  -- first call has changed its cache of users only.
  resolve_username-cached :
      (c c' : Client) (user_id name : Text) (v v' : V)
      → resolve_username lib c user_id v ≡ (ok name, (c', v'))
      → ((later : V) → resolve_username lib c' user_id later ≡ (ok name, (c', later)))
        × (record c' { user_cache = c.user_cache } ≡ c)
  unfolding resolve_username
  resolve_username-cached c c' user_id name v v' h =
      let (found, same_rest) =
        subst (UserFound c user_id) h
          (resolve_by-Found (cached user_id c.user_cache) c user_id v refl) in
      (λ later. rw found refl, same_rest)

  -- The direct channel with a user that `DirectChannelWith` has found or opened is found again
  -- without a request: the second call returns the same channel and changes neither the client nor
  -- the network. Of the client the first call has changed its cache of channels only.
  pub direct_channel_with-cached :
      (c c' : Client) (name channel_id : Text) (v v' : V)
      → direct_channel_with lib c name v ≡ (ok channel_id, (c', v'))
      → ((later : V) → direct_channel_with lib c' name later ≡ (ok channel_id, (c', later)))
        × (record c' { dm_channel_cache = c.dm_channel_cache } ≡ c)
  unfolding direct_channel_with
  direct_channel_with-cached c c' name channel_id v v' h =
      let (found, same_rest) =
        subst (ChannelFound c name) h
          (channel_by-Found (cached name c.dm_channel_cache) c name v refl) in
      (λ later. rw found refl, same_rest)
