-- ===== src/Mattermost/Client/Listen.antt =====
-- The goroutine of internal/mattermost/client.go: `listen` and `handleMessage`. What it meets in a
-- round of its loop is written down as a value: a stop that is asked for, a message that is read, the
-- waits of a reconnection. A state is the client, the network and the world of the handler; there is
-- none behind a panic, which ends the process.
pub mod Outsiders
pub mod Rounds
use sexton.Common.{
  ℕ, zero, suc, ◌*◌, ◌≡◌, refl, Bool, true, false, Option, none, some, List, [], ◌∷◌, if◌then◌else◌,
  is_empty, any,
}
use sexton.Common.Duration.{second}
use sexton.Common.Result.{Result, ok, err}
use sexton.Common.Space.{trim_space}
use sexton.Common.Text.{Text, codes, same, elem}
use sexton.Mattermost.Commands.{
  Env, CommandHandler, dispatch, Stripped, unmatched, matched, panicked, strip_trigger_word,
}
use sexton.Mattermost.Client.Reconnect.{
  Wait, reconnected, gave_up, still_waiting, Attempts, reconnect,
}
use sexton.Mattermost.Client.{Client, Library, connect_web_socket, post_message}
use sexton.Mattermost.Client.Caches.{resolve_username}

-- `wsEvent`, `postedData` and `post`.
pub record WsEvent : Type 0 where
  pub event : Text
  pub payload : Text

pub record PostedData : Type 0 where
  pub post : Text
  pub mentions : Text

pub record Post : Type 0 where
  pub user_id : Text
  pub channel_id : Text
  pub message : Text

-- `json.Unmarshal` at each of the types, the regular expression of the mentions, and
-- `strings.EqualFold`.
pub record Reader : Type 0 where
  pub decode_event : Text → Option WsEvent
  pub decode_data : Text → Option PostedData
  pub decode_post : Text → Option Post
  pub decode_mentions : Text → Option (List Text)
  pub strip_mentions : Text → Text
  pub equal_fold : Text → Text → Bool

pub record State (V W : Type 0) : Type 0 where
  pub client : Client
  pub net : V
  pub world : W

module _ (reader : Reader) where
  -- The tests with which `handleMessage` begins: the post of a message that is one.
  post_of : PostedData → Option (PostedData × Post)
  post_of d = elim (reader.decode_post d.post) [ none ↦ none | some p ↦ some (d, p) ]

  data_of : WsEvent → Option (PostedData × Post)
  data_of e =
      if same e.event (codes "posted")
      then elim (reader.decode_data e.payload) [ none ↦ none | some d ↦ post_of d ]
      else none

  unfoldable pub posted : Text → Option (PostedData × Post)
  unfolding post_of data_of
  posted raw = elim (reader.decode_event raw) [ none ↦ none | some e ↦ data_of e ]

  -- `isAllowedUser`.
  unfoldable pub is_allowed_user : List Text → Text → Bool
  is_allowed_user allowed name = any (λ user. reader.equal_fold user name) allowed

  -- Whether the mentions name the bot.
  unfoldable pub mentions_bot : Client → Text → Bool
  mentions_bot c mentions =
      if is_empty mentions then false else elim (reader.decode_mentions mentions) [
        | none ↦ false
        | some ids ↦ elem c.bot_user_id ids
      ]

  -- `extractCommand`.
  unfoldable pub extract_command : (Text → Text) → Client → Text → Text → Stripped
  extract_command lower c message mentions =
      if mentions_bot c mentions
      then matched (trim_space (reader.strip_mentions message))
      else strip_trigger_word lower message c.cfg.trigger_words

module _ {V W : Type 0} (lib : Library V) (reader : Reader) (env : Env)
    (handler : CommandHandler W) where
  reply : Post → (Text × Bool) × W → State V W → State V W
  reply p ((text, recognized), w) s =
      if recognized
      then record s { net = (post_message lib s.client p.channel_id text s.net).1; world = w }
      else record s { world = w }

  respond_to : Post → Stripped → State V W → Option (State V W)
  unfolding reply
  respond_to p unmatched s = some s
  respond_to p panicked s = none
  respond_to p (matched text) s = some (reply p (dispatch env handler text s.world) s)

  -- `handleMessage` behind its guards.
  respond : PostedData → Post → State V W → Option (State V W)
  unfolding respond_to
  respond d p s = respond_to p (extract_command reader env.lower s.client p.message d.mentions) s

  checked : PostedData → Post → Result Text Text × (Client × V) → State V W → Option (State V W)
  checked d p (err e, (c, v)) s = some (record s { client = c; net = v })
  checked d p (ok name, (c, v)) s =
      let s' = record s { client = c; net = v } in
      if is_allowed_user reader c.cfg.allowed_users name then respond d p s' else some s'

  handle_post : PostedData → Post → State V W → Option (State V W)
  unfolding checked respond
  handle_post d p s =
      if same p.user_id s.client.bot_user_id
      then some s
      else if is_empty s.client.cfg.allowed_users
      then respond d p s
      else checked d p (resolve_username lib s.client p.user_id s.net) s

  handle_posted : Option (PostedData × Post) → State V W → Option (State V W)
  unfolding handle_post
  handle_posted none s = some s
  handle_posted (some (d, p)) s = handle_post d p s

  -- `handleMessage`.
  unfoldable pub handle_message : Text → State V W → Option (State V W)
  unfolding handle_posted
  handle_message raw s = handle_posted (posted reader raw) s

-- What a round of `listen` meets: whether a stop is asked for, what is read if there is a
-- connection, whether a stop is asked for behind a failed read, and the waits of a reconnection.
pub record Round : Type 0 where
  pub stop : Bool
  pub read : Option Text
  pub stop_behind : Bool
  pub waits : List Wait

-- Where `listen` is: at its next round, behind its return, in a reconnection whose waits have not
-- passed, or nowhere, since the process has ended.
pub data Listening (S : Type 0) : Type 0 where
  running : S → Listening S
  ended : S → Listening S
  blocked : S → Listening S
  crashed : Listening S

module _ {V W : Type 0} (lib : Library V) (reader : Reader) (env : Env)
    (handler : CommandHandler W) where
  after_attempts : State V W → Attempts V → Listening (State V W)
  after_attempts s r =
      let s' = record s { client = r.client; net = r.net } in
      elim r.outcome [ reconnected ↦ running s' | gave_up ↦ ended s' | still_waiting ↦ blocked s' ]

  handled : Option (State V W) → Listening (State V W)
  handled none = crashed
  handled (some s) = running s

  abbrev without_connection : State V W → State V W
  without_connection s = record s { client = record s.client { connected = false } }

  rejoin : Round → State V W → Listening (State V W)
  unfolding after_attempts
  rejoin r s = after_attempts s (reconnect lib r.waits s.client s.net)

  connected_round : Round → Option Text → State V W → Listening (State V W)
  unfolding rejoin handled
  connected_round r (some raw) s = handled (handle_message lib reader env handler raw s)
  connected_round r none s = if r.stop_behind then ended s else rejoin r (without_connection s)

  -- A round of the loop of `listen`.
  unfoldable pub listen_round : Round → State V W → Listening (State V W)
  unfolding connected_round rejoin
  listen_round r s =
      if r.stop
      then ended s
      else if s.client.connected
      then connected_round r r.read s
      else rejoin r s

  go_on : (State V W → Listening (State V W)) → Listening (State V W) → Listening (State V W)
  go_on next (running s) = next s
  go_on next (ended s) = ended s
  go_on next (blocked s) = blocked s
  go_on next crashed = crashed

  -- `listen`, as far as the rounds go.
  unfoldable pub listen : List Round → State V W → Listening (State V W)
  unfolding go_on
  listen [] s = running s
  listen (r ∷ rs) s = go_on (listen rs) (listen_round r s)
