-- ===== src/Mattermost/Client.antt =====
-- internal/mattermost/client.go: the client of a chat server, its start and its requests. What the
-- standard library does for it is a `Library`: URLs, JSON, and the calls of HTTP, each of which may
-- change the network `V` and may fail. An error is its text. A JSON object is what
-- `value, _ := object[key].(string)` finds at each key.
pub mod Posts
pub mod Caches
pub mod Reconnect
pub mod Listen
mod Tests
use sexton.Common.{
  ℕ, ◌≡◌, refl, Bool, true, false, Option, none, some, List, [], ◌∷◌, ◌++◌, leb, if◌then◌else◌,
  is_empty,
}
use sexton.Common.Result.{Result, ok, err}
use sexton.Common.Text.{Text, codes, same, decimal}
use sexton.Config.Path.{clean}
use sexton.Config.Alerts.{MattermostConfig}

-- A parsed URL; what the client leaves alone is kept as it is.
pub record Url : Type 0 where
  pub scheme : Text
  pub path : Text
  pub raw_path : Text
  pub others : Text

pub record HttpRequest : Type 0 where
  pub method : Text
  pub url : Text
  pub token : Text
  pub body : Option Text

pub record HttpResponse : Type 0 where
  pub status : ℕ
  pub body : Text

pub record Library (V : Type 0) : Type 0 where
  pub parse_url : Text → Result Text Url
  pub url_text : Url → Text
  pub path_escape : Text → Text
  pub encode_object : List (Text × Text) → Text
  pub encode_list : List Text → Text
  pub decode_object : Text → Result Text (Text → Text)
  -- `http.NewRequest` with `Do`, and the read of the body.
  pub send : HttpRequest → V → Result Text HttpResponse × V
  -- The dialer of the websocket, at a URL with a token.
  pub dial : Text → Text → V → Option Text × V
  pub getenv : Text → Text

-- The struct `Client`; a Go map is an association list, and the connection is whether there is one.
pub record Client : Type 0 where
  pub cfg : MattermostConfig
  pub token : Text
  pub bot_user_id : Text
  pub bot_username : Text
  pub user_cache : List (Text × Text)
  pub dm_channel_cache : List (Text × Text)
  pub connected : Bool

abbrev pub default_trigger_words : List Text → List Text
default_trigger_words [] = codes "sexton" ∷ []
default_trigger_words (w ∷ ws) = w ∷ ws

module _ {V : Type 0} (lib : Library V) where
  abbrev env_token : Text → Text
  env_token name = if is_empty name then [] else lib.getenv name

  -- `NewClient`.
  unfoldable pub new_client : MattermostConfig → Client
  new_client cfg =
      let token = env_token cfg.token_env in
      record {
        cfg = record cfg { trigger_words = default_trigger_words cfg.trigger_words };
        token = if is_empty token then cfg.token else token;
        bot_user_id = [];
        bot_username = [];
        user_cache = [];
        dm_channel_cache = [];
        connected = false;
      }

  -- `path.Join("/", u.Path, endpointPath)`.
  abbrev url_path : Text → Text → Text
  url_path path endpoint =
      clean (codes "//" ++ (if is_empty path then endpoint else path ++ (codes "/" ++ endpoint)))

  built : Text → Result Text Url → Result Text Url
  built endpoint (err e) = err (codes "invalid mattermost url: " ++ e)
  built endpoint (ok u) = ok (record u { path = url_path u.path endpoint; raw_path = [] })

  -- `buildURL`.
  unfoldable pub build_url : Client → Text → Result Text Url
  unfolding built
  build_url c endpoint = built endpoint (lib.parse_url c.cfg.url)

  abbrev printed : (Url → Url) → Result Text Url → Result Text Text
  printed f (err e) = err e
  printed f (ok u) = ok (lib.url_text (f u))

  -- `buildAPIURL`.
  unfoldable pub build_api_url : Client → Text → Result Text Text
  build_api_url c endpoint = printed (λ u. u) (build_url c endpoint)

  websocket_scheme : Text → Text
  websocket_scheme scheme =
      if same scheme (codes "https")
      then codes "wss"
      else if same scheme (codes "http")
      then codes "ws"
      else scheme

  -- `buildWebSocketURL`.
  unfoldable pub build_web_socket_url : Client → Result Text Text
  unfolding websocket_scheme
  build_web_socket_url c =
      printed (λ u. record u { scheme = websocket_scheme u.scheme })
        (build_url c (codes "/api/v4/websocket"))

  -- What becomes of a response: `failed` begins the error of one over 299.
  read_object : Text → Result Text HttpResponse × V → Result Text (Text → Text) × V
  read_object failed (err e, v) = (err e, v)
  read_object failed (ok r, v) = (
    if leb 300 r.status
        then err
            (failed ++ (codes " failed (status " ++ (decimal r.status ++ (codes "): " ++ r.body))))
        else lib.decode_object r.body,
    v,
  )

  requested :
      Client → Text → Text → Option Text → Result Text Text → V → Result Text (Text → Text) × V
  unfolding read_object
  requested c method path body (err e) v = (err e, v)
  requested c method path body (ok url) v =
      read_object (codes "mattermost api " ++ path)
        (lib.send (record { method = method; url = url; token = c.token; body = body }) v)

  -- `apiGet` and `apiPost`.
  unfoldable pub api_get : Client → Text → V → Result Text (Text → Text) × V
  unfolding requested
  api_get c path v = requested c (codes "GET") path none (build_api_url c path) v

  unfoldable pub api_post : Client → Text → Text → V → Result Text (Text → Text) × V
  unfolding requested
  api_post c path body v = requested c (codes "POST") path (some body) (build_api_url c path) v

  read_posted : Result Text HttpResponse × V → Option Text × V
  read_posted (err e, v) = (some e, v)
  read_posted (ok r, v) = (
    if leb 300 r.status
        then some
            (codes "post message failed (status " ++ (decimal r.status ++ (codes "): " ++ r.body)))
        else none,
    v,
  )

  post_to : Client → Text → Text → Result Text Text → V → Option Text × V
  unfolding read_posted
  post_to c channel_id text (err e) v = (some e, v)
  post_to c channel_id text (ok url) v = read_posted (
      lib.send
        (record {
          method = codes "POST";
          url = url;
          token = c.token;
          body =
              some (
                lib.encode_object
                  ((codes "channel_id", channel_id) ∷ (codes "message", text) ∷ []));
        })
        v)

  -- `PostMessage`.
  unfoldable pub post_message : Client → Text → Text → V → Option Text × V
  unfolding post_to
  post_message c channel_id text v =
      post_to c channel_id text (build_api_url c (codes "/api/v4/posts")) v

  dialed : Client → Option Text × V → Option Text × (Client × V)
  dialed c (some e, v) = (some e, (c, v))
  dialed c (none, v) = (none, (record c { connected = true }, v))

  dial_to : Client → Result Text Text → V → Option Text × (Client × V)
  unfolding dialed
  dial_to c (err e) v = (some e, (c, v))
  dial_to c (ok url) v = dialed c (lib.dial url c.token v)

  -- `connectWebSocket`.
  unfoldable pub connect_web_socket : Client → V → Option Text × (Client × V)
  unfolding dial_to
  connect_web_socket c v = dial_to c (build_web_socket_url c) v

  connected_start : Option Text × (Client × V) → Option Text × (Client × V)
  connected_start (none, s) = (none, s)
  connected_start (some e, s) = (some (codes "failed to connect mattermost websocket: " ++ e), s)

  identified : Client → Result Text (Text → Text) × V → Option Text × (Client × V)
  unfolding connected_start
  identified c (err e, v) = (some (codes "failed to authenticate with mattermost: " ++ e), (c, v))
  identified c (ok me, v) =
      let c' = record c { bot_user_id = me (codes "id"); bot_username = me (codes "username") } in
      if is_empty (me (codes "id"))
      then (some (codes "mattermost /api/v4/users/me did not return a user id"), (c', v))
      else connected_start (connect_web_socket c' v)

  -- `Start`, up to the goroutine that it starts.
  unfoldable pub start : Client → V → Option Text × (Client × V)
  unfolding identified
  start c v =
      if is_empty c.token
      then (some (codes "mattermost token is required (set token_env or token in config)"), (c, v))
      else identified c (api_get c (codes "/api/v4/users/me") v)
