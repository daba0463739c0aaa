-- ===== src/Mattermost/Client/Tests.antt =====
-- The client at a small network: its caches, its reconnection, and its loop.
use sexton.Common.{
  ℕ, suc, ◌*◌, ◌≤◌, ◌≡◌, refl, ap, Bool, true, false, Option, none, some, List, [], ◌∷◌, ◌++◌,
  if◌then◌else◌, is_empty, any,
}
use mathlib.Core.Path.{subst}
use sexton.Common.Duration.{second}
use sexton.Common.Result.{Result, ok, err}
use sexton.Common.Text.{Text, codes, same}
use sexton.Config.Alerts.{MattermostConfig}
use sexton.Mattermost.Client.{
  Client, HttpRequest, HttpResponse, Library, api_get, build_api_url, build_url, api_post,
  connect_web_socket,
}
use sexton.Mattermost.Client.Caches.{direct_channel_with, cached}
use sexton.Mattermost.Client.Caches.Found.{direct_channel_with-cached}
use sexton.Mattermost.Client.Listen.{
  Reader, PostedData, Post, State, posted, is_allowed_user, Round, listen,
}
use sexton.Mattermost.Client.Reconnect.{delay_before, waited, reconnected, reconnect}
use sexton.Mattermost.Client.Reconnect.Answers.{
  waits_of, delays_from, sum, AnswersAfter, reconnect-answers,
}
use sexton.Mattermost.Client.Listen.Outsiders.{NamesOutsiders, IsOutside, IsSafe}
use sexton.Mattermost.Client.Listen.Rounds.{Listens, listen-Listens}
use sexton.Mattermost.Alerter.Delivery.{IsDelivered, alert-IsDelivered}
use sexton.Mattermost.Alerter.{Alerter, alert, alert_direct, alert_channel}
use sexton.Mattermost.Tests.{event, library, counter}

-- A network that logs what is sent, answers everything with one name, and takes no connection until
-- something has been sent.
abbrev answer_name : Text → Text
answer_name key = codes "eve"

abbrev some_request : HttpRequest
some_request = record { method = []; url = []; token = []; body = none }

abbrev network : Library (List HttpRequest)
network = record {
  parse_url = λ t. ok (record { scheme = codes "https"; path = []; raw_path = []; others = t });
  url_text = λ u. u.path;
  path_escape = λ t. t;
  encode_object = λ fs. [];
  encode_list = λ l. [];
  decode_object = λ t. ok answer_name;
  send = λ r v. (ok (record { status = 200; body = [] }), r ∷ v);
  dial =
      λ url token v. if is_empty v then (some (codes "refused"), some_request ∷ v) else (none, v);
  getenv = λ name. [];
}

abbrev chat_config : MattermostConfig
chat_config = record {
  url = codes "https://chat";
  token = codes "t";
  token_env = [];
  channel_id = codes "town";
  mention_users = [];
  dm_users = codes "ada" ∷ [];
  trigger_words = codes "sexton" ∷ [];
  allowed_users = codes "ada" ∷ [];
}

abbrev bot : Client
bot = record {
  cfg = chat_config;
  token = codes "t";
  bot_user_id = codes "b";
  bot_username = codes "sexton";
  user_cache = [];
  dm_channel_cache = [];
  connected = true;
}

abbrev bot_with_ada : Client
bot_with_ada = record bot { dm_channel_cache = (codes "ada", codes "eve") ∷ [] }

-- What is sent to open the channel with a user: two requests.
abbrev channel_sent : List HttpRequest
channel_sent = (direct_channel_with network bot (codes "ada") []).1.1

channel_run :
    direct_channel_with network bot (codes "ada") []
    ≡ (ok (codes "eve"), (bot_with_ada, channel_sent))
unfolding direct_channel_with cached api_get api_post build_api_url build_url
channel_run = refl

direct_channel_with-cached_example :
    ((later : List HttpRequest)
      → direct_channel_with network bot_with_ada (codes "ada") later
        ≡ (ok (codes "eve"), (bot_with_ada, later)))
    × (record bot_with_ada { dm_channel_cache = bot.dm_channel_cache } ≡ bot)
direct_channel_with-cached_example =
    direct_channel_with-cached network bot bot_with_ada (codes "ada") (codes "eve") [] channel_sent
      channel_run

one-AnswersAfter : AnswersAfter network 1 bot []
unfolding connect_web_socket sexton.Mattermost.Client.build_web_socket_url build_url
one-AnswersAfter = (refl, refl)

reconnect-answers_example :
    ((reconnect network (waits_of 2 ++ []) bot []).outcome ≡ reconnected)
    × ((reconnect network (waits_of 2 ++ []) bot []).client.connected ≡ true)
    × ((reconnect network (waits_of 2 ++ []) bot []).begun ≡ delays_from 0 2)
    × (sum (delays_from 0 2) ≤ 2 * (30 * second))
    × ((i : ℕ)
        → (second ≤ delay_before i)
          × (delay_before i ≤ 30 * second)
          × (delay_before i ≤ delay_before (suc i)))
reconnect-answers_example = reconnect-answers network 1 [] bot [] one-AnswersAfter

-- Every message is a post of the same user.
abbrev stranger_post : Post
stranger_post = record {
  user_id = codes "u9";
  channel_id = codes "c";
  message = codes "sexton sync notes";
}

abbrev stranger : Reader
stranger = record {
  decode_event = λ raw. some (record { event = codes "posted"; payload = raw });
  decode_data = λ raw. some (record { post = raw; mentions = [] });
  decode_post = λ raw. some stranger_post;
  decode_mentions = λ raw. none;
  strip_mentions = λ text. text;
  equal_fold = same;
}

abbrev is_stranger : Text → Bool
is_stranger id = same id (codes "u9")

abbrev name_in : Result Text (Text → Text) × List HttpRequest → Text
name_in (ok user, v) = user (codes "username")
name_in (err e, v) = []

stranger_names : NamesOutsiders network stranger library counter is_stranger (codes "ada" ∷ [])
unfolding api_get build_api_url build_url is_allowed_user any same
stranger_names c id v v' user out h =
    subst (λ name. is_allowed_user stranger (codes "ada" ∷ []) name ≡ false) (ap name_in h) refl

abbrev post_user : Option (PostedData × Post) → Text
post_user none = []
post_user (some (d, p)) = p.user_id

stranger-IsOutside : (raw : Text) → IsOutside network stranger library counter is_stranger raw
unfolding posted same
stranger-IsOutside raw d p h = subst (λ id. is_stranger id ≡ true) (ap post_user h) refl

abbrev message_round : Round
message_round = record { stop = false; read = some (codes "raw"); stop_behind = false; waits = [] }

abbrev lost_round : Round
lost_round = record { stop = false; read = none; stop_behind = false; waits = waited ∷ waited ∷ [] }

abbrev start_state : State (List HttpRequest) ℕ
start_state = record { client = bot; net = []; world = 7 }

start-IsSafe :
    IsSafe network stranger library counter is_stranger
      (codes "ada" ∷ [])
      stranger_names
      7
      start_state
unfolding cached
start-IsSafe = record {
  guard = record { guarded = refl; unknown = λ id name out e. cc };
  same_allowed = refl;
  untouched = refl;
}

listen-Listens_example :
    Listens network stranger library counter is_stranger (codes "ada" ∷ []) stranger_names 7 (
      listen network stranger library counter
        (message_round ∷ lost_round ∷ message_round ∷ [])
        start_state)
listen-Listens_example =
    listen-Listens network stranger library counter is_stranger (codes "ada" ∷ []) stranger_names
      (message_round ∷ lost_round ∷ message_round ∷ []) start_state 7
      (stranger-IsOutside (codes "raw"), (tt, (stranger-IsOutside (codes "raw"), tt))) start-IsSafe

abbrev town : Alerter
town = record {
  channel_id = codes "town";
  mention_users = codes "ada" ∷ [];
  dm_users = codes "ada" ∷ [];
}

alert_run : (alert network town (codes "notes") event (bot, [])).0 ≡ none
unfolding alert alert_direct sexton.Mattermost.Alerter.alert_user direct_channel_with cached api_get
    api_post build_api_url build_url sexton.Mattermost.Client.post_message same alert_channel
alert_run = refl

alert-IsDelivered_example :
    IsDelivered network town
      (codes "notes")
      event
      (bot, [])
      (alert network town (codes "notes") event (bot, [])).1
alert-IsDelivered_example = alert-IsDelivered network town (codes "notes") event (bot, []) alert_run
