-- ===== src/Cmd/Alerts/Tests.antt =====
-- The alerters of a configuration, with a start that fails.
use sexton.Common.{
  ℕ, ◌≡◌, refl, sym, ap, Bool, true, false, not, ◌&&◌, ◌||◌, Option, none, some, List, [], ◌∷◌,
  if◌then◌else◌, ◌==◌,
}
use mathlib.Core.List.{Permᴰ}
use sexton.Common.Space.{to_lower}
use sexton.Common.Text.{Text, codes}
use sexton.Config.Alerts.{AlertConfig, MattermostConfig}
use sexton.Cmd.Alerts.{build_alerter, ingress_signature, effective_trigger_words}
use sexton.Cmd.Alerts.Clients.{Runs, Settles, build_alerter-Settles}
use sexton.Cmd.Alerts.Canonical.{ingress_signature-Perm}

-- A world that is the set of the clients that run; the second start fails.
abbrev Running : Type 0
Running = ℕ → Bool

abbrev outcome : Bool → Running → Running → Option Text × Running
outcome b w w₂ = if b then (some (codes "refused"), w) else (none, w₂)

abbrev start : ℕ → MattermostConfig → Running → Option Text × Running
start n cfg w = outcome (n == 1) w (λ m. n == m || w m)

abbrev stop : ℕ → Running → Running
stop n w = λ m. not (n == m) && w m

-- What a test leaves if it has ended with a client, or with an error.
branch_adds : (b : Bool) (w w₂ w' : Running) (m : ℕ) → outcome b w w₂ ≡ (none, w') → w' m ≡ w₂ m
branch_adds true w w₂ w' m h = cc
branch_adds false w w₂ w' m h = sym (ap (λ (p : Option Text × Running). p.1 m) h)

branch_fails :
    (b : Bool) (w w₂ w' : Running) (e : Text) (m : ℕ) → outcome b w w₂ ≡ (some e, w') → w' m ≡ w m
branch_fails true w w₂ w' e m h = sym (ap (λ (p : Option Text × Running). p.1 m) h)
branch_fails false w w₂ w' e m h = cc

running : Runs Running start stop
running = record {
  runs = λ w. w;
  starts = λ n cfg w w' m h. branch_adds (n == 1) w (λ k. n == k || w k) w' m h;
  fails = λ n cfg w w' e m h. branch_fails (n == 1) w (λ k. n == k || w k) w' e m h;
  stops = λ n w m. refl;
}

abbrev chat : Text → MattermostConfig
chat url = record {
  url = url;
  token = codes "t";
  token_env = [];
  channel_id = codes "town";
  mention_users = [];
  dm_users = [];
  trigger_words = [];
  allowed_users = codes "ada" ∷ codes "bob" ∷ [];
}

abbrev chats : List AlertConfig
chats =
    record { kind = codes "mattermost"; mattermost = some (chat (codes "https://a")) }
    ∷ record { kind = codes "mattermost"; mattermost = some (chat (codes "https://b")) }
    ∷ []

build_alerter-Settles_example :
    Settles to_lower
      (λ t. t)
      start
      stop
      running
      (build_alerter to_lower (λ t. t) start stop chats (λ m. false))
unfolding running
build_alerter-Settles_example =
    build_alerter-Settles to_lower (λ t. t) start stop running chats (λ m. false) (λ m. refl)

ingress_signature-Perm_example :
    ingress_signature to_lower (chat (codes "https://a"))
    ≡ ingress_signature to_lower
        (record (chat (codes "https://a")) { allowed_users = codes "bob" ∷ codes "ada" ∷ [] })
unfolding effective_trigger_words
ingress_signature-Perm_example =
    ingress_signature-Perm to_lower (chat (codes "https://a"))
      (record (chat (codes "https://a")) { allowed_users = codes "bob" ∷ codes "ada" ∷ [] })
      (Permᴰ.swap refl refl) (Permᴰ.cons refl Permᴰ.nil)
