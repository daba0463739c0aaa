-- ===== src/Mattermost/Client/Listen/Rounds.antt =====
-- The rounds of `listen` while nobody writes but users that are not allowed.
use sexton.Common.{
  ◌≡◌, Bool, true, false, Option, none, some, List, [], ◌∷◌, All, if◌then◌else◌, inl, inr,
  Bool-cases, ℕ, suc,
}
use sexton.Common.Result.{Result, ok, err}
use sexton.Common.Text.{Text}
use sexton.Mattermost.Commands.{Env, CommandHandler}
use sexton.Mattermost.Client.{
  Client, Library, connect_web_socket, dial_to, dialed, build_web_socket_url,
}
use sexton.Mattermost.Client.Listen.{
  State, Reader, handle_message, Round, Listening, running, ended, blocked, crashed, after_attempts,
  handled, go_on, without_connection, rejoin, connected_round, listen_round, listen,
}
use sexton.Mattermost.Client.Reconnect.{
  Wait, stop_before, stop_waiting, waited, reconnected, gave_up, still_waiting, Reconnected,
  Attempts, attempted, delay_before, reconnect_from, reconnect,
}
use sexton.Mattermost.Client.Listen.Outsiders.{
  IsGuarded, NamesOutsiders, IsOutside, IsSafe, Survives, message-Survives,
}

module _ {V W : Type 0} (lib : Library V) (reader : Reader) (env : Env) (handler : CommandHandler W)
    (outside : Text → Bool) (allowed : List Text)
    (names : NamesOutsiders lib reader env handler outside allowed) where
  abbrev Guarded : Client → Type 0
  Guarded = IsGuarded lib reader env handler outside

  abbrev Safe : W → State V W → Type 0
  Safe = IsSafe lib reader env handler outside allowed names

  -- A change of the connection keeps a client guarded.
  connects : (c : Client) (b : Bool) → Guarded c → Guarded (record c { connected = b })
  connects c b g = record { guarded = g.guarded; unknown = g.unknown }

  abbrev Guards : Client → Type 0
  Guards c = Guarded c × (c.cfg.allowed_users ≡ allowed)

  dialed-Guards : (c : Client) (r : Option Text × V) → Guards c → Guards (dialed lib c r).1.0
  unfolding dialed
  dialed-Guards c (some e, v) g = g
  dialed-Guards c (none, v) (g, a) = (connects c true g, a)

  dial_to-Guards :
      (c : Client) (url : Result Text Text) (v : V) → Guards c → Guards (dial_to lib c url v).1.0
  unfolding dial_to
  dial_to-Guards c (err e) v g = g
  dial_to-Guards c (ok url) v g = dialed-Guards c (lib.dial url c.token v) g

  connect-Guards : (c : Client) (v : V) → Guards c → Guards (connect_web_socket lib c v).1.0
  unfolding connect_web_socket
  connect-Guards c v g = dial_to-Guards c (build_web_socket_url lib c) v g

  attempted-Guards :
      (delay : ℕ) (r : Option Text × (Client × V)) (rest : Attempts V)
      → Guards r.1.0
      → Guards rest.client
      → Guards (attempted lib delay r rest).client
  unfolding attempted
  attempted-Guards delay (some e, (c, v)) rest g h = h
  attempted-Guards delay (none, (c, v)) rest g h = g

  reconnect-Guards :
      (i : ℕ) (waits : List Wait) (c : Client) (v : V)
      → Guards c
      → Guards (reconnect_from lib i waits c v).client
  unfolding reconnect_from
  reconnect-Guards i [] c v g = g
  reconnect-Guards i (stop_before ∷ waits) c v g = g
  reconnect-Guards i (stop_waiting ∷ waits) c v g = g
  reconnect-Guards i (waited ∷ waits) c v g =
      let r = connect_web_socket lib c v in
      let h = connect-Guards c v g in
      attempted-Guards (delay_before i) r (reconnect_from lib (suc i) waits r.1.0 r.1.1) h
        (reconnect-Guards (suc i) waits r.1.0 r.1.1 h)

  -- Where the loop is, with the handler's world as it was and no panic.
  abbrev pub Listens : W → Listening (State V W) → Type 0
  Listens world (running s) = Safe world s
  Listens world (ended s) = Safe world s
  Listens world (blocked s) = Safe world s
  Listens world crashed = false ≡ true

  Listens-if :
      (world : W) (b : Bool) (x y : Listening (State V W))
      → Listens world x
      → Listens world y
      → Listens world (if b then x else y)
  Listens-if world true x y h k = h
  Listens-if world false x y h k = k

  attempts-Listens :
      (s : State V W) (r : Attempts V) (world : W)
      → Safe world s
      → Guards r.client
      → Listens world (after_attempts lib reader env handler s r)
  unfolding after_attempts
  attempts-Listens s r world safe (g, a) =
      let next : Safe world (record s { client = r.client; net = r.net }) = record {
        guard = g;
        same_allowed = a;
        untouched = safe.untouched;
      } in
      outcomes r.outcome next
    where
      outcomes :
          (o : Reconnected)
          → Safe world (record s { client = r.client; net = r.net })
          → Listens world (elim o [
            | reconnected ↦ running (record s { client = r.client; net = r.net })
            | gave_up ↦ ended (record s { client = r.client; net = r.net })
            | still_waiting ↦ blocked (record s { client = r.client; net = r.net })
          ])
      outcomes reconnected next = next
      outcomes gave_up next = next
      outcomes still_waiting next = next

  rejoin-Listens :
      (r : Round) (s : State V W) (world : W)
      → Safe world s
      → Listens world (rejoin lib reader env handler r s)
  unfolding rejoin reconnect
  rejoin-Listens r s world safe =
      attempts-Listens s (reconnect lib r.waits s.client s.net) world safe
        (reconnect-Guards 0 r.waits s.client s.net (safe.guard, safe.same_allowed))

  handled-Listens :
      (o : Option (State V W)) (world : W)
      → Survives lib reader env handler outside allowed names world o
      → Listens world (handled lib reader env handler o)
  unfolding handled
  handled-Listens none world h = h
  handled-Listens (some s) world h = h

  -- A message of a round, if it is one, is an outsider's.
  abbrev ReadsOutside : Option Text → Type 0
  ReadsOutside none = Unit
  ReadsOutside (some raw) = IsOutside lib reader env handler outside raw

  connected-Listens :
      (r : Round) (o : Option Text) (s : State V W) (world : W)
      → ReadsOutside o
      → Safe world s
      → Listens world (connected_round lib reader env handler r o s)
  unfolding connected_round
  connected-Listens r (some raw) s world out safe =
      handled-Listens (handle_message lib reader env handler raw s) world
        (message-Survives lib reader env handler outside allowed names raw s world out safe)
  connected-Listens r none s world out safe = elim (Bool-cases r.stop_behind) [
    | inl e ↦ rw e safe
    | inr e ↦ rw e (
        rejoin-Listens r (without_connection lib reader env handler s) world (record {
          guard = connects s.client false safe.guard;
          same_allowed = safe.same_allowed;
          untouched = safe.untouched;
        }))
  ]

  round-Listens :
      (r : Round) (s : State V W) (world : W)
      → ReadsOutside r.read
      → Safe world s
      → Listens world (listen_round lib reader env handler r s)
  unfolding listen_round
  round-Listens r s world out safe = Listens-if world r.stop _ _ safe (
      Listens-if world s.client.connected _ _ (connected-Listens r r.read s world out safe)
        (rejoin-Listens r s world safe))

  go_on-Listens :
      (next : State V W → Listening (State V W)) (l : Listening (State V W)) (world : W)
      → ((s : State V W) → Safe world s → Listens world (next s))
      → Listens world l
      → Listens world (go_on lib reader env handler next l)
  unfolding go_on
  go_on-Listens next (running s) world f h = f s h
  go_on-Listens next (ended s) world f h = h
  go_on-Listens next (blocked s) world f h = h
  go_on-Listens next crashed world f h = h

  -- Whatever outsiders write, and however often the connection breaks and comes back, the agents
  -- behind the handler stay as they are and the process goes on: if every post that is read is an
  -- outsider's, some users are allowed, and neither the server nor the cache gives an outsider the
  -- name of one of them.
  pub listen-Listens :
      (rs : List Round) (s : State V W) (world : W)
      → All (λ r. ReadsOutside r.read) rs
      → Safe world s
      → Listens world (listen lib reader env handler rs s)
  unfolding listen
  listen-Listens [] s world out safe = safe
  listen-Listens (r ∷ rs) s world (out, outs) safe =
      go_on-Listens (listen lib reader env handler rs) (listen_round lib reader env handler r s)
        world (λ s' h. listen-Listens rs s' world outs h) (round-Listens r s world out safe)
