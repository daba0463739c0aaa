-- ===== src/Mattermost/Client/Reconnect.antt =====
-- `reconnect` of internal/mattermost/client.go. What it meets in a round of its loop is written down
-- as a value.
pub mod Answers
use sexton.Common.{
  ℕ, zero, suc, ◌*◌, ◌≡◌, refl, Bool, true, false, Option, none, some, List, [], ◌∷◌, if◌then◌else◌,
  is_empty, any,
}
use sexton.Common.Duration.{second}
use sexton.Common.Result.{Result, ok, err}
use sexton.Common.Space.{trim_space}
use sexton.Common.Text.{Text, codes, same, elem}
use sexton.Mattermost.Commands.{
  Env, CommandHandler, dispatch, Stripped, unmatched, matched, panicked, strip_trigger_word,
}
use sexton.Mattermost.Client.{Client, Library, connect_web_socket}

-- The table of `reconnect`, and the delay before an attempt: the last one from there on.
abbrev pub delays : List ℕ
delays = 1 * second ∷ 2 * second ∷ 4 * second ∷ 8 * second ∷ 15 * second ∷ 30 * second ∷ []

abbrev pub delay_at : ℕ → List ℕ → ℕ
delay_at i [] = 30 * second
delay_at zero (d ∷ ds) = d
delay_at (suc i) (d ∷ ds) = delay_at i ds

abbrev pub delay_before : ℕ → ℕ
delay_before i = delay_at i delays

-- What a round of `reconnect` meets: a stop, a stop while it waits, or a wait that passes.
pub data Wait : Type 0 where
  stop_before stop_waiting waited : Wait

-- What `reconnect` returns, true or false, or that it has met nothing more yet.
pub data Reconnected : Type 0 where
  reconnected gave_up still_waiting : Reconnected

-- The struct that a run of `reconnect` leaves: the delays it has begun, the first of them first.
pub record Attempts (V : Type 0) : Type 0 where
  pub outcome : Reconnected
  pub begun : List ℕ
  pub client : Client
  pub net : V

module _ {V : Type 0} (lib : Library V) where
  -- The end of a round, by what `connectWebSocket` has returned.
  unfoldable pub attempted : ℕ → Option Text × (Client × V) → Attempts V → Attempts V
  attempted delay (some e, (c, v)) rest = record rest { begun = delay ∷ rest.begun }
  attempted delay (none, (c, v)) rest = record {
    outcome = reconnected;
    begun = delay ∷ [];
    client = c;
    net = v;
  }

  -- The loop of `reconnect` from an attempt on.
  unfoldable pub reconnect_from : ℕ → List Wait → Client → V → Attempts V
  unfolding attempted
  reconnect_from i [] c v = record { outcome = still_waiting; begun = []; client = c; net = v }
  reconnect_from i (stop_before ∷ waits) c v = record {
    outcome = gave_up;
    begun = [];
    client = c;
    net = v;
  }
  reconnect_from i (stop_waiting ∷ waits) c v = record {
    outcome = gave_up;
    begun = delay_before i ∷ [];
    client = c;
    net = v;
  }
  reconnect_from i (waited ∷ waits) c v =
      let r = connect_web_socket lib c v in
      let rest = reconnect_from (suc i) waits r.1.0 r.1.1 in attempted (delay_before i) r rest

  -- `reconnect`.
  unfoldable pub reconnect : List Wait → Client → V → Attempts V
  reconnect waits c v = reconnect_from 0 waits c v
