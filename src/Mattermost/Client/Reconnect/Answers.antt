-- ===== src/Mattermost/Client/Reconnect/Answers.antt =====
-- How long `reconnect` waits, and that it ends with a connection once the server answers.
use sexton.Common.{
  ℕ, zero, suc, ◌+◌, ◌*◌, ◌≤◌, ◌≡◌, refl, true, Option, none, some, List, [], ◌∷◌, ◌++◌, All,
  is_some, arith, ap,
}
use sexton.Common.Duration.{second}
use sexton.Common.Result.{Result, ok, err}
use sexton.Common.Text.{Text}
use sexton.Mattermost.Client.{
  Client, Library, build_web_socket_url, connect_web_socket, dial_to, dialed,
}
use sexton.Mattermost.Client.Reconnect.{
  delay_before, delay_at, delays, Wait, waited, reconnected, Attempts, attempted, reconnect_from,
  reconnect,
}

-- The delays from an attempt on.
abbrev pub delays_from : ℕ → ℕ → List ℕ
delays_from i zero = []
delays_from i (suc n) = delay_before i ∷ delays_from (suc i) n

abbrev pub sum : List ℕ → ℕ
sum [] = 0
sum (n ∷ ns) = n + sum ns

-- So many waits that pass.
abbrev pub waits_of : ℕ → List Wait
waits_of zero = []
waits_of (suc n) = waited ∷ waits_of n

delay_at-bounds :
    (i : ℕ) (ds : List ℕ)
    → All (λ d. (second ≤ d) × (d ≤ 30 * second)) ds
    → (second ≤ delay_at i ds) × (delay_at i ds ≤ 30 * second)
delay_at-bounds i [] h = omega arith
delay_at-bounds zero (d ∷ ds) (hd, h) = hd
delay_at-bounds (suc i) (d ∷ ds) (hd, h) = delay_at-bounds i ds h

delay_before-bounds : (i : ℕ) → (second ≤ delay_before i) × (delay_before i ≤ 30 * second)
delay_before-bounds i = delay_at-bounds i delays (omega arith)

delay_before-grows : (i : ℕ) → delay_before i ≤ delay_before (suc i)
delay_before-grows zero = omega arith
delay_before-grows (suc zero) = omega arith
delay_before-grows (suc (suc zero)) = omega arith
delay_before-grows (suc (suc (suc zero))) = omega arith
delay_before-grows (suc (suc (suc (suc zero)))) = omega arith
delay_before-grows (suc (suc (suc (suc (suc zero))))) = omega arith
delay_before-grows (suc (suc (suc (suc (suc (suc i)))))) = omega arith

sum_bound : (i n : ℕ) → sum (delays_from i n) ≤ n * (30 * second)
sum_bound i zero = omega arith
sum_bound i (suc n) = omega (arith, sum_bound (suc i) n, delay_before-bounds i)

module _ {V : Type 0} (lib : Library V) where
  -- The server answers the dialer for the first time behind so many failures.
  abbrev pub AnswersAfter : ℕ → Client → V → Type 0
  AnswersAfter zero c v = (connect_web_socket lib c v).0 ≡ none
  AnswersAfter (suc k) c v =
      (is_some (connect_web_socket lib c v).0 ≡ true)
      × AnswersAfter k (connect_web_socket lib c v).1.0 (connect_web_socket lib c v).1.1

  dialed-connected :
      (c : Client) (r : Option Text × V)
      → (dialed lib c r).0 ≡ none
      → (dialed lib c r).1.0.connected ≡ true
  unfolding dialed
  dialed-connected c (none, v) h = refl
  dialed-connected c (some e, v) h = cc

  dial_to-connected :
      (c : Client) (url : Result Text Text) (v : V)
      → (dial_to lib c url v).0 ≡ none
      → (dial_to lib c url v).1.0.connected ≡ true
  unfolding dial_to
  dial_to-connected c (err e) v h = cc
  dial_to-connected c (ok url) v h = dialed-connected c (lib.dial url c.token v) h

  connect-connected :
      (c : Client) (v : V)
      → (connect_web_socket lib c v).0 ≡ none
      → (connect_web_socket lib c v).1.0.connected ≡ true
  unfolding connect_web_socket
  connect-connected c v h = dial_to-connected c (build_web_socket_url lib c) v h

  -- What a run has reached that ends with a connection.
  abbrev Arrives : List ℕ → Attempts V → Type 0
  Arrives begun r = (r.outcome ≡ reconnected) × (r.client.connected ≡ true) × (r.begun ≡ begun)

  attempted-none :
      (delay : ℕ) (r : Option Text × (Client × V)) (rest : Attempts V)
      → r.0 ≡ none
      → r.1.0.connected ≡ true
      → Arrives (delay ∷ []) (attempted lib delay r rest)
  unfolding attempted
  attempted-none delay (none, (c, v)) rest h k = (refl, k, refl)
  attempted-none delay (some e, (c, v)) rest h k = cc

  attempted-some :
      (delay : ℕ) (r : Option Text × (Client × V)) (rest : Attempts V) (begun : List ℕ)
      → is_some r.0 ≡ true
      → Arrives begun rest
      → Arrives (delay ∷ begun) (attempted lib delay r rest)
  unfolding attempted
  attempted-some delay (none, (c, v)) rest begun h k = cc
  attempted-some delay (some e, (c, v)) rest begun h (x, y, z) = (x, y, ap (λ ds. delay ∷ ds) z)

  reconnect_from-answers :
      (k i : ℕ) (later : List Wait) (c : Client) (v : V)
      → AnswersAfter k c v
      → Arrives (delays_from i (suc k)) (reconnect_from lib i (waits_of (suc k) ++ later) c v)
  unfolding reconnect_from
  reconnect_from-answers zero i later c v h =
      let r = connect_web_socket lib c v in
      attempted-none (delay_before i) r (reconnect_from lib (suc i) later r.1.0 r.1.1) h
        (connect-connected c v h)
  reconnect_from-answers (suc k) i later c v (h, hs) =
      let r = connect_web_socket lib c v in
      attempted-some (delay_before i) r
        (reconnect_from lib (suc i) (waits_of (suc k) ++ later) r.1.0 r.1.1)
        (delays_from (suc i) (suc k)) h (reconnect_from-answers k (suc i) later r.1.0 r.1.1 hs)

  -- If the server answers the dialer behind `k` failures and no stop is asked for, `reconnect` ends
  -- with a connection at that attempt, whatever would follow. It has waited before each attempt, at
  -- least a second and at most thirty, so at most `k + 1` times thirty seconds in all, and no delay
  -- is shorter than the one before it.
  pub reconnect-answers :
      (k : ℕ) (later : List Wait) (c : Client) (v : V)
      → AnswersAfter k c v
      → ((reconnect lib (waits_of (suc k) ++ later) c v).outcome ≡ reconnected)
        × ((reconnect lib (waits_of (suc k) ++ later) c v).client.connected ≡ true)
        × ((reconnect lib (waits_of (suc k) ++ later) c v).begun ≡ delays_from 0 (suc k))
        × (sum (delays_from 0 (suc k)) ≤ suc k * (30 * second))
        × ((i : ℕ)
            → (second ≤ delay_before i)
              × (delay_before i ≤ 30 * second)
              × (delay_before i ≤ delay_before (suc i)))
  unfolding reconnect
  reconnect-answers k later c v h =
      let (outcome, connected, begun) = reconnect_from-answers k 0 later c v h in
      (
        outcome,
        connected,
        begun,
        sum_bound 0 (suc k),
        λ i. ((delay_before-bounds i).0, (delay_before-bounds i).1, delay_before-grows i),
      )
