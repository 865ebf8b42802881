-- ===== src/Terminal/Connection.antt =====
-- tokenir_ui/src/fetcher.rs: the client's connections to the server and the messages that they bring.
use tokenir.Prelude.{
  ◌≡◌, refl, sym, ap, ◌∙◌, Bool, false, Option, none, some, List, [], ◌∷◌, ◌++◌, arith,
  append_assoc, append-nil,
}
use tokenir.Prelude.Text.{Text}
use tokenir.Terminal.{UiToken}

pub data ServerMessage : Type 0 where
  connection_info : Bool → Text → ServerMessage
  new_token : UiToken → ServerMessage

pub data Received : Type 0 where
  failed : Received
  message : Text → Received

-- One turn of the outer loop.
pub data Attempt : Type 0 where
  refused : Attempt
  connected : List Received → Attempt

abbrev pub Calls : Type 0
Calls = List (UiToken × Bool)

module _ (parse_message : Text → Option ServerMessage) (parse_token : Text → Option UiToken) where
  -- What a message says: a flag, a token, or nothing.
  abbrev as_token : Option UiToken → Bool → Calls × Bool
  as_token none autobuy = ([], autobuy)
  as_token (some token) autobuy = ((token, autobuy) ∷ [], autobuy)

  abbrev on_message : Option ServerMessage → Text → Bool → Calls × Bool
  on_message (some (connection_info ab words)) text autobuy = ([], ab)
  on_message (some (new_token token)) text autobuy = ((token, autobuy) ∷ [], autobuy)
  on_message none text autobuy = as_token (parse_token text) autobuy

  -- An error in the stream is passed over.
  unfoldable pub on_received : Received → Bool → Calls × Bool
  on_received failed autobuy = ([], autobuy)
  on_received (message text) autobuy = on_message (parse_message text) text autobuy

  unfoldable pub read : List Received → Bool → Calls × Bool
  read [] autobuy = ([], autobuy)
  read (r ∷ rs) autobuy =
      let (now, flag) = on_received r autobuy in
      let (later, last) = read rs flag in (now ++ later, last)

  unfoldable pub subscribe_from : List Attempt → Bool → Calls
  subscribe_from [] autobuy = []
  subscribe_from (refused ∷ attempts) autobuy = subscribe_from attempts autobuy
  subscribe_from (connected rs ∷ attempts) autobuy =
      let (now, flag) = read rs autobuy in now ++ subscribe_from attempts flag

  unfoldable pub subscribe : List Attempt → Calls
  subscribe attempts = subscribe_from attempts false

  -- What was received on all connections.
  abbrev pub heard : List Attempt → List Received
  heard [] = []
  heard (refused ∷ attempts) = heard attempts
  heard (connected rs ∷ attempts) = rs ++ heard attempts

  abbrev info_of : Option ServerMessage → Option Bool
  info_of (some (connection_info ab words)) = some ab
  info_of (some (new_token token)) = none
  info_of none = none

  abbrev info_in : Received → Option Bool
  info_in failed = none
  info_in (message text) = info_of (parse_message text)

  abbrev token_of : Option ServerMessage → Text → Option UiToken
  token_of (some (connection_info ab words)) text = none
  token_of (some (new_token token)) text = some token
  token_of none text = parse_token text

  abbrev token_in : Received → Option UiToken
  token_in failed = none
  token_in (message text) = token_of (parse_message text) text

  abbrev first_of : Option Bool → Option Bool → Option Bool
  first_of none b = b
  first_of (some a) b = some a

  -- The last information among the messages.
  abbrev pub last_info : List Received → Option Bool
  last_info [] = none
  last_info (r ∷ rs) = first_of (last_info rs) (info_in r)

  abbrev or_false : Option Bool → Bool
  or_false none = false
  or_false (some b) = b

  abbrev with_flag : Option UiToken → Bool → Calls
  with_flag none b = []
  with_flag (some token) b = (token, b) ∷ []

  -- Each token with the last information before it.
  unfoldable pub labelled : List Received → List Received → Calls
  labelled past [] = []
  labelled past (r ∷ rs) =
      with_flag (token_in r) (or_false (last_info past)) ++ labelled (past ++ (r ∷ [])) rs

  last_info-append :
      (past : List Received) (r : Received)
      → last_info (past ++ (r ∷ [])) ≡ first_of (info_in r) (last_info past)
  last_info-append [] r = ground arith
  last_info-append (q ∷ past) r = ground (arith, last_info-append past r)

  on_received_lem :
      (past : List Received) (r : Received)
      → let b = or_false (last_info past) in
        ((on_received r b).0 ≡ with_flag (token_in r) b)
        × ((on_received r b).1 ≡ or_false (last_info (past ++ (r ∷ []))))
  unfolding on_received
  on_received_lem past r = ground (arith, last_info-append past r)

  read-labelled :
      (past rs : List Received)
      → let b = or_false (last_info past) in
        ((read rs b).0 ≡ labelled past rs) × ((read rs b).1 ≡ or_false (last_info (past ++ rs)))
  unfolding read labelled
  read-labelled past [] = (refl, ap (λ p. or_false (last_info p)) (sym (append-nil past)))
  read-labelled past (r ∷ rs) =
      let e = on_received_lem past r in
      let ih = read-labelled (past ++ (r ∷ [])) rs in
      (
        rw (e.0, e.1, ih.0) refl,
        rw e.1 (ih.1 ∙ ap (λ p. or_false (last_info p)) (append_assoc past (r ∷ []) rs)),
      )

  labelled-append :
      (past xs ys : List Received)
      → labelled past (xs ++ ys) ≡ labelled past xs ++ labelled (past ++ xs) ys
  unfolding labelled
  labelled-append past [] ys = ap (λ p. labelled p ys) (sym (append-nil past))
  labelled-append past (x ∷ xs) ys =
      rw (labelled-append (past ++ (x ∷ [])) xs ys, append_assoc past (x ∷ []) xs)
        (sym (append_assoc (with_flag (token_in x) (or_false (last_info past))) _ _))

  subscribe_from-labelled :
      (past : List Received) (attempts : List Attempt)
      → subscribe_from attempts (or_false (last_info past)) ≡ labelled past (heard attempts)
  unfolding subscribe_from labelled
  subscribe_from-labelled past [] = refl
  subscribe_from-labelled past (refused ∷ attempts) = subscribe_from-labelled past attempts
  subscribe_from-labelled past (connected rs ∷ attempts) =
      let e = read-labelled past rs in
      rw (e.0, e.1, subscribe_from-labelled (past ++ rs) attempts)
        (sym (labelled-append past rs (heard attempts)))

  -- Across all connections, each token is handed on with what the server last said of autobuy before
  -- it, on whichever connection, and with `false` where it said nothing yet.
  pub subscribe-labelled :
      (attempts : List Attempt) → subscribe attempts ≡ labelled [] (heard attempts)
  unfolding subscribe
  subscribe-labelled attempts = subscribe_from-labelled [] attempts
