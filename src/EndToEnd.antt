-- ===== src/EndToEnd.antt =====
-- What the server tells a client: `handle_socket` of tokenir/src/main.rs at one end of a connection, and
-- `subscribe` of tokenir_ui/src/fetcher.rs at the other.
pub mod Bought
use tokenir.Prelude.{
  ℕ, zero, suc, ◌≡◌, refl, ap, ◌∙◌, Bool, true, false, Option, none, some, List, [], ◌∷◌, ◌++◌, map,
  take,
}
use tokenir.Prelude.Text.{Text}
use tokenir.Token.{Token}
use tokenir.Terminal.{UiToken}
use tokenir.Terminal.Connection
use tokenir.Terminal.Connection.{ServerMessage, connection_info, Calls}
use tokenir.Server.Sessions
use tokenir.Server.Sessions.{Sessions}
use tokenir.Server.Relay.{
  Broadcast, message, lagged, closed, send_task, greeting, status_words, handle_socket,
}

-- `serde_json` at both ends: the texts of the server, and what the client reads in a text.
pub record Json : Type 0 where
  pub info : Bool → ℕ → Text → Text
  pub token : Token → Text
  pub as_message : Text → Option ServerMessage
  pub as_token : Text → Option UiToken
  pub client_token : Token → UiToken

-- A connection information is read as such. A token has no `type`, so it is no tagged message, and is
-- read as a token.
pub record IsJson (j : Json) : Type 0 where
  pub info_read :
      (status : Bool) (id : ℕ) (words : Text)
      → j.as_message (j.info status id words) ≡ some (connection_info status words)
  pub untagged : (t : Token) → j.as_message (j.token t) ≡ none
  pub token_read : (t : Token) → j.as_token (j.token t) ≡ some (j.client_token t)

-- What the broadcast channel brings while a socket is served: a token, and whether it can be sent.
pub data Brought : Type 0 where
  token : Token → Bool → Brought
  skipped : ℕ → Brought
  shut : Brought

abbrev pub as_broadcast : Json → Brought → Broadcast
as_broadcast j (token t sent) = message (j.token t) sent
as_broadcast j (skipped n) = lagged n
as_broadcast j shut = closed

-- The tokens that are sent: those before the channel or the socket breaks.
unfoldable pub relayed : List Brought → List Token
relayed [] = []
relayed (token t true ∷ rest) = t ∷ relayed rest
relayed (token t false ∷ rest) = []
relayed (skipped n ∷ rest) = relayed rest
relayed (shut ∷ rest) = []

-- One turn of the client's loop. The server's state is that in which the socket is served, and only
-- the first texts arrive.
pub data Visit : Type 0 where
  turned_away : Visit
  served : ℕ → List Brought → ℕ → Sessions → Visit

module _ (j : Json) (key : Text) where
  abbrev pub attempt : Visit → Connection.Attempt
  attempt turned_away = Connection.refused
  attempt (served id brought arrived s) = Connection.connected (
      map Connection.message
        (take arrived (handle_socket j.info key id true (map (as_broadcast j) brought) s).0))

  -- The tokens that arrive behind the greeting, all under the flag of the account.
  abbrev pub labelled_tokens : ℕ → List Brought → Bool → Calls
  labelled_tokens zero brought status = []
  labelled_tokens (suc n) brought status =
      map (λ t. (j.client_token t, status)) (take n (relayed brought))

  abbrev pub told : Visit → Calls
  told turned_away = []
  told (served id brought arrived s) =
      labelled_tokens arrived brought (Sessions.connection_info key s).0

  abbrev pub told_all : List Visit → Calls
  told_all [] = []
  told_all (v ∷ vs) = told v ++ told_all vs

  take-map-json :
      (n : ℕ) (brought : List Brought)
      → take n (send_task (map (as_broadcast j) brought)) ≡ map j.token (take n (relayed brought))
  unfolding send_task relayed
  take-map-json zero brought = refl
  take-map-json (suc n) [] = refl
  take-map-json (suc n) (token t true ∷ rest) = ap (◌∷◌ (j.token t)) (take-map-json n rest)
  take-map-json (suc n) (token t false ∷ rest) = refl
  take-map-json (suc n) (skipped k ∷ rest) = take-map-json (suc n) rest
  take-map-json (suc n) (shut ∷ rest) = refl

  read-tokens :
      IsJson j
      → (ts : List Token) (b : Bool)
      → Connection.read j.as_message j.as_token (map Connection.message (map j.token ts)) b
        ≡ (map (λ t. (j.client_token t, b)) ts, b)
  unfolding Connection.read Connection.on_received
  read-tokens h [] b = refl
  read-tokens h (t ∷ ts) b = rw (h.untagged t, h.token_read t) (rw (read-tokens h ts b) refl)

  abbrev flag_after : Visit → Bool → Bool
  flag_after turned_away b = b
  flag_after (served id brought zero s) b = b
  flag_after (served id brought (suc n) s) b = (Sessions.connection_info key s).0

  read-info :
      (text words : Text) (rs : List Connection.Received) (status b : Bool)
      → j.as_message text ≡ some (connection_info status words)
      → Connection.read j.as_message j.as_token (Connection.message text ∷ rs) b
        ≡ Connection.read j.as_message j.as_token rs status
  unfolding Connection.read Connection.on_received
  read-info text words rs status b h = rw h refl

  read_lem :
      IsJson j
      → (id : ℕ) (brought : List Brought) (arrived : ℕ) (s : Sessions) (b : Bool)
      → Connection.read j.as_message j.as_token
          (map Connection.message
            (take arrived (handle_socket j.info key id true (map (as_broadcast j) brought) s).0))
          b
        ≡ (told (served id brought arrived s), flag_after (served id brought arrived s) b)
  unfolding handle_socket greeting
  read_lem h id brought zero s b = unfold Connection.read in refl
  read_lem h id brought (suc n) s b =
      let status = (Sessions.connection_info key s).0 in
      let words = status_words status in
      rw (take-map-json n brought) (
        read-info (j.info status id words) words
          (map Connection.message (map j.token (take n (relayed brought)))) status b
          (h.info_read status id words)
        ∙ read-tokens h (take n (relayed brought)) status)

  subscribe_from-told :
      IsJson j
      → (visits : List Visit) (b : Bool)
      → Connection.subscribe_from j.as_message j.as_token (map attempt visits) b ≡ told_all visits
  unfolding Connection.subscribe_from
  subscribe_from-told h [] b = refl
  subscribe_from-told h (turned_away ∷ visits) b = subscribe_from-told h visits b
  subscribe_from-told h (served id brought arrived s ∷ visits) b =
      rw (read_lem h id brought arrived s b)
        (rw (subscribe_from-told h visits (flag_after (served id brought arrived s) b)) refl)

  -- Where the client reads the JSON of the server back, the first message of each connection is sent, and
  -- of what is sent on each connection the first texts arrive, the client hands on exactly the tokens
  -- that arrive, in their order, each under the flag that the database held for the key when its own
  -- connection was greeted. Nothing that was said on another connection counts.
  pub subscribe-told :
      IsJson j
      → (visits : List Visit)
      → Connection.subscribe j.as_message j.as_token (map attempt visits) ≡ told_all visits
  unfolding Connection.subscribe
  subscribe-told h visits = subscribe_from-told h visits false
