-- ===== src/Examples/Serving.antt =====
-- Runs of the server with its clients.
use tokenir.Prelude.{
  text_eq, ℕ, zero, suc, ◌≡◌, refl, Bool, true, false, Option, none, some, List, [], ◌∷◌, ◌++◌, map,
  arith,
}
use tokenir.Prelude.Text.{Text, codes, trim}
use tokenir.Database.{statement, ◌>>=◌}
use tokenir.Database.Clean.{clean}
use tokenir.Database.Users.{get_user_autobuy_status, initialize_tables, create_tables, insert_seed}
use tokenir.Database.Users.Setup.{empty_store}
use tokenir.Server.Sessions.{Sessions, connection_info}
use tokenir.Server.Http.{
  Request, connects, adds_user, removes_user, gets_users, gets_connections, restarts, serve,
  Environment, start, fresh_sessions,
}
use tokenir.Server.Http.Ends.{IsAnswered, serve-IsAnswered}
use tokenir.Server.Http.Harmless.{IsUnharmed}
use tokenir.Server.Http.Outsiders.{AreRefused, serve-outsiders}
use tokenir.Server.Http.Fresh.{RefuseAdding, serve-fresh}
use tokenir.Token.{Token, fresh}
use tokenir.Curve.{default_curve}
use tokenir.Terminal.{UiToken, CreatorHistory}
use tokenir.Terminal.Connection
use tokenir.Terminal.Desktop.{edits, enters, logs_out, saved, uncreated}
use tokenir.Terminal.Desktop.Session.{
  does, looks, look, run, start as open_session, address, address_of, last?,
}
use tokenir.Terminal.Desktop.Session.Current.{run-current}
use tokenir.EndToEnd.{
  Json, IsJson, token, skipped, served, turned_away, Visit, relayed, attempt, told_all,
  subscribe-told,
}
use tokenir.EndToEnd.Bought.{picked, with_answers, bought-picked}
use tokenir.Terminal.{wallet}
use tokenir.Terminal.Flow.{Client, Purchase, receive_all}
use tokenir.Examples.Trading.{client, automata, floats, answered}
use tokenir.Examples.{admin_key, user_key, payload}
use tokenir.Examples.Accounts.{tables-UsersIsValid, quiet_server}

-- The second request ends the server.
serve-IsAnswered_example :
    IsAnswered (connects user_key ∷ restarts admin_key ∷ gets_connections ∷ []) quiet_server
serve-IsAnswered_example =
    serve-IsAnswered (connects user_key ∷ restarts admin_key ∷ gets_connections ∷ []) quiet_server
      refl

abbrev outsiders : List Request
outsiders =
    connects user_key
    ∷ adds_user user_key payload
    ∷ removes_user user_key 1
    ∷ gets_users (codes "nobody")
    ∷ gets_connections
    ∷ restarts user_key
    ∷ []

serve-outsiders_example :
    AreRefused outsiders (serve outsiders quiet_server).0
    × IsUnharmed quiet_server (serve outsiders quiet_server).1
unfolding clean trim
serve-outsiders_example =
    serve-outsiders outsiders quiet_server tables-UsersIsValid refl
      (tt, ((refl, refl), ((refl, refl), ((refl, refl), (tt, ((refl, refl), tt))))))

abbrev environment : Environment
environment = record {
  sql = some (codes "postgres://");
  twitter = some (codes "key");
  rpc_socket = some (codes "wss://");
  connect = λ url. some (empty_store []);
  port_is_free = true;
}

abbrev first_sessions : Sessions
first_sessions = fresh_sessions (initialize_tables (empty_store [])).1

serve-fresh_example :
    let rs = adds_user (codes "af3soy8thnhi06tsqc38talrs4a227ma") payload ∷ [] in
    ((serve rs first_sessions).1.store.tables ≡ first_sessions.store.tables)
    × RefuseAdding rs (serve rs first_sessions).0
unfolding start initialize_tables create_tables insert_seed ◌>>=◌ statement
serve-fresh_example =
    serve-fresh environment (codes "postgres://") [] first_sessions
      (adds_user (codes "af3soy8thnhi06tsqc38talrs4a227ma") payload ∷ []) refl refl refl

-- A key from the file, a logout, and a new key that cannot be saved at first.
run-current_example :
    let hs =
      looks
      ∷ does logs_out
      ∷ does (edits (codes " new "))
      ∷ does (enters uncreated)
      ∷ does (enters saved)
      ∷ [] in
    let d = look (codes "wss://s") (run (codes "wss://s") hs (open_session (some (codes "old")))) in
    let l = (run (codes "wss://s") hs (open_session (some (codes "old")))).launcher in
    (d.subscriptions.current ≡ address_of (codes "wss://s") (last? l.sent))
    × (l.is_logged_in ≡ true
        → (key : Text) × (l.key_file ≡ some key)
          × (d.subscriptions.current ≡ some (address (codes "wss://s") key)))
unfolding trim
run-current_example =
    run-current (codes "wss://s") (some (codes "old"))
      (looks
        ∷ does logs_out
        ∷ does (edits (codes " new "))
        ∷ does (enters uncreated)
        ∷ does (enters saved)
        ∷ [])
      ((λ h. ground arith), refl)

abbrev client_token_named : Text → UiToken
client_token_named name = record {
  mint = codes "mint";
  name = name;
  ticker = codes "TKN";
  mcap = 0;
  dev = codes "dev";
  reserves = 0;
  curve = codes "curve";
  ath = 0;
  twitter = none;
  dev_performance = none;
  migrated = none;
  token_2022 = true;
  metadata_ipfs = none;
  metadata = none;
}

-- An information is marked by its flag, and a token by 2.
abbrev info_text : Bool → ℕ → Text → Text
info_text true id words = 1 ∷ words
info_text false id words = 0 ∷ words

abbrev message_in : Text → Option Connection.ServerMessage
message_in [] = none
message_in (zero ∷ words) = some (Connection.connection_info false words)
message_in (suc zero ∷ words) = some (Connection.connection_info true words)
message_in (suc (suc n) ∷ words) = none

abbrev token_in : Text → Option UiToken
token_in [] = none
token_in (c ∷ name) = some (client_token_named name)

abbrev json : Json
json = record {
  info = info_text;
  token = λ t. 2 ∷ t.name;
  as_message = message_in;
  as_token = token_in;
  client_token = λ t. client_token_named t.name;
}

info_text_read :
    (status : Bool) (id : ℕ) (words : Text)
    → message_in (info_text status id words) ≡ some (Connection.connection_info status words)
info_text_read true id words = refl
info_text_read false id words = refl

json-IsJson : IsJson json
json-IsJson = record { info_read = info_text_read; untagged = λ t. refl; token_read = λ t. refl }

abbrev token_named : Text → Token
token_named name =
    fresh name (codes "TKN") (codes "dev") (codes "curve") none (codes "mint") true none none

-- The user's account may buy; on the second connection only the greeting and one token arrive.
abbrev visits : List Visit
visits =
    served 1
      (token (token_named (codes "A")) true
        ∷ skipped 3
        ∷ token (token_named (codes "B")) false
        ∷ [])
      9 quiet_server
    ∷ turned_away
    ∷ served 2 (token (token_named (codes "C")) true ∷ token (token_named (codes "D")) true ∷ []) 2
        quiet_server
    ∷ []

subscribe-told_example :
    Connection.subscribe message_in token_in (map (attempt json user_key) visits)
    ≡ told_all json user_key visits
subscribe-told_example = subscribe-told json user_key json-IsJson visits

-- What that comes to.
visits_told :
    told_all json user_key visits
    ≡ (client_token_named (codes "A"), true) ∷ (client_token_named (codes "C"), true) ∷ []
unfolding relayed connection_info get_user_autobuy_status clean trim statement fresh
visits_told = refl

-- The developer of all tokens is on the whitelist, which is active.
abbrev keen_client : Client
keen_client = record client {
  whitelist = wallet (codes "dev") ∷ [];
  automata = record automata { active_whitelist = true };
}

-- There is a history for the second token, whose curve is complete.
abbrev answers : ℕ → Option CreatorHistory × Purchase
answers zero = (none, answered default_curve)
answers (suc n) = (
  some (record { total_count = 2; migrated_count = 1 }),
  answered (record default_curve { complete = true }),
)

bought-picked_example :
    (receive_all floats
      (with_answers answers
        (Connection.subscribe message_in token_in (map (attempt json user_key) visits)))
      keen_client).bought
    ≡ keen_client.bought
      ++ picked floats keen_client (with_answers answers (told_all json user_key visits))
bought-picked_example = bought-picked json user_key json-IsJson floats visits answers keen_client
