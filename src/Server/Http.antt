-- ===== src/Server/Http.antt =====
-- The start and the router of tokenir/src/main.rs: `main` up to the listening socket, the addresses that
-- it serves, and the end by `restart_handler`.
--
-- A request is handled as a whole before the next. The signal to shut down ends the serving: no
-- request is taken after it, and the process exits with 0.
pub mod Ends
pub mod Harmless
pub mod Outsiders
pub mod Fresh
use tokenir.Prelude.{
  text_eq, ℕ, Bool, true, false, ◌&&◌, Option, none, some, List, [], ◌∷◌, ◌==◌, ltb, if◌then◌else◌,
}
use tokenir.Prelude.Map.{Map}
use tokenir.Prelude.Text.{Text, codes}
use tokenir.Database.{Store, Result, ok, err}
use tokenir.Database.Users.{AddUserPayload, User, initialize_tables}
use tokenir.Server.Sessions.{
  Sessions, Reply, Status, ws_handler, add_user_handler, remove_user_handler, get_users_handler,
  get_connections_handler, restart_handler,
}

pub data Method : Type 0 where
  http_get http_post : Method

pub data Endpoint : Type 0 where
  ws add_user remove_user users connections restart : Endpoint

pub data Routed : Type 0 where
  to : Endpoint → Routed
  method_not_allowed : Routed
  not_found : Routed

abbrev only : Method → Endpoint → Method → Routed
only http_get e http_get = to e
only http_get e http_post = method_not_allowed
only http_post e http_get = method_not_allowed
only http_post e http_post = to e

-- The layer for other origins is left out.
unfoldable pub route : Method → Text → Routed
route m path =
    if path == codes "/ws"
    then only http_get ws m
    else if path == codes "/admin/add_user"
    then only http_post add_user m
    else if path == codes "/admin/remove_user"
    then only http_post remove_user m
    else if path == codes "/admin/users"
    then only http_post users m
    else if path == codes "/admin/connections"
    then only http_get connections m
    else if path == codes "/admin/restart"
    then only http_post restart m
    else not_found

-- A request with what its query or body holds, after the router.
pub data Request : Type 0 where
  connects : Text → Request
  adds_user : Text → AddUserPayload → Request
  removes_user : Text → ℕ → Request
  gets_users : Text → Request
  gets_connections : Request
  restarts : Text → Request

pub data Response : Type 0 where
  replies : Reply → Response
  says : Status → Response
  shows : Option (List User) → Response
  lists : ℕ × Map Text ℕ → Response
  restarted : Status → Response

abbrev pub restart_response : Option Status → Option Response
restart_response none = none
restart_response (some status) = some (restarted status)

-- `none` is a panic of the handler: its connection ends without a response.
unfoldable pub handle : Request → Sessions → Option Response × Sessions
handle (connects key) s = let (r, s') = ws_handler key s in (some (replies r), s')
handle (adds_user key payload) s =
    let (r, s') = add_user_handler key payload s in (some (says r), s')
handle (removes_user key id) s = let (r, s') = remove_user_handler key id s in (some (says r), s')
handle (gets_users key) s = let (r, s') = get_users_handler key s in (some (shows r), s')
handle gets_connections s = (some (lists (get_connections_handler s)), s)
handle (restarts key) s = let (r, s') = restart_handler key s in (restart_response r, s')

unfoldable pub serve : List Request → Sessions → List (Option Response) × Sessions
serve [] s = ([], s)
serve (r ∷ rs) s =
    let (now, s') = handle r s in
    let (later, s'') = serve rs s' in if ltb 0 s.signals then ([], s) else (now ∷ later, s'')

-- The variables that `main` reads, whether the database can be reached and the port is free.
pub record Environment : Type 0 where
  pub sql : Option Text
  pub twitter : Option Text
  pub rpc_socket : Option Text
  pub connect : Text → Option Store
  pub port_is_free : Bool

pub data Startup : Type 0 where
  panics : Startup
  fails : Startup
  serves : Sessions → Startup

abbrev pub fresh_sessions : Store → Sessions
fresh_sessions store = record {
  store = store;
  active_connections = [];
  next_session_id = 0;
  signals = 0;
  live = [];
}

abbrev listened : Bool → Store → Startup
listened false store = fails
listened true store = serves (fresh_sessions store)

abbrev with_rpc : Environment → Option Text → Store → Startup
with_rpc env none store = panics
with_rpc env (some rpc_url) store = listened env.port_is_free store

abbrev with_twitter : Environment → Option Text → Store → Startup
with_twitter env none store = panics
with_twitter env (some key) store = with_rpc env env.rpc_socket store

abbrev initialized : Environment → Result (Unit {0}) → Store → Startup
initialized env (err e) store = fails
initialized env (ok u) store = with_twitter env env.twitter store

abbrev connected : Environment → Option Store → Startup
connected env none = fails
connected env (some store) = let (r, store') = initialize_tables store in initialized env r store'

abbrev with_sql : Environment → Option Text → Startup
with_sql env none = panics
with_sql env (some url) = connected env (env.connect url)

-- The tables are made before the other variables are read.
unfoldable pub start : Environment → Startup
start env = with_sql env env.sql
