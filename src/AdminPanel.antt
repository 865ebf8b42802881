-- ===== src/AdminPanel.antt =====
-- tokenir_admin/src/main.rs: the administrators' panel, which asks the admin handlers of the server. A
-- request runs in a task of its own, which ends with an event or without one.
pub mod Loading
use tokenir.Prelude.{ℕ, zero, suc, Bool, true, false, Option, none, some, List, [], ◌∷◌, ◌++◌}
use tokenir.Prelude.Text.{Text, codes}

pub record User : Type 0 where
  pub id : ℕ
  pub access_key : Option Text
  pub hint : Option Text
  pub admin : Bool
  pub autobuy : Bool

pub record AddUserPayload : Type 0 where
  pub provided_key : Text
  pub hint : Text
  pub autobuy : Bool

-- The address and the body, with the administrator's key.
pub data Request : Type 0 where
  gets_users : Text → Text → Request
  restarts : Text → Text → Request
  adds_user : Text → Text → AddUserPayload → Request
  removes_user : Text → Text → ℕ → Request

pub data AppEvent : Type 0 where
  users_fetched : List User → AppEvent
  user_added user_removed server_restarted : AppEvent
  error : Text → AppEvent

-- How a request ended: a status of success and the users that the body parses to, another status, or
-- no response.
pub data Response : Type 0 where
  success : Option (List User) → Response
  status : Text → Response
  unreachable : Text → Response

-- `requests` are those whose tasks run.
pub record AdminApp : Type 0 where
  pub api_url : Text
  pub admin_key : Text
  pub new_user_key : Text
  pub new_user_hint : Text
  pub new_user_autobuy : Bool
  pub users : List User
  pub status_line : Text
  pub is_loading : Bool
  pub requests : List Request
  pub events : List AppEvent

abbrev spawns : Request → AdminApp → AdminApp
spawns r a = record a { requests = a.requests ++ (r ∷ []); is_loading = true }

unfoldable pub fetch_users : AdminApp → AdminApp
fetch_users a =
    spawns (gets_users (a.api_url ++ codes "/admin/users") a.admin_key)
      (record a { status_line = codes "Fetching users..." })

unfoldable pub restart_server : AdminApp → AdminApp
restart_server a = spawns (restarts (a.api_url ++ codes "/admin/restart") a.admin_key) a

abbrev add_keyed : Text → AdminApp → AdminApp
add_keyed [] a = a
add_keyed (c ∷ key) a =
    spawns
      (adds_user (a.api_url ++ codes "/admin/add_user") a.admin_key
        (record { provided_key = c ∷ key; hint = a.new_user_hint; autobuy = a.new_user_autobuy }))
      a

unfoldable pub add_user : AdminApp → AdminApp
add_user a = add_keyed a.new_user_key a

unfoldable pub remove_user : ℕ → AdminApp → AdminApp
remove_user user_id a =
    spawns (removes_user (a.api_url ++ codes "/admin/remove_user") a.admin_key user_id) a

-- With the key of the environment, if there is one.
abbrev started : Text → AdminApp → AdminApp
started [] a = a
started (c ∷ key) a = fetch_users a

unfoldable pub new : Text → Text → AdminApp
new api_url admin_key = started admin_key (record {
  api_url = api_url;
  admin_key = admin_key;
  new_user_key = [];
  new_user_hint = [];
  new_user_autobuy = true;
  users = [];
  status_line = codes "Ready.";
  is_loading = false;
  requests = [];
  events = [];
})

-- The event that the task of a request sends.
unfoldable pub event_of : Request → Response → Option AppEvent
event_of (gets_users url key) (success (some users)) = some (users_fetched users)
event_of (gets_users url key) (success none) = none
event_of (gets_users url key) (status s) = some (error s)
event_of (gets_users url key) (unreachable e) = some (error e)
event_of (restarts url key) (success users) = some server_restarted
event_of (restarts url key) (status s) = some (error (codes "Fail: " ++ s))
event_of (restarts url key) (unreachable e) = some (error e)
event_of (adds_user url key payload) (success users) = some user_added
event_of (adds_user url key payload) (status s) = some (error (codes "Failed to add"))
event_of (adds_user url key payload) (unreachable e) = some (error (codes "Failed to add"))
event_of (removes_user url key user_id) (success users) = some user_removed
event_of (removes_user url key user_id) (status s) = some (error (codes "Failed to remove"))
event_of (removes_user url key user_id) (unreachable e) = some (error (codes "Failed to remove"))

unfoldable pub on_event : AppEvent → AdminApp → AdminApp
on_event (users_fetched users) a = record a {
  users = users;
  status_line = codes "Users loaded";
  is_loading = false;
}
on_event user_added a = fetch_users (record a { new_user_key = []; is_loading = false })
on_event user_removed a = fetch_users (record a { is_loading = false })
on_event server_restarted a = record a { status_line = codes "Restarted!"; is_loading = false }
on_event (error e) a = record a { status_line = codes "Error: " ++ e; is_loading = false }

-- The events that are there are handled before the window is drawn.
unfoldable pub on_events : List AppEvent → AdminApp → AdminApp
on_events [] a = a
on_events (e ∷ es) a = on_events es (on_event e a)

pub data Action : Type 0 where
  types_admin_key types_api_url types_user_key types_user_hint : Text → Action
  checks_autobuy : Bool → Action
  refreshes restarts_server adds : Action
  removes : ℕ → Action

-- A random key is typed for the user.
unfoldable pub act : Action → AdminApp → AdminApp
act (types_admin_key t) a = record a { admin_key = t }
act (types_api_url t) a = record a { api_url = t }
act (types_user_key t) a = record a { new_user_key = t }
act (types_user_hint t) a = record a { new_user_hint = t }
act (checks_autobuy b) a = record a { new_user_autobuy = b }
act refreshes a = fetch_users a
act restarts_server a = restart_server a
act adds a = add_user a
act (removes user_id) a = remove_user user_id a

abbrev sends : Option AppEvent → AdminApp → AdminApp
sends none a = a
sends (some e) a = record a { events = a.events ++ (e ∷ []) }

-- The task of the n-th request ends.
abbrev beside : Request → Option (Request × List Request) → Option (Request × List Request)
beside r none = none
beside r (some (q, rs)) = some (q, r ∷ rs)

abbrev taken : ℕ → List Request → Option (Request × List Request)
taken n [] = none
taken zero (r ∷ rs) = some (r, rs)
taken (suc n) (r ∷ rs) = beside r (taken n rs)

abbrev ends_one : Option (Request × List Request) → Response → AdminApp → AdminApp
ends_one none response a = a
ends_one (some (r, rs)) response a = sends (event_of r response) (record a { requests = rs })

pub data Step : Type 0 where
  ends : ℕ → Response → Step
  frame : Action → Step

unfoldable pub step : Step → AdminApp → AdminApp
step (ends n response) a = ends_one (taken n a.requests) response a
step (frame action) a = act action (on_events a.events (record a { events = [] }))

unfoldable pub run : List Step → AdminApp → AdminApp
run [] a = a
run (s ∷ steps) a = run steps (step s a)
