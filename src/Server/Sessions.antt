-- ===== src/Server/Sessions.antt =====
-- `ws_handler`, the ends of `handle_socket`, and the admin handlers of tokenir/src/main.rs.
--
-- A session is live from the moment the upgrade is granted until its socket handler has cleaned up,
-- or until the upgrade itself fails, which runs no handler. What a socket sends and receives in
-- between is input and output only.
pub mod Single
pub mod Lockout
pub mod Admin
use tokenir.Prelude.{
  text_eq, nat_eq, ℕ, ◌+◌, ◌%◌, ◌^◌, ◌-◌, Bool, true, false, ◌||◌, Option, none, some, List, [],
  ◌∷◌, ◌==◌, nat_beq, leb, if◌then◌else◌, length,
}
use tokenir.Prelude.Map.{Map, get, insert, remove}
use tokenir.Prelude.Text.{Text, byte_length}
use tokenir.Database.{Store, Result, ok, err}
use tokenir.Database.Users.{
  AddUserPayload, User, validate_user_key, get_user_autobuy_status, get_key_by_id, add_user,
  remove_user, fetch_all_users,
}

-- The part of `AppState` that these handlers use. `signals` counts what was sent to `shutdown_tx`,
-- `live` holds the key of each live session.
pub record Sessions : Type 0 where
  pub store : Store
  pub active_connections : Map Text ℕ
  pub next_session_id : ℕ
  pub signals : ℕ
  pub live : Map ℕ Text

pub data Reply : Type 0 where
  upgraded : ℕ → Reply
  conflict : Reply
  forbidden : Reply

-- The entry of the key decides, and the number is used up either way.
abbrev pub admit : Text → ℕ → Option ℕ → Sessions → Reply × Sessions
admit key id (some old) s = (conflict, s)
admit key id none s = (
  upgraded id,
  record s { active_connections = insert key id s.active_connections; live = insert id key s.live },
)

abbrev pub authorized : Text → Result Bool → Sessions → Reply × Sessions
authorized key (ok true) s =
    admit key s.next_session_id (get key s.active_connections)
      (record s { next_session_id = (s.next_session_id + 1) % 2 ^ 64 })
authorized key (ok false) s = (forbidden, s)
authorized key (err e) s = (forbidden, s)

unfoldable pub ws_handler : Text → Sessions → Reply × Sessions
ws_handler key s =
    let (valid, store) = validate_user_key key s.store in
    authorized key valid (record s { store = store })

-- The first message of `handle_socket`: whether the account buys by itself.
abbrev or_false : Result Bool → Bool
or_false (ok b) = b
or_false (err e) = false

unfoldable pub connection_info : Text → Sessions → Bool × Sessions
connection_info key s =
    let (status, store) = get_user_autobuy_status key s.store in
    (or_false status, record s { store = store })

-- The end of `handle_socket`: the entry goes only if it is this session's.
abbrev removed_if : Text → ℕ → Option ℕ → Map Text ℕ → Map Text ℕ
removed_if key id none m = m
removed_if key id (some current) m = if nat_beq current id then remove key m else m

unfoldable pub cleanup : Text → ℕ → Map Text ℕ → Map Text ℕ
cleanup key id m = removed_if key id (get key m) m

unfoldable pub socket_closed : Text → ℕ → Sessions → Sessions
unfolding cleanup
socket_closed key id s = record s {
  active_connections = cleanup key id s.active_connections;
  live = remove id s.live;
}

-- The connection breaks before the upgrade is done: the callback of `on_upgrade` never runs.
unfoldable pub upgrade_failed : ℕ → Sessions → Sessions
upgrade_failed id s = record s { live = remove id s.live }

pub data Status : Type 0 where
  status_ok status_forbidden status_internal_error : Status

abbrev pub status_of : {A : Type 0} → Status → Result A → Status
status_of failure (ok a) = status_ok
status_of failure (err e) = failure

unfoldable pub add_user_handler : Text → AddUserPayload → Sessions → Status × Sessions
add_user_handler admin_key payload s =
    let (r, store) = add_user admin_key payload s.store in
    (status_of status_forbidden r, record s { store = store })

abbrev revoked : Result Text → Map Text ℕ → Map Text ℕ
revoked (ok key) m = remove key m
revoked (err e) m = m

abbrev remove_outcome : Result Text → Result (Unit {0}) → Sessions → Status × Sessions
remove_outcome target (ok u) s =
    (status_ok, record s { active_connections = revoked target s.active_connections })
remove_outcome target (err e) s = (status_internal_error, s)

unfoldable pub remove_user_handler : Text → ℕ → Sessions → Status × Sessions
remove_user_handler admin_key user_id s =
    let (target, store) = get_key_by_id user_id s.store in
    let (r, store') = remove_user admin_key user_id store in
    remove_outcome target r (record s { store = store' })

abbrev users_or_none : Result (List User) → Option (List User)
users_or_none (ok users) = some users
users_or_none (err e) = none

-- `none` is 403.
unfoldable pub get_users_handler : Text → Sessions → Option (List User) × Sessions
get_users_handler admin_key s =
    let (r, store) = fetch_all_users admin_key s.store in
    (users_or_none r, record s { store = store })

unfoldable pub get_connections_handler : Sessions → ℕ × Map Text ℕ
get_connections_handler s = (length s.active_connections, s.active_connections)

-- `&key[key.len().saturating_sub(4)..]` panics where byte `len - 4` is inside a character.
unfoldable pub has_suffix : ℕ → Text → Bool
has_suffix n [] = nat_beq n 0
has_suffix n (c ∷ s) = nat_beq (byte_length (c ∷ s)) n || has_suffix n s

abbrev pub tail_is_sliceable : Text → Bool
tail_is_sliceable key = if leb (byte_length key) 4 then true else has_suffix 4 key

-- `none` is a panic, which sends no signal.
abbrev pub restart_outcome : Text → Result (List User) → Sessions → Option Status × Sessions
restart_outcome admin_key (err e) s = (some status_forbidden, s)
restart_outcome admin_key (ok users) s =
    if tail_is_sliceable admin_key
    then (some status_ok, record s { signals = s.signals + 1 })
    else (none, s)

unfoldable pub restart_handler : Text → Sessions → Option Status × Sessions
unfolding has_suffix byte_length
restart_handler admin_key s =
    let (r, store) = fetch_all_users admin_key s.store in
    restart_outcome admin_key r (record s { store = store })

-- What happens to the sessions, one thing after another.
pub data Occurrence : Type 0 where
  connects : Text → Occurrence
  closes : Text → ℕ → Occurrence
  fails : ℕ → Occurrence
  removes : Text → ℕ → Occurrence

unfoldable pub step : Occurrence → Sessions → Sessions
step (connects key) s = (ws_handler key s).1
step (closes key id) s = socket_closed key id s
step (fails id) s = upgrade_failed id s
step (removes admin_key user_id) s = (remove_user_handler admin_key user_id s).1

unfoldable pub run : List Occurrence → Sessions → Sessions
unfolding step
run [] s = s
run (o ∷ os) s = run os (step o s)
