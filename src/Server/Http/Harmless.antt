-- ===== src/Server/Http/Harmless.antt =====
-- What one request of a caller without an administrator's key leaves as it is in the server of
-- tokenir/src/main.rs.
use tokenir.Prelude.{
  text_eq, ℕ, ◌+◌, ◌%◌, ◌^◌, ◌≡◌, refl, sym, subst, ap, ◌∙◌, Bool, true, false, Option, none, some,
  List, [], eq_iff, head?, arith,
}
use tokenir.Prelude.Map.{Map, get, get-insert}
use tokenir.Prelude.Text.{Text}
use tokenir.Database.{Store, Tables, UserRow, Result, ok, err}
use tokenir.Database.Clean.{clean}
use tokenir.Database.Users.{AddUserPayload, with_key, validate_user_key, get_key_by_id}
use tokenir.Database.Users.Invariant.{
  UsersIsValid, tables-query, add_user-UsersIsValid, remove_user-UsersIsValid,
}
use tokenir.Database.Users.Authority.{admin_of, is_admin_key}
use tokenir.Server.Sessions.{
  Sessions, admit, authorized, ws_handler, add_user_handler, remove_user_handler, get_users_handler,
  restart_handler,
}
use tokenir.Server.Sessions.Admin.{handlers_guarded, fetch_all_users-guarded, get_key_by_id-tables}
use tokenir.Server.Http.{
  Request, connects, adds_user, removes_user, gets_users, gets_connections, restarts, handle,
}

-- The key is no administrator's, neither as sent nor cleaned.
abbrev pub NoAdmin : Text → List UserRow → Type 0
NoAdmin key rs =
    (admin_of (head? (with_key key rs)) ≡ false)
    × (admin_of (head? (with_key (clean key) rs)) ≡ false)

abbrev pub IsOutsider : Request → List UserRow → Type 0
IsOutsider (connects key) rs = Unit
IsOutsider (adds_user key payload) rs = NoAdmin key rs
IsOutsider (removes_user key id) rs = NoAdmin key rs
IsOutsider (gets_users key) rs = NoAdmin key rs
IsOutsider gets_connections rs = Unit
IsOutsider (restarts key) rs = NoAdmin key rs

abbrev pub KeepsEntries : Map Text ℕ → Map Text ℕ → Type 0
KeepsEntries m m' = (key : Text) (id : ℕ) → get key m ≡ some id → get key m' ≡ some id

-- No user is changed, no session ended, and the server not told to stop.
pub record IsUnharmed (s s' : Sessions) : Type 0 where
  pub users : s'.store.tables.users ≡ s.store.tables.users
  pub valid : UsersIsValid s'.store.tables
  pub signals : s'.signals ≡ s.signals
  pub entries : KeepsEntries s.active_connections s'.active_connections

admit-IsUnharmed :
    (key : Text) (id : ℕ) (o : Option ℕ) (s : Sessions)
    → get key s.active_connections ≡ o
    → UsersIsValid s.store.tables
    → IsUnharmed s (admit key id o s).1
admit-IsUnharmed key id (some old) s e v = record {
  users = refl;
  valid = v;
  signals = refl;
  entries = λ k n h. h;
}
admit-IsUnharmed key id none s e v = record {
  users = refl;
  valid = v;
  signals = refl;
  entries = λ k n h. ground (arith, eq_iff key k, get-insert key k id s.active_connections);
}

authorized-IsUnharmed :
    (key : Text) (r : Result Bool) (s : Sessions)
    → UsersIsValid s.store.tables
    → IsUnharmed s (authorized key r s).1
authorized-IsUnharmed key (ok true) s v =
    let u =
      admit-IsUnharmed key s.next_session_id (get key s.active_connections)
        (record s { next_session_id = (s.next_session_id + 1) % 2 ^ 64 }) refl v in
    record { users = u.users; valid = u.valid; signals = u.signals; entries = u.entries }
authorized-IsUnharmed key (ok false) s v = record {
  users = refl;
  valid = v;
  signals = refl;
  entries = λ k n h. h;
}
authorized-IsUnharmed key (err e) s v = record {
  users = refl;
  valid = v;
  signals = refl;
  entries = λ k n h. h;
}

pub tables-validate_user_key :
    (key : Text) (s : Store) → (validate_user_key key s).1.tables ≡ s.tables
unfolding validate_user_key
tables-validate_user_key key s = tables-query _ _ s

connects-IsUnharmed :
    (key : Text) (s : Sessions) → UsersIsValid s.store.tables → IsUnharmed s (ws_handler key s).1
unfolding ws_handler
connects-IsUnharmed key s v =
    let (r, store) = validate_user_key key s.store in
    let e = tables-validate_user_key key s.store in
    let u =
      authorized-IsUnharmed key r (record s { store = store }) (subst UsersIsValid (sym e) v) in
    record {
      users = u.users ∙ ap (λ (t : Tables). t.users) e;
      valid = u.valid;
      signals = u.signals;
      entries = u.entries;
    }

abbrev pub no_payload : AddUserPayload
no_payload = record { provided_key = []; hint = []; autobuy = false }

adds_user-IsUnharmed :
    (key : Text) (payload : AddUserPayload) (s : Sessions)
    → UsersIsValid s.store.tables
    → NoAdmin key s.store.tables.users
    → IsUnharmed s (add_user_handler key payload s).1
unfolding add_user_handler
adds_user-IsUnharmed key payload s v h = record {
  users = (handlers_guarded key payload 0 s v h.0 h.1).0.1;
  valid = add_user-UsersIsValid key payload s.store v;
  signals = refl;
  entries = λ k n e. e;
}

remove_user_handler-UsersIsValid :
    (key : Text) (id : ℕ) (s : Sessions)
    → UsersIsValid s.store.tables
    → UsersIsValid (remove_user_handler key id s).1.store.tables
unfolding remove_user_handler
remove_user_handler-UsersIsValid key id s v =
    let store = (get_key_by_id id s.store).1 in
    ground (
      arith,
      remove_user-UsersIsValid key id store
          (subst UsersIsValid (sym (get_key_by_id-tables id s.store)) v),
    )

signals-remove_user_handler :
    (key : Text) (id : ℕ) (s : Sessions) → (remove_user_handler key id s).1.signals ≡ s.signals
unfolding remove_user_handler
signals-remove_user_handler key id s = ground arith

removes_user-IsUnharmed :
    (key : Text) (id : ℕ) (s : Sessions)
    → UsersIsValid s.store.tables
    → NoAdmin key s.store.tables.users
    → IsUnharmed s (remove_user_handler key id s).1
removes_user-IsUnharmed key id s v h =
    let guarded = (handlers_guarded key no_payload id s v h.0 h.1).1 in
    record {
      users = guarded.1;
      valid = remove_user_handler-UsersIsValid key id s v;
      signals = signals-remove_user_handler key id s;
      entries = λ k n e. rw guarded.2 e;
    }

gets_users-IsUnharmed :
    (key : Text) (s : Sessions)
    → UsersIsValid s.store.tables
    → NoAdmin key s.store.tables.users
    → IsUnharmed s (get_users_handler key s).1
unfolding get_users_handler
gets_users-IsUnharmed key s v h =
    let e = (fetch_all_users-guarded key s.store h.0).0 in
    record {
      users = ap (λ (t : Tables). t.users) e;
      valid = subst UsersIsValid (sym e) v;
      signals = refl;
      entries = λ k n h. h;
    }

restart_handler-store :
    (key : Text) (s : Sessions)
    → is_admin_key key s.store.tables ≡ false
    → ((restart_handler key s).1.store.tables ≡ s.store.tables)
      × ((restart_handler key s).1.active_connections ≡ s.active_connections)
unfolding restart_handler
restart_handler-store key s h = ground (arith, fetch_all_users-guarded key s.store h)

restarts-IsUnharmed :
    (key : Text) (s : Sessions)
    → UsersIsValid s.store.tables
    → NoAdmin key s.store.tables.users
    → IsUnharmed s (restart_handler key s).1
restarts-IsUnharmed key s v h =
    let (e, same) = restart_handler-store key s h.0 in
    record {
      users = ap (λ (t : Tables). t.users) e;
      valid = subst UsersIsValid (sym e) v;
      signals = (handlers_guarded key no_payload 0 s v h.0 h.1).3.1;
      entries = λ k n h. rw same h;
    }

pub handle-IsUnharmed :
    (r : Request) (s : Sessions)
    → UsersIsValid s.store.tables
    → IsOutsider r s.store.tables.users
    → IsUnharmed s (handle r s).1
unfolding handle
handle-IsUnharmed (connects key) s v h = connects-IsUnharmed key s v
handle-IsUnharmed (adds_user key payload) s v h = adds_user-IsUnharmed key payload s v h
handle-IsUnharmed (removes_user key id) s v h = removes_user-IsUnharmed key id s v h
handle-IsUnharmed (gets_users key) s v h = gets_users-IsUnharmed key s v h
handle-IsUnharmed gets_connections s v h = record {
  users = refl;
  valid = v;
  signals = refl;
  entries = λ k n h. h;
}
handle-IsUnharmed (restarts key) s v h = restarts-IsUnharmed key s v h
