-- ===== src/Server/Sessions/Admin.antt =====
-- What the admin handlers of tokenir/src/main.rs ask for and what they leave behind.
use tokenir.Prelude.{
  text_eq, nat_eq, ℕ, ◌≡◌, ◌≢◌, refl, sym, subst, Bool, true, false, none, some, List, [], ◌∷◌,
  eq_iff, eq_refl, nat_beq, nat_beq_iff, arith, inl, inr, Bool-cases, not, keep, head?,
}
use tokenir.Prelude.Map.{get, get-remove}
use tokenir.Prelude.Text.{Text}
use tokenir.Database.{Store, Tables, UserRow, Result, ok, err, statement, ◌>>=◌}
use tokenir.Database.Clean.{clean}
use tokenir.Database.Users.{
  AddUserPayload, validate_user_key, fetch_all_users, get_key_by_id, with_key, with_id, padded,
  select_admin, remove_user,
}
use tokenir.Database.Users.Invariant.{Apart, Distinct, UsersIsValid}
use tokenir.Database.Users.Authority.{
  is_admin_key, add_user_authority, remove_user_authority, keep-Apart,
}
use tokenir.Server.Sessions.{
  Sessions, forbidden, ws_handler, status_ok, status_forbidden, status_internal_error,
  add_user_handler, remove_user_handler, get_users_handler, restart_handler,
}

abbrev is_ok : {A : Type 0} → Result A → Bool
is_ok (ok a) = true
is_ok (err e) = false

pub fetch_all_users-guarded :
    (key : Text) (s : Store)
    → is_admin_key key s.tables ≡ false
    → ((fetch_all_users key s).1.tables ≡ s.tables) × (is_ok (fetch_all_users key s).0 ≡ false)
unfolding fetch_all_users ◌>>=◌ select_admin statement
fetch_all_users-guarded key s h = ground arith

pub get_key_by_id-tables : (id : ℕ) (s : Store) → (get_key_by_id id s).1.tables ≡ s.tables
unfolding get_key_by_id statement
get_key_by_id-tables id s = ground arith

-- Where ids and keys are distinct, a caller whose key is no administrator's, neither as sent nor
-- cleaned, gets an error from every admin handler that checks the caller; adding and removing change
-- no user, removing no session, and no restart is signalled.
pub handlers_guarded :
    (key : Text) (payload : AddUserPayload) (id : ℕ) (s : Sessions)
    → UsersIsValid s.store.tables
    → is_admin_key key s.store.tables ≡ false
    → is_admin_key (clean key) s.store.tables ≡ false
    → (let (status, s') = add_user_handler key payload s in
        (status ≡ status_forbidden) × (s'.store.tables.users ≡ s.store.tables.users))
      × (let (status, s') = remove_user_handler key id s in
          (status ≡ status_internal_error)
          × (s'.store.tables.users ≡ s.store.tables.users)
          × (s'.active_connections ≡ s.active_connections))
      × ((get_users_handler key s).0 ≡ none)
      × (let (status, s') = restart_handler key s in
          (status ≡ some status_forbidden) × (s'.signals ≡ s.signals))
unfolding add_user_handler remove_user_handler get_users_handler restart_handler
handlers_guarded key payload id s v h hc = ground (
  arith,
  add_user_authority key payload s.store,
  get_key_by_id-tables id s.store,
  remove_user_authority key id (get_key_by_id id s.store).1,
  fetch_all_users-guarded key s.store,
)

with_key-Apart : (r : UserRow) (rs : List UserRow) → Apart r rs → with_key r.access_key rs ≡ []
with_key-Apart r [] h = refl
with_key-Apart r (q ∷ rs) h =
    ground (arith, eq_iff q.access_key r.access_key, with_key-Apart r rs h.1)

Apart-with_id :
    (id : ℕ) (q r : UserRow) (rs : List UserRow)
    → Apart q rs
    → head? (with_id id rs) ≡ some r
    → r.access_key ≢ q.access_key
Apart-with_id id q r [] h e = absurd (ground (arith, e))
Apart-with_id id q r (x ∷ rs) h e = ground (arith, Apart-with_id id q r rs h.1)

with_key-delete :
    (key : Text) (id : ℕ) (rs : List UserRow) (r : UserRow)
    → Distinct rs
    → head? (with_id id rs) ≡ some r
    → r.access_key ≡ key
    → with_key key (keep (λ q. not (nat_beq q.id id)) rs) ≡ []
with_key-delete key id [] r d h e = refl
with_key-delete key id (q ∷ rs) r d h e = elim (Bool-cases (nat_beq q.id id)) [
  | inl i ↦
      let same : q.id ≡ id = (nat_beq_iff q.id id).0 i in
      ground (arith, keep-Apart q rs d.0, with_key-Apart q rs d.0)
  | inr i ↦
      ground (
        arith,
        Apart-with_id id q r rs d.0,
        eq_iff q.access_key key,
        with_key-delete key id rs r d.1,
      )
]

delete-forbids :
    (key : Text) (id : ℕ) (r : UserRow) (t : Tables) (s : Sessions)
    → s.store.tables.users ≡ keep (λ q. not (nat_beq q.id id)) t.users
    → Distinct t.users
    → head? (with_id id t.users) ≡ some r
    → r.access_key ≡ clean key
    → (ws_handler key s).0 ≡ forbidden
unfolding ws_handler validate_user_key statement
delete-forbids key id r t s h d e k = ground (arith, with_key-delete (clean key) id t.users r d)

get_key_by_id_lem :
    (id : ℕ) (r : UserRow) (s : Store)
    → s.faults ≡ []
    → head? (with_id id s.tables.users) ≡ some r
    → s.tables.users_table ≡ true
    → (get_key_by_id id s).0 ≡ ok (padded r.access_key)
unfolding get_key_by_id statement
get_key_by_id_lem id r s f e h = ground arith

remove_user-users_table :
    (caller : Text) (id : ℕ) (s : Store)
    → (remove_user caller id s).0 ≡ ok tt
    → s.tables.users_table ≡ true
unfolding remove_user ◌>>=◌ select_admin statement
remove_user-users_table caller id s h = ground arith

handler-remove_user :
    (admin : Text) (id : ℕ) (key : Text) (s : Sessions)
    → (remove_user_handler admin id s).0 ≡ status_ok
    → let store = (get_key_by_id id s.store).1 in
      ((remove_user admin id store).0 ≡ ok tt)
      × ((remove_user_handler admin id s).1.store ≡ (remove_user admin id store).1)
      × ((get_key_by_id id s.store).0 ≡ ok key
          → get key (remove_user_handler admin id s).1.active_connections ≡ none)
unfolding remove_user_handler
handler-remove_user admin id key s h =
    ground (arith, get-remove key key s.active_connections, eq_refl key)

-- Where ids and keys are distinct and no statement fails: when `remove_user_handler` answers that it
-- removed the user of an id, the entry of the user's key, padded as the server returns it, is gone
-- from the session table, and a connection under any key that cleans to the user's is refused in
-- the state that it leaves.
pub remove_user_handler_revokes :
    (admin key : Text) (id : ℕ) (r : UserRow) (s : Sessions)
    → UsersIsValid s.store.tables
    → s.store.faults ≡ []
    → head? (with_id id s.store.tables.users) ≡ some r
    → r.access_key ≡ clean key
    → (remove_user_handler admin id s).0 ≡ status_ok
    → (get (padded r.access_key) (remove_user_handler admin id s).1.active_connections ≡ none)
      × ((ws_handler key (remove_user_handler admin id s).1).0 ≡ forbidden)
remove_user_handler_revokes admin key id r s v nf e k done =
    let store = (get_key_by_id id s.store).1 in
    let same : store.tables ≡ s.store.tables = get_key_by_id-tables id s.store in
    let (removed, after, gone) = handler-remove_user admin id (padded r.access_key) s done in
    let authority = remove_user_authority admin id store (subst UsersIsValid (sym same) v) in
    ground (
      arith,
      gone,
      remove_user-users_table admin id store,
      get_key_by_id_lem id r s.store,
      delete-forbids key id r s.store.tables (remove_user_handler admin id s).1,
      v.distinct,
    )
