-- ===== src/Server/Http/Fresh.antt =====
-- The server of tokenir/src/main.rs where its own start has made the tables.
use tokenir.Prelude.{
  text_eq, ℕ, ◌≡◌, ◌≢◌, refl, sym, subst, ap, ◌∙◌, Bool, true, false, Option, some, List, [], ◌∷◌,
  ◌++◌, head?, All, ltb, Bool-cases, Option-cases, inl, inr, arith,
}
use tokenir.Prelude.Map.{is_some}
use tokenir.Prelude.Text.{Text}
use tokenir.Database.{Store, Tables, UserRow, Result, ok, err, statement, ◌>>=◌}
use tokenir.Database.Clean.{clean}
use tokenir.Database.Keeps.{Keeps, Keeps-bind, Keeps-statement}
use tokenir.Database.Users.{
  seed_key, with_key, with_id, select_admin, select_admin_by_id, remove_user, fetch_all_users,
  get_key_by_id, create_tables, create_devs, create_tokens, create_users, seed_admin, insert_seed,
  initialize_tables,
}
use tokenir.Database.Users.Invariant.{tables-select_admin, tables-select_admin_by_id}
use tokenir.Database.Users.Setup.{
  empty_store, LacksColumns, add_user_lacking, initialize_tables-Keeps,
}
use tokenir.Server.Sessions.{
  Sessions, status_of, status_forbidden, ws_handler, add_user_handler, remove_user_handler,
  get_users_handler, restart_handler,
}
use tokenir.Server.Sessions.Admin.{get_key_by_id-tables}
use tokenir.Server.Http.Harmless.{tables-validate_user_key}
use tokenir.Server.Http.{
  Request, connects, adds_user, removes_user, gets_users, gets_connections, restarts, Response,
  says, handle, serve, Environment, serves, start,
}

abbrev IsAdmin : UserRow → Type 0
IsAdmin r = r.admin ≡ true

abbrev AreAdmins : Tables → Type 0
AreAdmins t = All IsAdmin t.users

All-append :
    (rs : List UserRow) (r : UserRow) → All IsAdmin rs → r.admin ≡ true → All IsAdmin (rs ++ r ∷ [])
All-append [] r h e = (e, tt)
All-append (q ∷ rs) r h e = (h.0, All-append rs r h.1 e)

seed_admin-AreAdmins : (t : Tables) → AreAdmins t → AreAdmins (seed_admin t).1
seed_admin-AreAdmins t h = elim (Bool-cases (is_some (head? (with_key seed_key t.users)))) [
  | inl taken ↦ rw taken h
  | inr free ↦ rw free (All-append t.users _ h refl)
]

create_tables-AreAdmins : Keeps AreAdmins create_tables
unfolding create_tables
create_tables-AreAdmins = Keeps-bind _ _ (Keeps-statement _ create_devs (λ t h. h)) λ _.
    Keeps-bind _ _ (Keeps-statement _ create_tokens (λ t h. ground arith))
      λ _. Keeps-statement _ create_users (λ t h. ground arith)

initialize_tables-AreAdmins : Keeps AreAdmins initialize_tables
unfolding initialize_tables insert_seed
initialize_tables-AreAdmins =
    Keeps-bind _ _ create_tables-AreAdmins λ _. Keeps-statement _ _ seed_admin-AreAdmins

with_id-IsAdmin :
    (id : ℕ) (rs : List UserRow) (r : UserRow)
    → All IsAdmin rs
    → head? (with_id id rs) ≡ some r
    → r.admin ≡ true
with_id-IsAdmin id [] r h e = ground arith
with_id-IsAdmin id (q ∷ rs) r h e = ground (arith, with_id-IsAdmin id rs r h.1)

select_admin_by_id-ne-false :
    (id : ℕ) (s : Store) → AreAdmins s.tables → (select_admin_by_id id s).0 ≢ ok false
unfolding select_admin_by_id statement
select_admin_by_id-ne-false id s h e = elim (Option-cases (head? (with_id id s.tables.users))) [
  | inl f ↦ ground arith
  | inr (r, f) ↦ ground (arith, with_id-IsAdmin id s.tables.users r h f)
]

remove_user-tables :
    (caller : Text) (id : ℕ) (s : Store)
    → AreAdmins s.tables
    → (remove_user caller id s).1.tables ≡ s.tables
unfolding remove_user ◌>>=◌
remove_user-tables caller id s h =
    let s' = (select_admin (clean caller) s).1 in
    let e = tables-select_admin (clean caller) s in
    ground (
      arith,
      e,
      tables-select_admin_by_id id s',
      select_admin_by_id-ne-false id s' (subst AreAdmins (sym e) h),
    )

fetch_all_users-tables : (key : Text) (s : Store) → (fetch_all_users key s).1.tables ≡ s.tables
unfolding fetch_all_users ◌>>=◌ statement
fetch_all_users-tables key s = ground (arith, tables-select_admin key s)

ws_handler-tables : (key : Text) (s : Sessions) → (ws_handler key s).1.store.tables ≡ s.store.tables
unfolding ws_handler
ws_handler-tables key s = ground (arith, tables-validate_user_key key s.store)

remove_user_handler-tables :
    (key : Text) (id : ℕ) (s : Sessions)
    → AreAdmins s.store.tables
    → (remove_user_handler key id s).1.store.tables ≡ s.store.tables
unfolding remove_user_handler
remove_user_handler-tables key id s h =
    let store = (get_key_by_id id s.store).1 in
    let e = get_key_by_id-tables id s.store in
    ground (arith, e, remove_user-tables key id store (subst AreAdmins (sym e) h))

restart_handler-tables :
    (key : Text) (s : Sessions) → (restart_handler key s).1.store.tables ≡ s.store.tables
unfolding restart_handler
restart_handler-tables key s = ground (arith, fetch_all_users-tables key s.store)

-- The tables of a server that lacks the columns, and whose users are administrators, stay as they are.
handle-tables :
    (r : Request) (s : Sessions)
    → LacksColumns s.store.tables
    → AreAdmins s.store.tables
    → (handle r s).1.store.tables ≡ s.store.tables
unfolding handle add_user_handler get_users_handler
handle-tables (connects key) s l h = ws_handler-tables key s
handle-tables (adds_user key payload) s l h = (add_user_lacking key payload s.store l).1
handle-tables (removes_user key id) s l h = remove_user_handler-tables key id s h
handle-tables (gets_users key) s l h = fetch_all_users-tables key s.store
handle-tables gets_connections s l h = refl
handle-tables (restarts key) s l h = restart_handler-tables key s

-- No request to add a user is granted.
abbrev pub RefusesAdding : Request → Option Response → Type 0
RefusesAdding (connects key) a = Unit
RefusesAdding (adds_user key payload) a = a ≡ some (says status_forbidden)
RefusesAdding (removes_user key id) a = Unit
RefusesAdding (gets_users key) a = Unit
RefusesAdding gets_connections a = Unit
RefusesAdding (restarts key) a = Unit

abbrev pub RefuseAdding : List Request → List (Option Response) → Type 0
RefuseAdding [] [] = Unit
RefuseAdding [] (a ∷ answers) = ⊥
RefuseAdding (r ∷ rs) [] = Unit
RefuseAdding (r ∷ rs) (a ∷ answers) = RefusesAdding r a × RefuseAdding rs answers

status_of-ne-ok :
    (r : Result (Unit {0})) → r ≢ ok tt → status_of status_forbidden r ≡ status_forbidden
status_of-ne-ok (ok tt) h = absurd (h refl)
status_of-ne-ok (err e) h = refl

handle-RefusesAdding :
    (r : Request) (s : Sessions) → LacksColumns s.store.tables → RefusesAdding r (handle r s).0
unfolding handle add_user_handler
handle-RefusesAdding (connects key) s l = tt
handle-RefusesAdding (adds_user key payload) s l =
    ap (λ r. some (says r)) (status_of-ne-ok _ (add_user_lacking key payload s.store l).0)
handle-RefusesAdding (removes_user key id) s l = tt
handle-RefusesAdding (gets_users key) s l = tt
handle-RefusesAdding gets_connections s l = tt
handle-RefusesAdding (restarts key) s l = tt

serve-lacking :
    (rs : List Request) (s : Sessions)
    → LacksColumns s.store.tables
    → AreAdmins s.store.tables
    → ((serve rs s).1.store.tables ≡ s.store.tables) × RefuseAdding rs (serve rs s).0
unfolding serve
serve-lacking [] s l h = (refl, tt)
serve-lacking (r ∷ rs) s l h =
    let e = handle-tables r s l h in
    let (same, refused) =
      serve-lacking rs (handle r s).1 (subst LacksColumns (sym e) l) (subst AreAdmins (sym e) h) in
    elim (Bool-cases (ltb 0 s.signals)) [
      | inl stopped ↦ rw stopped (refl, tt)
      | inr up ↦ rw up (same ∙ e, (handle-RefusesAdding r s l, refused))
    ]

start-store :
    (env : Environment) (url : Text) (faults : List Bool) (s : Sessions)
    → env.sql ≡ some url
    → env.connect url ≡ some (empty_store faults)
    → start env ≡ serves s
    → s.store ≡ (initialize_tables (empty_store faults)).1
unfolding start
start-store env url faults s u c h = ground (arith, u, c, h)

-- A server that was started on an empty database, and so made its tables itself, changes no table by
-- whatever requests it is sent, and grants no request to add a user, not even an administrator's.
pub serve-fresh :
    (env : Environment) (url : Text) (faults : List Bool) (s : Sessions) (rs : List Request)
    → env.sql ≡ some url
    → env.connect url ≡ some (empty_store faults)
    → start env ≡ serves s
    → ((serve rs s).1.store.tables ≡ s.store.tables) × RefuseAdding rs (serve rs s).0
serve-fresh env url faults s rs u c h =
    let e = start-store env url faults s u c h in
    serve-lacking rs s
      (subst (λ (t : Store). LacksColumns t.tables) (sym e)
        (initialize_tables-Keeps.at (empty_store faults) (refl, refl)))
      (subst (λ (t : Store). AreAdmins t.tables) (sym e)
        (initialize_tables-AreAdmins.at (empty_store faults) tt))
