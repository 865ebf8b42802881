-- ===== src/Examples/Accounts.antt =====
-- Runs of the tables and of the sessions.
use tokenir.Prelude.{
  text_eq, nat_eq, map, List, ℕ, ◌+◌, ◌%◌, ◌^◌, ◌≡◌, ◌≢◌, ◌==◌, refl, none, some, List, [], ◌∷◌,
  ◌++◌, length, if◌then◌else◌, arith,
}
use tokenir.Prelude.Int.{pos}
use tokenir.Prelude.Map.{get, insert, contains_key}
use tokenir.Prelude.Text.{Text, codes, trim}
use tokenir.Database.{Store, TokenRow, ok, statement, ◌>>=◌, transaction}
use tokenir.Database.Clean.{clean}
use tokenir.Database.Users.{
  remove_user, validate_user_key, padded, select_admin, select_admin_by_id, delete_user,
  get_key_by_id,
}
use tokenir.Database.Users.Invariant.{UsersIsValid}
use tokenir.Database.Users.Authority.{
  UserCall, adds, removes, admins, is_admin_key, new_row, run-admins, add_user_authority,
  remove_user_authority,
}
use tokenir.Database.Users.Authority
use tokenir.Database.Users.Accounts.{accounts, Runs, answers}
use tokenir.Database.Users.Refine.{run-Runs}
use tokenir.Database.Tokens.{
  as_db_tokens, add_token, add_dev, insert_token, find_token, row_of, count_of,
}
use mathlib.Core.List.{Perm}
use tokenir.Database.Tokens.Listing.{get_last_tokens_by_dev_excluding, newest_first, insert_newest}
use tokenir.Database.Tokens.Newest.{IsNewestFirst, get_last_tokens_newest}
use tokenir.Database.Tokens.Upsert.{upserted, add_token_effect, add_token_foreign_key}
use tokenir.Database.Tokens.Ath
use tokenir.Database.Tokens.Ath.{AthsGrow, adds_token, updates_ath, run-AthsGrow}
use tokenir.Server.Sessions
use tokenir.Server.Sessions.{
  Sessions, Occurrence, connects, step, ws_handler, upgraded, forbidden, upgrade_failed,
  status_forbidden, status_internal_error, add_user_handler, remove_user_handler, get_users_handler,
  restart_handler,
}
use tokenir.Server.Sessions.Single.{Possible, run-live_once}
use tokenir.Server.Sessions.Lockout.{upgrade_failed_locks, two_spellings}
use tokenir.Server.Sessions.Admin.{remove_user_handler_revokes}
use tokenir.Examples.{sol, admin_key, user_key, user_row, tables, store, payload, db_token}

pub tables-UsersIsValid : UsersIsValid tables
tables-UsersIsValid = record {
  distinct = (((λ h. ground arith, λ h. ground arith), tt), (tt, tt));
  below = (omega arith, (omega arith, tt));
}

run-admins_example :
    (admins (Authority.run (adds admin_key payload ∷ removes admin_key 2 ∷ []) store).tables.users
      ≡ admins tables.users)
    × UsersIsValid (Authority.run (adds admin_key payload ∷ removes admin_key 2 ∷ []) store).tables
run-admins_example =
    run-admins (adds admin_key payload ∷ removes admin_key 2 ∷ []) store tables-UsersIsValid

run-Runs_example :
    let calls = adds admin_key payload ∷ removes admin_key 2 ∷ [] in
    Runs (accounts tables) calls (answers calls store) (accounts (Authority.run calls store).tables)
run-Runs_example =
    run-Runs (adds admin_key payload ∷ removes admin_key 2 ∷ []) store tables-UsersIsValid

run-AthsGrow_example :
    AthsGrow tables
      (Ath.run sol
        (adds_token 7 (codes "mint") db_token (codes "dev")
          ∷ updates_ath (codes "mint") (pos 9)
          ∷ [])
        store).tables
run-AthsGrow_example =
    run-AthsGrow sol
      (adds_token 7 (codes "mint") db_token (codes "dev") ∷ updates_ath (codes "mint") (pos 9) ∷ [])
      store

add_token_effect_example :
    let t = (add_token sol 7 (codes "mint") db_token (codes "dev") store).1.tables in
    let x = row_of (codes "mint") db_token (codes "dev") 7 in
    (find_token (codes "mint") t.tokens ≡ (
      if x.mint == codes "mint"
      then some (upserted x (find_token x.mint tables.tokens))
      else find_token (codes "mint") tables.tokens))
    × (get (codes "dev") t.devs ≡ (
        if clean (codes "dev") == codes "dev"
        then some (count_of (get (clean (codes "dev")) tables.devs))
        else get (codes "dev") tables.devs))
unfolding add_token ◌>>=◌ transaction statement add_dev insert_token find_token clean trim get
    contains_key insert
add_token_effect_example =
    add_token_effect sol 7 (codes "mint") db_token (codes "dev") store (codes "mint") (codes "dev")
      refl

add_token_foreign_key_example :
    ((add_token sol 7 (codes "mint") db_token (codes " new") store).0 ≢ ok tt)
    × ((add_token sol 7 (codes "mint") db_token (codes " new") store).1.tables ≡ tables)
unfolding clean trim get find_token
add_token_foreign_key_example =
    add_token_foreign_key sol 7 (codes "mint") db_token (codes " new") store
      (λ h. ground (arith, h)) refl refl

abbrev row_at : Text → ℕ → TokenRow
row_at mint time = record {
  mint = mint;
  dev_address = codes "dev";
  ath = pos 5000;
  created_at = time;
  name = some (codes "Token");
  ticker = some (codes "TKN");
  ipfs = none;
  image = none;
  description = none;
  community_id = none;
  pool_address = some (codes "pool");
}

abbrev listed_rows : List TokenRow
listed_rows = row_at (codes "a") 5 ∷ row_at (codes "b") 9 ∷ []

abbrev listed : Store
listed = record store { tables = record tables { tokens = listed_rows } }

-- The newest of two.
get_last_tokens_newest_example :
    (top : List TokenRow) × (rest : List TokenRow) × (Perm (top ++ rest) listed_rows)
    × (IsNewestFirst (top ++ rest))
    × (length top ≡ 1)
    × (codes "b" ∷ [] ≡ map (λ (r : TokenRow). r.mint) top)
unfolding get_last_tokens_by_dev_excluding statement clean trim newest_first insert_newest
    as_db_tokens
get_last_tokens_newest_example =
    get_last_tokens_newest (codes "dev") (codes "c") 1 listed
      (record db_token { mint = codes "b" } ∷ []) refl

abbrev pub quiet_server : Sessions
quiet_server = record {
  store = store;
  active_connections = [];
  next_session_id = 1;
  signals = 0;
  live = [];
}

abbrev first : ℕ
first = 1

-- A user connects, is refused a second session, and another one connects.
abbrev history : List Occurrence
history = connects user_key ∷ connects user_key ∷ connects admin_key ∷ []

run-live_once_example :
    (first ≡ first) × (get user_key (Sessions.run history quiet_server).active_connections ≡ some 1)
unfolding Possible Sessions.run step ws_handler validate_user_key statement get insert clean trim
run-live_once_example =
    run-live_once history quiet_server refl refl (tt, (tt, (tt, tt))) (omega arith) user_key first
      first refl refl

upgrade_failed_locks_example :
    (ws_handler user_key
      (Sessions.run history (upgrade_failed 1 (ws_handler user_key quiet_server).1))).0
    ≢ upgraded 5
unfolding Possible ws_handler validate_user_key statement get clean trim
upgrade_failed_locks_example =
    upgrade_failed_locks user_key 1 5 history quiet_server refl (tt, (tt, (tt, tt))) (omega arith)

two_spellings_example :
    ((ws_handler user_key quiet_server).0 ≡ upgraded 1)
    × ((ws_handler (user_key ++ codes " ") (ws_handler user_key quiet_server).1).0
        ≡ upgraded ((1 + 1) % 2 ^ 64))
unfolding validate_user_key statement get clean trim
two_spellings_example =
    two_spellings user_key (user_key ++ codes " ") tables quiet_server refl refl refl refl refl refl

remove_user_handler_revokes_example :
    (get (padded user_key) (remove_user_handler admin_key 2 quiet_server).1.active_connections
      ≡ none)
    × ((ws_handler user_key (remove_user_handler admin_key 2 quiet_server).1).0 ≡ forbidden)
unfolding clean trim remove_user_handler remove_user get_key_by_id ◌>>=◌ statement select_admin
    select_admin_by_id delete_user padded
remove_user_handler_revokes_example =
    remove_user_handler_revokes admin_key user_key 2 user_row quiet_server tables-UsersIsValid refl
      refl refl refl
