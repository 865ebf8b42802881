-- ===== src/Database/Users.antt =====
-- The operations on the `users` table in tokenir/src/database.rs, with access.rs. Ids, `i32` in the
-- code, are natural numbers.
pub mod Invariant
pub mod Authority
pub mod Setup
pub mod Accounts
pub mod Reasons
pub mod Refine
use tokenir.Prelude.{
  text_eq, ℕ, suc, ◌+◌, ◌-◌, ◌≡◌, Bool, true, false, ◌&&◌, not, Option, none, some, List, [], ◌∷◌,
  ◌++◌, map, ◌==◌, if◌then◌else◌, nat_beq, any, keep, head?, length, replicate,
}
use tokenir.Prelude.Map.{is_some}
use tokenir.Prelude.Text.{Text, byte_length, codes}
use tokenir.Database.{
  SqlError, row_not_found, protocol, database, decode, Result, ok, err, UserRow, Schema, Tables,
  Store, Sql, ◌>>=◌, ◌>>◌, pure, guard, statement, query, fetch_one, is_bindable,
}
use tokenir.Database.Clean.{clean}

pub record AddUserPayload : Type 0 where
  pub provided_key : Text
  pub hint : Text
  pub autobuy : Bool

pub record User : Type 0 where
  pub id : ℕ
  pub access_key : Text
  pub hint : Text
  pub admin : Bool
  pub autobuy : Bool

-- A CHAR(32) column is read padded with spaces, and compared without them.
unfoldable pub padded : Text → Text
padded s = s ++ replicate (32 - length s) 32

abbrev pub with_key : Text → List UserRow → List UserRow
with_key key = keep (λ r. r.access_key == key)

abbrev pub with_id : ℕ → List UserRow → List UserRow
with_id id = keep (λ r. nat_beq r.id id)

abbrev pub users_there : Tables → Bool
users_there t = t.users_table

abbrev pub autobuy_there : Tables → Bool
autobuy_there t = t.users_table && is_some t.autobuy_column

-- `fetch_one` of a column.
abbrev column_of : {A : Type 0} → (UserRow → Result A) → Option UserRow → Result A
column_of f none = err row_not_found
column_of f (some r) = f r

abbrev or_null : {A : Type 0} → Option A → Result A
or_null none = err decode
or_null (some a) = ok a

unfoldable pub validate_user_key : Text → Sql Bool
validate_user_key key = query users_there (λ t. ok (is_some (head? (with_key (clean key) t.users))))

-- SELECT admin FROM users WHERE access_key = …
unfoldable pub select_admin : Text → Sql Bool
select_admin key =
    query (λ t. users_there t && is_bindable key)
      (λ t. column_of (λ r. ok r.admin) (head? (with_key key t.users)))

-- The new row takes the next number of the sequence, which is used up by a refused row too.
abbrev pub insert_row : Text → Text → Bool → Option Bool → Tables → Result (Unit {0}) × Tables
insert_row key hint admin autobuy t =
    if is_some (head? (with_key key t.users))
    then (err database, record t { next_user_id = suc t.next_user_id })
    else (
      ok tt,
      record t {
        users =
            t.users
            ++ (record {
              id = t.next_user_id;
              access_key = key;
              hint = hint;
              admin = admin;
              autobuy = autobuy;
            })
              ∷ [];
        next_user_id = suc t.next_user_id;
      },
    )

unfoldable pub insert_user : Text → Text → Bool → Sql (Unit {0})
insert_user key hint autobuy = statement autobuy_there (insert_row key hint false (some autobuy))

unfoldable pub add_user : Text → AddUserPayload → Sql (Unit {0})
add_user caller_admin_key payload = do
  is_admin ← select_admin (clean caller_admin_key)
  guard is_admin row_not_found
  guard (nat_beq (byte_length payload.provided_key) 32) protocol
  insert_user (clean payload.provided_key) (clean payload.hint) payload.autobuy

unfoldable pub get_user_autobuy_status : Text → Sql Bool
get_user_autobuy_status key =
    query autobuy_there
      (λ t. column_of (λ r. or_null r.autobuy) (head? (with_key (clean key) t.users)))

unfoldable pub delete_user : ℕ → Sql (Unit {0})
delete_user user_id =
    statement users_there
      (λ t. (ok tt, record t { users = keep (λ r. not (nat_beq r.id user_id)) t.users }))

unfoldable pub select_admin_by_id : ℕ → Sql Bool
select_admin_by_id user_id =
    query users_there (λ t. column_of (λ r. ok r.admin) (head? (with_id user_id t.users)))

unfoldable pub remove_user : Text → ℕ → Sql (Unit {0})
remove_user caller_admin_key user_id = do
  is_admin ← select_admin (clean caller_admin_key)
  guard is_admin row_not_found
  target_admin ← select_admin_by_id user_id
  guard (not target_admin) row_not_found
  delete_user user_id

-- A NULL in the `autobuy` column cannot be read as a `bool`.
abbrev as_user : UserRow → Option Bool → Result User
as_user r none = err decode
as_user r (some b) = ok (record {
  id = r.id;
  access_key = padded r.access_key;
  hint = r.hint;
  admin = r.admin;
  autobuy = b;
})

abbrev push_user : Result User → Result (List User) → Result (List User)
push_user (err e) us = err e
push_user (ok u) (err e) = err e
push_user (ok u) (ok us) = ok (u ∷ us)

unfoldable pub as_users : List UserRow → Result (List User)
as_users [] = ok []
as_users (r ∷ rs) = push_user (as_user r r.autobuy) (as_users rs)

unfoldable pub fetch_all_users : Text → Sql (List User)
fetch_all_users caller_admin_key = do
  is_admin ← select_admin caller_admin_key
  guard is_admin row_not_found
  query autobuy_there (λ t. as_users t.users)

unfoldable pub get_key_by_id : ℕ → Sql Text
get_key_by_id user_id =
    query users_there
      (λ t. column_of (λ r. ok (padded r.access_key)) (head? (with_id user_id t.users)))

abbrev pub seed_key : Text
seed_key = codes "af3soy8thnhi06tsqc38talrs4a227ma"

abbrev pub seed_hint : Text
seed_hint = codes "Админ"

abbrev default_of : Option (Option Bool) → Option Bool
default_of none = none
default_of (some d) = d

-- INSERT … ON CONFLICT (access_key) DO NOTHING
abbrev pub seed_admin : Tables → Result (Unit {0}) × Tables
seed_admin t = (ok tt, (insert_row seed_key seed_hint true (default_of t.autobuy_column) t).1)

-- CREATE TABLE IF NOT EXISTS: a table that is there keeps its columns. The new `users` has no
-- `autobuy` column, and the new `tokens` no `pool_address` column.
abbrev pub create_devs : Tables → Result (Unit {0}) × Tables
create_devs t = (ok tt, record t { schema = record t.schema { devs_table = true } })

abbrev pub create_tokens : Tables → Result (Unit {0}) × Tables
create_tokens t = if t.tokens_table then (ok tt, t) else (
  ok tt,
  record t { schema = record t.schema { tokens_table = true; pool_address_column = false } },
)

abbrev pub create_users : Tables → Result (Unit {0}) × Tables
create_users t = if t.users_table then (ok tt, t) else (
  ok tt,
  record t { schema = record t.schema { users_table = true; autobuy_column = none } },
)

unfoldable pub insert_seed : Sql (Unit {0})
insert_seed = statement users_there seed_admin

unfoldable pub create_tables : Sql (Unit {0})
create_tables = do
  statement (λ t. true) create_devs
  statement (λ t. t.devs_table) create_tokens
  statement (λ t. true) create_users

unfoldable pub initialize_tables : Sql (Unit {0})
initialize_tables = do create_tables; insert_seed
