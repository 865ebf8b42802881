-- ===== src/Database/Users/Setup.antt =====
-- What `initialize_tables` of tokenir/src/database.rs sets up on a database that is still empty.
use tokenir.Prelude.{◌≡◌, ◌≢◌, refl, Bool, false, none, List, [], arith}
use tokenir.Prelude.Text.{Text}
use tokenir.Database.{Schema, Tables, Store, statement, ok, ◌>>=◌}
use tokenir.Database.Clean.{clean}
use tokenir.Database.Users.{
  AddUserPayload, select_admin, insert_user, add_user, create_tables, create_devs, create_tokens,
  create_users, insert_seed, initialize_tables,
}
use tokenir.Database.Users.Invariant.{tables-select_admin}
use tokenir.Database.Keeps.{Keeps, Keeps-bind, Keeps-statement}

-- The schema before the first start, and the store over it.
abbrev pub empty_schema : Schema
empty_schema = record {
  devs_table = false;
  tokens_table = false;
  users_table = false;
  autobuy_column = none;
  pool_address_column = false;
}

abbrev pub empty_store : List Bool → Store
empty_store faults = record {
  tables = record { schema = empty_schema; users = []; next_user_id = 1; devs = []; tokens = [] };
  faults = faults;
}

-- The columns that the statements name and that `CREATE TABLE` does not make.
abbrev pub LacksColumns : Tables → Type 0
LacksColumns t = (t.autobuy_column ≡ none) × (t.pool_address_column ≡ false)

create_tables-Keeps : Keeps LacksColumns create_tables
unfolding create_tables
create_tables-Keeps = Keeps-bind _ _ (Keeps-statement _ create_devs (λ t h. h)) λ _.
    Keeps-bind _ _ (Keeps-statement _ create_tokens (λ t h. ground arith))
      λ _. Keeps-statement _ create_users (λ t h. ground arith)

pub initialize_tables-Keeps : Keeps LacksColumns initialize_tables
unfolding initialize_tables insert_seed
initialize_tables-Keeps =
    Keeps-bind _ _ create_tables-Keeps λ _. Keeps-statement _ _ (λ t h. ground arith)

insert_user_refused :
    (key hint : Text) (autobuy : Bool) (s : Store)
    → LacksColumns s.tables
    → ((insert_user key hint autobuy s).0 ≢ ok tt)
      × ((insert_user key hint autobuy s).1.tables ≡ s.tables)
unfolding insert_user statement
insert_user_refused key hint autobuy s h = ground arith

-- Without the columns `add_user` never succeeds and changes nothing.
pub add_user_lacking :
    (caller : Text) (payload : AddUserPayload) (s : Store)
    → LacksColumns s.tables
    → ((add_user caller payload s).0 ≢ ok tt) × ((add_user caller payload s).1.tables ≡ s.tables)
unfolding add_user ◌>>=◌
add_user_lacking caller payload s lacking = ground (
  arith,
  tables-select_admin (clean caller) s,
  insert_user_refused (clean payload.provided_key) (clean payload.hint) payload.autobuy
      (select_admin (clean caller) s).1,
)

-- On tables that `initialize_tables` itself has made, `add_user` never succeeds and changes nothing,
-- whoever calls it with whatever key, and whatever faults there are.
add_user_after_setup :
    (caller : Text) (payload : AddUserPayload) (faults : List Bool)
    → let s = (initialize_tables (empty_store faults)).1 in
      ((add_user caller payload s).0 ≢ ok tt) × ((add_user caller payload s).1.tables ≡ s.tables)
add_user_after_setup caller payload faults =
    add_user_lacking caller payload (initialize_tables (empty_store faults)).1
      (initialize_tables-Keeps.at (empty_store faults) (refl, refl))
