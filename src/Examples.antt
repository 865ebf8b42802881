-- ===== src/Examples.antt =====
-- Concrete runs: the data that they share. The functions of `solana_sdk` and the network are replaced
-- by simple ones.
mod Accounts
mod Creates
mod Trading
mod Feeds
mod Serving
mod Starting
use tokenir.Prelude.{ℕ, Bool, true, false, Option, none, some, List, [], ◌∷◌, ◌≡◌}
use tokenir.Prelude.Int.{ℤ, pos}
use tokenir.Prelude.Text.{Text, codes}
use tokenir.Solana.{Solana, Pubkey}
use tokenir.Database.{Schema, Tables, Store, UserRow, TokenRow}
use tokenir.Database.Tokens.{DbToken}
use tokenir.Database.Users.{AddUserPayload}

-- A key's text is the key, and every address is derived without its seeds.
abbrev pub sol : Solana
sol = record {
  to_string = λ k. k;
  parse = some;
  pubkey = λ t. t;
  find_program_address = λ seeds program. (program, 255);
}

abbrev pub admin_key : Text
admin_key = codes "admin000000000000000000000000000"

abbrev pub user_key : Text
user_key = codes "user1111111111111111111111111111"

abbrev pub schema : Schema
schema = record {
  devs_table = true;
  tokens_table = true;
  users_table = true;
  autobuy_column = some (some false);
  pool_address_column = true;
}

abbrev pub admin_row : UserRow
admin_row = record {
  id = 1;
  access_key = admin_key;
  hint = codes "admin";
  admin = true;
  autobuy = some false;
}

abbrev pub user_row : UserRow
user_row = record {
  id = 2;
  access_key = user_key;
  hint = codes "user";
  admin = false;
  autobuy = some true;
}

abbrev pub tables : Tables
tables = record {
  schema = schema;
  users = admin_row ∷ user_row ∷ [];
  next_user_id = 3;
  devs = (codes "dev", 1) ∷ [];
  tokens = [];
}

abbrev pub store : Store
store = record { tables = tables; faults = [] }

abbrev pub payload : AddUserPayload
payload = record {
  provided_key = codes "user2222222222222222222222222222";
  hint = codes "friend";
  autobuy = true;
}

abbrev pub db_token : DbToken
db_token = record {
  mint = codes "mint";
  dev_address = codes "dev";
  ath = pos 5000;
  name = codes "Token";
  ticker = codes "TKN";
  ipfs = none;
  image = none;
  description = none;
  community_id = none;
  pool_address = codes "pool";
}
