-- ===== src/Database/Tokens.antt =====
-- The operations on the `devs` and `tokens` tables in tokenir/src/database.rs; the queries that list
-- rows are in Listing. The counts of the developers, INTEGER in the schema, are natural numbers: the
-- error past 2^31 - 1 is left out.
pub mod Listing
pub mod Upsert
pub mod Ath
pub mod Queries
pub mod Newest
use tokenir.Prelude.{
  text_eq, ℕ, suc, ◌+◌, ◌≡◌, Bool, true, false, ◌&&◌, ◌||◌, not, Option, none, some, List, [], ◌∷◌,
  ◌++◌, map, ◌==◌, if◌then◌else◌, ltb, any, keep, head?, length, take,
}
use tokenir.Prelude.Map.{Map, get, insert, contains_key, is_some}
use tokenir.Prelude.Int.{ℤ, greatest}
use tokenir.Prelude.Text.{Text, codes}
use tokenir.Solana.{Solana, Pubkey}
use tokenir.Database.{
  SqlError, database, decode, Result, ok, err, TokenRow, Tables, Sql, ◌>>=◌, ◌>>◌, statement, query,
  transaction, is_bindable, is_bindable_opt,
}
use tokenir.Database.Clean.{clean, clean_opt}

pub record DbToken : Type 0 where
  pub mint : Text
  pub dev_address : Text
  pub ath : ℤ
  pub name : Text
  pub ticker : Text
  pub ipfs : Option Text
  pub image : Option Text
  pub description : Option Text
  pub community_id : Option Text
  pub pool_address : Text

-- SQL's equality of two values that may be NULL, as a WHERE clause takes it.
abbrev pub sql_eq : Option Text → Option Text → Bool
sql_eq none b = false
sql_eq (some a) none = false
sql_eq (some a) (some b) = a == b

abbrev pub coalesce : Option Text → Option Text → Option Text
coalesce none b = b
coalesce (some a) b = some a

-- NULLIF(x, '')
abbrev pub nullif_empty : Option Text → Option Text
nullif_empty none = none
nullif_empty (some []) = none
nullif_empty (some (c ∷ s)) = some (c ∷ s)

abbrev pub tokens_there : Tables → Bool
tokens_there t = t.tokens_table

-- A column that is NULL or not there cannot be read as a `String`.
abbrev pub as_db_token : Bool → TokenRow → Option Text → Option Text → Option Text → Result DbToken
as_db_token true r (some name) (some ticker) (some pool) = ok (record {
  mint = r.mint;
  dev_address = r.dev_address;
  ath = r.ath;
  name = name;
  ticker = ticker;
  ipfs = r.ipfs;
  image = r.image;
  description = r.description;
  community_id = r.community_id;
  pool_address = pool;
})
as_db_token _ r _ _ _ = err decode

abbrev pub push_token : Result DbToken → Result (List DbToken) → Result (List DbToken)
push_token (err e) ts = err e
push_token (ok t) (err e) = err e
push_token (ok t) (ok ts) = ok (t ∷ ts)

unfoldable pub as_db_tokens : Bool → List TokenRow → Result (List DbToken)
as_db_tokens column [] = ok []
as_db_tokens column (r ∷ rs) =
    push_token (as_db_token column r r.name r.ticker r.pool_address) (as_db_tokens column rs)

abbrev pub count_of : Option ℕ → ℕ
count_of none = 1
count_of (some n) = suc n

-- INSERT INTO devs … ON CONFLICT (dev_address) DO UPDATE
abbrev pub count_dev : Text → Tables → Result (Unit {0}) × Tables
count_dev dev t = (ok tt, record t { devs = insert dev (count_of (get dev t.devs)) t.devs })

unfoldable pub add_dev : Text → Sql (Unit {0})
add_dev dev = statement (λ t. t.devs_table && is_bindable dev) (count_dev dev)

-- The SET clause, for a row `r` and the row `x` that was to be inserted.
abbrev pub merged : TokenRow → TokenRow → TokenRow
merged r x = record r {
  ath = greatest r.ath x.ath;
  name = coalesce (nullif_empty x.name) r.name;
  ticker = coalesce (nullif_empty x.ticker) r.ticker;
  ipfs = coalesce x.ipfs r.ipfs;
  image = coalesce x.image r.image;
  description = coalesce (nullif_empty x.description) r.description;
  community_id = coalesce (nullif_empty x.community_id) r.community_id;
  pool_address = coalesce (nullif_empty x.pool_address) r.pool_address;
}

unfoldable pub find_token : Text → List TokenRow → Option TokenRow
find_token mint [] = none
find_token mint (r ∷ rs) = if r.mint == mint then some r else find_token mint rs

unfoldable pub merge_row : TokenRow → List TokenRow → List TokenRow
merge_row x [] = []
merge_row x (r ∷ rs) =
    let rest = merge_row x rs in if r.mint == x.mint then merged r x ∷ rest else r ∷ rest

-- INSERT INTO tokens … ON CONFLICT (mint) DO UPDATE. A new row's developer must be in `devs`.
abbrev pub upsert : TokenRow → Tables → Result (Unit {0}) × Tables
upsert x t =
    if is_some (find_token x.mint t.tokens)
    then (ok tt, record t { tokens = merge_row x t.tokens })
    else if contains_key x.dev_address t.devs
    then (ok tt, record t { tokens = t.tokens ++ x ∷ [] })
    else (err database, t)

abbrev pub row_of : Text → DbToken → Text → ℕ → TokenRow
row_of mint token dev_address now = record {
  mint = mint;
  dev_address = dev_address;
  ath = token.ath;
  created_at = now;
  name = some (clean token.name);
  ticker = some (clean token.ticker);
  ipfs = clean_opt token.ipfs;
  image = clean_opt token.image;
  description = clean_opt token.description;
  community_id = clean_opt token.community_id;
  pool_address = some (clean token.pool_address);
}

unfoldable pub insert_token : TokenRow → Sql (Unit {0})
insert_token x =
    statement
      (λ t.
        tokens_there t && t.pool_address_column && is_bindable x.mint && is_bindable x.dev_address)
      (upsert x)

-- The column `created_at` takes the server's time, `now`.
unfoldable pub add_token : Solana → ℕ → Pubkey → DbToken → Text → Sql (Unit {0})
add_token sol now mint token dev_address = transaction (do
  add_dev (clean dev_address)
  insert_token (row_of (sol.to_string mint) token dev_address now))

unfoldable pub token_any_exists :
    Option Text → Option Text → Option Text → Option Text → Option Text → Sql Bool
token_any_exists name ticker ipfs image description =
    query
      (λ t.
        tokens_there t
        && is_bindable_opt image
        && is_bindable_opt ipfs
        && is_bindable_opt description
        && is_bindable_opt name
        && is_bindable_opt ticker)
      λ t. ok (
        any
          (λ r.
            sql_eq r.image image
            || sql_eq r.ipfs ipfs
            || (sql_eq r.description description && sql_eq r.name name)
            || (sql_eq r.description description && sql_eq r.ticker ticker)
            || (sql_eq r.name name && sql_eq r.ticker ticker))
          t.tokens)

unfoldable pub token_community_exists : Text → Sql Bool
token_community_exists community_id =
    query (λ t. tokens_there t && is_bindable community_id)
      λ t. ok (any (λ r. sql_eq r.community_id (some community_id)) t.tokens)

unfoldable pub raise_ath : Text → ℤ → List TokenRow → List TokenRow
raise_ath pool ath [] = []
raise_ath pool ath (r ∷ rs) =
    let rest = raise_ath pool ath rs in
    if sql_eq r.pool_address (some pool)
    then record r { ath = greatest r.ath ath } ∷ rest
    else r ∷ rest

unfoldable pub update_token_ath : Solana → Pubkey → ℤ → Sql (Unit {0})
update_token_ath sol pool_address ath =
    statement (λ t. tokens_there t && t.pool_address_column)
      λ t. (ok tt, record t { tokens = raise_ath (sol.to_string pool_address) ath t.tokens })
