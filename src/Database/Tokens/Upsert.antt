-- ===== src/Database/Tokens/Upsert.antt =====
-- What `add_token` of tokenir/src/database.rs does to the `devs` and `tokens` tables.
use tokenir.Prelude.{
  text_eq, ℕ, ◌≡◌, ◌≢◌, refl, true, false, Option, none, some, List, [], ◌∷◌, ◌++◌, ◌==◌, eq_iff,
  if◌then◌else◌, arith, ap, ◌∙◌,
}
use tokenir.Prelude.Map.{get, contains_key, is_some, get-insert}
use tokenir.Prelude.Text.{Text}
use tokenir.Solana.{Solana, Pubkey}
use tokenir.Database.{
  Result, ok, err, SqlError, TokenRow, Tables, Store, ◌>>=◌, statement, transaction, later_faults,
}
use tokenir.Database.Clean.{clean}
use tokenir.Database.Tokens.{
  DbToken, find_token, merge_row, merged, count_of, upsert, row_of, add_dev, count_dev,
  insert_token, add_token,
}

-- The row of a mint after an upsert, from the row before.
abbrev pub upserted : TokenRow → Option TokenRow → TokenRow
upserted x none = x
upserted x (some r) = merged r x

find_token-merge_row_ne :
    (mint : Text) (x : TokenRow) (rs : List TokenRow)
    → (x.mint == mint) ≡ false
    → find_token mint (merge_row x rs) ≡ find_token mint rs
unfolding find_token merge_row
find_token-merge_row_ne mint x [] h = refl
find_token-merge_row_ne mint x (r ∷ rs) h = ground (
  arith,
  eq_iff r.mint mint,
  eq_iff r.mint x.mint,
  eq_iff x.mint mint,
  find_token-merge_row_ne mint x rs h,
)

find_token-merge_row :
    (mint : Text) (x : TokenRow) (rs : List TokenRow)
    → is_some (find_token x.mint rs) ≡ true
    → find_token mint (merge_row x rs)
      ≡ (if x.mint == mint then some (upserted x (find_token x.mint rs)) else find_token mint rs)
unfolding find_token merge_row
find_token-merge_row mint x [] h = ground arith
find_token-merge_row mint x (r ∷ rs) h = ground (
  arith,
  eq_iff r.mint mint,
  eq_iff r.mint x.mint,
  eq_iff x.mint mint,
  find_token-merge_row_ne mint x rs,
  find_token-merge_row mint x rs,
)

find_token-append :
    (mint : Text) (x : TokenRow) (rs : List TokenRow)
    → find_token x.mint rs ≡ none
    → find_token mint (rs ++ x ∷ []) ≡ (if x.mint == mint then some x else find_token mint rs)
unfolding find_token
find_token-append mint x [] h = refl
find_token-append mint x (r ∷ rs) h = ground (
  arith,
  eq_iff r.mint mint,
  eq_iff r.mint x.mint,
  eq_iff x.mint mint,
  find_token-append mint x rs,
)

-- After an upsert that goes through, the row of its mint is the merged one; other rows stay.
pub find_token-upsert :
    (mint : Text) (x : TokenRow) (t : Tables)
    → (upsert x t).0 ≡ ok tt
    → find_token mint (upsert x t).1.tokens ≡ (
        if x.mint == mint
        then some (upserted x (find_token x.mint t.tokens))
        else find_token mint t.tokens)
find_token-upsert mint x t h =
    ground (arith, find_token-merge_row mint x t.tokens, find_token-append mint x t.tokens)

-- A transaction that fails leaves the tables as they were.
pub transaction_rollback :
    {A : Type 0} (m : Store → Result A × Store) (s : Store) (e : SqlError)
    → (transaction m s).0 ≡ err e
    → (transaction m s).1.tables ≡ s.tables
unfolding transaction
transaction_rollback m s e h = ground arith

add_dev_lem :
    (dev : Text) (s : Store)
    → let m = add_dev dev s in
      (m.0 ≡ ok tt → m.1.tables ≡ (count_dev dev s.tables).1)
      × (m.0 ≢ ok tt → m.1.tables ≡ s.tables)
unfolding add_dev statement
add_dev_lem dev s = ground arith

insert_token_lem :
    (x : TokenRow) (s : Store)
    → let m = insert_token x s in
      (m.0 ≡ ok tt → ((upsert x s.tables).0 ≡ ok tt) × (m.1.tables ≡ (upsert x s.tables).1))
      × (m.0 ≢ ok tt → m.1.tables ≡ s.tables)
unfolding insert_token statement
insert_token_lem x s = ground arith

-- `add_token` is all or nothing: it fails and leaves the tables as they were, or it succeeds, counts
-- one more token for the cleaned developer, and upserts the row of the mint.
pub add_token_atomic :
    (sol : Solana) (now : ℕ) (mint : Pubkey) (token : DbToken) (dev : Text) (s : Store)
    → let m = add_token sol now mint token dev s in
      let x = row_of (sol.to_string mint) token dev now in
      let counted = (count_dev (clean dev) s.tables).1 in
      (m.0 ≢ ok tt → m.1.tables ≡ s.tables)
      × (m.0 ≡ ok tt → ((upsert x counted).0 ≡ ok tt) × (m.1.tables ≡ (upsert x counted).1))
unfolding add_token transaction ◌>>=◌
add_token_atomic sol now mint token dev s =
    let s' : Store = record s { faults = later_faults s.faults } in
    ground (
      arith,
      add_dev_lem (clean dev) s',
      insert_token_lem (row_of (sol.to_string mint) token dev now) (add_dev (clean dev) s').1,
    )

devs-upsert : (x : TokenRow) (t : Tables) → (upsert x t).1.devs ≡ t.devs
devs-upsert x t = ground arith

pub tokens-upsert_failed : (x : TokenRow) (t : Tables) → (upsert x t).0 ≢ ok tt → (upsert x t).1 ≡ t
tokens-upsert_failed x t h = ground arith

-- Where `add_token` succeeds, the row of its mint is the new one, or the old one merged with it, all
-- other rows stay, and the count of the cleaned developer alone goes up by one.
pub add_token_effect :
    (sol : Solana) (now : ℕ) (mint : Pubkey) (token : DbToken) (dev : Text) (s : Store) (j d : Text)
    → (add_token sol now mint token dev s).0 ≡ ok tt
    → let t = (add_token sol now mint token dev s).1.tables in
      let x = row_of (sol.to_string mint) token dev now in
      (find_token j t.tokens ≡ (
        if x.mint == j
        then some (upserted x (find_token x.mint s.tables.tokens))
        else find_token j s.tables.tokens))
      × (get d t.devs ≡ (
          if clean dev == d
          then some (count_of (get (clean dev) s.tables.devs))
          else get d s.tables.devs))
add_token_effect sol now mint token dev s j d h =
    let x = row_of (sol.to_string mint) token dev now in
    let counted = (count_dev (clean dev) s.tables).1 in
    let done = (add_token_atomic sol now mint token dev s).1 h in
    (
      ap (λ (t : Tables). find_token j t.tokens) done.1 ∙ find_token-upsert j x counted done.0,
      ap (λ (t : Tables). get d t.devs) done.1
          ∙ ap (get d) (devs-upsert x counted)
          ∙ get-insert (clean dev) d _ s.tables.devs,
    )

-- The developer's row is counted under the cleaned text and referenced under the text as it came: for
-- a new mint and a developer that cleaning changes, not yet among the developers, `add_token` fails.
pub add_token_foreign_key :
    (sol : Solana) (now : ℕ) (mint : Pubkey) (token : DbToken) (dev : Text) (s : Store)
    → clean dev ≢ dev
    → get dev s.tables.devs ≡ none
    → find_token (sol.to_string mint) s.tables.tokens ≡ none
    → ((add_token sol now mint token dev s).0 ≢ ok tt)
      × ((add_token sol now mint token dev s).1.tables ≡ s.tables)
unfolding contains_key
add_token_foreign_key sol now mint token dev s h g f = ground (
  arith,
  add_token_atomic sol now mint token dev s,
  get-insert (clean dev) dev (count_of (get (clean dev) s.tables.devs)) s.tables.devs,
  eq_iff (clean dev) dev,
)
