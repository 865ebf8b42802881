-- ===== src/Database/Tokens/Queries.antt =====
-- What the queries on `tokens` in tokenir/src/database.rs return.
use tokenir.Prelude.{
  text_eq, ℕ, zero, suc, ◌≤◌, ◌≡◌, refl, Bool, true, ◌&&◌, not, ap, Option, List, [], ◌∷◌, ◌==◌,
  arith, all, all-keep, keep, take, length, length-take-le,
}
use tokenir.Prelude.Text.{Text}
use tokenir.Database.{Result, ok, err, TokenRow, Store, statement}
use tokenir.Database.Clean.{clean}
use tokenir.Database.Tokens.{
  DbToken, as_db_token, as_db_tokens, push_token, token_any_exists, token_community_exists,
}
use tokenir.Database.Tokens.Listing.{
  insert_newest, newest_first, of_dev_excluding, get_last_tokens_by_dev_excluding,
}

abbrev db_of_dev_excluding : Text → Text → DbToken → Bool
db_of_dev_excluding dev mint r = r.dev_address == dev && not (r.mint == mint)

pub push_token-eq-ok :
    (t : Result DbToken) (ts : Result (List DbToken)) (us : List DbToken)
    → push_token t ts ≡ ok us
    → (v : DbToken) × (vs : List DbToken) × (t ≡ ok v) × (ts ≡ ok vs) × (us ≡ v ∷ vs)
push_token-eq-ok (err e) ts us h = cc
push_token-eq-ok (ok t) (err e) us h = cc
push_token-eq-ok (ok t) (ok ts) us h = (t, ts, refl, refl, ground arith)

pub as_db_token_keys :
    (column : Bool) (r : TokenRow) (a b c : Option Text) (t : DbToken)
    → as_db_token column r a b c ≡ ok t
    → (t.mint ≡ r.mint) × (t.dev_address ≡ r.dev_address)
as_db_token_keys column r a b c t h = ground arith

length-as_db_tokens :
    (column : Bool) (rs : List TokenRow) (ts : List DbToken)
    → as_db_tokens column rs ≡ ok ts
    → length ts ≡ length rs
unfolding as_db_tokens
length-as_db_tokens column [] ts h = ground arith
length-as_db_tokens column (r ∷ rs) ts h =
    let (v, vs, e, es, eq) = push_token-eq-ok _ (as_db_tokens column rs) ts h in
    rw eq (ap suc (length-as_db_tokens column rs vs es))

all-insert_newest :
    (p : TokenRow → Bool) (r : TokenRow) (rs : List TokenRow)
    → p r ≡ true
    → all p rs ≡ true
    → all p (insert_newest r rs) ≡ true
unfolding insert_newest
all-insert_newest p r [] h k = ground arith
all-insert_newest p r (q ∷ rs) h k = ground (arith, all-insert_newest p r rs h)

all-newest_first :
    (p : TokenRow → Bool) (rs : List TokenRow) → all p rs ≡ true → all p (newest_first rs) ≡ true
unfolding newest_first
all-newest_first p [] h = refl
all-newest_first p (r ∷ rs) h =
    ground (arith, all-insert_newest p r (newest_first rs), all-newest_first p rs)

all-take :
    (p : TokenRow → Bool) (n : ℕ) (rs : List TokenRow) → all p rs ≡ true → all p (take n rs) ≡ true
all-take p zero rs h = refl
all-take p (suc n) [] h = refl
all-take p (suc n) (r ∷ rs) h = ground (arith, all-take p n rs)

all-as_db_tokens :
    (dev mint : Text) (column : Bool) (rs : List TokenRow) (ts : List DbToken)
    → as_db_tokens column rs ≡ ok ts
    → all (of_dev_excluding dev mint) rs ≡ true
    → all (db_of_dev_excluding dev mint) ts ≡ true
unfolding as_db_tokens
all-as_db_tokens dev mint column [] ts h k = ground arith
all-as_db_tokens dev mint column (r ∷ rs) ts h k =
    let (v, vs, e, es, eq) = push_token-eq-ok _ (as_db_tokens column rs) ts h in
    rw eq (
      ground
        (arith, as_db_token_keys column r _ _ _ v e, all-as_db_tokens dev mint column rs vs es))

-- What `get_last_tokens_by_dev_excluding` returns is at most `limit` tokens, each of the cleaned
-- developer and none of the excluded mint; and the query changes no table.
get_last_tokens_by_dev_excluding_lem :
    (dev mint : Text) (limit : ℕ) (s : Store)
    → let m = get_last_tokens_by_dev_excluding dev mint limit s in
      (m.1.tables ≡ s.tables)
      × ((ts : List DbToken)
          → m.0 ≡ ok ts
          → (length ts ≤ limit)
            × (all (λ t. t.dev_address == clean dev && not (t.mint == mint)) ts ≡ true))
unfolding get_last_tokens_by_dev_excluding statement
get_last_tokens_by_dev_excluding_lem dev mint limit s =
    let p = of_dev_excluding (clean dev) mint in
    let rows = keep p s.tables.tokens in
    let kept = newest_first rows in
    let right : all (of_dev_excluding (clean dev) mint) (take limit kept) ≡ true =
      all-take p limit kept (all-newest_first p rows (all-keep p s.tables.tokens)) in
    let column = s.tables.pool_address_column in
    (
      ground arith,
      λ ts h.
          let read : as_db_tokens column (take limit kept) ≡ ok ts = ground arith in
          (
            omega (
              arith,
              length-as_db_tokens column (take limit kept) ts read,
              length-take-le limit kept,
            ),
            all-as_db_tokens (clean dev) mint column (take limit kept) ts read right,
          ),
    )

-- The two tests of the table change no table.
pub tables-token_any_exists :
    (name ticker ipfs image description : Option Text) (s : Store)
    → (token_any_exists name ticker ipfs image description s).1.tables ≡ s.tables
unfolding token_any_exists statement
tables-token_any_exists name ticker ipfs image description s = ground arith

pub tables-token_community_exists :
    (id : Text) (s : Store) → (token_community_exists id s).1.tables ≡ s.tables
unfolding token_community_exists statement
tables-token_community_exists id s = ground arith
