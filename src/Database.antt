-- ===== src/Database.antt =====
-- tokenir/src/database.rs: the tables, the errors of `sqlx`, and the effect of running statements.
--
-- A statement reads and writes the tables at once or not at all. `faults` is the connection's
-- future: each statement takes one entry, and fails with `io` where that is `true`. A statement
-- that names a table or column which is not there, a text with a NUL byte, a key that must be
-- unique or a referenced row that is missing fails with `database`.
pub mod Clean
pub mod Keeps
pub mod Users
pub mod Tokens
use tokenir.Prelude.{
  ℕ, ◌≡◌, Bool, true, false, ◌&&◌, not, Option, none, some, List, [], ◌∷◌, if◌then◌else◌, nat_beq,
  all, head?,
}
use tokenir.Prelude.Map.{Map}
use tokenir.Prelude.Int.{ℤ}
use tokenir.Prelude.Text.{Text}

pub data SqlError : Type 0 where
  io row_not_found protocol database decode : SqlError

pub data Result {ℓ} (A : Type ℓ) : Type ℓ where
  ok : A → Result A
  err : SqlError → Result A

pub record UserRow : Type 0 where
  pub id : ℕ
  pub access_key : Text
  pub hint : Text
  pub admin : Bool
  pub autobuy : Option Bool

pub record TokenRow : Type 0 where
  pub mint : Text
  pub dev_address : Text
  pub ath : ℤ
  pub created_at : ℕ
  pub name : Option Text
  pub ticker : Option Text
  pub ipfs : Option Text
  pub image : Option Text
  pub description : Option Text
  pub community_id : Option Text
  pub pool_address : Option Text

-- Which tables and columns there are. `autobuy_column` holds the column's default, or NULL.
pub record Schema : Type 0 where
  pub devs_table : Bool
  pub tokens_table : Bool
  pub users_table : Bool
  pub autobuy_column : Option (Option Bool)
  pub pool_address_column : Bool

pub record Tables : Type 0 where
  pub schema : Schema
  pub open schema use *
  pub users : List UserRow
  pub next_user_id : ℕ
  pub devs : Map Text ℕ
  pub tokens : List TokenRow

pub record Store : Type 0 where
  pub tables : Tables
  pub faults : List Bool

-- A text that the server accepts as a parameter.
abbrev pub is_bindable : Text → Bool
is_bindable = all (λ c. not (nat_beq c 0))

abbrev pub is_bindable_opt : Option Text → Bool
is_bindable_opt none = true
is_bindable_opt (some s) = is_bindable s

abbrev pub Sql : Type 0 → Type 0
Sql A = Store → Result A × Store

abbrev pub continue : {A B : Type 0} → Result A → (A → Sql B) → Sql B
continue (ok a) f s = f a s
continue (err e) f s = (err e, s)

unfoldable pub pure : {A : Type 0} → A → Sql A
pure a s = (ok a, s)

unfoldable pub raise : {A : Type 0} → SqlError → Sql A
raise e s = (err e, s)

unfoldable pub guard : Bool → SqlError → Sql (Unit {0})
unfolding pure raise
guard true e = pure tt
guard false e = raise e

infixl 5 ◌>>=◌ ◌>>◌
-- Opening this opens `pure`, `raise` and `guard` too.
unfoldable pub ◌>>=◌ : {A B : Type 0} → Sql A → (A → Sql B) → Sql B
unfolding pure raise guard
◌>>=◌ m f s = let (r, s') = m s in continue r f s'

abbrev pub ◌>>◌ : {B : Type 0} → Sql (Unit {0}) → Sql B → Sql B
m >> k = m >>= λ _. k

abbrev pub next_fault : List Bool → Bool
next_fault [] = false
next_fault (f ∷ fs) = f

abbrev pub later_faults : List Bool → List Bool
later_faults [] = []
later_faults (f ∷ fs) = fs

abbrev pub answer : {A : Type 0} → Result A × Tables → List Bool → Result A × Store
answer (r, t) fs = (r, record { tables = t; faults = fs })

-- One statement: what it needs of the tables, and what it does.
unfoldable pub statement : {A : Type 0} → (Tables → Bool) → (Tables → Result A × Tables) → Sql A
statement needs run s =
    if next_fault s.faults
    then (err io, record s { faults = later_faults s.faults })
    else if needs s.tables
    then answer (run s.tables) (later_faults s.faults)
    else (err database, record s { faults = later_faults s.faults })

-- A statement that only reads.
abbrev pub query : {A : Type 0} → (Tables → Bool) → (Tables → Result A) → Sql A
query needs run = statement needs (λ t. (run t, t))

-- `fetch_one`: the first row, or an error.
abbrev pub fetch_one : {A : Type 0} → Option A → Result A
fetch_one none = err row_not_found
fetch_one (some a) = ok a

-- `begin` and `commit` take a statement each. A transaction that is dropped is rolled back.
abbrev pub settle : {A : Type 0} → Tables → Result A → Store → Result A × Store
settle old (err e) s = (err e, record s { tables = old })
settle old (ok a) s =
    if next_fault s.faults
    then (err io, record { tables = old; faults = later_faults s.faults })
    else (ok a, record s { faults = later_faults s.faults })

unfoldable pub transaction : {A : Type 0} → Sql A → Sql A
transaction m s =
    if next_fault s.faults
    then (err io, record s { faults = later_faults s.faults })
    else (let (r, s') = m (record s { faults = later_faults s.faults }) in settle s.tables r s')
