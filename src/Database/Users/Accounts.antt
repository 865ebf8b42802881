-- ===== src/Database/Users/Accounts.antt =====
-- The `users` table of tokenir/src/database.rs as accounts by key: what its operations promise.
use tokenir.Prelude.{
  text_eq, ℕ, ◌≡◌, Bool, true, false, Option, none, some, List, [], ◌∷◌, ◌==◌, nat_beq,
  if◌then◌else◌, head?,
}
use tokenir.Prelude.Text.{Text, byte_length}
use tokenir.Database.{
  SqlError, io, row_not_found, protocol, database, Result, ok, err, UserRow, Tables, Store,
}
use tokenir.Database.Clean.{clean}
use tokenir.Database.Users.{with_key, AddUserPayload, add_user, remove_user}
use tokenir.Database.Users.Authority.{UserCall, adds, removes, step}

pub record Account : Type 0 where
  pub number : ℕ
  pub is_admin : Bool
  pub may_autobuy : Option Bool

-- Neither the order of the rows nor the hints count.
abbrev pub Accounts : Type 0
Accounts = Text → Option Account

abbrev pub account_of : Option UserRow → Option Account
account_of none = none
account_of (some r) = some (record { number = r.id; is_admin = r.admin; may_autobuy = r.autobuy })

unfoldable pub accounts : Tables → Accounts
accounts t key = account_of (head? (with_key key t.users))

abbrev pub leads_to_admin : Option Account → Bool
leads_to_admin none = false
leads_to_admin (some a) = a.is_admin

abbrev pub is_numbered : ℕ → Option Account → Bool
is_numbered n none = false
is_numbered n (some a) = nat_beq a.number n

abbrev caller_of : UserCall → Text
caller_of (adds caller payload) = caller
caller_of (removes caller id) = caller

-- Why a call is refused with the error that it returns.
pub data Reason (a : Accounts) : UserCall → SqlError → Type 0 where
  failed : {c : UserCall} → Reason a c io
  not_stored : {c : UserCall} → Reason a c database
  no_admin :
      {c : UserCall} → leads_to_admin (a (clean (caller_of c))) ≡ false → Reason a c row_not_found
  not_of_32 :
      {caller : Text} {payload : AddUserPayload}
      → nat_beq (byte_length payload.provided_key) 32 ≡ false
      → Reason a (adds caller payload) protocol
  protected :
      {caller : Text} {id : ℕ}
      → ((key : Text) → is_numbered id (a key) ≡ true → leads_to_admin (a key) ≡ true)
      → Reason a (removes caller id) row_not_found

-- What a call may do to the accounts, with what it returns.
pub data Change (a b : Accounts) : UserCall → Result (Unit {0}) → Type 0 where
  refused :
      {c : UserCall} {e : SqlError}
      → Reason a c e
      → ((key : Text) → b key ≡ a key)
      → Change a b c (err e)
  added :
      {caller : Text} {payload : AddUserPayload} (n : ℕ)
      → leads_to_admin (a (clean caller)) ≡ true
      → byte_length payload.provided_key ≡ 32
      → a (clean payload.provided_key) ≡ none
      → ((key : Text) → is_numbered n (a key) ≡ false)
      → ((key : Text)
          → b key ≡ (
              if clean payload.provided_key == key
              then some
                  (record { number = n; is_admin = false; may_autobuy = some payload.autobuy })
              else a key))
      → Change a b (adds caller payload) (ok tt)
  removed :
      {caller : Text} {id : ℕ} (key : Text)
      → leads_to_admin (a (clean caller)) ≡ true
      → is_numbered id (a key) ≡ true
      → leads_to_admin (a key) ≡ false
      → ((k : Text) → b k ≡ (if is_numbered id (a k) then none else a k))
      → Change a b (removes caller id) (ok tt)

abbrev pub answer : UserCall → Store → Result (Unit {0})
answer (adds caller payload) s = (add_user caller payload s).0
answer (removes caller id) s = (remove_user caller id s).0

unfoldable pub answers : List UserCall → Store → List (Result (Unit {0}))
answers [] s = []
answers (c ∷ cs) s = answer c s ∷ answers cs (step c s)

-- Calls one after the other, with what each returns.
pub data Runs : Accounts → List UserCall → List (Result (Unit {0})) → Accounts → Type 0 where
  ended : {a : Accounts} → Runs a [] [] a
  went :
      {a b d : Accounts} {c : UserCall} {cs : List UserCall} {r : Result (Unit {0})}
      {rs : List (Result (Unit {0}))}
      → Change a b c r
      → Runs b cs rs d
      → Runs a (c ∷ cs) (r ∷ rs) d
