-- ===== src/Database/Users/Invariant.antt =====
-- The primary key and the unique key of `users`, kept by every operation of the table.
use tokenir.Prelude.{
  text_eq, ℕ, suc, ◌<◌, ◌≡◌, ◌≢◌, refl, Bool, false, Option, some, List, [], ◌∷◌, ◌++◌, eq_iff,
  Bool-cases, inl, inr, All, keep, head?, arith,
}
use tokenir.Prelude.Map.{is_some}
use tokenir.Prelude.Text.{Text}
use tokenir.Database.{UserRow, Tables, Store, statement, query, ◌>>=◌, Result}
use tokenir.Database.Clean.{clean}
use tokenir.Database.Users.{
  with_key, AddUserPayload, users_there, autobuy_there, select_admin, select_admin_by_id,
  insert_row, insert_user, add_user, remove_user, delete_user,
}

-- No row of the list has the id or the key of `r`.
abbrev pub Apart : UserRow → List UserRow → Type 0
Apart r = All (λ q. (q.id ≢ r.id) × (q.access_key ≢ r.access_key))

abbrev pub Distinct : List UserRow → Type 0
Distinct [] = Unit
Distinct (r ∷ rs) = Apart r rs × Distinct rs

abbrev pub Below : ℕ → List UserRow → Type 0
Below n = All (λ q. q.id < n)

pub record UsersIsValid (t : Tables) : Type 0 where
  pub distinct : Distinct t.users
  pub below : Below t.next_user_id t.users

All-keep :
    (P : UserRow → Type 0) (p : UserRow → Bool) (rs : List UserRow) → All P rs → All P (keep p rs)
All-keep P p [] h = tt
All-keep P p (r ∷ rs) h = ground (arith, All-keep P p rs)

pub Distinct-keep : (p : UserRow → Bool) (rs : List UserRow) → Distinct rs → Distinct (keep p rs)
Distinct-keep p [] h = tt
Distinct-keep p (r ∷ rs) h = ground (
  arith,
  Distinct-keep p rs h.1,
  All-keep (λ q. (q.id ≢ r.id) × (q.access_key ≢ r.access_key)) p rs h.0,
)

Below-append :
    (n : ℕ) (r : UserRow) (rs : List UserRow) → Below n rs → r.id ≡ n → Below (suc n) (rs ++ r ∷ [])
Below-append n r [] h e = omega arith
Below-append n r (q ∷ rs) h e = (omega arith, Below-append n r rs h.1 e)

Below-suc : (n : ℕ) (rs : List UserRow) → Below n rs → Below (suc n) rs
Below-suc n [] h = tt
Below-suc n (q ∷ rs) h = (omega arith, Below-suc n rs h.1)

Apart-append :
    (q r : UserRow) (rs : List UserRow)
    → Apart q rs
    → r.id ≢ q.id
    → r.access_key ≢ q.access_key
    → Apart q (rs ++ r ∷ [])
Apart-append q r [] h i k = ((i, k), tt)
Apart-append q r (x ∷ rs) h i k = (h.0, Apart-append q r rs h.1 i k)

-- A row with the next number and a key that no row has keeps the rows distinct.
Distinct-append :
    (n : ℕ) (r : UserRow) (rs : List UserRow)
    → Distinct rs
    → Below n rs
    → r.id ≡ n
    → is_some (head? (with_key r.access_key rs)) ≡ false
    → Distinct (rs ++ r ∷ [])
Distinct-append n r [] h b e k = (tt, tt)
Distinct-append n r (q ∷ rs) h b e k = ground (
  arith,
  eq_iff q.access_key r.access_key,
  Distinct-append n r rs h.1 b.1 e,
  Apart-append q r rs h.0,
)

-- A statement keeps what its action keeps, also when it fails.
statement-Keeps :
    {A : Type 0} (P : Tables → Type 0) (needs : Tables → Bool) (run : Tables → Result A × Tables)
    → ((t : Tables) → P t → P (run t).1)
    → (s : Store) → P s.tables
    → P (statement needs run s).1.tables
unfolding statement
statement-Keeps P needs run h s v = ground (arith, h s.tables v)

-- A statement that reads leaves the tables alone.
pub tables-query :
    {A : Type 0} (needs : Tables → Bool) (run : Tables → Result A) (s : Store)
    → (query needs run s).1.tables ≡ s.tables
unfolding statement
tables-query needs run s = ground arith

pub tables-select_admin : (key : Text) (s : Store) → (select_admin key s).1.tables ≡ s.tables
unfolding select_admin
tables-select_admin key s = tables-query _ _ s

pub tables-select_admin_by_id : (id : ℕ) (s : Store) → (select_admin_by_id id s).1.tables ≡ s.tables
unfolding select_admin_by_id
tables-select_admin_by_id id s = tables-query _ _ s

insert_row-UsersIsValid :
    (key hint : Text) (admin : Bool) (autobuy : Option Bool) (t : Tables)
    → UsersIsValid t
    → UsersIsValid (insert_row key hint admin autobuy t).1
insert_row-UsersIsValid key hint admin autobuy t v =
    elim (Bool-cases (is_some (head? (with_key key t.users)))) [
      | inl taken ↦ rw taken (record { distinct = v.distinct; below = Below-suc _ t.users v.below })
      | inr free ↦ rw free (record {
        distinct = Distinct-append t.next_user_id _ t.users v.distinct v.below refl free;
        below = Below-append t.next_user_id _ t.users v.below refl;
      })
    ]

insert_user-UsersIsValid :
    (key hint : Text) (autobuy : Bool) (s : Store)
    → UsersIsValid s.tables
    → UsersIsValid (insert_user key hint autobuy s).1.tables
unfolding insert_user
insert_user-UsersIsValid key hint autobuy =
    statement-Keeps UsersIsValid autobuy_there _
      (insert_row-UsersIsValid key hint false (some autobuy))

All-keep-Below : (n : ℕ) (p : UserRow → Bool) (rs : List UserRow) → Below n rs → Below n (keep p rs)
All-keep-Below n = All-keep (λ q. q.id < n)

delete_user-UsersIsValid :
    (id : ℕ) (s : Store) → UsersIsValid s.tables → UsersIsValid (delete_user id s).1.tables
unfolding delete_user
delete_user-UsersIsValid id = statement-Keeps UsersIsValid users_there _ λ t v. record {
  distinct = Distinct-keep _ t.users v.distinct;
  below = All-keep-Below t.next_user_id _ t.users v.below;
}

-- Adding a user keeps ids and keys distinct and below the sequence, whatever fails on the way.
pub add_user-UsersIsValid :
    (caller : Text) (payload : AddUserPayload) (s : Store)
    → UsersIsValid s.tables
    → UsersIsValid (add_user caller payload s).1.tables
unfolding add_user ◌>>=◌
add_user-UsersIsValid caller payload s v = ground (
  arith,
  tables-select_admin (clean caller) s,
  insert_user-UsersIsValid (clean payload.provided_key) (clean payload.hint) payload.autobuy
      (select_admin (clean caller) s).1,
)

pub remove_user-UsersIsValid :
    (caller : Text) (id : ℕ) (s : Store)
    → UsersIsValid s.tables
    → UsersIsValid (remove_user caller id s).1.tables
unfolding remove_user ◌>>=◌
remove_user-UsersIsValid caller id s v =
    let s' = (select_admin (clean caller) s).1 in
    ground (
      arith,
      tables-select_admin (clean caller) s,
      tables-select_admin_by_id id s',
      delete_user-UsersIsValid id (select_admin_by_id id s').1,
    )
