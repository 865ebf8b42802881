-- ===== src/Database/Users/Authority.antt =====
-- Who may change the `users` table of tokenir/src/database.rs.
use tokenir.Prelude.{
  text_eq, ℕ, ◌≡◌, ◌≢◌, refl, ◌∙◌, ap, ◌⊎◌, inl, inr, Bool, true, false, Option, none, some, List,
  [], ◌∷◌, ◌++◌, nat_beq, nat_beq_iff, keep, head?, arith, Bool-cases, Option-cases, not,
}
use tokenir.Prelude.Text.{Text, byte_length}
use tokenir.Database.{UserRow, Tables, Store, statement, ◌>>=◌, Result, ok, err}
use tokenir.Database.Clean.{clean}
use tokenir.Database.Users.{
  with_key, with_id, AddUserPayload, select_admin, select_admin_by_id, insert_user, add_user,
  remove_user, delete_user,
}
use tokenir.Database.Users.Invariant.{
  Apart, Distinct, UsersIsValid, tables-select_admin, tables-select_admin_by_id,
  add_user-UsersIsValid, remove_user-UsersIsValid,
}

abbrev pub admin_of : Option UserRow → Bool
admin_of none = false
admin_of (some r) = r.admin

-- The row that the key selects is an administrator's.
abbrev pub is_admin_key : Text → Tables → Bool
is_admin_key key t = admin_of (head? (with_key key t.users))

abbrev pub admins : List UserRow → List UserRow
admins = keep (λ r. r.admin)

pub select_admin-is_admin_key :
    (key : Text) (s : Store) → (select_admin key s).0 ≡ ok true → is_admin_key key s.tables ≡ true
unfolding select_admin statement
select_admin-is_admin_key key s h = ground arith

abbrev pub new_row : Tables → AddUserPayload → UserRow
new_row t payload = record {
  id = t.next_user_id;
  access_key = clean payload.provided_key;
  hint = clean payload.hint;
  admin = false;
  autobuy = some payload.autobuy;
}

-- What the last statement of `add_user` does to the table.
insert_user_lem :
    (payload : AddUserPayload) (s : Store)
    → let m = insert_user (clean payload.provided_key) (clean payload.hint) payload.autobuy s in
      (m.0 ≡ ok tt → m.1.tables.users ≡ s.tables.users ++ new_row s.tables payload ∷ [])
      × (m.0 ≢ ok tt → m.1.tables.users ≡ s.tables.users)
unfolding insert_user statement
insert_user_lem payload s = ground arith

-- `add_user` succeeds only for a caller whose key is an administrator's and for a key of 32 bytes,
-- and then appends one row, which is no administrator; otherwise it leaves the rows as they were.
pub add_user_authority :
    (caller : Text) (payload : AddUserPayload) (s : Store)
    → let m = add_user caller payload s in
      (m.0 ≡ ok tt
        → (is_admin_key (clean caller) s.tables ≡ true)
          × (byte_length payload.provided_key ≡ 32)
          × (m.1.tables.users ≡ s.tables.users ++ new_row s.tables payload ∷ []))
      × (m.0 ≢ ok tt → m.1.tables.users ≡ s.tables.users)
unfolding add_user ◌>>=◌
add_user_authority caller payload s =
    let s' = (select_admin (clean caller) s).1 in
    ground (
      arith,
      tables-select_admin (clean caller) s,
      select_admin-is_admin_key (clean caller) s,
      nat_beq_iff (byte_length payload.provided_key) 32,
      insert_user_lem payload s',
    )

pub keep-Apart :
    (r : UserRow) (rs : List UserRow) → Apart r rs → keep (λ q. not (nat_beq q.id r.id)) rs ≡ rs
keep-Apart r [] h = refl
keep-Apart r (q ∷ rs) h = ground (arith, keep-Apart r rs h.1)

-- Deleting the row of one id, where ids are distinct and that row is no administrator's.
admins-delete :
    (id : ℕ) (rs : List UserRow) (r : UserRow)
    → Distinct rs
    → head? (with_id id rs) ≡ some r
    → r.admin ≡ false
    → admins (keep (λ q. not (nat_beq q.id id)) rs) ≡ admins rs
admins-delete id [] r d h a = refl
admins-delete id (q ∷ rs) r d h a = elim (Bool-cases (nat_beq q.id id)) [
  | inl e ↦ let same : q.id ≡ id = (nat_beq_iff q.id id).0 e in ground (arith, keep-Apart q rs d.0)
  | inr e ↦ ground (arith, admins-delete id rs r d.1)
]

admins-delete-select_admin_by_id :
    (id : ℕ) (s : Store)
    → Distinct s.tables.users
    → (select_admin_by_id id s).0 ≡ ok false
    → admins (keep (λ q. not (nat_beq q.id id)) s.tables.users) ≡ admins s.tables.users
unfolding select_admin_by_id statement
admins-delete-select_admin_by_id id s d h =
    elim (Option-cases (head? (with_id id s.tables.users))) [
      | inl e ↦ absurd (ground arith)
      | inr (r, e) ↦ admins-delete id s.tables.users r d e (ground arith)
    ]

delete_user_lem :
    (id : ℕ) (s : Store)
    → let m = delete_user id s in
      (m.0 ≡ ok tt → m.1.tables.users ≡ keep (λ q. not (nat_beq q.id id)) s.tables.users)
      × (m.0 ≢ ok tt → m.1.tables.users ≡ s.tables.users)
unfolding delete_user statement
delete_user_lem id s = ground arith

-- Where ids and keys are distinct, `remove_user` succeeds only for a caller whose key is an
-- administrator's, then removes exactly the rows of that id, and whatever happens the administrators' rows stay.
pub remove_user_authority :
    (caller : Text) (id : ℕ) (s : Store)
    → UsersIsValid s.tables
    → let m = remove_user caller id s in
      (m.0 ≡ ok tt
        → (is_admin_key (clean caller) s.tables ≡ true)
          × (m.1.tables.users ≡ keep (λ q. not (nat_beq q.id id)) s.tables.users))
      × (m.0 ≢ ok tt → m.1.tables.users ≡ s.tables.users)
      × (admins m.1.tables.users ≡ admins s.tables.users)
unfolding remove_user ◌>>=◌
remove_user_authority caller id s v =
    let s' = (select_admin (clean caller) s).1 in
    ground (
      arith,
      tables-select_admin (clean caller) s,
      select_admin-is_admin_key (clean caller) s,
      tables-select_admin_by_id id s',
      admins-delete-select_admin_by_id id s',
      delete_user_lem id (select_admin_by_id id s').1,
    )

-- The requests that change the table.
pub data UserCall : Type 0 where
  adds : Text → AddUserPayload → UserCall
  removes : Text → ℕ → UserCall

unfoldable pub step : UserCall → Store → Store
step (adds caller payload) s = (add_user caller payload s).1
step (removes caller id) s = (remove_user caller id s).1

unfoldable pub run : List UserCall → Store → Store
unfolding step
run [] s = s
run (c ∷ cs) s = run cs (step c s)

admins-append :
    (rs : List UserRow) (r : UserRow) → r.admin ≡ false → admins (rs ++ r ∷ []) ≡ admins rs
admins-append [] r h = ground arith
admins-append (q ∷ rs) r h = ground (arith, admins-append rs r h)

pub is_done : (r : Result (Unit {0})) → (r ≡ ok tt) ⊎ (r ≢ ok tt)
is_done (ok tt) = inl refl
is_done (err e) = inr (λ h. cc)

add_user-admins :
    (caller : Text) (payload : AddUserPayload) (s : Store)
    → admins (add_user caller payload s).1.tables.users ≡ admins s.tables.users
add_user-admins caller payload s =
    let (done, failed) = add_user_authority caller payload s in
    elim (is_done (add_user caller payload s).0) [
      | inl h ↦ ap admins (done h).2 ∙ admins-append s.tables.users _ refl
      | inr h ↦ ap admins (failed h)
    ]

-- On tables whose users have distinct ids, below the next one, and distinct keys, no sequence of calls
-- of `add_user` and `remove_user`, by whatever caller and whatever fails, creates or removes an
-- administrator, and it keeps the tables so.
pub run-admins :
    (cs : List UserCall) (s : Store)
    → UsersIsValid s.tables
    → (admins (run cs s).tables.users ≡ admins s.tables.users) × UsersIsValid (run cs s).tables
unfolding run step
run-admins [] s v = (refl, v)
run-admins (adds caller payload ∷ cs) s v =
    let (rest, valid) = run-admins cs _ (add_user-UsersIsValid caller payload s v) in
    (rest ∙ add_user-admins caller payload s, valid)
run-admins (removes caller id ∷ cs) s v =
    let (rest, valid) = run-admins cs _ (remove_user-UsersIsValid caller id s v) in
    (rest ∙ (remove_user_authority caller id s v).2, valid)
