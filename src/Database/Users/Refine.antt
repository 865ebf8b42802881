-- ===== src/Database/Users/Refine.antt =====
-- The `users` table of tokenir/src/database.rs implements accounts by key.
use tokenir.Prelude.{
  text_eq, ℕ, ◌≡◌, ◌≢◌, refl, sym, ap, ◌∙◌, inl, inr, Bool, true, false, Option, none, some, List,
  [], ◌∷◌, ◌++◌, ◌==◌, eq_iff, nat_beq, nat_beq_iff, if◌then◌else◌, keep, head?, arith,
  Option-cases, not,
}
use tokenir.Prelude.Text.{Text}
use tokenir.Database.{Result, ok, err, UserRow, Tables, Store, statement, ◌>>=◌}
use tokenir.Database.Clean.{clean}
use tokenir.Database.Users.{
  with_key, with_id, AddUserPayload, select_admin, select_admin_by_id, insert_user, add_user,
  remove_user,
}
use tokenir.Database.Users.Invariant.{
  Apart, Distinct, Below, UsersIsValid, tables-select_admin, add_user-UsersIsValid,
  remove_user-UsersIsValid,
}
use tokenir.Database.Users.Authority.{
  admin_of, is_admin_key, new_row, add_user_authority, remove_user_authority, UserCall, adds,
  removes, step, run,
}
use tokenir.Database.Users.Accounts.{
  account_of, accounts, leads_to_admin, is_numbered, Change, refused, added, removed, Runs, ended,
  went, answers,
}
use tokenir.Database.Users.Reasons.{add_user-Reason, remove_user-Reason}

with_key-append :
    (key : Text) (rs : List UserRow) (r : UserRow)
    → head? (with_key r.access_key rs) ≡ none
    → head? (with_key key (rs ++ r ∷ []))
      ≡ (if r.access_key == key then some r else head? (with_key key rs))
with_key-append key [] r h = ground arith
with_key-append key (q ∷ rs) r h = ground (
  arith,
  eq_iff q.access_key r.access_key,
  eq_iff q.access_key key,
  eq_iff r.access_key key,
  with_key-append key rs r,
)

with_key-Apart :
    (r : UserRow) (rs : List UserRow) → Apart r rs → head? (with_key r.access_key rs) ≡ none
with_key-Apart r [] h = refl
with_key-Apart r (q ∷ rs) h =
    ground (arith, eq_iff q.access_key r.access_key, with_key-Apart r rs h.1)

abbrev has_id : ℕ → Option UserRow → Bool
has_id id none = false
has_id id (some r) = nat_beq r.id id

with_key-delete :
    (id : ℕ) (key : Text) (rs : List UserRow)
    → Distinct rs
    → head? (with_key key (keep (λ r. not (nat_beq r.id id)) rs))
      ≡ (if has_id id (head? (with_key key rs)) then none else head? (with_key key rs))
with_key-delete id key [] d = refl
with_key-delete id key (q ∷ rs) d =
    ground (arith, eq_iff q.access_key key, with_key-Apart q rs d.0, with_key-delete id key rs d.1)

number_fresh :
    (n : ℕ) (key : Text) (rs : List UserRow)
    → Below n rs
    → is_numbered n (account_of (head? (with_key key rs))) ≡ false
number_fresh n key [] b = refl
number_fresh n key (q ∷ rs) b = ground (arith, number_fresh n key rs b.1)

account-admin : (o : Option UserRow) → leads_to_admin (account_of o) ≡ admin_of o
account-admin none = refl
account-admin (some r) = refl

Apart-with_id :
    (q r : UserRow) (id : ℕ) (rs : List UserRow)
    → Apart q rs
    → head? (with_id id rs) ≡ some r
    → r.access_key ≢ q.access_key
Apart-with_id q r id [] a h = ground arith
Apart-with_id q r id (x ∷ rs) a h = ground (arith, Apart-with_id q r id rs a.1, a.0)

with_key-with_id :
    (id : ℕ) (rs : List UserRow) (r : UserRow)
    → Distinct rs
    → head? (with_id id rs) ≡ some r
    → (head? (with_key r.access_key rs) ≡ some r) × (r.id ≡ id)
with_key-with_id id [] r d h = ground arith
with_key-with_id id (q ∷ rs) r d h = ground (
  arith,
  eq_iff q.access_key r.access_key,
  with_key-with_id id rs r d.1,
  Apart-with_id q r id rs d.0,
)

insert_user_free :
    (key hint : Text) (autobuy : Bool) (s : Store)
    → (insert_user key hint autobuy s).0 ≡ ok tt
    → head? (with_key key s.tables.users) ≡ none
unfolding insert_user statement
insert_user_free key hint autobuy s h = ground arith

add_user_free :
    (caller : Text) (payload : AddUserPayload) (s : Store)
    → (add_user caller payload s).0 ≡ ok tt
    → head? (with_key (clean payload.provided_key) s.tables.users) ≡ none
unfolding add_user ◌>>=◌
add_user_free caller payload s h = ground (
  arith,
  tables-select_admin (clean caller) s,
  insert_user_free (clean payload.provided_key) (clean payload.hint) payload.autobuy
      (select_admin (clean caller) s).1,
)

select_admin_by_id_found :
    (id : ℕ) (s : Store)
    → (select_admin_by_id id s).0 ≡ ok false
    → (r : UserRow) × (head? (with_id id s.tables.users) ≡ some r) × (r.admin ≡ false)
unfolding select_admin_by_id statement
select_admin_by_id_found id s h = elim (Option-cases (head? (with_id id s.tables.users))) [
  | inl e ↦ absurd (ground arith)
  | inr (r, e) ↦ (r, e, ground arith)
]

remove_user_asked :
    (caller : Text) (id : ℕ) (s : Store)
    → (remove_user caller id s).0 ≡ ok tt
    → (select_admin_by_id id (select_admin (clean caller) s).1).0 ≡ ok false
unfolding remove_user ◌>>=◌
remove_user_asked caller id s h = ground arith

remove_user_found :
    (caller : Text) (id : ℕ) (s : Store)
    → (remove_user caller id s).0 ≡ ok tt
    → (r : UserRow) × (head? (with_id id s.tables.users) ≡ some r) × (r.admin ≡ false)
remove_user_found caller id s h =
    let found =
      select_admin_by_id_found id (select_admin (clean caller) s).1
        (remove_user_asked caller id s h) in
    (
      found.0,
      ap (λ (t : Tables). head? (with_id id t.users)) (sym (tables-select_admin (clean caller) s))
          ∙ found.1,
      found.2,
    )

accounts-append :
    (t u : Tables) (r : UserRow) (key : Text)
    → u.users ≡ t.users ++ r ∷ []
    → head? (with_key r.access_key t.users) ≡ none
    → accounts u key ≡ (if r.access_key == key then account_of (some r) else accounts t key)
unfolding accounts
accounts-append t u r key h free =
    ap (λ rs. account_of (head? (with_key key rs))) h
    ∙ ground (arith, with_key-append key t.users r free)

accounts-delete :
    (t u : Tables) (id : ℕ) (key : Text)
    → Distinct t.users
    → u.users ≡ keep (λ r. not (nat_beq r.id id)) t.users
    → accounts u key ≡ (if is_numbered id (accounts t key) then none else accounts t key)
unfolding accounts
accounts-delete t u id key d h =
    ap (λ rs. account_of (head? (with_key key rs))) h
    ∙ ground (arith, with_key-delete id key t.users d)

accounts-users : (t u : Tables) (key : Text) → u.users ≡ t.users → accounts u key ≡ accounts t key
unfolding accounts
accounts-users t u key h = ap (λ rs. account_of (head? (with_key key rs))) h

leads-is_admin_key :
    (key : Text) (t : Tables) → is_admin_key key t ≡ true → leads_to_admin (accounts t key) ≡ true
unfolding accounts
leads-is_admin_key key t h = account-admin (head? (with_key key t.users)) ∙ h

add_user-Change :
    (caller : Text) (payload : AddUserPayload) (s : Store) (r : Result (Unit {0}))
    → UsersIsValid s.tables
    → (add_user caller payload s).0 ≡ r
    → Change
        (accounts s.tables)
        (accounts (add_user caller payload s).1.tables)
        (adds caller payload)
        r
unfolding accounts
add_user-Change caller payload s (err e) v h =
    refused (add_user-Reason caller payload s e h) (λ key.
      accounts-users s.tables (add_user caller payload s).1.tables key
        ((add_user_authority caller payload s).1 (λ p. absurd (ground arith))))
add_user-Change caller payload s (ok tt) v h =
    let done = (add_user_authority caller payload s).0 h in
    let free = add_user_free caller payload s h in
    added s.tables.next_user_id (leads-is_admin_key (clean caller) s.tables done.0) done.1
      (ap account_of free) (λ key. number_fresh s.tables.next_user_id key s.tables.users v.below)
      (λ key.
        accounts-append s.tables (add_user caller payload s).1.tables (new_row s.tables payload) key
          done.2 free)

remove_user-Change :
    (caller : Text) (id : ℕ) (s : Store) (r : Result (Unit {0}))
    → UsersIsValid s.tables
    → (remove_user caller id s).0 ≡ r
    → Change (accounts s.tables) (accounts (remove_user caller id s).1.tables) (removes caller id) r
unfolding accounts
remove_user-Change caller id s (err e) v h = refused (remove_user-Reason caller id s e v h) (λ key.
    accounts-users s.tables (remove_user caller id s).1.tables key
      ((remove_user_authority caller id s v).1 (λ p. absurd (ground arith))))
remove_user-Change caller id s (ok tt) v h =
    let done = (remove_user_authority caller id s v).0 h in
    let found = remove_user_found caller id s h in
    let row = with_key-with_id id s.tables.users found.0 v.distinct found.1 in
    removed found.0.access_key (leads-is_admin_key (clean caller) s.tables done.0)
      (rw row.0 ((nat_beq_iff found.0.id id).1 row.1)) (rw row.0 found.2)
      (λ key. accounts-delete s.tables (remove_user caller id s).1.tables id key v.distinct done.1)

-- On tables whose users have distinct ids, below the next one, and distinct keys, any calls of `add_user`
-- and `remove_user` do to the accounts what the answers they return promise. A success of an administrator's
-- call adds one account under a free key and a new number, or removes the one of the number, which is no
-- administrator's. An error changes none, is never `decode`, is `protocol` only for a new key that is not of
-- 32 bytes, and `row_not_found` only if the caller is no administrator or the number to remove is no account's
-- or an administrator's.
pub run-Runs :
    (cs : List UserCall) (s : Store)
    → UsersIsValid s.tables
    → Runs (accounts s.tables) cs (answers cs s) (accounts (run cs s).tables)
unfolding run step answers
run-Runs [] s v = ended
run-Runs (adds caller payload ∷ cs) s v =
    went (add_user-Change caller payload s _ v refl)
      (run-Runs cs _ (add_user-UsersIsValid caller payload s v))
run-Runs (removes caller id ∷ cs) s v =
    went (remove_user-Change caller id s _ v refl)
      (run-Runs cs _ (remove_user-UsersIsValid caller id s v))
