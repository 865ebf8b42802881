-- ===== src/Database/Users/Reasons.antt =====
-- Why `add_user` and `remove_user` of tokenir/src/database.rs return an error.
use tokenir.Prelude.{
  text_eq, ℕ, ◌≡◌, ◌≢◌, refl, inl, inr, Bool, true, false, Option, none, some, List, [], ◌∷◌,
  nat_beq, nat_beq_iff, head?, arith, Bool-cases, not,
}
use tokenir.Prelude.Text.{Text, byte_length}
use tokenir.Database.{
  SqlError, io, row_not_found, protocol, database, decode, ok, err, UserRow, Store, statement,
  ◌>>=◌,
}
use tokenir.Database.Clean.{clean}
use tokenir.Database.Users.{
  with_key, with_id, AddUserPayload, select_admin, select_admin_by_id, insert_user, delete_user,
  add_user, remove_user,
}
use tokenir.Database.Users.Invariant.{Apart, Distinct, UsersIsValid, tables-select_admin}
use tokenir.Database.Users.Authority.{admin_of, is_admin_key, adds, removes}
use tokenir.Database.Users.Accounts.{
  account_of, accounts, leads_to_admin, is_numbered, Reason, failed, not_stored, no_admin,
  not_of_32, protected,
}

select_admin_refused :
    (key : Text) (s : Store)
    → ((select_admin key s).0 ≡ ok false → is_admin_key key s.tables ≡ false)
      × ((select_admin key s).0 ≡ err row_not_found → is_admin_key key s.tables ≡ false)
      × ((select_admin key s).0 ≢ err decode)
      × ((select_admin key s).0 ≢ err protocol)
unfolding select_admin statement
select_admin_refused key s = ground arith

insert_user_refused :
    (key hint : Text) (autobuy : Bool) (s : Store)
    → let r = (insert_user key hint autobuy s).0 in
      (r ≢ err row_not_found) × (r ≢ err decode) × (r ≢ err protocol)
unfolding insert_user statement
insert_user_refused key hint autobuy s = ground arith

delete_user_refused :
    (id : ℕ) (s : Store)
    → let r = (delete_user id s).0 in
      (r ≢ err row_not_found) × (r ≢ err decode) × (r ≢ err protocol)
unfolding delete_user statement
delete_user_refused id s = ground arith

add_user_refused :
    (caller : Text) (payload : AddUserPayload) (s : Store)
    → let r = (add_user caller payload s).0 in
      (r ≡ err row_not_found → is_admin_key (clean caller) s.tables ≡ false)
      × (r ≡ err protocol → nat_beq (byte_length payload.provided_key) 32 ≡ false)
      × (r ≢ err decode)
unfolding add_user ◌>>=◌
add_user_refused caller payload s = ground (
  arith,
  select_admin_refused (clean caller) s,
  insert_user_refused (clean payload.provided_key) (clean payload.hint) payload.autobuy
      (select_admin (clean caller) s).1,
)

-- The row with the number may be deleted.
abbrev may_go : Option UserRow → Bool
may_go none = false
may_go (some r) = not r.admin

select_admin_by_id_spared :
    (id : ℕ) (s : Store)
    → ((select_admin_by_id id s).0 ≡ err row_not_found
        → may_go (head? (with_id id s.tables.users)) ≡ false)
      × ((select_admin_by_id id s).0 ≡ ok true → may_go (head? (with_id id s.tables.users)) ≡ false)
      × ((select_admin_by_id id s).0 ≢ err decode)
      × ((select_admin_by_id id s).0 ≢ err protocol)
unfolding select_admin_by_id statement
select_admin_by_id_spared id s = ground arith

remove_user_refused :
    (caller : Text) (id : ℕ) (s : Store)
    → let r = (remove_user caller id s).0 in
      (r ≡ err row_not_found
        → is_admin_key (clean caller) s.tables ≡ true
        → may_go (head? (with_id id s.tables.users)) ≡ false)
      × (r ≢ err protocol)
      × (r ≢ err decode)
unfolding remove_user ◌>>=◌
remove_user_refused caller id s =
    let s' = (select_admin (clean caller) s).1 in
    ground (
      arith,
      tables-select_admin (clean caller) s,
      select_admin_refused (clean caller) s,
      select_admin_by_id_spared id s',
      delete_user_refused id (select_admin_by_id id s').1,
    )

not_numbered :
    (q : UserRow) (key : Text) (rs : List UserRow)
    → Apart q rs
    → is_numbered q.id (account_of (head? (with_key key rs))) ≡ false
not_numbered q key [] a = refl
not_numbered q key (r ∷ rs) a = ground (arith, nat_beq_iff r.id q.id, not_numbered q key rs a.1)

spared :
    (id : ℕ) (key : Text) (rs : List UserRow)
    → Distinct rs
    → may_go (head? (with_id id rs)) ≡ false
    → is_numbered id (account_of (head? (with_key key rs))) ≡ true
    → leads_to_admin (account_of (head? (with_key key rs))) ≡ true
spared id key [] d g n = absurd (ground arith)
spared id key (q ∷ rs) d g n = elim (Bool-cases (nat_beq q.id id)) [
  | inl e ↦
      let same : q.id ≡ id = (nat_beq_iff q.id id).0 e in ground (arith, not_numbered q key rs d.0)
  | inr e ↦ ground (arith, spared id key rs d.1)
]

account-leads : (o : Option UserRow) (b : Bool) → admin_of o ≡ b → leads_to_admin (account_of o) ≡ b
account-leads none b h = h
account-leads (some r) b h = h

pub add_user-Reason :
    (caller : Text) (payload : AddUserPayload) (s : Store) (e : SqlError)
    → (add_user caller payload s).0 ≡ err e
    → Reason (accounts s.tables) (adds caller payload) e
unfolding accounts
add_user-Reason caller payload s io h = failed
add_user-Reason caller payload s row_not_found h = no_admin (
    account-leads (head? (with_key (clean caller) s.tables.users)) false
      ((add_user_refused caller payload s).0 h))
add_user-Reason caller payload s protocol h = not_of_32 ((add_user_refused caller payload s).1 h)
add_user-Reason caller payload s database h = not_stored
add_user-Reason caller payload s decode h = absurd ((add_user_refused caller payload s).2 h)

pub remove_user-Reason :
    (caller : Text) (id : ℕ) (s : Store) (e : SqlError)
    → UsersIsValid s.tables
    → (remove_user caller id s).0 ≡ err e
    → Reason (accounts s.tables) (removes caller id) e
unfolding accounts
remove_user-Reason caller id s io v h = failed
remove_user-Reason caller id s row_not_found v h =
    elim (Bool-cases (is_admin_key (clean caller) s.tables)) [
      | inl a ↦
          protected (λ key.
            spared id key s.tables.users v.distinct ((remove_user_refused caller id s).0 h a))
      | inr a ↦ no_admin (account-leads (head? (with_key (clean caller) s.tables.users)) false a)
    ]
remove_user-Reason caller id s protocol v h = absurd ((remove_user_refused caller id s).1 h)
remove_user-Reason caller id s database v h = not_stored
remove_user-Reason caller id s decode v h = absurd ((remove_user_refused caller id s).2 h)
