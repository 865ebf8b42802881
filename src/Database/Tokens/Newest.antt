-- ===== src/Database/Tokens/Newest.antt =====
-- That the listing of a developer's tokens in tokenir/src/database.rs is of the newest ones.
use mathlib.Core.List.{Perm}
use mathlib.Core.List.Perm
use tokenir.Prelude.{
  text_eq, ℕ, zero, suc, ◌≤◌, ◌≡◌, refl, sym, subst, ap, ◌∙◌, Bool, List, [], ◌∷◌, ◌++◌, map, keep,
  take, drop, length, min, ltb, All, Bool-cases, inl, inr, arith,
}
use tokenir.Prelude.Text.{Text}
use tokenir.Database.{ok, TokenRow, Store, statement}
use tokenir.Database.Clean.{clean}
use tokenir.Database.Tokens.{DbToken, as_db_tokens}
use tokenir.Database.Tokens.Listing.{
  insert_newest, newest_first, of_dev_excluding, get_last_tokens_by_dev_excluding,
}
use tokenir.Database.Tokens.Queries.{push_token-eq-ok, as_db_token_keys}

-- Each row is at least as new as those behind it.
abbrev pub IsNewestFirst : List TokenRow → Type 0
IsNewestFirst [] = Unit
IsNewestFirst (r ∷ rs) = All (λ q. q.created_at ≤ r.created_at) rs × IsNewestFirst rs

insert_newest-perm : (r : TokenRow) (rs : List TokenRow) → Perm (insert_newest r rs) (r ∷ rs)
unfolding insert_newest
insert_newest-perm r [] = Perm.refl (r ∷ [])
insert_newest-perm r (q ∷ rs) = elim (Bool-cases (ltb r.created_at q.created_at)) [
  | inl e ↦ rw e (Perm.trans (Perm.cons q (insert_newest-perm r rs)) (Perm.swap r q rs))
  | inr e ↦ rw e (Perm.refl (r ∷ q ∷ rs))
]

newest_first-perm : (rs : List TokenRow) → Perm (newest_first rs) rs
unfolding newest_first
newest_first-perm [] = Perm.refl []
newest_first-perm (r ∷ rs) =
    Perm.trans (insert_newest-perm r (newest_first rs)) (Perm.cons r (newest_first-perm rs))

All-insert_newest :
    (n : ℕ) (r : TokenRow) (rs : List TokenRow)
    → r.created_at ≤ n
    → All (λ q. q.created_at ≤ n) rs
    → All (λ q. q.created_at ≤ n) (insert_newest r rs)
unfolding insert_newest
All-insert_newest n r [] h k = (h, tt)
All-insert_newest n r (q ∷ rs) h k = elim (Bool-cases (ltb r.created_at q.created_at)) [
  | inl e ↦ rw e (k.0, All-insert_newest n r rs h k.1)
  | inr e ↦ rw e (h, k)
]

All-le :
    (m n : ℕ) (rs : List TokenRow)
    → m ≤ n
    → All (λ q. q.created_at ≤ m) rs
    → All (λ q. q.created_at ≤ n) rs
All-le m n [] h k = tt
All-le m n (q ∷ rs) h k = (omega (arith, k.0), All-le m n rs h k.1)

insert_newest-IsNewestFirst :
    (r : TokenRow) (rs : List TokenRow) → IsNewestFirst rs → IsNewestFirst (insert_newest r rs)
unfolding insert_newest
insert_newest-IsNewestFirst r [] h = (tt, tt)
insert_newest-IsNewestFirst r (q ∷ rs) h = elim (Bool-cases (ltb r.created_at q.created_at)) [
  | inl e ↦
      rw e (
        All-insert_newest q.created_at r rs (ground arith) h.0,
        insert_newest-IsNewestFirst r rs h.1,
      )
  | inr e ↦
      let older : q.created_at ≤ r.created_at = ground arith in
      rw e ((older, All-le q.created_at r.created_at rs older h.0), h)
]

newest_first-IsNewestFirst : (rs : List TokenRow) → IsNewestFirst (newest_first rs)
unfolding newest_first
newest_first-IsNewestFirst [] = tt
newest_first-IsNewestFirst (r ∷ rs) =
    insert_newest-IsNewestFirst r (newest_first rs) (newest_first-IsNewestFirst rs)

take-append-drop : (n : ℕ) (rs : List TokenRow) → take n rs ++ drop n rs ≡ rs
take-append-drop zero rs = refl
take-append-drop (suc n) [] = refl
take-append-drop (suc n) (r ∷ rs) = ap (◌∷◌ r) (take-append-drop n rs)

length-take : (n : ℕ) (rs : List TokenRow) → length (take n rs) ≡ min n (length rs)
length-take zero rs = ground arith
length-take (suc n) [] = ground arith
length-take (suc n) (r ∷ rs) = ground (arith, length-take n rs)

mints-as_db_tokens :
    (column : Bool) (rs : List TokenRow) (ts : List DbToken)
    → as_db_tokens column rs ≡ ok ts
    → map (λ (t : DbToken). t.mint) ts ≡ map (λ (r : TokenRow). r.mint) rs
unfolding as_db_tokens
mints-as_db_tokens column [] ts h = ground arith
mints-as_db_tokens column (r ∷ rs) ts h =
    let (v, vs, e, es, eq) = push_token-eq-ok _ (as_db_tokens column rs) ts h in
    rw eq (rw ((as_db_token_keys column r _ _ _ v e).0, mints-as_db_tokens column rs vs es) refl)

length-insert_newest :
    (r : TokenRow) (rs : List TokenRow) → length (insert_newest r rs) ≡ suc (length rs)
unfolding insert_newest
length-insert_newest r [] = refl
length-insert_newest r (q ∷ rs) = ground (arith, length-insert_newest r rs)

length-newest_first : (rs : List TokenRow) → length (newest_first rs) ≡ length rs
unfolding newest_first
length-newest_first [] = refl
length-newest_first (r ∷ rs) =
    omega (arith, length-insert_newest r (newest_first rs), length-newest_first rs)

read_rows :
    (dev mint : Text) (limit : ℕ) (s : Store) (ts : List DbToken)
    → (get_last_tokens_by_dev_excluding dev mint limit s).0 ≡ ok ts
    → as_db_tokens s.tables.pool_address_column
        (take limit (newest_first (keep (of_dev_excluding (clean dev) mint) s.tables.tokens)))
      ≡ ok ts
unfolding get_last_tokens_by_dev_excluding statement
read_rows dev mint limit s ts h = ground arith

-- Where `get_last_tokens_by_dev_excluding` succeeds, the rows of the cleaned developer without the excluded
-- mint can be put in an order in which each is at least as new as those behind it, and the answer has
-- the mints of the first `limit` of them, or of all if there are fewer, in that order.
pub get_last_tokens_newest :
    (dev mint : Text) (limit : ℕ) (s : Store) (ts : List DbToken)
    → (get_last_tokens_by_dev_excluding dev mint limit s).0 ≡ ok ts
    → let rows = keep (of_dev_excluding (clean dev) mint) s.tables.tokens in
      (top : List TokenRow) × (rest : List TokenRow) × (Perm (top ++ rest) rows)
      × (IsNewestFirst (top ++ rest))
      × (length top ≡ min limit (length rows))
      × (map (λ (t : DbToken). t.mint) ts ≡ map (λ (r : TokenRow). r.mint) top)
get_last_tokens_newest dev mint limit s ts h =
    let rows = keep (of_dev_excluding (clean dev) mint) s.tables.tokens in
    let sorted = newest_first rows in
    let whole = sym (take-append-drop limit sorted) in
    (
      take limit sorted,
      drop limit sorted,
      subst (λ l. Perm l rows) whole (newest_first-perm rows),
      subst IsNewestFirst whole (newest_first-IsNewestFirst rows),
      length-take limit sorted ∙ ap (min limit) (length-newest_first rows),
      mints-as_db_tokens s.tables.pool_address_column (take limit sorted) ts
          (read_rows dev mint limit s ts h),
    )
