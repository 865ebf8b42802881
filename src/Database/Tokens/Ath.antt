-- ===== src/Database/Tokens/Ath.antt =====
-- The all-time high of a token never falls, whatever the server asks of tokenir/src/database.rs.
use tokenir.Prelude.{text_eq, ℕ, Option, none, some, List, [], ◌∷◌, eq_iff, arith, inl, inr}
use tokenir.Prelude.Int.{ℤ, ◌≤ℤ◌, le-greatest_left, ≤ℤ_trans}
use tokenir.Prelude.Text.{Text}
use tokenir.Solana.{Solana, Pubkey}
use tokenir.Database.{TokenRow, Tables, Store}
use tokenir.Database.Keeps.{
  Keeps, Keeps-bind, Keeps-statement, Keeps-query, Keeps-guard, Keeps-transaction,
}
use tokenir.Database.Clean.{clean}
use tokenir.Database.Users.Authority.{is_done}
use tokenir.Database.Users.{
  AddUserPayload, select_admin, select_admin_by_id, insert_user, add_user, delete_user, remove_user,
}
use tokenir.Database.Tokens.{
  DbToken, find_token, upsert, add_dev, insert_token, add_token, raise_ath, update_token_ath,
}
use tokenir.Database.Tokens.Upsert.{upserted, find_token-upsert, tokens-upsert_failed}

-- The second row, if the first is there, is there with an `ath` that is not lower.
abbrev pub AthLe : Option TokenRow → Option TokenRow → Type 0
AthLe none q = Unit
AthLe (some r) none = ⊥
AthLe (some r) (some q) = r.ath ≤ℤ q.ath

pub record AthsGrow (t u : Tables) : Type 0 where
  pub at : (mint : Text) → AthLe (find_token mint t.tokens) (find_token mint u.tokens)

AthLe-refl : (r : Option TokenRow) → AthLe r r
AthLe-refl none = tt
AthLe-refl (some r) = omega arith

AthLe-trans : (p q r : Option TokenRow) → AthLe p q → AthLe q r → AthLe p r
AthLe-trans none q r h k = tt
AthLe-trans (some p) none r h k = absurd h
AthLe-trans (some p) (some q) none h k = absurd k
AthLe-trans (some p) (some q) (some r) h k = ≤ℤ_trans p.ath q.ath r.ath h k

AthLe-raise :
    (pool mint : Text) (ath : ℤ) (rs : List TokenRow)
    → AthLe (find_token mint rs) (find_token mint (raise_ath pool ath rs))
unfolding find_token raise_ath
AthLe-raise pool mint ath [] = tt
AthLe-raise pool mint ath (r ∷ rs) =
    ground (arith, AthLe-raise pool mint ath rs, le-greatest_left r.ath ath)

AthLe-upserted : (x : TokenRow) (o : Option TokenRow) → AthLe o (some (upserted x o))
AthLe-upserted x none = tt
AthLe-upserted x (some r) = le-greatest_left r.ath x.ath

AthLe-upsert :
    (mint : Text) (x : TokenRow) (t : Tables)
    → AthLe (find_token mint t.tokens) (find_token mint (upsert x t).1.tokens)
AthLe-upsert mint x t = elim (is_done (upsert x t).0) [
  | inl h ↦ rw (find_token-upsert mint x t h) (
      ground (
        arith,
        eq_iff x.mint mint,
        AthLe-upserted x (find_token mint t.tokens),
        AthLe-refl (find_token mint t.tokens),
      ))
  | inr h ↦ rw (tokens-upsert_failed x t h) (AthLe-refl (find_token mint t.tokens))
]

AthsGrow-refl : (t : Tables) → AthsGrow t t
AthsGrow-refl t = record { at = λ mint. AthLe-refl (find_token mint t.tokens) }

AthsGrow-trans :
    {t u v : Tables}
    → AthsGrow t u
    → ((mint : Text) → AthLe (find_token mint u.tokens) (find_token mint v.tokens))
    → AthsGrow t v
AthsGrow-trans h k = record { at = λ mint. AthLe-trans _ _ _ (h.at mint) (k mint) }

module _ (t : Tables) where
  add_dev-Keeps : (dev : Text) → Keeps (AthsGrow t) (add_dev dev)
  unfolding add_dev
  add_dev-Keeps dev = Keeps-statement _ _ λ u h. record { at = h.at }

  insert_token-Keeps : (x : TokenRow) → Keeps (AthsGrow t) (insert_token x)
  unfolding insert_token
  insert_token-Keeps x = Keeps-statement _ _ λ u h. AthsGrow-trans h (λ mint. AthLe-upsert mint x u)

  add_token-Keeps :
      (sol : Solana) (now : ℕ) (mint : Pubkey) (token : DbToken) (dev : Text)
      → Keeps (AthsGrow t) (add_token sol now mint token dev)
  unfolding add_token
  add_token-Keeps sol now mint token dev =
      Keeps-transaction _ (Keeps-bind _ _ (add_dev-Keeps (clean dev)) λ _. insert_token-Keeps _)

  update_token_ath-Keeps :
      (sol : Solana) (pool : Pubkey) (ath : ℤ) → Keeps (AthsGrow t) (update_token_ath sol pool ath)
  unfolding update_token_ath
  update_token_ath-Keeps sol pool ath =
      Keeps-statement _ _ λ u h. AthsGrow-trans h (λ mint. AthLe-raise _ mint ath u.tokens)

  select_admin-Keeps : (key : Text) → Keeps (AthsGrow t) (select_admin key)
  unfolding select_admin
  select_admin-Keeps key = Keeps-query _ _

  add_user-Keeps :
      (caller : Text) (payload : AddUserPayload) → Keeps (AthsGrow t) (add_user caller payload)
  unfolding add_user insert_user
  add_user-Keeps caller payload = Keeps-bind _ _ (select_admin-Keeps (clean caller)) λ b.
      Keeps-bind _ _ (Keeps-guard b _)
        λ _. Keeps-bind _ _ (Keeps-guard _ _) λ _. Keeps-statement _ _ λ u h. ground (arith, h)

  remove_user-Keeps : (caller : Text) (id : ℕ) → Keeps (AthsGrow t) (remove_user caller id)
  unfolding remove_user select_admin_by_id delete_user
  remove_user-Keeps caller id = Keeps-bind _ _ (select_admin-Keeps (clean caller)) λ b.
      Keeps-bind _ _ (Keeps-guard b _) λ _.
        Keeps-bind _ _ (Keeps-query _ _)
          λ c. Keeps-bind _ _ (Keeps-guard _ _) λ _. Keeps-statement _ _ λ u h. record { at = h.at }

-- The requests to the database that write rows.
pub data Call : Type 0 where
  adds_dev : Text → Call
  adds_token : ℕ → Pubkey → DbToken → Text → Call
  updates_ath : Pubkey → ℤ → Call
  adds_user : Text → AddUserPayload → Call
  removes_user : Text → ℕ → Call

module _ (sol : Solana) where
  pub run : List Call → Store → Store
  run [] s = s
  run (adds_dev dev ∷ cs) s = run cs (add_dev dev s).1
  run (adds_token now mint token dev ∷ cs) s = run cs (add_token sol now mint token dev s).1
  run (updates_ath pool ath ∷ cs) s = run cs (update_token_ath sol pool ath s).1
  run (adds_user caller payload ∷ cs) s = run cs (add_user caller payload s).1
  run (removes_user caller id ∷ cs) s = run cs (remove_user caller id s).1

  run-AthsGrow_from :
      (t : Tables) (cs : List Call) (s : Store) → AthsGrow t s.tables → AthsGrow t (run cs s).tables
  unfolding run
  run-AthsGrow_from t [] s h = h
  run-AthsGrow_from t (adds_dev dev ∷ cs) s h =
      run-AthsGrow_from t cs _ ((add_dev-Keeps t dev).at s h)
  run-AthsGrow_from t (adds_token now mint token dev ∷ cs) s h =
      run-AthsGrow_from t cs _ ((add_token-Keeps t sol now mint token dev).at s h)
  run-AthsGrow_from t (updates_ath pool ath ∷ cs) s h =
      run-AthsGrow_from t cs _ ((update_token_ath-Keeps t sol pool ath).at s h)
  run-AthsGrow_from t (adds_user caller payload ∷ cs) s h =
      run-AthsGrow_from t cs _ ((add_user-Keeps t caller payload).at s h)
  run-AthsGrow_from t (removes_user caller id ∷ cs) s h =
      run-AthsGrow_from t cs _ ((remove_user-Keeps t caller id).at s h)

  -- After any requests, whatever fails, every token that was there is there, and its all-time high is
  -- not lower than it was.
  pub run-AthsGrow : (cs : List Call) (s : Store) → AthsGrow s.tables (run cs s).tables
  run-AthsGrow cs s = run-AthsGrow_from s.tables cs s (AthsGrow-refl s.tables)
