-- ===== src/Server/Feeds/Bought.antt =====
-- From a saved token to a buy of it: the create and the analysis connection of tokenir/src/main.rs
-- agree on the address of the token's pool.
use tokenir.Prelude.{
  text_eq, ℕ, ◌≡◌, ◌≢◌, refl, true, false, Option, none, some, List, [], ◌∷◌, map, ◌==◌, eq_iff,
  arith, ap, sym, ◌∙◌, if◌then◌else◌,
}
use tokenir.Prelude.Int.{ℤ, as_i64, ◌≤ℤ◌, le-greatest_right}
use tokenir.Prelude.Text.{Text}
use tokenir.Solana.{Solana, Pubkey}
use tokenir.Addresses.{pool_pda}
use tokenir.Database.{Store, TokenRow, ok, next_fault}
use tokenir.Database.Clean.{clean}
use tokenir.Database.Tokens.{tokens_there, find_token, row_of, add_token}
use tokenir.Database.Tokens.Upsert.{upserted, add_token_effect}
use tokenir.Events.{TradeEvent}
use tokenir.Token.{Token, usd_mcap, dbtoken}
use tokenir.Fetcher.{Floats, trade_event}
use tokenir.Server.{Shared, Web, Others}
use tokenir.Server.Feeds.{on_event}
use tokenir.Server.Feeds.Raise.{raised_in, on_event-raised_in}

abbrev pub RaisedTo : ℤ → Option TokenRow → Type 0
RaisedTo ath none = ⊥
RaisedTo ath (some r) = ath ≤ℤ r.ath

find_token-map :
    (pool mint : Text) (ath : ℤ) (rs : List TokenRow) (r : TokenRow)
    → find_token mint rs ≡ some r
    → find_token mint (map (raised_in pool ath) rs) ≡ some (raised_in pool ath r)
unfolding find_token
find_token-map pool mint ath [] r h = ground arith
find_token-map pool mint ath (q ∷ rs) r h = ground (arith, find_token-map pool mint ath rs r)

RaisedTo-raised_in :
    (pool : Text) (ath : ℤ) (r : TokenRow)
    → r.pool_address ≡ some pool
    → RaisedTo ath (some (raised_in pool ath r))
RaisedTo-raised_in pool ath r h = ground (arith, eq_iff pool pool, le-greatest_right r.ath ath)

pool_address-upserted :
    (pool : Text) (x : TokenRow) (o : Option TokenRow)
    → x.pool_address ≡ some pool
    → pool ≢ []
    → (upserted x o).pool_address ≡ some pool
pool_address-upserted pool x none h k = h
pool_address-upserted [] x (some r) h k = absurd (k refl)
pool_address-upserted (c ∷ pool) x (some r) h k = rw h refl

same_text : {A : Type 0} (j : Text) (a b : A) → (if j == j then a else b) ≡ a
same_text j a b = ground (arith, eq_iff j j)

abbrev Stored : Text → Text → List TokenRow → Type 0
Stored mint pool rs = (r : TokenRow) × (find_token mint rs ≡ some r) × (r.pool_address ≡ some pool)

add_token-Stored :
    (sol : Solana) (added : ℕ) (mint : Pubkey) (token : Token) (dev : Text) (s s' : Store)
    → let pool = sol.to_string (pool_pda sol mint).0 in
      clean pool ≡ pool
      → pool ≢ []
      → add_token sol added mint (dbtoken sol token mint) dev s ≡ (ok tt, s')
      → Stored (sol.to_string mint) pool s'.tables.tokens
unfolding dbtoken
add_token-Stored sol added mint token dev s s' neat full done =
    let j = sol.to_string mint in
    let x = row_of j (dbtoken sol token mint) dev added in
    let effect =
      add_token_effect sol added mint (dbtoken sol token mint) dev s j j (ap (λ m. m.0) done) in
    (
      upserted x (find_token j s.tables.tokens),
      ap (λ m. find_token j m.1.tables.tokens) (sym done)
          ∙ effect.0
          ∙ same_text j (some (upserted x (find_token j s.tables.tokens))) _,
      pool_address-upserted _ x (find_token j s.tables.tokens) (ap some neat) full,
    )

module _ (sol : Solana) (web : Web) (node : Text) (others : Others) (f : Floats) where
  -- Where `add_token` stored a token, and the text of its pool's address is not empty and has nothing
  -- to clean, a log of a buy of the token on the curve, whose reserves are not zero and where the
  -- statement runs, leaves the token's row with an all-time high that is at least the market cap.
  pub bought-RaisedTo :
      (now price mcap added : ℕ) (e : TradeEvent) (token : Token) (dev : Text) (s s' : Shared)
      → let pool = sol.to_string (pool_pda sol e.mint).0 in
        clean pool ≡ pool
        → pool ≢ []
        → add_token sol added e.mint (dbtoken sol token e.mint) dev s.store ≡ (ok tt, s'.store)
        → e.is_buy ≡ true
        → usd_mcap e.virtual_sol_reserves e.virtual_token_reserves price ≡ some mcap
        → next_fault s'.store.faults ≡ false
        → tokens_there s'.store.tables ≡ true
        → s'.store.tables.pool_address_column ≡ true
        → (t : Shared) × (on_event sol web node others now price (trade_event sol f e) s' ≡ some t)
          × (RaisedTo (as_i64 mcap) (find_token (sol.to_string e.mint) t.store.tables.tokens))
  bought-RaisedTo now price mcap added e token dev s s' neat full done is_buy worth up there
        column =
      let pool = sol.to_string (pool_pda sol e.mint).0 in
      let stored = add_token-Stored sol added e.mint token dev s.store s'.store neat full done in
      let raise =
        on_event-raised_in sol web node others f now price mcap e s' is_buy worth up there column in
      (
        raise.0,
        raise.1,
        rw
            (
              raise.2,
              find_token-map pool (sol.to_string e.mint) (as_i64 mcap) s'.store.tables.tokens
                  stored.0 stored.1,
            )
            (RaisedTo-raised_in pool (as_i64 mcap) stored.0 stored.2),
      )
