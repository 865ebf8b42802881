-- ===== src/Server/Feeds/Raise.antt =====
-- What a buy on the curve does to the tokens of the database (tokenir/src/main.rs), and where the
-- subscription ends.
use tokenir.Prelude.{
  map, Option-cases, inl, inr, text_eq, ℕ, ◌≡◌, refl, true, false, some, List, [], ◌∷◌, ◌++◌,
  if◌then◌else◌, arith,
}
use tokenir.Prelude.Int.{ℤ, as_i64, greatest}
use tokenir.Prelude.Text.{Text}
use tokenir.Solana.{Solana, Pubkey}
use tokenir.Addresses.{pool_pda}
use tokenir.Database.{TokenRow, Store, next_fault, statement}
use tokenir.Database.Tokens.{tokens_there, raise_ath, sql_eq, update_token_ath}
use tokenir.Events.{BuyEvent, TradeEvent, buy}
use tokenir.Token.{usd_mcap}
use tokenir.Fetcher.{Floats, trade_event}
use tokenir.Fetcher.Stream.{Output, calls, pongs}
use tokenir.Server.{Shared, Web, Others}
use tokenir.Server.Feeds.{on_event, analyse}

-- The row with its all-time high raised, if it is of the pool.
abbrev pub raised_in : Text → ℤ → TokenRow → TokenRow
raised_in pool ath r =
    if sql_eq r.pool_address (some pool) then record r { ath = greatest r.ath ath } else r

raise_ath-map :
    (pool : Text) (ath : ℤ) (rs : List TokenRow)
    → raise_ath pool ath rs ≡ map (raised_in pool ath) rs
unfolding raise_ath
raise_ath-map pool ath [] = refl
raise_ath-map pool ath (r ∷ rs) = ground (arith, raise_ath-map pool ath rs)

update_token_ath_done :
    (sol : Solana) (pool : Pubkey) (ath : ℤ) (s : Store)
    → next_fault s.faults ≡ false
    → tokens_there s.tables ≡ true
    → s.tables.pool_address_column ≡ true
    → (update_token_ath sol pool ath s).1.tables
      ≡ record s.tables { tokens = map (raised_in (sol.to_string pool) ath) s.tables.tokens }
unfolding update_token_ath statement
update_token_ath_done sol pool ath s up there column =
    rw (up, there, column, raise_ath-map (sol.to_string pool) ath s.tables.tokens) refl

module _ (sol : Solana) (web : Web) (node : Text) (others : Others) (f : Floats) where
  -- A log of a buy on the curve, whose reserves are not zero and where the statement runs, raises the
  -- all-time high of each row whose pool is that of the bought token to the market cap in dollars, if
  -- that is higher, and changes nothing else in the tables.
  pub on_event-raised_in :
      (now price mcap : ℕ) (e : TradeEvent) (s : Shared)
      → e.is_buy ≡ true
      → usd_mcap e.virtual_sol_reserves e.virtual_token_reserves price ≡ some mcap
      → next_fault s.store.faults ≡ false
      → tokens_there s.store.tables ≡ true
      → s.store.tables.pool_address_column ≡ true
      → (t : Shared) × (on_event sol web node others now price (trade_event sol f e) s ≡ some t)
        × (t.store.tables ≡ record s.store.tables {
          tokens =
              map
                (raised_in (sol.to_string (pool_pda sol e.mint).0) (as_i64 mcap))
                s.store.tables.tokens;
        })
  unfolding on_event
  on_event-raised_in now price mcap e s is_buy worth up there column =
      let pool = (pool_pda sol e.mint).0 in
      (
        record s { store = (update_token_ath sol pool (as_i64 mcap) s.store).1 },
        rw (is_buy, worth) refl,
        update_token_ath_done sol pool (as_i64 mcap) s.store up there column,
      )

  stopped :
      (prices : ℕ → ℕ) (rest : List Output) (now : ℕ) (event : BuyEvent) (s : Shared)
      → event.virtual_token_reserves ≡ 0
      → analyse sol web node others prices (calls now (buy event) ∷ rest) s ≡ s
  unfolding analyse on_event usd_mcap
  stopped prices rest now event s h = rw h refl

  -- A buy with no reserves panics, and its subscription handles no event after it.
  pub analyse-Stops :
      (prices : ℕ → ℕ) (before rest : List Output) (now : ℕ) (event : BuyEvent) (s : Shared)
      → event.virtual_token_reserves ≡ 0
      → analyse sol web node others prices (before ++ (calls now (buy event) ∷ rest)) s
        ≡ analyse sol web node others prices before s
  unfolding analyse
  analyse-Stops prices [] rest now event s h = stopped prices rest now event s h
  analyse-Stops prices (pongs p ∷ before) rest now event s h =
      analyse-Stops prices before rest now event s h
  analyse-Stops prices (calls t e ∷ before) rest now event s h =
      elim (Option-cases (on_event sol web node others t (prices t) e s)) [
        | inl p ↦ rw (p, analyse) refl
        | inr (s', p) ↦ rw (p, analyse) (analyse-Stops prices before rest now event s' h)
      ]
