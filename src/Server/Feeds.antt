-- ===== src/Server/Feeds.antt =====
-- The two connections of tokenir/src/main.rs: what `main` does with the events that they bring.
-- A create is handled by a task of its own, whose panic ends nothing else.
pub mod Raise
pub mod Bought
pub mod Both
use tokenir.Prelude.{text_eq, ℕ, Bool, true, false, Option, none, some, List, [], ◌∷◌}
use tokenir.Prelude.Int.{ℤ, as_i64}
use tokenir.Prelude.Text.{Text}
use tokenir.Solana.{Solana, Pubkey}
use tokenir.Database.{Store}
use tokenir.Database.Tokens.{update_token_ath}
use tokenir.Events.{CreateEvent, BuyEvent, Event, create, buy, sell}
use tokenir.Token.{Token, usd_mcap}
use tokenir.Server.{Shared, Web, Others}
use tokenir.Server.Creates.{process_fast_create, process_slow_create}
use tokenir.Fetcher.Stream.{Output, calls, pongs}

module _ (sol : Solana) (web : Web) (ipfs_local_node : Text) (others : Others) where
  -- The serving connection. `clock` is the time at which an event of a time is handled. The tokens are
  -- those that are broadcast.
  unfoldable pub serve : (ℕ → ℕ) → List (CreateEvent × ℕ) → Shared → List Token × Shared
  serve clock [] s = ([], s)
  serve clock ((event, time) ∷ events) s =
      let (token, s') =
        process_fast_create sol web ipfs_local_node others event (clock time) time s in
      let (tokens, s'') = serve clock events s' in
      (elim token [ none ↦ tokens | some t ↦ t ∷ tokens ], s'')

  -- The answer of the database is dropped. The market cap panics where there are no reserves.
  abbrev pub with_mcap : Pubkey → Option ℕ → Shared → Option Shared
  with_mcap mint none s = none
  with_mcap mint (some mcap) s =
      some (record s { store = (update_token_ath sol mint (as_i64 mcap) s.store).1 })

  -- One event of the analysis connection, with the price of SOL as it is loaded; `none` is a panic.
  unfoldable pub on_event : ℕ → ℕ → Event → Shared → Option Shared
  on_event now price (create event) s =
      some (process_slow_create sol web others now event ipfs_local_node s).1
  on_event now price (buy event) s =
      with_mcap event.mint
        (usd_mcap event.virtual_sol_reserves_before event.virtual_token_reserves price) s
  on_event now price (sell event) s = some s

  -- The callback runs in the subscription's task, which a panic ends. `prices` is the price of SOL at
  -- a time.
  unfoldable pub analyse : (ℕ → ℕ) → List Output → Shared → Shared
  analyse prices [] s = s
  analyse prices (pongs payload ∷ rest) s = analyse prices rest s
  analyse prices (calls now event ∷ rest) s = elim (on_event now (prices now) event s) [
    | none ↦ s
    | some s' ↦ analyse prices rest s'
  ]
