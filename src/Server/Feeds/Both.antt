-- ===== src/Server/Feeds/Both.antt =====
-- The analysis connection of tokenir/src/main.rs over both of its subscriptions.
use tokenir.Prelude.{
  text_eq, ℕ, ◌≡◌, refl, Bool, true, false, not, Option, some, List, nat_beq, all, take, arith,
}
use tokenir.Prelude.Int.{as_i64}
use tokenir.Prelude.Text.{Text}
use tokenir.Database.Tokens.{update_token_ath}
use tokenir.Solana.{Solana}
use tokenir.Events.{Event, create, buy, sell}
use tokenir.Token.{usd_mcap, usd_value}
use tokenir.Fetcher.Stream.{Output, calls, pongs}
use tokenir.Fetcher.Pump.{Program, subscribe_to_pump, subscribe_to_pump-seen, pump_turns, amm_turns}
use tokenir.Server.{Shared, Web, Others}
use tokenir.Server.Feeds.{on_event}

-- Every output but a buy that has no reserves of the token.
abbrev pub has_reserves : Output → Bool
has_reserves (pongs payload) = true
has_reserves (calls now (create e)) = true
has_reserves (calls now (buy e)) = not (nat_beq e.virtual_token_reserves 0)
has_reserves (calls now (sell e)) = true

usd_mcap-some :
    (sol_reserves token_reserves price : ℕ)
    → nat_beq token_reserves 0 ≡ false
    → (mcap : ℕ) × (usd_mcap sol_reserves token_reserves price ≡ some mcap)
unfolding usd_mcap
usd_mcap-some sol_reserves token_reserves price h =
    (usd_value sol_reserves token_reserves price, rw h refl)

module _ (sol : Solana) (web : Web) (node : Text) (others : Others) (prices : ℕ → ℕ) where
  abbrev pub handles : ℕ → Event → Shared → Option Shared
  handles now e s = on_event sol web node others now (prices now) e s

  handles-calm :
      (now : ℕ) (e : Event) (s : Shared)
      → has_reserves (calls now e) ≡ true
      → (s' : Shared) × (handles now e s ≡ some s')
  unfolding on_event
  handles-calm now (create e) s h = (_, refl)
  handles-calm now (buy e) s h =
      let worth =
        usd_mcap-some e.virtual_sol_reserves_before e.virtual_token_reserves (prices now)
          (ground arith) in
      (
        record s { store = (update_token_ath sol e.mint (as_i64 worth.0) s.store).1 },
        rw worth.1 refl,
      )
  handles-calm now (sell e) s h = (_, refl)

  -- In whatever order the two tasks of the analysis connection run: a subscription that brings no buy
  -- without reserves has each of its events handled, in their order and by its own turns, also where
  -- the other one panics.
  pub analysis-seen :
      (schedule : List Program) (pump_stream amm_stream : List Output) (s : Shared)
      → let t = subscribe_to_pump handles true pump_stream amm_stream schedule s in
        (all has_reserves pump_stream ≡ true → t.pump_seen ≡ take (pump_turns schedule) pump_stream)
        × (all has_reserves amm_stream ≡ true → t.amm_seen ≡ take (amm_turns schedule) amm_stream)
  analysis-seen = subscribe_to_pump-seen handles has_reserves handles-calm
