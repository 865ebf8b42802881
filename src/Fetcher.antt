-- ===== src/Fetcher.antt =====
-- tokenir/src/fetcher.rs: the events in the logs of the chain, and `calc_price_impact` of
-- tokenir/src/constans.rs. An f64 is its bit pattern, and its arithmetic is a parameter.
pub mod Logs
pub mod Stream
pub mod Delivery
pub mod Pump
pub mod Portal
pub mod Shreds
use tokenir.Prelude.{
  text_eq, ℕ, Bool, true, false, Option, none, some, List, [], ◌∷◌, leb, if◌then◌else◌, length,
  take, drop, ◌==◌,
}
use tokenir.Prelude.Int.{ℤ}
use tokenir.Prelude.Text.{Text}
use tokenir.Solana.{Solana, Pubkey}
use tokenir.Addresses.{pool_pda}
use tokenir.Borsh.Read.{Reader}
use tokenir.Events.{
  CreateEvent, CreateEventV2, TradeEvent, BuyEventAmm, SellEventAmm, BuyEvent, SellEvent, Event,
  create, buy, sell, create_of_v2, buy_of_amm, sell_of_amm,
}
use tokenir.Events.Decode.{read_create, read_create_v2, read_trade, read_buy_amm, read_sell_amm}

-- `x as f64` for a `u64`, the operators, the constant `1e-9`, `x as u64` and `x as i64`.
pub record Floats : Type 0 where
  pub of_u64 : ℕ → ℕ
  pub plus : ℕ → ℕ → ℕ
  pub minus : ℕ → ℕ → ℕ
  pub times : ℕ → ℕ → ℕ
  pub over : ℕ → ℕ → ℕ
  pub nano : ℕ
  pub to_u64 : ℕ → ℕ
  pub to_i64 : ℕ → ℤ

pub record PriceImpact : Type 0 where
  pub price_before : ℕ
  pub price_after : ℕ
  pub impact_pct : ℕ
  pub mcap_before : ℕ
  pub mcap_after : ℕ

module _ (f : Floats) where
  abbrev new_reserves : Bool → ℕ → ℕ → ℕ → ℕ → ℕ × ℕ
  new_reserves true v_sol v_token sol_amount token_amount =
      (f.plus v_sol (f.of_u64 sol_amount), f.minus v_token (f.of_u64 token_amount))
  new_reserves false v_sol v_token sol_amount token_amount =
      (f.minus v_sol (f.of_u64 sol_amount), f.plus v_token (f.of_u64 token_amount))

  abbrev market_cap : ℕ → ℕ → ℕ
  market_cap price total_supply =
      f.to_u64 (f.times (f.times price (f.of_u64 1_000_000)) (f.of_u64 total_supply))

  -- The whole constants are those of the `u64`s they equal.
  unfoldable pub calc_price_impact : ℕ → ℕ → ℕ → ℕ → Bool → ℕ → PriceImpact
  calc_price_impact virtual_sol_reserves virtual_token_reserves sol_amount token_amount is_buy
        total_supply =
      let v_sol = f.of_u64 virtual_sol_reserves in
      let v_token = f.of_u64 virtual_token_reserves in
      let before = f.over v_sol v_token in
      let (new_sol, new_token) = new_reserves is_buy v_sol v_token sol_amount token_amount in
      let after = f.over new_sol new_token in
      record {
        price_before = before;
        price_after = after;
        impact_pct = f.times (f.over (f.minus after before) before) (f.of_u64 100);
        mcap_before = market_cap before total_supply;
        mcap_after = market_cap after total_supply;
      }

abbrev pub create_discriminator : List ℕ
create_discriminator = 27 ∷ 114 ∷ 169 ∷ 77 ∷ 222 ∷ 235 ∷ 99 ∷ 118 ∷ []

abbrev pub trade_discriminator : List ℕ
trade_discriminator = 0xbd ∷ 0xdb ∷ 0x7f ∷ 0xd3 ∷ 0x4e ∷ 0xe6 ∷ 0x61 ∷ 0xee ∷ []

abbrev pub buy_amm_discriminator : List ℕ
buy_amm_discriminator = 62 ∷ 47 ∷ 55 ∷ 10 ∷ 165 ∷ 3 ∷ 220 ∷ 42 ∷ []

abbrev pub sell_amm_discriminator : List ℕ
sell_amm_discriminator = 103 ∷ 244 ∷ 82 ∷ 31 ∷ 44 ∷ 245 ∷ 119 ∷ 119 ∷ []

-- What is left of the bytes behind a decoded value is not looked at.
abbrev read_as : {A : Type 0} → (A → Event) → Option (A × List ℕ) → Option Event
read_as f none = none
read_as f (some (a, rest)) = some (f a)

module _ (sol : Solana) (f : Floats) where
  -- A trade on the curve, under the address of the token's pool.
  abbrev pub trade_event : TradeEvent → Event
  trade_event e =
      let pool = (pool_pda sol e.mint).0 in
      let impact =
        calc_price_impact f e.virtual_sol_reserves e.virtual_token_reserves e.sol_amount
          e.token_amount e.is_buy 1_000_000_000 in
      if e.is_buy
      then buy (record {
        mint = pool;
        sol_amount = e.sol_amount;
        token_amount = e.token_amount;
        user = e.user;
        timestamp = e.timestamp;
        virtual_sol_reserves_before = e.virtual_sol_reserves;
        virtual_sol_reserves_after = impact.mcap_after;
        virtual_token_reserves = e.virtual_token_reserves;
      })
      else sell (record {
        mint = pool;
        sol_amount = e.sol_amount;
        token_amount = e.token_amount;
        user = e.user;
        timestamp = e.timestamp;
        virtual_sol_reserves_before = e.virtual_sol_reserves;
        virtual_sol_reserves_after = impact.mcap_after;
        virtual_token_reserves = e.virtual_token_reserves;
      })

  abbrev create_read : ℤ → List ℕ → Option (CreateEventV2 × List ℕ) → Option Event
  create_read now buffer none = read_as create (read_create now buffer)
  create_read now buffer (some (e, rest)) = some (create (create_of_v2 sol e))

  unfoldable pub parse_body : ℤ → List ℕ → List ℕ → Option Event
  parse_body now discriminator buffer =
      if discriminator == trade_discriminator
      then read_as trade_event (read_trade buffer)
      else if discriminator == create_discriminator
      then create_read now buffer (read_create_v2 buffer)
      else if discriminator == buy_amm_discriminator
      then read_as (λ e. buy (buy_of_amm e)) (read_buy_amm buffer)
      else if discriminator == sell_amm_discriminator
      then read_as (λ e. sell (sell_of_amm e)) (read_sell_amm buffer)
      else none

  unfoldable pub parse_bytes : ℤ → List ℕ → Option Event
  parse_bytes now bytes =
      if leb 8 (length bytes) then parse_body now (take 8 bytes) (drop 8 bytes) else none

  abbrev parse_decoded : ℤ → Option (List ℕ) → Option Event
  parse_decoded now none = none
  parse_decoded now (some bytes) = parse_bytes now bytes

  -- `decode` is the standard base64 decoding; its buffer is cleared first.
  unfoldable pub parse_optimized : (Text → Option (List ℕ)) → ℤ → Text → Option Event
  parse_optimized decode now text = parse_decoded now (decode text)
