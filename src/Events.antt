-- ===== src/Events.antt =====
-- tokenir/src/types/logs.rs and types/trade.rs: the events, their conversions, and trades.
-- The clock of `current_timestamp` is an argument. Timestamps are signed, amounts are `u64`.
pub mod Decode
pub mod Reads
pub mod Wire
use tokenir.Prelude.{text_eq, ℕ, Bool, true, ◌==◌, if◌then◌else◌, ltb}
use tokenir.Prelude.Int.{ℤ}
use tokenir.Prelude.Text.{Text, codes}
use tokenir.Solana.{Solana, Pubkey, default_pubkey}

pub record CreateEvent : Type 0 where
  pub name : Text
  pub symbol : Text
  pub uri : Text
  pub mint : Pubkey
  pub bonding_curve : Pubkey
  pub user : Pubkey
  pub token_2022 : Bool
  pub timestamp : ℤ

-- The fields of `PumpCreateEvent` that the program reads; the others are amounts as floats.
pub record PumpCreateEvent : Type 0 where
  pub mint : Text
  pub trader_public_key : Text
  pub tx_type : Text
  pub name : Text
  pub symbol : Text
  pub uri : Text
  pub bonding_curve_key : Text
  pub pool : Text

-- `TryFrom<PumpCreateEvent>`, which never fails.
unfoldable pub create_of_pump : Solana → ℤ → PumpCreateEvent → CreateEvent
create_of_pump sol now e = record {
  name = e.name;
  symbol = e.symbol;
  uri = e.uri;
  mint = sol.pubkey e.mint;
  bonding_curve = sol.pubkey e.pool;
  user = default_pubkey;
  token_2022 = true;
  timestamp = now;
}

pub record CreateEventV2 : Type 0 where
  pub name : Text
  pub symbol : Text
  pub uri : Text
  pub mint : Pubkey
  pub bonding_curve : Pubkey
  pub user : Pubkey
  pub creator : Pubkey
  pub timestamp : ℤ
  pub virtual_token_reserves : ℕ
  pub virtual_sol_reserves : ℕ
  pub real_token_reserves : ℕ
  pub token_total_supply : ℕ
  pub token_program : Pubkey
  pub is_mayhem_mode : Bool

abbrev pub token_2022_program : Text
token_2022_program = codes "TokenzQdBNbLqP5VEhdkAS6EPFLC1PHnBqCXEpPxuEb"

unfoldable pub create_of_v2 : Solana → CreateEventV2 → CreateEvent
create_of_v2 sol v = record {
  name = v.name;
  symbol = v.symbol;
  uri = v.uri;
  mint = v.mint;
  bonding_curve = v.bonding_curve;
  user = v.user;
  token_2022 = v.token_program == sol.pubkey token_2022_program;
  timestamp = v.timestamp;
}

pub record BuyEvent : Type 0 where
  pub mint : Pubkey
  pub sol_amount : ℕ
  pub token_amount : ℕ
  pub user : Pubkey
  pub timestamp : ℤ
  pub virtual_sol_reserves_before : ℕ
  pub virtual_sol_reserves_after : ℕ
  pub virtual_token_reserves : ℕ

pub record SellEvent : Type 0 where
  pub mint : Pubkey
  pub sol_amount : ℕ
  pub token_amount : ℕ
  pub user : Pubkey
  pub timestamp : ℤ
  pub virtual_sol_reserves_before : ℕ
  pub virtual_sol_reserves_after : ℕ
  pub virtual_token_reserves : ℕ

pub record TradeEvent : Type 0 where
  pub mint : Pubkey
  pub sol_amount : ℕ
  pub token_amount : ℕ
  pub is_buy : Bool
  pub user : Pubkey
  pub timestamp : ℤ
  pub virtual_sol_reserves : ℕ
  pub virtual_token_reserves : ℕ

pub record BuyEventAmm : Type 0 where
  pub timestamp : ℤ
  pub base_amount_out : ℕ
  pub max_quote_amount_in : ℕ
  pub user_base_token_reserves : ℕ
  pub user_quote_token_reserves : ℕ
  pub pool_base_token_reserves : ℕ
  pub pool_quote_token_reserves : ℕ
  pub quote_amount_in : ℕ
  pub lp_fee_basis_points : ℕ
  pub lp_fee : ℕ
  pub protocol_fee_basis_points : ℕ
  pub protocol_fee : ℕ
  pub quote_amount_in_with_lp_fee : ℕ
  pub user_quote_amount_in : ℕ
  pub pool : Pubkey
  pub user : Pubkey
  pub user_base_token_account : Pubkey
  pub user_quote_token_account : Pubkey
  pub protocol_fee_recipient : Pubkey
  pub protocol_fee_recipient_token_account : Pubkey

pub record SellEventAmm : Type 0 where
  pub timestamp : ℤ
  pub base_amount_in : ℕ
  pub min_quote_amount_out : ℕ
  pub user_base_token_reserves : ℕ
  pub user_quote_token_reserves : ℕ
  pub pool_base_token_reserves : ℕ
  pub pool_quote_token_reserves : ℕ
  pub quote_amount_out : ℕ
  pub lp_fee_basis_points : ℕ
  pub lp_fee : ℕ
  pub protocol_fee_basis_points : ℕ
  pub protocol_fee : ℕ
  pub quote_amount_out_without_lp_fee : ℕ
  pub user_quote_amount_out : ℕ
  pub pool : Pubkey
  pub user : Pubkey
  pub user_base_token_account : Pubkey
  pub user_quote_token_account : Pubkey
  pub protocol_fee_recipient : Pubkey
  pub protocol_fee_recipient_token_account : Pubkey

unfoldable pub buy_of_amm : BuyEventAmm → BuyEvent
buy_of_amm e =
    if ltb e.pool_quote_token_reserves e.pool_base_token_reserves
    then record {
      mint = e.pool;
      sol_amount = e.base_amount_out;
      token_amount = e.quote_amount_in;
      user = e.user;
      timestamp = e.timestamp;
      virtual_sol_reserves_before = e.pool_quote_token_reserves;
      virtual_sol_reserves_after = e.pool_quote_token_reserves;
      virtual_token_reserves = e.pool_base_token_reserves;
    }
    else record {
      mint = e.pool;
      sol_amount = e.base_amount_out;
      token_amount = e.quote_amount_in;
      user = e.user;
      timestamp = e.timestamp;
      virtual_sol_reserves_before = e.pool_base_token_reserves;
      virtual_sol_reserves_after = e.pool_base_token_reserves;
      virtual_token_reserves = e.pool_quote_token_reserves;
    }

unfoldable pub sell_of_amm : SellEventAmm → SellEvent
sell_of_amm e = record {
  mint = e.pool;
  sol_amount = e.base_amount_in;
  token_amount = e.quote_amount_out;
  user = e.user;
  timestamp = e.timestamp;
  virtual_sol_reserves_before = e.pool_base_token_reserves;
  virtual_sol_reserves_after = e.pool_base_token_reserves;
  virtual_token_reserves = e.pool_quote_token_reserves;
}

pub data Event : Type 0 where
  create : CreateEvent → Event
  buy : BuyEvent → Event
  sell : SellEvent → Event

unfoldable pub event_mint : Event → Pubkey
event_mint (create e) = e.mint
event_mint (buy e) = e.mint
event_mint (sell e) = e.mint

-- types/trade.rs
pub data Trade : Type 0 where
  buys : BuyEvent → Trade
  sells : SellEvent → Trade

unfoldable pub trade_mcap : Trade → ℕ
trade_mcap (buys e) = e.virtual_sol_reserves_before
trade_mcap (sells e) = e.virtual_sol_reserves_before

unfoldable pub trade_mcap_after : Trade → ℕ
trade_mcap_after (buys e) = e.virtual_sol_reserves_after
trade_mcap_after (sells e) = e.virtual_sol_reserves_after

unfoldable pub trade_reserves : Trade → ℕ
trade_reserves (buys e) = e.virtual_token_reserves
trade_reserves (sells e) = e.virtual_token_reserves
