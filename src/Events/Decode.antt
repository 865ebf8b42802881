-- ===== src/Events/Decode.antt =====
-- The decoding of the chain's events, `BorshDeserialize` of tokenir/src/types/logs.rs: derived, field by
-- field in their order, except for `CreateEvent`.
use tokenir.Prelude.{ℕ, Bool, false, Option, none, some, List, []}
use tokenir.Prelude.Int.{ℤ, as_i64}
use tokenir.Solana.{Pubkey}
use tokenir.Borsh.Read.{Reader, pure, ◌>>=◌, read_bytes, read_number, read_text, read_bool}
use tokenir.Events.{CreateEvent, CreateEventV2, TradeEvent, BuyEventAmm, SellEventAmm}

unfoldable pub read_u64 : Reader ℕ
unfolding read_number
read_u64 = read_number 8

unfoldable pub read_i64 : Reader ℤ
unfolding ◌>>=◌ read_u64
read_i64 = do w ← read_u64; pure (as_i64 w)

unfoldable pub read_pubkey : Reader Pubkey
unfolding read_bytes
read_pubkey = read_bytes 32

-- A flag that is missing or no Boolean is `false`, and what was read of it stays read.
abbrev flag_of : Option (Bool × List ℕ) → Option (Bool × List ℕ)
flag_of none = some (false, [])
flag_of (some (b, rest)) = some (b, rest)

unfoldable pub read_flag : Reader Bool
unfolding read_bool
read_flag bs = flag_of (read_bool bs)

-- The timestamp is the clock's.
unfoldable pub read_create : ℤ → Reader CreateEvent
unfolding ◌>>=◌
read_create now = do
  name ← read_text
  symbol ← read_text
  uri ← read_text
  mint ← read_pubkey
  bonding_curve ← read_pubkey
  user ← read_pubkey
  token_2022 ← read_flag
  pure (record {
    name = name;
    symbol = symbol;
    uri = uri;
    mint = mint;
    bonding_curve = bonding_curve;
    user = user;
    token_2022 = token_2022;
    timestamp = now;
  })

unfoldable pub read_create_v2 : Reader CreateEventV2
unfolding ◌>>=◌
read_create_v2 = do
  name ← read_text
  symbol ← read_text
  uri ← read_text
  mint ← read_pubkey
  bonding_curve ← read_pubkey
  user ← read_pubkey
  creator ← read_pubkey
  timestamp ← read_i64
  virtual_token_reserves ← read_u64
  virtual_sol_reserves ← read_u64
  real_token_reserves ← read_u64
  token_total_supply ← read_u64
  token_program ← read_pubkey
  is_mayhem_mode ← read_bool
  pure (record {
    name = name;
    symbol = symbol;
    uri = uri;
    mint = mint;
    bonding_curve = bonding_curve;
    user = user;
    creator = creator;
    timestamp = timestamp;
    virtual_token_reserves = virtual_token_reserves;
    virtual_sol_reserves = virtual_sol_reserves;
    real_token_reserves = real_token_reserves;
    token_total_supply = token_total_supply;
    token_program = token_program;
    is_mayhem_mode = is_mayhem_mode;
  })

unfoldable pub read_trade : Reader TradeEvent
unfolding ◌>>=◌
read_trade = do
  mint ← read_pubkey
  sol_amount ← read_u64
  token_amount ← read_u64
  is_buy ← read_bool
  user ← read_pubkey
  timestamp ← read_i64
  virtual_sol_reserves ← read_u64
  virtual_token_reserves ← read_u64
  pure (record {
    mint = mint;
    sol_amount = sol_amount;
    token_amount = token_amount;
    is_buy = is_buy;
    user = user;
    timestamp = timestamp;
    virtual_sol_reserves = virtual_sol_reserves;
    virtual_token_reserves = virtual_token_reserves;
  })

unfoldable pub read_buy_amm : Reader BuyEventAmm
unfolding ◌>>=◌
read_buy_amm = do
  timestamp ← read_i64
  base_amount_out ← read_u64
  max_quote_amount_in ← read_u64
  user_base_token_reserves ← read_u64
  user_quote_token_reserves ← read_u64
  pool_base_token_reserves ← read_u64
  pool_quote_token_reserves ← read_u64
  quote_amount_in ← read_u64
  lp_fee_basis_points ← read_u64
  lp_fee ← read_u64
  protocol_fee_basis_points ← read_u64
  protocol_fee ← read_u64
  quote_amount_in_with_lp_fee ← read_u64
  user_quote_amount_in ← read_u64
  pool ← read_pubkey
  user ← read_pubkey
  user_base_token_account ← read_pubkey
  user_quote_token_account ← read_pubkey
  protocol_fee_recipient ← read_pubkey
  protocol_fee_recipient_token_account ← read_pubkey
  pure (record {
    timestamp = timestamp;
    base_amount_out = base_amount_out;
    max_quote_amount_in = max_quote_amount_in;
    user_base_token_reserves = user_base_token_reserves;
    user_quote_token_reserves = user_quote_token_reserves;
    pool_base_token_reserves = pool_base_token_reserves;
    pool_quote_token_reserves = pool_quote_token_reserves;
    quote_amount_in = quote_amount_in;
    lp_fee_basis_points = lp_fee_basis_points;
    lp_fee = lp_fee;
    protocol_fee_basis_points = protocol_fee_basis_points;
    protocol_fee = protocol_fee;
    quote_amount_in_with_lp_fee = quote_amount_in_with_lp_fee;
    user_quote_amount_in = user_quote_amount_in;
    pool = pool;
    user = user;
    user_base_token_account = user_base_token_account;
    user_quote_token_account = user_quote_token_account;
    protocol_fee_recipient = protocol_fee_recipient;
    protocol_fee_recipient_token_account = protocol_fee_recipient_token_account;
  })

unfoldable pub read_sell_amm : Reader SellEventAmm
unfolding ◌>>=◌
read_sell_amm = do
  timestamp ← read_i64
  base_amount_in ← read_u64
  min_quote_amount_out ← read_u64
  user_base_token_reserves ← read_u64
  user_quote_token_reserves ← read_u64
  pool_base_token_reserves ← read_u64
  pool_quote_token_reserves ← read_u64
  quote_amount_out ← read_u64
  lp_fee_basis_points ← read_u64
  lp_fee ← read_u64
  protocol_fee_basis_points ← read_u64
  protocol_fee ← read_u64
  quote_amount_out_without_lp_fee ← read_u64
  user_quote_amount_out ← read_u64
  pool ← read_pubkey
  user ← read_pubkey
  user_base_token_account ← read_pubkey
  user_quote_token_account ← read_pubkey
  protocol_fee_recipient ← read_pubkey
  protocol_fee_recipient_token_account ← read_pubkey
  pure (record {
    timestamp = timestamp;
    base_amount_in = base_amount_in;
    min_quote_amount_out = min_quote_amount_out;
    user_base_token_reserves = user_base_token_reserves;
    user_quote_token_reserves = user_quote_token_reserves;
    pool_base_token_reserves = pool_base_token_reserves;
    pool_quote_token_reserves = pool_quote_token_reserves;
    quote_amount_out = quote_amount_out;
    lp_fee_basis_points = lp_fee_basis_points;
    lp_fee = lp_fee;
    protocol_fee_basis_points = protocol_fee_basis_points;
    protocol_fee = protocol_fee;
    quote_amount_out_without_lp_fee = quote_amount_out_without_lp_fee;
    user_quote_amount_out = user_quote_amount_out;
    pool = pool;
    user = user;
    user_base_token_account = user_base_token_account;
    user_quote_token_account = user_quote_token_account;
    protocol_fee_recipient = protocol_fee_recipient;
    protocol_fee_recipient_token_account = protocol_fee_recipient_token_account;
  })
