-- ===== src/Examples/Trading.antt =====
-- Runs of the bonding curve, the purchases, the filters and the pools.
use tokenir.Prelude.{
  text_eq, ℕ, ◌+◌, ◌-◌, ◌*◌, ◌/◌, ◌<◌, ◌≤◌, ◌≡◌, ◌≢◌, ◌↔◌, refl, true, false, ◌&&◌, ◌||◌, none,
  some, List, [], ◌∷◌, ◌++◌, head?, length, arith, if◌then◌else◌,
}
use tokenir.Prelude.Int.{pos}
use tokenir.Prelude.Map.{get, insert}
use tokenir.Prelude.Text.{Text, codes}
use tokenir.Solana.{Solana}
use tokenir.Addresses.{pool_pda}
use tokenir.Curve
use tokenir.Curve.{
  BondingCurve, default_curve, curve_tokens, price, set_reserves, curve_sol, less_fee,
}
use tokenir.Curve.Trades.{buy_bounds, price_fee, price-buy}
use tokenir.Events.{CreateEvent}
use tokenir.Instructions.{
  Order, Instruction, buy_data, sell_data, buy_discriminator, sell_discriminator,
}
use tokenir.Instructions.Layout.{read_order, read_order-data}
use tokenir.TokenPool.{TokenPool, add, new}
use tokenir.TokenPool.Eviction.{Addition, add_all, add_all-keeps}
use tokenir.Terminal.{
  UiToken, FilterSet, Floats, average_dev_market_cap, average_dev_market_cap_in, matches, is_none,
}
use tokenir.Terminal.Filter.{
  median_ok, median_range, migration_ok, migration_range, count_ok, count_range, matches_lem,
}
use tokenir.Terminal.Autobuy.{
  BuyAutomata, Params, Foreign, sent, panicked, order_instructions, micro_price, compute_limit,
}
use tokenir.Terminal.Autobuy
use tokenir.Terminal.Autobuy.Purchase.{buy_lem}
use tokenir.Terminal.Flow.{Client, Purchase, receive}
use tokenir.Terminal.Flow.Guards.{receive_bought, by_whitelist, by_filters}
use tokenir.Examples.{sol}

-- One SOL.
abbrev pub sol_amount : ℕ
sol_amount = 1_000_000_000

buy_bounds_example :
    (s : ℕ) × (Curve.buy default_curve sol_amount ≡ some s)
    × (s ≤ default_curve.real_token_reserves)
    × (s < default_curve.virtual_token_reserves)
    × (default_curve.virtual_sol_reserves * default_curve.virtual_token_reserves
        ≤ (default_curve.virtual_sol_reserves + sol_amount)
          * (default_curve.virtual_token_reserves - s))
unfolding default_curve
buy_bounds_example =
    buy_bounds default_curve sol_amount refl (omega arith) (omega arith) (omega arith)

price_fee_example :
    let n =
      1_000_000
      * default_curve.virtual_sol_reserves
      / (default_curve.virtual_token_reserves + 1_000_000) in
    (p : ℕ) × (price default_curve 1_000_000 (some 100) ≡ some p)
    × (p + n * 100 / 10_000 ≡ n)
    × (p ≤ default_curve.virtual_sol_reserves)
unfolding default_curve
price_fee_example = price_fee default_curve 1_000_000 100 refl (omega arith) (omega arith)

-- What one SOL buys, and what it sells for.
abbrev bought : ℕ
bought = 34_612_903_225_806

price-buy_example : 990_000_000 ≤ sol_amount
unfolding default_curve Curve.buy price set_reserves
price-buy_example =
    price-buy default_curve sol_amount bought 990_000_000 none (omega arith) (omega arith)
      (omega arith) (omega arith) (omega arith) refl refl

read_order-data_example :
    let o : Order = record { token_amount = 5; slippage = 300 } in
    let q : Order = record { token_amount = 6; slippage = 300 } in
    (read_order (buy_data o) ≡ (buy_discriminator, o))
    × (read_order (sell_data o) ≡ (sell_discriminator, o))
    × (buy_data o ≢ sell_data q)
read_order-data_example =
    read_order-data (record { token_amount = 5; slippage = 300 })
      (record { token_amount = 6; slippage = 300 }) (omega arith) (omega arith)

abbrev pub floats : Floats
floats = record { percentage = λ m t. m * 100 / t; scaled = λ amount bits. amount / 2 }

abbrev pub median_filter : FilterSet
median_filter = record {
  filters =
      (average_dev_market_cap, average_dev_market_cap_in (record { first = 10; past = 100 })) ∷ [];
}

abbrev pub token : UiToken
token = record {
  mint = codes "mint";
  name = codes "Token";
  ticker = codes "TKN";
  mcap = 4900;
  dev = codes "dev";
  reserves = 1_073_000_000;
  curve = codes "curve";
  ath = 4900;
  twitter = none;
  dev_performance = some (record { average_ath = 50; last_tokens = []; count = 1 });
  migrated = none;
  token_2022 = true;
  metadata_ipfs = none;
  metadata = none;
}

matches_lem_example : matches floats median_filter token (some 50) ≡ (
    median_ok (some 50) (median_range median_filter.filters)
    || ((migration_ok floats token (migration_range median_filter.filters)
          && count_ok floats token (count_range median_filter.filters))
        && is_none token.dev_performance))
matches_lem_example = matches_lem floats median_filter token (some 50) (tt, tt)

abbrev pub automata : BuyAutomata
automata = record {
  enabled = false;
  wallet = codes "me";
  params = record {
    lamport_amount = sol_amount;
    priority_fee = 100_000;
    slippage = 0;
    bribe = 100_000;
    filters = median_filter;
    use_leader_send = false;
  };
  active_twitter = true;
  active_migrate = false;
  active_whitelist = false;
}

-- A foreign instruction, reduced to its numbers.
abbrev plain_instruction : List ℕ → Instruction
plain_instruction bytes = record { program_id = []; accounts = []; bytes = bytes }

abbrev foreign : Foreign
foreign = record {
  set_compute_unit_limit = λ n. plain_instruction (n ∷ []);
  set_compute_unit_price = λ n. plain_instruction (n ∷ []);
  create_associated_token_account_idempotent = λ payer owner mint program. plain_instruction mint;
  system_transfer = λ from to lamports. plain_instruction (lamports ∷ []);
}

buy_lem_example :
    ((Autobuy.buy sol floats foreign automata token (some default_curve) true ≡ panicked)
      ↔ (default_curve.complete ≡ true))
    × (default_curve.complete ≡ false
        → (amount : ℕ) × (amount ≤ default_curve.real_token_reserves)
          × (default_curve.virtual_sol_reserves * default_curve.virtual_token_reserves
              ≤ (default_curve.virtual_sol_reserves + sol_amount)
                * (default_curve.virtual_token_reserves - amount))
          × (Autobuy.buy sol floats foreign automata token (some default_curve) true
              ≡ sent (order_instructions sol floats foreign automata token amount))
          × ((instructions : List Instruction)
              → Autobuy.buy sol floats foreign automata token (some default_curve) false
                ≢ sent instructions))
    × (micro_price 100_000 * compute_limit ≤ 100_000 * 1_000_000)
unfolding default_curve
buy_lem_example =
    buy_lem sol floats foreign automata token default_curve true (omega arith) (omega arith)
      (omega arith)

abbrev pub client : Client
client = record {
  pool = record { feed = []; feed_check = []; filters = median_filter };
  loading = [];
  total = 0;
  blacklist = [];
  whitelist = [];
  automata = automata;
  logged_in = true;
  bought = [];
  opened = [];
}

-- A purchase with what the RPC server answers: the account of the curve and a block hash.
abbrev pub answered : BondingCurve → Purchase
answered curve a token = Autobuy.buy sol floats foreign a token (some curve) true

receive_bought_example :
    (receive floats token false none (answered default_curve) client).0.bought ≡ (
      if client.logged_in
        && (by_whitelist token client || by_filters floats token token.dev_performance client)
      then client.bought ++ token ∷ []
      else client.bought)
receive_bought_example = receive_bought floats token false none (answered default_curve) client

abbrev created : Text → CreateEvent
created mint = record {
  name = codes "Token";
  symbol = codes "TKN";
  uri = codes "ipfs://abc";
  mint = mint;
  bonding_curve = codes "curve";
  user = codes "user";
  token_2022 = true;
  timestamp = pos 7;
}

-- The pool's address of a mint is the mint, the fourth seed.
abbrev fourth : List Text → Text
fourth (a ∷ b ∷ c ∷ d ∷ seeds) = d
fourth seeds = []

abbrev sol_by_mint : Solana
sol_by_mint = record sol { find_program_address = λ seeds program. (fourth seeds, 255) }

abbrev two_tokens : List Addition
two_tokens = (created (codes "a"), none, none) ∷ (created (codes "b"), none, none) ∷ []

abbrev pool : TokenPool ℕ
pool = add_all sol_by_mint two_tokens (new sol_by_mint)

add_all-keeps_example :
    (get (codes "b") (add_all sol_by_mint two_tokens pool).pool ≢ none)
    × (head? (add_all sol_by_mint two_tokens pool).collector ≡ some (codes "a"))
    × (length (add_all sol_by_mint two_tokens pool).collector
        ≡ length pool.collector + length two_tokens)
unfolding add_all add new get insert pool_pda
add_all-keeps_example =
    add_all-keeps sol_by_mint two_tokens pool (codes "a") (codes "b") refl (λ h. ground (arith, h))
      (λ h. ground (arith, h))
