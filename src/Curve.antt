-- ===== src/Curve.antt =====
-- The bonding curve of tokenir_ui/src/pump_interaction/accounts/bonding_curve.rs.
--
-- Products are taken in `u128`, where a product of two `u64` fits. A subtraction in `u128` and a
-- cast to `u64` wrap around, as in a build without overflow checks. `none` is the only error,
-- "Curve is complete".
pub mod Trades
pub mod Fetch
use tokenir.Prelude.{
  ℕ, ◌+◌, ◌-◌, ◌*◌, ◌/◌, ◌%◌, ◌^◌, Bool, true, false, Option, none, some, nat_beq, ltb,
  if◌then◌else◌,
}

pub record BondingCurve : Type 0 where
  pub discriminator : ℕ
  pub virtual_token_reserves : ℕ
  pub virtual_sol_reserves : ℕ
  pub real_token_reserves : ℕ
  pub real_sol_reserves : ℕ
  pub token_total_supply : ℕ
  pub complete : Bool

unfoldable pub sub_u128 : ℕ → ℕ → ℕ
sub_u128 a b = (a + 2 ^ 128 - b) % 2 ^ 128

-- The tokens before the cut to the real reserves.
unfoldable pub curve_tokens : ℕ → ℕ → ℕ → ℕ
unfolding sub_u128
curve_tokens sol token amount =
    let n = sol * token in let i = sol + amount in let r = n / i + 1 in sub_u128 token r % 2 ^ 64

unfoldable pub buy : BondingCurve → ℕ → Option ℕ
unfolding curve_tokens
buy c amount =
    if c.complete
    then none
    else if nat_beq amount 0
    then some 0
    else (let s = curve_tokens c.virtual_sol_reserves c.virtual_token_reserves amount in
        some (if ltb s c.real_token_reserves then s else c.real_token_reserves))

-- `unwrap_or(100)`
abbrev pub or_default : Option ℕ → ℕ
or_default none = 100
or_default (some fee) = fee

-- The lamports before the fee, and after it.
unfoldable pub curve_sol : ℕ → ℕ → ℕ → ℕ
curve_sol sol token amount = amount * sol / (token + amount)

unfoldable pub less_fee : ℕ → ℕ → ℕ
unfolding sub_u128
less_fee n fee = sub_u128 n (n * fee / 10_000) % 2 ^ 64

unfoldable pub price : BondingCurve → ℕ → Option ℕ → Option ℕ
unfolding curve_sol less_fee
price c amount fee_basis_points =
    if c.complete
    then none
    else if nat_beq amount 0
    then some 0
    else some (
        less_fee (curve_sol c.virtual_sol_reserves c.virtual_token_reserves amount)
          (or_default fee_basis_points))

unfoldable pub set_reserves : ℕ → ℕ → BondingCurve → BondingCurve
set_reserves sol token c = record c { virtual_sol_reserves = sol; virtual_token_reserves = token }

unfoldable pub default_curve : BondingCurve
default_curve = record {
  discriminator = 6966180631402821399;
  virtual_token_reserves = 1073000000000000;
  virtual_sol_reserves = 30000000000;
  real_token_reserves = 793100000000000;
  real_sol_reserves = 0;
  token_total_supply = 1000000000000000;
  complete = false;
}
