-- ===== src/Token/Mcap.antt =====
-- Market caps and the all-time high of a token (tokenir/src/token.rs).
use tokenir.Prelude.{
  ℕ, ◌*◌, ◌/◌, ◌%◌, ◌^◌, ◌-◌, ◌≤◌, ◌<◌, ◌≡◌, ◌≢◌, ◌↔◌, none, some, arith, min, ◌⊎◌,
}
use tokenir.Events.{Trade, trade_mcap, trade_reserves}
use tokenir.Token.{Token, usd_mcap, usd_value, update}

exact_quotient : (m r : ℕ) → m < 2 ^ 128 → m / r < 2 ^ 64 → min m (2 ^ 128 - 1) / r % 2 ^ 64 ≡ m / r
exact_quotient m r h k = let e : min m (2 ^ 128 - 1) ≡ m = omega arith in rw e (omega arith)

usd_value_exact :
    (mcap reserves price : ℕ)
    → mcap * (price * 1_000_000) < 2 ^ 128
    → mcap * (price * 1_000_000) / reserves < 2 ^ 64
    → usd_value mcap reserves price ≡ mcap * (price * 1_000_000) / reserves
unfolding usd_value
usd_value_exact mcap reserves price h k = exact_quotient (mcap * (price * 1_000_000)) reserves h k

usd_value-lt : (mcap reserves price : ℕ) → usd_value mcap reserves price < 2 ^ 64
unfolding usd_value
usd_value-lt mcap reserves price = omega arith

-- `usd_mcap` panics exactly where the reserves are zero; otherwise its result is a `u64`, and it is
-- the exact quotient wherever the exact product fits a `u128` and the exact quotient a `u64`.
pub usd_mcap_lem :
    (mcap reserves price : ℕ)
    → ((usd_mcap mcap reserves price ≡ none) ↔ (reserves ≡ 0))
      × ((v : ℕ)
          → usd_mcap mcap reserves price ≡ some v
          → (v < 2 ^ 64)
            × (mcap * (price * 1_000_000) < 2 ^ 128
                → mcap * (price * 1_000_000) / reserves < 2 ^ 64
                → v ≡ mcap * (price * 1_000_000) / reserves))
unfolding usd_mcap
usd_mcap_lem mcap reserves price = (
  ground arith,
  λ v h.
      let e : v ≡ usd_value mcap reserves price = ground arith in
      rw e (usd_value-lt mcap reserves price, usd_value_exact mcap reserves price),
)

-- An update panics exactly where the trade's reserves are zero. Otherwise the token takes the trade's
-- market cap and reserves, and its all-time high becomes the larger of what it was and the new
-- market cap in dollars.
pub update_lem :
    (t : Token) (event : Trade) (price : ℕ)
    → ((update t event price ≡ none) ↔ (trade_reserves event ≡ 0))
      × ((u : Token)
          → update t event price ≡ some u
          → (u.mcap ≡ trade_mcap event)
            × (u.reserves ≡ trade_reserves event)
            × (usd_mcap u.mcap u.reserves price ≢ none)
            × (t.ath ≤ u.ath)
            × ((v : ℕ)
                → usd_mcap u.mcap u.reserves price ≡ some v
                → (v ≤ u.ath) × ((u.ath ≡ t.ath) ⊎ (u.ath ≡ v))))
unfolding update usd_mcap
update_lem t event price = (ground arith, λ u h. ground arith)
