-- ===== src/Terminal/Autobuy/Purchase.antt =====
-- What the transaction of `BuyAutomata::buy` can cost and what it asks for (tokenir_ui/src/autobuy.rs).
use tokenir.Prelude.{
  ℕ, ◌+◌, ◌*◌, ◌^◌, ◌-◌, ◌<◌, ◌≤◌, ◌≡◌, ◌≢◌, ◌↔◌, Bool, true, false, none, some, List, arith,
}
use tokenir.Solana.{Solana}
use tokenir.Curve
use tokenir.Curve.{BondingCurve}
use tokenir.Curve.Trades.{buy_bounds}
use tokenir.Instructions.{Instruction}
use tokenir.Terminal.{UiToken, Floats}
use tokenir.Terminal.Autobuy.{
  BuyAutomata, Foreign, sent, panicked, order_instructions, micro_price, compute_limit, buy,
}

-- The price of all compute units of a transaction is at most the priority fee, in millionths of a lamport.
micro_price-le : (fee : ℕ) → micro_price fee * compute_limit ≤ fee * 1_000_000
unfolding micro_price
micro_price-le fee = omega arith

complete-none : (c : BondingCurve) (amount : ℕ) → (Curve.buy c amount ≡ none) ↔ (c.complete ≡ true)
unfolding Curve.buy
complete-none c amount = ground arith

module _ (sol : Solana) (fl : Floats) (foreign : Foreign) where
  -- For a positive amount and a curve that the server returns, with positive virtual token reserves of 64
  -- bits: `buy` panics exactly where the curve is complete; otherwise, without a block hash nothing is
  -- sent, and with one the five instructions of an order are sent, for at most the curve's real
  -- token reserves, with which the product of the virtual reserves does not fall. The compute
  -- units of the transaction cost at most the priority fee.
  pub buy_lem :
      (a : BuyAutomata) (token : UiToken) (c : BondingCurve) (blockhash : Bool)
      → 0 < a.params.lamport_amount
      → 0 < c.virtual_token_reserves
      → c.virtual_token_reserves < 2 ^ 64
      → ((buy sol fl foreign a token (some c) blockhash ≡ panicked) ↔ (c.complete ≡ true))
        × (c.complete ≡ false
            → (amount : ℕ) × (amount ≤ c.real_token_reserves)
              × (c.virtual_sol_reserves * c.virtual_token_reserves
                  ≤ (c.virtual_sol_reserves + a.params.lamport_amount)
                    * (c.virtual_token_reserves - amount))
              × (buy sol fl foreign a token (some c) true
                  ≡ sent (order_instructions sol fl foreign a token amount))
              × ((instructions : List Instruction)
                  → buy sol fl foreign a token (some c) false ≢ sent instructions))
        × (micro_price a.params.priority_fee * compute_limit ≤ a.params.priority_fee * 1_000_000)
  unfolding buy
  buy_lem a token c blockhash paid t small = (
    ground (arith, complete-none c a.params.lamport_amount),
    λ running.
        let (amount, bought, real, virtual, product) =
          buy_bounds c a.params.lamport_amount running t small paid in
        (amount, real, product, ground (arith, bought), λ instructions h. ground (arith, bought)),
    micro_price-le a.params.priority_fee,
  )
