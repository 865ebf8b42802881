-- ===== src/Instructions/Layout.antt =====
-- What the instructions of tokenir_ui/src/pump_interaction/instructions carry.
use tokenir.Prelude.{ℕ, ◌<◌, ◌^◌, ◌≡◌, ◌≢◌, refl, ◌∙◌, ap, List, ◌++◌, take, drop, arith}
use tokenir.Borsh.{le_bytes, of_le_bytes, of_le_bytes-le_bytes}
use tokenir.Instructions.{Order, buy_discriminator, sell_discriminator, buy_data, sell_data}

-- What an on-chain program reads: eight bytes that name the instruction, then two numbers.
abbrev pub read_order : List ℕ → List ℕ × Order
read_order bytes = (
  take 8 bytes,
  record {
    token_amount = of_le_bytes (take 8 (drop 8 bytes));
    slippage = of_le_bytes (drop 8 (drop 8 bytes));
  },
)

first_eight : (n : ℕ) (rest : List ℕ) → take 8 (le_bytes 8 n ++ rest) ≡ le_bytes 8 n
unfolding le_bytes
first_eight n rest = refl

after_eight : (n : ℕ) (rest : List ℕ) → drop 8 (le_bytes 8 n ++ rest) ≡ rest
unfolding le_bytes
after_eight n rest = refl

order_bytes :
    (o : Order)
    → o.token_amount < 2 ^ 64
    → o.slippage < 2 ^ 64
    → (of_le_bytes (take 8 (le_bytes 8 o.token_amount ++ le_bytes 8 o.slippage)) ≡ o.token_amount)
      × (of_le_bytes (drop 8 (le_bytes 8 o.token_amount ++ le_bytes 8 o.slippage)) ≡ o.slippage)
order_bytes o a b = (
  ap of_le_bytes (first_eight o.token_amount (le_bytes 8 o.slippage))
      ∙ of_le_bytes-le_bytes 8 o.token_amount (omega arith),
  ap of_le_bytes (after_eight o.token_amount (le_bytes 8 o.slippage))
      ∙ of_le_bytes-le_bytes 8 o.slippage (omega arith),
)

-- The data of a purchase and of a sale, with amounts of 64 bits, read back as the name of their
-- instruction and the order that was written; so they are never the same data.
pub read_order-data :
    (o q : Order)
    → o.token_amount < 2 ^ 64
    → o.slippage < 2 ^ 64
    → (read_order (buy_data o) ≡ (buy_discriminator, o))
      × (read_order (sell_data o) ≡ (sell_discriminator, o))
      × (buy_data o ≢ sell_data q)
unfolding buy_data sell_data
read_order-data o q a b =
    let (amount, slip) = order_bytes o a b in
    (ground (arith, amount, slip), ground (arith, amount, slip), λ h. ground arith)
