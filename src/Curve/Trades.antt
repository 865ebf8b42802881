-- ===== src/Curve/Trades.antt =====
-- What a trade on the bonding curve can and cannot take out of it.
use native.Mathlib.Nat.{
  mul_comm, mul-add, div-lt_iff_lt-mul, mul-le-mul_left, mul-lt-mul_of_pos_left, lt-mul-div-succ,
  div-le_of_le-mul,
}
use tokenir.Prelude.{
  ℕ, ◌+◌, ◌-◌, ◌*◌, ◌/◌, ◌^◌, ◌<◌, ◌≤◌, ◌≡◌, false, Option, some, nat_beq, nat_beq_iff, ltb,
  if◌then◌else◌, arith, sym, ap, inl, inr, Bool-cases, ◌∙◌,
}
use tokenir.Curve.{
  BondingCurve, buy, price, set_reserves, curve_tokens, curve_sol, or_default, less_fee, sub_u128,
}

-- The new virtual reserves of tokens, before one is added for rounding, are below the old ones.
quotient-lt : (sol token amount : ℕ) → 0 < token → 0 < amount → sol * token / (sol + amount) < token
quotient-lt sol token amount t a =
    (div-lt_iff_lt-mul {k = sol + amount} {x = sol * token} {y = token} (omega arith)).1 (
      omega (
        arith,
        mul_comm sol token,
        mul-lt-mul_of_pos_left {m = sol} {n = sol + amount} {k = token} (omega arith) t,
      ))

sub_u128_exact : (a b : ℕ) → a < 2 ^ 128 → b ≤ a → sub_u128 a b ≡ a - b
unfolding sub_u128
sub_u128_exact a b h k = omega arith

curve_tokens_exact :
    (sol token amount : ℕ)
    → 0 < token
    → token < 2 ^ 64
    → 0 < amount
    → curve_tokens sol token amount ≡ token - (sol * token / (sol + amount) + 1)
unfolding curve_tokens
curve_tokens_exact sol token amount t small a = omega (
  arith,
  quotient-lt sol token amount t a,
  sub_u128_exact token (sol * token / (sol + amount) + 1),
)

-- The product of the virtual reserves does not fall.
curve_tokens-product :
    (sol token amount s : ℕ)
    → 0 < token
    → token < 2 ^ 64
    → 0 < amount
    → s ≤ curve_tokens sol token amount
    → sol * token ≤ (sol + amount) * (token - s)
curve_tokens-product sol token amount s t small a h =
    let q = sol * token / (sol + amount) in
    let room : q + 1 ≤ token - s =
      omega
        (arith, curve_tokens_exact sol token amount t small a, quotient-lt sol token amount t a) in
    omega (
      arith,
      lt-mul-div-succ (sol * token) {b = sol + amount} (omega arith),
      mul-le-mul_left {m = q + 1} {n = token - s} (sol + amount) room,
    )

abbrev cut : ℕ → ℕ → ℕ
cut s real = if ltb s real then s else real

-- A purchase from a curve that is not complete, with a positive amount and positive virtual token
-- reserves of 64 bits, gives a number of tokens that is at most the real reserves and less than the
-- virtual ones, and after it the product of the virtual reserves is at least what it was.
pub buy_bounds :
    (c : BondingCurve) (amount : ℕ)
    → c.complete ≡ false
    → 0 < c.virtual_token_reserves
    → c.virtual_token_reserves < 2 ^ 64
    → 0 < amount
    → (s : ℕ) × (buy c amount ≡ some s)
      × (s ≤ c.real_token_reserves)
      × (s < c.virtual_token_reserves)
      × (c.virtual_sol_reserves * c.virtual_token_reserves
          ≤ (c.virtual_sol_reserves + amount) * (c.virtual_token_reserves - s))
unfolding buy
buy_bounds c amount running t small a =
    let bought = curve_tokens c.virtual_sol_reserves c.virtual_token_reserves amount in
    let s = cut bought c.real_token_reserves in
    let le : s ≤ bought = ground arith in
    (
      s,
      ground (arith, nat_beq_iff amount 0),
      ground arith,
      omega (
        arith,
        curve_tokens_exact c.virtual_sol_reserves c.virtual_token_reserves amount t small a,
        quotient-lt c.virtual_sol_reserves c.virtual_token_reserves amount t a,
      ),
      curve_tokens-product c.virtual_sol_reserves c.virtual_token_reserves amount s t small a le,
    )

mul-sub : (i token s : ℕ) → s ≤ token → i * (token - s) + i * s ≡ i * token
mul-sub i token s h =
    let e : token - s + s ≡ token = omega arith in sym (mul-add i (token - s) s) ∙ ap (λ x. i * x) e

-- The lamports of a sale of tokens that a purchase could have bought.
curve_sol-le :
    (sol token amount s : ℕ)
    → 0 < token
    → token < 2 ^ 64
    → 0 < amount
    → s ≤ curve_tokens sol token amount
    → curve_sol (sol + amount) (token - s) s ≤ amount
unfolding curve_sol
curve_sol-le sol token amount s t small a h =
    let below : s < token =
      omega
        (arith, curve_tokens_exact sol token amount t small a, quotient-lt sol token amount t a) in
    let whole : token - s + s ≡ token = omega arith in
    let paid : s * (sol + amount) ≤ token * amount = omega (
      arith,
      curve_tokens-product sol token amount s t small a h,
      mul-sub (sol + amount) token s (omega arith),
    ) in
    rw whole (div-le_of_le-mul token {m = s * (sol + amount)} {n = amount} paid)

less_fee_lem : (n fee : ℕ) → n < 2 ^ 64 → fee ≤ 10_000 → (less_fee n fee + n * fee / 10_000 ≡ n)
unfolding less_fee
less_fee_lem n fee h f =
    let fee_le : n * fee / 10_000 ≤ n =
      div-le_of_le-mul 10_000 {m = n * fee} {n = n}
        (omega (arith, mul-le-mul_left {m = fee} {n = 10_000} n f)) in
    omega (arith, sub_u128_exact n (n * fee / 10_000) (omega arith) fee_le)

buy-le :
    (c : BondingCurve) (amount s : ℕ)
    → buy c amount ≡ some s
    → 0 < amount
    → s ≤ curve_tokens c.virtual_sol_reserves c.virtual_token_reserves amount
unfolding buy
buy-le c amount s h a = ground (arith, nat_beq_iff amount 0)

curve_sol-zero : (sol token : ℕ) → curve_sol sol token 0 ≡ 0
unfolding curve_sol
curve_sol-zero sol token = omega (arith, div-le_of_le-mul (token + 0) {m = 0} {n = 0} (omega arith))

less_fee-zero : (fee : ℕ) → less_fee 0 fee ≡ 0
unfolding less_fee sub_u128
less_fee-zero fee = omega (arith, div-le_of_le-mul 10_000 {m = 0 * fee} {n = 0} (omega arith))

-- A price of nothing follows the formula too.
price_lem :
    (c : BondingCurve) (amount : ℕ) (fee : Option ℕ)
    → c.complete ≡ false
    → price c amount fee
      ≡ some (
          less_fee
            (curve_sol c.virtual_sol_reserves c.virtual_token_reserves amount)
            (or_default fee))
unfolding price
price_lem c amount fee running = elim (Bool-cases (nat_beq amount 0)) [
  | inl e ↦
      let none_sold : amount ≡ 0 = (nat_beq_iff amount 0).0 e in
      rw none_sold (
        ground (
          arith,
          less_fee-zero (or_default fee),
          curve_sol-zero c.virtual_sol_reserves c.virtual_token_reserves,
        ))
  | inr e ↦ ground arith
]

curve_sol-le_reserves : (sol token amount : ℕ) → curve_sol sol token amount ≤ sol
unfolding curve_sol
curve_sol-le_reserves sol token amount =
    div-le_of_le-mul (token + amount) {m = amount * sol} {n = sol}
      (omega (arith, mul-add sol token amount, mul_comm sol amount, mul_comm sol (token + amount)))

-- A sale on a curve that is not complete, with a fee of at most 10,000 basis points and virtual
-- reserves of lamports of 64 bits: the fee is taken out of the quotient of the constant product, and
-- what is left and the fee add up to it, and it is at most the virtual reserves of lamports.
pub price_fee :
    (c : BondingCurve) (amount fee : ℕ)
    → c.complete ≡ false
    → c.virtual_sol_reserves < 2 ^ 64
    → fee ≤ 10_000
    → let n = amount * c.virtual_sol_reserves / (c.virtual_token_reserves + amount) in
      (p : ℕ) × (price c amount (some fee) ≡ some p)
      × (p + n * fee / 10_000 ≡ n)
      × (p ≤ c.virtual_sol_reserves)
unfolding curve_sol
price_fee c amount fee running small f =
    let n = curve_sol c.virtual_sol_reserves c.virtual_token_reserves amount in
    let le : n ≤ c.virtual_sol_reserves =
      curve_sol-le_reserves c.virtual_sol_reserves c.virtual_token_reserves amount in
    let total = less_fee_lem n fee (omega arith) f in
    (less_fee n fee, price_lem c amount (some fee) running, total, omega arith)

buy-running : (c : BondingCurve) (amount s : ℕ) → buy c amount ≡ some s → c.complete ≡ false
unfolding buy
buy-running c amount s h = ground arith

price-set_reserves :
    (sol token amount : ℕ) (c : BondingCurve) (fee : Option ℕ)
    → c.complete ≡ false
    → price (set_reserves sol token c) amount fee
      ≡ some (less_fee (curve_sol sol token amount) (or_default fee))
unfolding set_reserves
price-set_reserves sol token amount c fee running =
    price_lem (set_reserves sol token c) amount fee running

-- Selling what was just bought never pays: on a curve with positive virtual token reserves of 64
-- bits, after a purchase for a positive amount of 64 bits, with the reserves set to what they are then, the price of
-- the tokens that were bought is at most that amount, whatever the fee of at most 10,000 basis points.
pub price-buy :
    (c : BondingCurve) (amount s p : ℕ) (fee : Option ℕ)
    → 0 < c.virtual_token_reserves
    → c.virtual_token_reserves < 2 ^ 64
    → 0 < amount
    → amount < 2 ^ 64
    → or_default fee ≤ 10_000
    → buy c amount ≡ some s
    → price (set_reserves (c.virtual_sol_reserves + amount) (c.virtual_token_reserves - s) c) s fee
      ≡ some p
    → p ≤ amount
price-buy c amount s p fee t small a wide f bought sold =
    let sol = c.virtual_sol_reserves + amount in
    let token = c.virtual_token_reserves - s in
    let after = set_reserves sol token c in
    let n : curve_sol sol token s ≤ amount =
      curve_sol-le c.virtual_sol_reserves c.virtual_token_reserves amount s t small a
        (buy-le c amount s bought a) in
    let sale : price after s fee ≡ some (less_fee (curve_sol sol token s) (or_default fee)) =
      price-set_reserves sol token s c fee (buy-running c amount s bought) in
    ground (arith, less_fee_lem (curve_sol sol token s) (or_default fee))
