-- ===== src/Services/Price.antt =====
-- The price of SOL that `main` of tokenir/src/main.rs polls, and the market cap of a developer's token in
-- tokenir/src/types/requests.rs.
use tokenir.Prelude.{ℕ, ◌≡◌, refl, ◌∙◌, Option, none, some, List, [], ◌∷◌, false, arith}
use tokenir.Prelude.Text.{Text}
use tokenir.Services.{Net, Floats, TokenInfo, usd_mcap, fetch_solana_price, stored, poll_price}

abbrev later_or : Option ℕ → Option ℕ → Option ℕ
later_or none b = b
later_or (some a) b = some a

abbrev last_fetched : (Text → Option ℕ) → List Net → Option ℕ
last_fetched parse [] = none
last_fetched parse (net ∷ nets) = later_or (last_fetched parse nets) (fetch_solana_price net parse)

abbrev rounded_or : Floats → ℕ → Option ℕ → ℕ
rounded_or fl price none = price
rounded_or fl price (some fetched) = fl.round_u64 fetched

rounded_or-stored :
    (fl : Floats) (price : ℕ) (now later : Option ℕ)
    → rounded_or fl (stored fl price now) later ≡ rounded_or fl price (later_or later now)
rounded_or-stored fl price none none = refl
rounded_or-stored fl price (some a) none = refl
rounded_or-stored fl price now (some b) = refl

-- The price is the one that was fetched last, and stays where fetching fails.
poll_price_lem :
    (fl : Floats) (parse : Text → Option ℕ) (nets : List Net) (price : ℕ)
    → poll_price fl parse nets price ≡ rounded_or fl price (last_fetched parse nets)
unfolding poll_price
poll_price_lem fl parse [] price = refl
poll_price_lem fl parse (net ∷ nets) price =
    let fetched = fetch_solana_price net parse in
    poll_price_lem fl parse nets (stored fl price fetched)
    ∙ rounded_or-stored fl price fetched (last_fetched parse nets)

-- A liquidity below one token that is not zero panics.
usd_mcap_fraction :
    (fl : Floats) (t : TokenInfo)
    → fl.is_zero t.liquidity_token ≡ false
    → fl.to_u64 t.liquidity_token ≡ 0
    → usd_mcap fl t ≡ none
unfolding usd_mcap
usd_mcap_fraction fl t h z = ground arith
