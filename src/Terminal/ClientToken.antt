-- ===== src/Terminal/ClientToken.antt =====
-- The methods of `Token` in tokenir_ui/src/token.rs. `none` of a market cap is a panic, a division by
-- zero.
use tokenir.Prelude.{ℕ, Bool, true, false, Option, none, some, nat_beq, if◌then◌else◌}
use tokenir.Prelude.Int.{ℤ, as_i64}
use tokenir.Prelude.Text.{Text}
use tokenir.Solana.{Solana, Pubkey}
use tokenir.Token.{
  CommunityInfo, Metadata, DevPerformance, usd_value, image_of, description_of, community_of,
}
use tokenir.Terminal.{UiToken}

abbrev fresh_market_cap : ℕ
fresh_market_cap = 4900

unfoldable pub fresh :
    Text
    → Text
    → Pubkey
    → Pubkey
    → Option CommunityInfo
    → Pubkey
    → Bool
    → Option Text
    → Option Metadata
    → UiToken
fresh name ticker dev curve twitter mint token_2022 metadata_ipfs metadata = record {
  mint = mint;
  name = name;
  ticker = ticker;
  mcap = fresh_market_cap;
  dev = dev;
  reserves = 1_073_000_000;
  curve = curve;
  ath = fresh_market_cap;
  twitter = twitter;
  dev_performance = none;
  migrated = none;
  token_2022 = token_2022;
  metadata_ipfs = metadata_ipfs;
  metadata = metadata;
}

unfoldable pub ui_usd_mcap : UiToken → ℕ → Option ℕ
ui_usd_mcap t price =
    if nat_beq t.reserves 0 then none else some (usd_value t.mcap t.reserves price)

-- `DbToken`, here without the address of a pool.
pub record UiDbToken : Type 0 where
  pub mint : Text
  pub dev_address : Text
  pub ath : ℤ
  pub name : Text
  pub ticker : Text
  pub ipfs : Option Text
  pub image : Option Text
  pub description : Option Text
  pub community_id : Option Text

unfoldable pub ui_dbtoken : Solana → UiToken → Pubkey → UiDbToken
ui_dbtoken sol t mint = record {
  mint = sol.to_string mint;
  dev_address = sol.to_string t.dev;
  ath = as_i64 t.ath;
  name = t.name;
  ticker = t.ticker;
  ipfs = t.metadata_ipfs;
  image = image_of t.metadata;
  description = description_of t.metadata;
  community_id = community_of t.twitter;
}

abbrev loads : Option DevPerformance → Bool
loads none = false
loads (some performance) = true

-- `load_history` changes nothing; `true` is `Ok`.
unfoldable pub load_history : UiToken → Bool × UiToken
load_history t = (loads t.dev_performance, t)
