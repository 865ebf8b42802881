-- ===== src/Token.antt =====
-- tokenir/src/token.rs, with `Metadata` of types/requests.rs and `CommunityInfo` of constans.rs.
-- `none` stands for a panic: a division by zero.
pub mod Mcap
use tokenir.Prelude.{
  ℕ, suc, ◌*◌, ◌/◌, ◌%◌, ◌^◌, ◌-◌, Bool, Option, none, some, List, ltb, nat_beq, if◌then◌else◌, min,
}
use tokenir.Prelude.Int.{as_i64}
use tokenir.Prelude.Text.{Text}
use tokenir.Solana.{Solana, Pubkey}
use tokenir.Addresses.{pool_pda}
use tokenir.Events.{Trade, trade_mcap, trade_reserves}
use tokenir.Database.Tokens.{DbToken}

pub record Metadata : Type 0 where
  pub name : Text
  pub symbol : Text
  pub description : Option Text
  pub twitter : Option Text
  pub website : Option Text
  pub image : Option Text

pub record Creator : Type 0 where
  pub id : Text
  pub screen_name : Option Text

pub record CommunityInfo : Type 0 where
  pub id : Text
  pub name : Text
  pub description : Option Text
  pub member_count : Option ℕ
  pub moderator_count : Option ℕ
  pub created_at : Option Text
  pub creator : Creator

pub record DevPerformance : Type 0 where
  pub average_ath : ℕ
  pub last_tokens : List DbToken
  pub count : ℕ

pub record Token : Type 0 where
  pub mint : Pubkey
  pub name : Text
  pub ticker : Text
  pub mcap : ℕ
  pub dev : Pubkey
  pub reserves : ℕ
  pub curve : Pubkey
  pub ath : ℕ
  pub twitter : Option CommunityInfo
  pub dev_performance : Option DevPerformance
  pub token_2022 : Bool
  pub metadata_ipfs : Option Text
  pub metadata : Option Metadata

abbrev pub fresh_market_cap : ℕ
fresh_market_cap = 3264

unfoldable pub fresh :
    Text
    → Text
    → Pubkey
    → Pubkey
    → Option CommunityInfo
    → Pubkey
    → Bool
    → Option Text
    → Option Metadata
    → Token
fresh name ticker dev curve twitter mint token_2022 metadata_ipfs metadata = record {
  mint = mint;
  name = name;
  ticker = ticker;
  mcap = fresh_market_cap;
  dev = dev;
  reserves = 1_073_000_000;
  curve = curve;
  ath = fresh_market_cap;
  twitter = twitter;
  dev_performance = none;
  token_2022 = token_2022;
  metadata_ipfs = metadata_ipfs;
  metadata = metadata;
}

-- `u128::saturating_mul`
unfoldable pub saturating_mul_u128 : ℕ → ℕ → ℕ
saturating_mul_u128 a b = min (a * b) (2 ^ 128 - 1)

-- The product is taken in `u128`, the quotient is cut to `u64`.
unfoldable pub usd_value : ℕ → ℕ → ℕ → ℕ
unfolding saturating_mul_u128
usd_value mcap reserves price = saturating_mul_u128 mcap (price * 1_000_000) / reserves % 2 ^ 64

-- The free function `usd_mcap`.
unfoldable pub usd_mcap : ℕ → ℕ → ℕ → Option ℕ
usd_mcap mcap reserves price =
    if nat_beq reserves 0 then none else some (usd_value mcap reserves price)

-- The method of the same name.
unfoldable pub token_usd_mcap : Token → ℕ → Option ℕ
unfolding usd_mcap
token_usd_mcap t price = usd_mcap t.mcap t.reserves price

abbrev raised : Token → Option ℕ → Option Token
raised t none = none
raised t (some mcap) = some (if ltb t.ath mcap then record t { ath = mcap } else t)

unfoldable pub update : Token → Trade → ℕ → Option Token
unfolding token_usd_mcap trade_mcap trade_reserves
update t event price =
    let t' = record t { reserves = trade_reserves event; mcap = trade_mcap event } in
    raised t' (token_usd_mcap t' price)

abbrev pub image_of : Option Metadata → Option Text
image_of none = none
image_of (some m) = m.image

abbrev pub description_of : Option Metadata → Option Text
description_of none = none
description_of (some m) = m.description

abbrev pub community_of : Option CommunityInfo → Option Text
community_of none = none
community_of (some c) = some c.id

unfoldable pub dbtoken : Solana → Token → Pubkey → DbToken
dbtoken sol t mint = record {
  mint = sol.to_string mint;
  dev_address = sol.to_string t.dev;
  ath = as_i64 t.ath;
  name = t.name;
  ticker = t.ticker;
  ipfs = t.metadata_ipfs;
  image = image_of t.metadata;
  description = description_of t.metadata;
  community_id = community_of t.twitter;
  pool_address = sol.to_string (pool_pda sol mint).0;
}
