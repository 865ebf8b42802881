-- ===== src/Terminal.antt =====
-- The state of the desktop client: token.rs, filter.rs, pool.rs, whitelist.rs, blacklist.rs and the
-- settings of autobuy.rs, in tokenir_ui/src.
--
-- Files are input and output: a list is what it holds in memory. The two products in `f32` are
-- parameters; an `f32` is its bits. `none` of a price in dollars stands for a panic.
pub mod Filter
pub mod Autobuy
pub mod Connection
pub mod Desktop
pub mod Settings
pub mod Files
pub mod ClientToken
pub mod Flow
pub mod Startup
pub mod Permission
use tokenir.Prelude.{
  text_eq, Eq, ℕ, Bool, true, false, ◌&&◌, ◌||◌, not, Option, none, some, List, [], ◌∷◌, ◌++◌, ltb,
  leb, nat_beq, if◌then◌else◌, ◌↔◌, ◌≡◌, ◌==◌, eq_iff, arith, any,
}
use tokenir.Prelude.Map.{Map, insert, remove}
use tokenir.Prelude.Text.{Text}
use tokenir.Solana.{Pubkey}
use tokenir.Token.{CommunityInfo, DevPerformance, Metadata}

-- `Migrated`, the counts of a developer's history.
pub record CreatorHistory : Type 0 where
  pub total_count : ℕ
  pub migrated_count : ℕ

-- `Token` of tokenir_ui/src/token.rs
pub record UiToken : Type 0 where
  pub mint : Pubkey
  pub name : Text
  pub ticker : Text
  pub mcap : ℕ
  pub dev : Pubkey
  pub reserves : ℕ
  pub curve : Pubkey
  pub ath : ℕ
  pub twitter : Option CommunityInfo
  pub dev_performance : Option DevPerformance
  pub migrated : Option CreatorHistory
  pub token_2022 : Bool
  pub metadata_ipfs : Option Text
  pub metadata : Option Metadata

pub record Floats : Type 0 where
  -- `(migrated_count as f32 / total_count as f32 * 100.0).floor() as u64`
  pub percentage : ℕ → ℕ → ℕ
  -- `(amount as f32 * slippage) as u64`
  pub scaled : ℕ → ℕ → ℕ

-- `Range<u64>`
pub record Range : Type 0 where
  pub first : ℕ
  pub past : ℕ

abbrev pub range_contains : Range → ℕ → Bool
range_contains r n = leb r.first n && ltb n r.past

pub data Tag : Type 0 where
  average_dev_market_cap migration_percentage token_count : Tag

pub data Filters : Type 0 where
  average_dev_market_cap_in token_count_in migration_percentage_in : Range → Filters

pub record FilterSet : Type 0 where
  pub filters : List (Tag × Filters)

abbrev percentage_of : Floats → CreatorHistory → ℕ
percentage_of fl h =
    if nat_beq h.total_count 0 then 0 else fl.percentage h.migrated_count h.total_count

abbrev count_in : Range → Option CreatorHistory → Bool
count_in range none = false
count_in range (some h) = range_contains range h.total_count

abbrev migration_in : Floats → Range → Option CreatorHistory → Bool
migration_in fl range none = range_contains range 0
migration_in fl range (some h) = range_contains range (percentage_of fl h)

unfoldable pub filter : Floats → Filters → UiToken → ℕ → Bool
filter fl (average_dev_market_cap_in range) token average_mcap = range_contains range average_mcap
filter fl (token_count_in range) token average_mcap = count_in range token.migrated
filter fl (migration_percentage_in range) token average_mcap = migration_in fl range token.migrated

-- What the loop of `matches` has found so far.
pub record Passes : Type 0 where
  pub mcap_pass : Option Bool
  pub migration_pass : Option Bool
  pub token_count_pass : Option Bool

abbrev or_zero : Option ℕ → ℕ
or_zero none = 0
or_zero (some n) = n

abbrev mcap_result : Floats → Range → UiToken → Option ℕ → Bool
mcap_result fl range token none = false
mcap_result fl range token (some n) = range_contains range n

-- An entry whose tag and filter disagree is skipped.
unfoldable pub pass : Floats → UiToken → Option ℕ → Tag × Filters → Passes → Passes
unfolding filter
pass fl token mcap (average_dev_market_cap, average_dev_market_cap_in range) p = record p {
  mcap_pass = some (mcap_result fl range token mcap);
}
pass fl token mcap (migration_percentage, migration_percentage_in range) p = record p {
  migration_pass = some (filter fl (migration_percentage_in range) token (or_zero mcap));
}
pass fl token mcap (token_count, token_count_in range) p = record p {
  token_count_pass = some (filter fl (token_count_in range) token (or_zero mcap));
}
pass fl token mcap (average_dev_market_cap, token_count_in range) p = p
pass fl token mcap (average_dev_market_cap, migration_percentage_in range) p = p
pass fl token mcap (migration_percentage, average_dev_market_cap_in range) p = p
pass fl token mcap (migration_percentage, token_count_in range) p = p
pass fl token mcap (token_count, average_dev_market_cap_in range) p = p
pass fl token mcap (token_count, migration_percentage_in range) p = p

unfoldable pub passes : Floats → UiToken → Option ℕ → List (Tag × Filters) → Passes → Passes
unfolding pass
passes fl token mcap [] p = p
passes fl token mcap (entry ∷ entries) p = passes fl token mcap entries (pass fl token mcap entry p)

abbrev or_false : Option Bool → Bool
or_false none = false
or_false (some b) = b

abbrev pub is_none : {A : Type 0} → Option A → Bool
is_none none = true
is_none (some a) = false

abbrev verdict : UiToken → Passes → Bool
verdict token p =
    or_false p.mcap_pass
    || ((or_false p.migration_pass && or_false p.token_count_pass) && is_none token.dev_performance)

abbrev pub nothing_found : Passes
nothing_found = record { mcap_pass = none; migration_pass = none; token_count_pass = none }

unfoldable pub matches : Floats → FilterSet → UiToken → Option ℕ → Bool
unfolding passes
matches fl fs token average_mcap =
    verdict token (passes fl token average_mcap fs.filters nothing_found)

-- whitelist.rs, blacklist.rs: `Allowable` and `Bannable` have the same constructors.
pub data Listed : Type 0 where
  twitter_name : Text → Listed
  wallet : Pubkey → Listed

abbrev listed_beq : Listed → Listed → Bool
listed_beq (twitter_name s) (twitter_name t) = s == t
listed_beq (twitter_name s) (wallet k) = false
listed_beq (wallet k) (twitter_name t) = false
listed_beq (wallet k) (wallet j) = k == j

unfoldable pub present : Listed → List Listed → Bool
present target = any (λ x. listed_beq x target)

unfoldable pub add_listed : Listed → List Listed → List Listed
unfolding present
add_listed target list = if present target list then list else list ++ target ∷ []

-- pool.rs
pub record UiPool : Type 0 where
  pub feed : List UiToken
  pub feed_check : List Pubkey
  pub filters : FilterSet

unfoldable pub add_token : UiToken → UiPool → UiPool
add_token token p = record p {
  feed = p.feed ++ token ∷ [];
  feed_check =
      if any (λ k. k == token.mint) p.feed_check
      then p.feed_check
      else p.feed_check ++ token.mint ∷ [];
}

unfoldable pub clear : UiPool → UiPool
clear p = record p { feed = []; feed_check = [] }
