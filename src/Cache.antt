-- ===== src/Cache.antt =====
-- `TokenCache` and `CommunityCache` of tokenir/src/main.rs.
pub mod Duplicates
use tokenir.Prelude.{
  text_eq, pair_eq, ℕ, Bool, true, false, ◌||◌, Option, none, some, List, [], if◌then◌else◌,
}
use tokenir.Prelude.Map.{Map, insert, contains_key}
use tokenir.Prelude.Text.{Text}

abbrev pub Set : Type 0 → Type 0
Set K = Map K (Unit {0})

pub record TokenCache : Type 0 where
  pub images : Set Text
  pub ipfs : Set Text
  pub descriptions : Set Text
  pub names : Set Text
  pub tickers : Set Text
  pub name_ticker_pairs : Set (Text × Text)
  pub desc_name_pairs : Set (Text × Text)
  pub desc_ticker_pairs : Set (Text × Text)

abbrev pub empty_cache : TokenCache
empty_cache = record {
  images = [];
  ipfs = [];
  descriptions = [];
  names = [];
  tickers = [];
  name_ticker_pairs = [];
  desc_name_pairs = [];
  desc_ticker_pairs = [];
}

-- `if let Some(x) = … { if set.contains_key(x) … }`, and the same for two options.
abbrev pub has : Option Text → Set Text → Bool
has none m = false
has (some k) m = contains_key k m

abbrev pub has_pair : Option Text → Option Text → Set (Text × Text) → Bool
has_pair none b m = false
has_pair (some a) none m = false
has_pair (some a) (some b) m = contains_key (a, b) m

unfoldable pub check_duplicate :
    TokenCache → Option Text → Option Text → Option Text → Option Text → Option Text → Bool
check_duplicate c image ipfs description name ticker =
    if has image c.images
    then true
    else if has ipfs c.ipfs
    then true
    else if has_pair description name c.desc_name_pairs
    then true
    else if has_pair description ticker c.desc_ticker_pairs
    then true
    else if has_pair name ticker c.name_ticker_pairs
    then true
    else has name c.names

-- `if let Some(x) = … { set.insert(x) }`, and the same for two options.
abbrev pub put : Option Text → Set Text → Set Text
put none m = m
put (some k) m = insert k tt m

abbrev pub put_pair : Option Text → Option Text → Set (Text × Text) → Set (Text × Text)
put_pair none b m = m
put_pair (some a) none m = m
put_pair (some a) (some b) m = insert (a, b) tt m

unfoldable pub insert_token :
    TokenCache → Option Text → Option Text → Option Text → Option Text → Option Text → TokenCache
insert_token c image ipfs description name ticker = record {
  images = put image c.images;
  ipfs = put ipfs c.ipfs;
  descriptions = put description c.descriptions;
  names = put name c.names;
  tickers = put ticker c.tickers;
  name_ticker_pairs = put_pair name ticker c.name_ticker_pairs;
  desc_name_pairs = put_pair description name c.desc_name_pairs;
  desc_ticker_pairs = put_pair description ticker c.desc_ticker_pairs;
}

-- `CommunityCache` is its one field.
abbrev pub CommunityCache : Type 0
CommunityCache = Set Text

unfoldable pub has_community : CommunityCache → Text → Bool
has_community c community_id = contains_key community_id c

unfoldable pub insert_community : CommunityCache → Text → CommunityCache
insert_community c community_id = insert community_id tt c
