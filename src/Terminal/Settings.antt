-- ===== src/Terminal/Settings.antt =====
-- `MyApp` of tokenir_ui/src/ui.rs: the settings, and what the user does in the main window. A lock that
-- another task holds is `locked`: the action goes on without it.
pub mod Actions
use tokenir.Prelude.{
  text_eq, Eq, ℕ, Bool, true, false, not, Option, none, some, List, [], ◌∷◌, ◌++◌, if◌then◌else◌,
  ◌↔◌, ◌≡◌, arith,
}
use tokenir.Prelude.Map.{get, insert}
use tokenir.Prelude.Text.{Text}
use tokenir.Prelude.Decimal.{show_u64, parse_u64}
use tokenir.Solana.{Solana, Pubkey}
use tokenir.Token.{CommunityInfo}
use tokenir.Terminal.{
  UiToken, UiPool, Tag, average_dev_market_cap, migration_percentage, token_count, Filters,
  average_dev_market_cap_in, token_count_in, migration_percentage_in, Range, FilterSet, Listed,
  twitter_name, wallet, add_listed, clear,
}
use tokenir.Terminal.Autobuy.{BuyAutomata, Params}
use tokenir.Terminal.Desktop.{TradeTerminal, axiom_trade, padre, url}

abbrev tag_beq : Tag → Tag → Bool
tag_beq average_dev_market_cap average_dev_market_cap = true
tag_beq migration_percentage migration_percentage = true
tag_beq token_count token_count = true
tag_beq average_dev_market_cap migration_percentage = false
tag_beq average_dev_market_cap token_count = false
tag_beq migration_percentage average_dev_market_cap = false
tag_beq migration_percentage token_count = false
tag_beq token_count average_dev_market_cap = false
tag_beq token_count migration_percentage = false

pub tag_beq_iff : (a b : Tag) → (tag_beq a b ≡ true) ↔ (a ≡ b)
tag_beq_iff a b = ground arith

instance abbrev pub tag_eq : Eq Tag
tag_eq = record { same = tag_beq; agree = tag_beq_iff }

-- The text fields of the ranges; those with `_buy` in their names are another such record.
pub record RangeTexts : Type 0 where
  pub mcap_min : Text
  pub mcap_max : Text
  pub token_count_min : Text
  pub token_count_max : Text
  pub migration_min : Text
  pub migration_max : Text

pub record MyApp : Type 0 where
  pub menu_open : Bool
  pub view_texts : RangeTexts
  pub buy_texts : RangeTexts
  pub filters : FilterSet
  pub filters_buy : FilterSet
  pub bribe_input : Text
  pub sol_input : Text
  pub slip_input : Text
  pub fee_input : Text
  pub cached_feed : List UiToken
  pub trade_terminal : TradeTerminal

-- What the window shares with the other tasks, and the addresses that it opened.
pub record Window : Type 0 where
  pub app : MyApp
  pub pool : UiPool
  pub automata : BuyAutomata
  pub blacklist : List Listed
  pub opened : List Text

-- The floats of the text fields: an amount in SOL as lamports and back, a percentage as an `f32` and
-- back.
pub record Amounts : Type 0 where
  pub lamports : Text → Option ℕ
  pub sol_text : ℕ → Text
  pub fraction : Text → Option ℕ
  pub percent_text : ℕ → Text

abbrev shown : Range → Text × Text
shown r = (show_u64 r.first, show_u64 r.past)

unfoldable pub range_to_strings : Option Filters → Text × Text
range_to_strings none = ([], [])
range_to_strings (some (average_dev_market_cap_in r)) = shown r
range_to_strings (some (token_count_in r)) = shown r
range_to_strings (some (migration_percentage_in r)) = shown r

abbrev migration_to_strings : Option Filters → Text × Text
migration_to_strings (some (migration_percentage_in r)) = shown r
migration_to_strings (some (average_dev_market_cap_in r)) = ([], [])
migration_to_strings (some (token_count_in r)) = ([], [])
migration_to_strings none = ([], [])

unfoldable pub range_texts : FilterSet → RangeTexts
range_texts fs =
    let mcap = range_to_strings (get average_dev_market_cap fs.filters) in
    let count = range_to_strings (get token_count fs.filters) in
    let migration = migration_to_strings (get migration_percentage fs.filters) in
    record {
      mcap_min = mcap.0;
      mcap_max = mcap.1;
      token_count_min = count.0;
      token_count_max = count.1;
      migration_min = migration.0;
      migration_max = migration.1;
    }

abbrev text_or_empty : (ℕ → Text) → Option ℕ → Text
text_or_empty f none = []
text_or_empty f (some n) = f n

abbrev param : (Params → ℕ) → Option Params → Option ℕ
param f none = none
param f (some p) = some (f p)

-- From the settings of the purchases, and the filters in the two files, which are shown.
unfoldable pub new : Amounts → Option Params → FilterSet → FilterSet → TradeTerminal → MyApp
new amounts config filters filters_buy trade_terminal = record {
  menu_open = false;
  view_texts = range_texts filters;
  buy_texts = range_texts filters_buy;
  filters = filters;
  filters_buy = filters_buy;
  bribe_input = text_or_empty amounts.sol_text (param (λ p. p.bribe) config);
  sol_input = text_or_empty amounts.sol_text (param (λ p. p.lamport_amount) config);
  slip_input = text_or_empty amounts.percent_text (param (λ p. p.slippage) config);
  fee_input = text_or_empty amounts.sol_text (param (λ p. p.priority_fee) config);
  cached_feed = [];
  trade_terminal = trade_terminal;
}

pub data Field : Type 0 where
  mcap_min_field mcap_max_field token_count_min_field token_count_max_field migration_min_field
        migration_max_field :
      Field

abbrev pub typed : Field → Text → RangeTexts → RangeTexts
typed mcap_min_field text t = record t { mcap_min = text }
typed mcap_max_field text t = record t { mcap_max = text }
typed token_count_min_field text t = record t { token_count_min = text }
typed token_count_max_field text t = record t { token_count_max = text }
typed migration_min_field text t = record t { migration_min = text }
typed migration_max_field text t = record t { migration_max = text }

abbrev number_or : ℕ → Option ℕ → ℕ
number_or d none = d
number_or d (some n) = n

abbrev range_of : Text → Text → ℕ → Range
range_of min_text max_text top = record {
  first = number_or 0 (parse_u64 min_text);
  past = number_or top (parse_u64 max_text);
}

abbrev mcap_entry : RangeTexts → Tag × Filters
mcap_entry t =
    (average_dev_market_cap, average_dev_market_cap_in (range_of t.mcap_min t.mcap_max 100_000))

abbrev token_count_entry : RangeTexts → Tag × Filters
token_count_entry t =
    (token_count, token_count_in (range_of t.token_count_min t.token_count_max 100_000))

abbrev migration_entry : RangeTexts → Tag × Filters
migration_entry t =
    (migration_percentage, migration_percentage_in (range_of t.migration_min t.migration_max 100))

abbrev pub entry_of : Field → RangeTexts → Tag × Filters
entry_of mcap_min_field t = mcap_entry t
entry_of mcap_max_field t = mcap_entry t
entry_of token_count_min_field t = token_count_entry t
entry_of token_count_max_field t = token_count_entry t
entry_of migration_min_field t = migration_entry t
entry_of migration_max_field t = migration_entry t

unfoldable pub add_filter : Tag → Filters → FilterSet → FilterSet
add_filter tag f fs = record { filters = insert tag f fs.filters }
