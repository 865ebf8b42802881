-- ===== src/Terminal/Files.antt =====
-- The files of the client (tokenir_ui/src): whitelist.rs, blacklist.rs, filter.rs and autobuy.rs. A
-- file is its text, `none` if it cannot be read; JSON is a parameter. Each list is written back after
-- it is loaded.
use tokenir.Prelude.{text_eq, false, Option, none, some, List, [], ◌∷◌, ◌++◌, map}
use tokenir.Prelude.Text.{Text, trim}
use tokenir.Solana.{Solana, Pubkey}
use tokenir.Puppets.{lines}
use tokenir.Terminal.{Listed, twitter_name, wallet, add_listed, FilterSet}
use tokenir.Terminal.Autobuy.{Params}

module _ (sol : Solana) where
  abbrev listed_of : Text → Option Pubkey → Listed
  listed_of line none = twitter_name line
  listed_of line (some key) = wallet key

  -- An empty line is passed over.
  abbrev with_line : Text → List Listed → List Listed
  with_line [] list = list
  with_line (c ∷ line) list = add_listed (listed_of (c ∷ line) (sol.parse (c ∷ line))) list

  unfoldable pub with_lines : List Text → List Listed → List Listed
  with_lines [] list = list
  with_lines (line ∷ rest) list = with_lines rest (with_line (trim line) list)

  -- whitelist.rs
  unfoldable pub load_whitelist : Option Text → List Listed
  load_whitelist none = []
  load_whitelist (some text) = with_lines (lines text) []

  abbrev line_of : Listed → Text
  line_of (wallet key) = sol.to_string key
  line_of (twitter_name name) = name

  abbrev join : List Text → Text
  join [] = []
  join (line ∷ []) = line
  join (line ∷ (next ∷ rest)) = line ++ (10 ∷ join (next ∷ rest))

  -- In the order in which the set is walked.
  unfoldable pub whitelist_text : List Listed → Text
  whitelist_text list = join (map line_of list)

abbrev or_else : {A : Type 0} → A → Option A → A
or_else d none = d
or_else d (some a) = a

-- blacklist.rs: a file that does not parse counts as empty.
unfoldable pub load_blacklist : (Text → Option (List Listed)) → Option Text → List Listed
load_blacklist parse none = []
load_blacklist parse (some text) = or_else [] (parse text)

abbrev no_filters : FilterSet
no_filters = record { filters = [] }

-- filter.rs
unfoldable pub load_filters : (Text → Option FilterSet) → Option Text → FilterSet
load_filters parse none = no_filters
load_filters parse (some text) = or_else no_filters (parse text)

-- autobuy.rs: the settings where the file does not parse, and where there is none. The slippages are
-- the bits of 0.03 and 0.5.
abbrev unparsed_params : Params
unparsed_params = record {
  lamport_amount = 0;
  priority_fee = 0;
  slippage = 0x3cf5c28f;
  bribe = 100_000;
  filters = no_filters;
  use_leader_send = false;
}

abbrev default_params : Params
default_params = record {
  lamport_amount = 100;
  priority_fee = 0;
  slippage = 0x3f000000;
  bribe = 100_000;
  filters = no_filters;
  use_leader_send = false;
}

unfoldable pub load_params : (Text → Option Params) → Option Text → Params
load_params parse none = default_params
load_params parse (some text) = or_else unparsed_params (parse text)
