-- ===== src/Terminal/Settings/Actions.antt =====
-- `MyApp::update` of tokenir_ui/src/ui.rs: what the user does in the main window, one thing at a time.
use tokenir.Prelude.{
  text_eq, ℕ, ◌<◌, ◌^◌, ◌≡◌, Bool, true, false, ◌&&◌, not, Option, none, some, List, [], ◌∷◌, ◌++◌,
  if◌then◌else◌,
}
use tokenir.Prelude.Map.{get, get-insert}
use tokenir.Prelude.Text.{Text, codes}
use tokenir.Prelude.Decimal.{show_u64, parse_u64-show_u64}
use tokenir.Solana.{Solana, Pubkey}
use tokenir.Addresses.{bounding_curve}
use tokenir.Database.Tokens.{DbToken}
use tokenir.Token.{CommunityInfo}
use tokenir.Terminal.{
  UiToken, Tag, Filters, FilterSet, Listed, twitter_name, wallet, add_listed, clear,
  average_dev_market_cap, average_dev_market_cap_in,
}
use tokenir.Terminal.Desktop.{TradeTerminal, url}
use tokenir.Terminal.Settings.{
  tag_eq, Window, Amounts, Field, mcap_min_field, typed, entry_of, add_filter,
}

pub data Action : Type 0 where
  opens_menu : Action
  clears : Bool → Action
  picks_terminal : TradeTerminal → Action
  edits_view : Field → Text → Bool → Action
  edits_buy : Field → Text → Action
  checks_twitter checks_migrate checks_whitelist : Bool → Action
  edits_amount edits_fee edits_slippage edits_bribe : Text → Action
  refreshes : Action
  opens_token : UiToken → Action
  opens_developer opens_community : CommunityInfo → Action
  opens_last : DbToken → Action
  bans : UiToken → Bool → Action

abbrev or_default : ℕ → Option ℕ → ℕ
or_default d none = d
or_default d (some n) = n

abbrev with_entry : Tag × Filters → FilterSet → FilterSet
with_entry (tag, f) fs = add_filter tag f fs

abbrev ban_twitter : Option CommunityInfo → List Listed → List Listed
ban_twitter none list = list
ban_twitter (some c) list = add_listed (twitter_name c.creator.id) list

abbrev opens_address : Text → Window → Window
opens_address address w = record w { opened = w.opened ++ (address ∷ []) }

module _ (sol : Solana) (amounts : Amounts) where
  unfoldable pub open_token : Pubkey → Window → Window
  open_token curve w = opens_address (url sol w.app.trade_terminal curve) w

  abbrev open_parsed : Option Pubkey → Window → Window
  open_parsed none w = w
  open_parsed (some address) w = open_token (bounding_curve sol address).0 w

  -- The settings of the purchases are there only while autobuy is allowed.
  abbrev if_enabled : (Window → Window) → Window → Window
  if_enabled f w = if w.app.menu_open && w.automata.enabled then f w else w

  abbrev edit_view : Field → Text → Bool → Window → Window
  edit_view field text locked w =
      let texts = typed field text w.app.view_texts in
      let filters = with_entry (entry_of field texts) w.app.filters in
      let w' = record w { app = record w.app { view_texts = texts; filters = filters } } in
      if locked then w' else record w' { pool = record w.pool { filters = filters } }

  abbrev edit_buy : Field → Text → Window → Window
  edit_buy field text w =
      let texts = typed field text w.app.buy_texts in
      let filters = with_entry (entry_of field texts) w.app.filters_buy in
      record w {
        app = record w.app { buy_texts = texts; filters_buy = filters };
        automata = record w.automata { params = record w.automata.params { filters = filters } };
      }

  abbrev edit_amount : Text → Window → Window
  edit_amount text w = record w {
    app = record w.app { sol_input = text };
    automata = record w.automata {
      params = record w.automata.params { lamport_amount = or_default 0 (amounts.lamports text) };
    };
  }

  abbrev edit_fee : Text → Window → Window
  edit_fee text w = record w {
    app = record w.app { fee_input = text };
    automata = record w.automata {
      params = record w.automata.params { priority_fee = or_default 0 (amounts.lamports text) };
    };
  }

  abbrev edit_slippage : Text → Window → Window
  edit_slippage text w = record w {
    app = record w.app { slip_input = text };
    automata = record w.automata {
      params = record w.automata.params { slippage = or_default 0 (amounts.fraction text) };
    };
  }

  abbrev edit_bribe : Text → Window → Window
  edit_bribe text w = record w {
    app = record w.app { bribe_input = text };
    automata = record w.automata {
      params = record w.automata.params { bribe = or_default 1000 (amounts.lamports text) };
    };
  }

  unfoldable pub act : Action → Window → Window
  act opens_menu w = record w { app = record w.app { menu_open = not w.app.menu_open } }
  act (clears locked) w =
      let w' = record w { app = record w.app { cached_feed = [] } } in
      if locked then w' else record w' { pool = clear w.pool }
  act (picks_terminal terminal) w =
      if w.app.menu_open then record w { app = record w.app { trade_terminal = terminal } } else w
  act (edits_view field text locked) w =
      if w.app.menu_open then edit_view field text locked w else w
  act (edits_buy field text) w = if_enabled (edit_buy field text) w
  act (checks_twitter active) w =
      if_enabled (λ w. record w { automata = record w.automata { active_twitter = active } }) w
  act (checks_migrate active) w =
      if_enabled (λ w. record w { automata = record w.automata { active_migrate = active } }) w
  act (checks_whitelist active) w =
      if_enabled (λ w. record w { automata = record w.automata { active_whitelist = active } }) w
  act (edits_amount text) w = if_enabled (edit_amount text) w
  act (edits_fee text) w = if_enabled (edit_fee text) w
  act (edits_slippage text) w = if_enabled (edit_slippage text) w
  act (edits_bribe text) w = if_enabled (edit_bribe text) w
  act refreshes w = record w { app = record w.app { cached_feed = w.pool.feed } }
  act (opens_token token) w = open_token token.curve w
  act (opens_developer c) w =
      opens_address (codes "https://twitter.com/intent/user?user_id=" ++ c.creator.id) w
  act (opens_community c) w = opens_address (codes "https://x.com/i/communities/" ++ c.id) w
  act (opens_last token) w = open_parsed (sol.parse token.mint) w
  act (bans token locked) w = if locked then w else record w {
    blacklist = add_listed (wallet token.dev) (ban_twitter token.twitter w.blacklist);
  }

  unfoldable pub acts : List Action → Window → Window
  acts [] w = w
  acts (a ∷ rest) w = acts rest (act a w)

  -- In the open menu, a lower bound that is typed as a number is the bound of the feed's filter, with
  -- the upper bound that is shown, if the feed is not locked.
  pub edits_view-range :
      (low high : ℕ) (w : Window)
      → low < 2 ^ 64
      → high < 2 ^ 64
      → w.app.menu_open ≡ true
      → w.app.view_texts.mcap_max ≡ show_u64 high
      → get average_dev_market_cap
          (act (edits_view mcap_min_field (show_u64 low) false) w).pool.filters.filters
        ≡ some (average_dev_market_cap_in (record { first = low; past = high }))
  unfolding act add_filter
  edits_view-range low high w l h menu shown =
      rw (menu, shown, parse_u64-show_u64 low l, parse_u64-show_u64 high h)
        (get-insert average_dev_market_cap average_dev_market_cap
          (average_dev_market_cap_in (record { first = low; past = high })) w.app.filters.filters)
