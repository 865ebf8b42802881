-- ===== src/Terminal/Startup.antt =====
-- The start and the end of the client: `main` of tokenir_ui/src/main.rs, with what it loads.
--
-- SOLANA_RPC, a wallet and a network are there; a file is its text, `none` if it cannot be read. JSON is
-- a parameter, and so is what is in a file after writing to it: `write` may fail.
pub mod Restart
use tokenir.Prelude.{ℕ, Option, none, some, List, []}
use tokenir.Prelude.Text.{Text}
use tokenir.Solana.{Solana, Pubkey}
use tokenir.Terminal.{Listed, FilterSet, UiPool}
use tokenir.Terminal.Autobuy.{Params, BuyAutomata, with_config}
use tokenir.Terminal.Files.{
  load_whitelist, whitelist_text, load_blacklist, load_filters, load_params,
}
use tokenir.Terminal.Flow.{Client}
use tokenir.Terminal.Settings.{Amounts, MyApp}
use tokenir.Terminal.Settings
use tokenir.Terminal.Desktop.{TradeTerminal, axiom_trade}
use tokenir.Terminal.Desktop.Session
use tokenir.Terminal.Desktop.Session.{Session}

-- What JSON and the disk do.
pub record Storage : Type 0 where
  pub read_blacklist : Text → Option (List Listed)
  pub blacklist_text : List Listed → Text
  pub read_params : Text → Option Params
  pub params_text : Params → Text
  pub read_filters : Text → Option FilterSet
  pub filters_text : FilterSet → Text
  pub read_terminal : Text → Option TradeTerminal
  pub write : Option Text → Text → Option Text

-- `key` is the key that was read from key.json.
pub record Disk : Type 0 where
  pub blacklist : Option Text
  pub whitelist : Option Text
  pub config : Option Text
  pub view_filters : Option Text
  pub buy_view_filters : Option Text
  pub terminal : Option Text
  pub key : Option Text

-- `price` is in dollars for a SOL. `config` is what the launcher shows, `app` the window if there is one.
pub record Started : Type 0 where
  pub client : Client
  pub session : Session
  pub trade_terminal : TradeTerminal
  pub price : ℕ
  pub config : Params
  pub app : Option MyApp

-- `Pool::new`, with the filters that it loads.
abbrev pub empty_pool : FilterSet → UiPool
empty_pool filters = record { feed = []; feed_check = []; filters = filters }

abbrev pub unless_panic :
    (TradeTerminal → Started × Disk) → Option TradeTerminal → Option (Started × Disk)
unless_panic go none = none
unless_panic go (some trade_terminal) = some (go trade_terminal)

module _ (storage : Storage) where
  -- `AutoBuyConfig::to_file`
  unfoldable pub save_config : Params → Disk → Disk
  save_config params d = record d { config = storage.write d.config (storage.params_text params) }

  -- `AutoBuyConfig::load`: what was loaded is written back.
  unfoldable pub load_config : Disk → Params × Disk
  unfolding save_config load_params
  load_config d =
      let params = load_params storage.read_params d.config in (params, save_config params d)

  abbrev pub open_blacklist : Disk → (List Listed) × Disk
  open_blacklist d =
      let list = load_blacklist storage.read_blacklist d.blacklist in
      (list, record d { blacklist = storage.write d.blacklist (storage.blacklist_text list) })

  -- Only a whitelist that is not there is written.
  abbrev pub whitelist_file : Option Text → Option Text
  whitelist_file none = storage.write none []
  whitelist_file (some text) = some text

  abbrev pub open_view : Disk → FilterSet × Disk
  open_view d =
      let filters = load_filters storage.read_filters d.view_filters in
      (
        filters,
        record d { view_filters = storage.write d.view_filters (storage.filters_text filters) },
      )

  abbrev pub open_buy_view : Disk → FilterSet × Disk
  open_buy_view d =
      let filters = load_filters storage.read_filters d.buy_view_filters in
      (
        filters,
        record d {
          buy_view_filters = storage.write d.buy_view_filters (storage.filters_text filters);
        },
      )

  -- `TradeTerminal::load_from_file` with the default of `main`; `none` is the panic on a text that is
  -- not a terminal.
  unfoldable pub load_terminal : Option Text → Option TradeTerminal
  load_terminal none = some axiom_trade
  load_terminal (some text) = storage.read_terminal text

  -- The window is made at once where there is a key.
  abbrev open_app : Amounts → TradeTerminal → Params → Option Text → Disk → (Option MyApp) × Disk
  open_app amounts trade_terminal config none d = (none, d)
  open_app amounts trade_terminal config (some key) d =
      let (filters, d1) = open_view d in
      let (filters_buy, d2) = open_buy_view d1 in
      (some (Settings.new amounts (some config) filters filters_buy trade_terminal), d2)

  -- From the second loading of the settings on.
  unfoldable pub launch :
      Amounts
      → UiPool
      → List Listed
      → List Listed
      → BuyAutomata
      → Disk
      → TradeTerminal
      → Started × Disk
  unfolding load_config
  launch amounts pool blacklist whitelist automata d trade_terminal =
      let (config, d1) = load_config d in
      let (app, d2) = open_app amounts trade_terminal config d1.key d1 in
      let session = Session.start d2.key in
      (
        record {
          client = record {
            pool = pool;
            loading = [];
            total = 0;
            blacklist = blacklist;
            whitelist = whitelist;
            automata = automata;
            logged_in = session.launcher.is_logged_in;
            bought = [];
            opened = [];
          };
          session = session;
          trade_terminal = trade_terminal;
          price = 180;
          config = config;
          app = app;
        },
        d2,
      )

  -- Everything is loaded before the terminal is, whose loading may panic.
  unfoldable pub start : Solana → Amounts → Pubkey → Disk → Option (Started × Disk)
  unfolding load_config load_terminal launch load_whitelist
  start sol amounts wallet d =
      let (blacklist, d1) = open_blacklist d in
      let whitelist = load_whitelist sol d1.whitelist in
      let d2 = record d1 { whitelist = whitelist_file d1.whitelist } in
      let (params, d3) = load_config d2 in
      let (filters, d4) = open_view d3 in
      unless_panic
        (launch amounts (empty_pool filters) blacklist whitelist (with_config wallet params) d4)
        (load_terminal d4.terminal)

  -- `drop` of `MyApp`
  unfoldable pub drop : MyApp → Disk → Disk
  drop app d = record d {
    view_filters = storage.write d.view_filters (storage.filters_text app.filters);
    buy_view_filters = storage.write d.buy_view_filters (storage.filters_text app.filters_buy);
  }

  abbrev drop_app : Option MyApp → Disk → Disk
  drop_app none d = d
  drop_app (some app) d = drop app d

  -- The window was closed, which drops it if there is one. `s` is what is there then.
  unfoldable pub finish : Started → Disk → Disk
  unfolding save_config drop
  finish s d = save_config s.client.automata.params (drop_app s.app d)
