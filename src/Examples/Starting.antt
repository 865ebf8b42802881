-- ===== src/Examples/Starting.antt =====
-- A run of the client that is closed and started again.
use tokenir.Prelude.{◌≡◌, refl, ℕ, true, false, Option, none, some, List, [], ◌∷◌}
use tokenir.Prelude.Text.{codes}
use tokenir.Prelude.Decimal.{show_u64, parse_u64, show_from, digits}
use tokenir.Terminal.{Floats}
use tokenir.Terminal.Autobuy.{Params}
use tokenir.Terminal.Flow.{Client, Message, receive_all}
use tokenir.Terminal.Settings.{Amounts, MyApp}
use tokenir.Terminal.Settings
use tokenir.Terminal.Settings.Actions.{opens_menu, checks_twitter, checks_whitelist}
use tokenir.Terminal.Permission.{Desk, Event, acts, comes, loads, run, run-denied}
use tokenir.Curve.{default_curve}
use tokenir.Terminal.Desktop.{axiom_trade, padre}
use tokenir.Terminal.Desktop.Session
use tokenir.Terminal.Startup.{Storage, Disk, Started, load_terminal, start, finish}
use tokenir.Terminal.Startup.Restart.{restarted}
use tokenir.Examples.Trading.{client, automata, token, floats, answered}
use tokenir.Examples.{sol}

abbrev with_amount : Option ℕ → Option Params
with_amount none = none
with_amount (some n) = some (record automata.params { lamport_amount = n })

-- Of the settings only the amount is written, and there are no filters.
abbrev storage : Storage
storage = record {
  read_blacklist = λ text. none;
  blacklist_text = λ list. [];
  read_params = λ text. with_amount (parse_u64 text);
  params_text = λ p. show_u64 p.lamport_amount;
  read_filters = λ text. some (record { filters = [] });
  filters_text = λ filters. codes "{}";
  read_terminal = λ text. some padre;
  write = λ file text. some text;
}

abbrev amounts : Amounts
amounts = record {
  lamports = parse_u64;
  sol_text = show_u64;
  fraction = parse_u64;
  percent_text = show_u64;
}

abbrev disk : Disk
disk = record {
  blacklist = none;
  whitelist = none;
  config = some (codes "spoiled");
  view_filters = none;
  buy_view_filters = none;
  terminal = some (codes "Padre");
  key = some (codes "key");
}

abbrev window : MyApp
window =
    Settings.new amounts (some automata.params) (record { filters = [] }) (record { filters = [] })
      padre

abbrev closed_client : Started
closed_client = record {
  client = client;
  session = Session.start (some (codes "key"));
  trade_terminal = axiom_trade;
  price = 180;
  config = automata.params;
  app = some window;
}

restarted_example :
    (x : Started × Disk) × (start storage sol amounts
        (codes "wallet")
        (finish storage closed_client disk)
      ≡ some x)
    × (x.0.client.automata.params ≡ automata.params)
    × (x.0.client.pool.filters ≡ window.filters)
    × (x.0.app
        ≡ some
            (Settings.new amounts (some automata.params) window.filters window.filters_buy padre))
    × ((fl : Floats) (ms : List Message) → (receive_all fl ms x.0.client).bought ≡ [])
unfolding parse_u64 show_u64 show_from digits load_terminal Settings.new
restarted_example =
    restarted storage sol amounts (codes "wallet") closed_client disk window (codes "key") padre
      (record { writes = λ f text. refl; reads = refl; reads_view = refl; reads_buy = refl }) refl
      refl refl

-- A client that is not told that it may buy: its user wants to all the same.
abbrev denied_client : Client
denied_client = record client {
  automata = record automata { active_twitter = false; active_whitelist = false; enabled = false };
}

abbrev events : List Event
events =
    acts opens_menu
    ∷ acts (checks_twitter true)
    ∷ acts (checks_whitelist true)
    ∷ comes token false none (answered default_curve)
    ∷ loads
    ∷ []

run-denied_example :
    let k : Desk = record { app = window; client = denied_client } in
    ((run sol amounts floats events k).client.automata ≡ denied_client.automata)
    × ((run sol amounts floats events k).client.bought ≡ denied_client.bought)
run-denied_example =
    run-denied sol amounts floats events (record { app = window; client = denied_client }) refl refl
      (record { by_list = refl; by_twitter = refl })
