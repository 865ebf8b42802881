-- ===== src/Terminal/Startup/Restart.antt =====
-- What a client that was closed starts with again (tokenir_ui/src/main.rs, autobuy.rs).
use tokenir.Prelude.{◌≡◌, refl, ap, ◌∙◌, false, Option, none, some, List, [], ◌∷◌, arith}
use tokenir.Prelude.Text.{Text}
use tokenir.Solana.{Solana, Pubkey}
use tokenir.Token.{DevPerformance}
use tokenir.Terminal.{UiToken, UiPool, Listed, FilterSet, Floats}
use tokenir.Terminal.Autobuy.{BuyAutomata, Params, with_config}
use tokenir.Terminal.Files.{load_params, load_filters}
use tokenir.Terminal.Flow.{Client, Message, with_history, receive_all}
use tokenir.Terminal.Flow.Guards.{by_filters}
use tokenir.Terminal.Settings.{Amounts, MyApp}
use tokenir.Terminal.Settings
use tokenir.Terminal.Startup.{
  Storage, Disk, Started, empty_pool, drop, unless_panic, open_blacklist, whitelist_file, open_view,
  save_config, load_config, load_terminal, launch, start, finish,
}
use tokenir.Terminal.Desktop.{TradeTerminal}
use tokenir.EndToEnd.Bought.{buys, picked, receive_all-picked}

-- Writing the files works, and JSON reads back the settings and the filters that were written.
pub record Keeps (storage : Storage) (p : Params) (app : MyApp) : Type 0 where
  pub writes : (f : Option Text) (text : Text) → storage.write f text ≡ some text
  pub reads : storage.read_params (storage.params_text p) ≡ some p
  pub reads_view : storage.read_filters (storage.filters_text app.filters) ≡ some app.filters
  pub reads_buy : storage.read_filters (storage.filters_text app.filters_buy) ≡ some app.filters_buy

-- Neither the whitelist nor the filters buy.
pub record IsIdle (c : Client) : Type 0 where
  pub by_list : c.automata.active_whitelist ≡ false
  pub by_twitter : c.automata.active_twitter ≡ false

by_filters-idle :
    (fl : Floats) (t : UiToken) (p : Option DevPerformance) (c : Client)
    → c.automata.active_twitter ≡ false
    → by_filters fl t p c ≡ false
by_filters-idle fl t none c h = refl
by_filters-idle fl t (some perf) c h = ground arith

pub buys-idle : (fl : Floats) (t : UiToken) (c : Client) → IsIdle c → buys fl t c ≡ false
buys-idle fl t c h =
    let e = by_filters-idle fl t t.dev_performance c h.by_twitter in
    let w = h.by_list in ground (arith, e, w)

picked-idle : (fl : Floats) (c : Client) (ms : List Message) → IsIdle c → picked fl c ms ≡ []
picked-idle fl c [] h = refl
picked-idle fl c ((token, autobuy, history, purchase) ∷ ms) h =
    rw (buys-idle fl (with_history history token) c h) (picked-idle fl c ms h)

receive_all-idle :
    (fl : Floats) (ms : List Message) (c : Client)
    → IsIdle c
    → c.bought ≡ []
    → (receive_all fl ms c).bought ≡ []
receive_all-idle fl ms c h e = receive_all-picked fl ms c ∙ rw (picked-idle fl c ms h, e) refl

module _ (storage : Storage) (p : Params) (app : MyApp) (keeps : Keeps storage p app) where
  params_back :
      (f : Option Text)
      → load_params storage.read_params (storage.write f (storage.params_text p)) ≡ p
  unfolding load_params
  params_back f = rw (keeps.writes f (storage.params_text p), keeps.reads) refl

  -- The file holds these filters.
  abbrev Holds : FilterSet → Option Text → Type 0
  Holds filters f = load_filters storage.read_filters f ≡ filters

  filters_back :
      (f : Option Text) (filters : FilterSet)
      → storage.read_filters (storage.filters_text filters) ≡ some filters
      → Holds filters (storage.write f (storage.filters_text filters))
  unfolding load_filters
  filters_back f filters h = rw (keeps.writes f (storage.filters_text filters), h) refl

  -- From files that hold the settings and the filters of the window, and a key.
  launch-app :
      (amounts : Amounts) (pool : UiPool) (blacklist whitelist : List Listed)
      (automata : BuyAutomata) (d : Disk) (t : TradeTerminal) (key : Text)
      → d.key ≡ some key
      → load_params storage.read_params d.config ≡ p
      → Holds app.filters d.view_filters
      → Holds app.filters_buy d.buy_view_filters
      → (launch storage amounts pool blacklist whitelist automata d t).0.app
        ≡ some (Settings.new amounts (some p) app.filters app.filters_buy t)
  unfolding launch load_config save_config
  launch-app amounts pool blacklist whitelist automata d t key k c v b = rw (k, c, v, b) refl

  abbrev Restarted : Amounts → TradeTerminal → Started → Type 0
  Restarted amounts t x =
      (x.client.automata.params ≡ p)
      × (x.client.pool.filters ≡ app.filters)
      × (x.app ≡ some (Settings.new amounts (some p) app.filters app.filters_buy t))
      × (IsIdle x.client)
      × (x.client.bought ≡ [])

  start-Restarted :
      (sol : Solana) (amounts : Amounts) (wallet : Pubkey) (d : Disk) (t : TradeTerminal)
      (key : Text)
      → load_terminal storage d.terminal ≡ some t
      → d.key ≡ some key
      → load_params storage.read_params d.config ≡ p
      → Holds app.filters d.view_filters
      → Holds app.filters_buy d.buy_view_filters
      → (x : Started × Disk) × (start storage sol amounts wallet d ≡ some x)
        × (Restarted amounts t x.0)
  unfolding start load_config save_config launch with_config
  start-Restarted sol amounts wallet d t key h k c v b =
      let d1 : Disk = (open_blacklist storage d).1 in
      let d2 : Disk = record d1 { whitelist = whitelist_file storage d1.whitelist } in
      let d4 : Disk = (open_view storage (load_config storage d2).1).1 in
      let params = load_params storage.read_params d.config in
      let pool = empty_pool (load_filters storage.read_filters d.view_filters) in
      (
        launch storage amounts pool _ _ (with_config wallet params) d4 t,
        ap (unless_panic (launch storage amounts pool _ _ (with_config wallet params) d4)) h,
        (
          c,
          v,
          launch-app amounts pool [] [] (with_config wallet params) d4 t key k
              (rw c (params_back d.config))
              (rw v (filters_back d.view_filters app.filters keeps.reads_view)) b,
          record { by_list = refl; by_twitter = refl },
          refl,
        ),
      )

-- Where files can be written, JSON reads back what is written, a key is kept and the file of the
-- terminal, if it is there, reads as one: a client that is started again with what the last one left
-- when its window was closed starts. Its settings of the purchases and its filters of the view are
-- the last ones, its window shows these settings and the ranges of both kinds of filters that the
-- last window had, and it buys nothing, whatever tokens come, until the user acts.
pub restarted :
    (storage : Storage) (sol : Solana) (amounts : Amounts) (wallet : Pubkey) (s : Started)
    (d : Disk) (app : MyApp) (key : Text) (t : TradeTerminal)
    → let p = s.client.automata.params in
      Keeps storage p app
      → s.app ≡ some app
      → d.key ≡ some key
      → load_terminal storage d.terminal ≡ some t
      → (x : Started × Disk) × (start storage sol amounts wallet (finish storage s d) ≡ some x)
        × (x.0.client.automata.params ≡ p)
        × (x.0.client.pool.filters ≡ app.filters)
        × (x.0.app ≡ some (Settings.new amounts (some p) app.filters app.filters_buy t))
        × ((fl : Floats) (ms : List Message) → (receive_all fl ms x.0.client).bought ≡ [])
unfolding finish save_config drop
restarted storage sol amounts wallet s d app key t keeps shown k h =
    let p = s.client.automata.params in
    let closed : Disk = save_config storage p (drop storage app d) in
    let (x, starts, same) =
      start-Restarted storage p app keeps sol amounts wallet closed t key h k
        (params_back storage p app keeps d.config)
        (filters_back storage p app keeps d.view_filters app.filters keeps.reads_view)
        (filters_back storage p app keeps d.buy_view_filters app.filters_buy keeps.reads_buy) in
    (
      x,
      rw shown starts,
      same.0,
      same.1,
      same.2,
      λ fl ms. receive_all-idle fl ms x.0.client same.3 same.4,
    )
