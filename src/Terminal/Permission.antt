-- ===== src/Terminal/Permission.antt =====
-- What a client can do that the server never told that autobuy is allowed: the settings of its window
-- (tokenir_ui/src/ui.rs) and the tokens that come (tokenir_ui/src/main.rs), over one state.
use tokenir.Prelude.{
  text_eq, ◌≡◌, refl, sym, ◌∙◌, ap, Bool, true, false, Option, List, [], ◌∷◌, all, arith,
}
use tokenir.Solana.{Solana}
use tokenir.Terminal.{UiToken, CreatorHistory, Floats, add_token}
use tokenir.Terminal.Autobuy.{BuyAutomata}
use tokenir.Terminal.Flow.{
  Client, Purchase, with_history, handle_perf, handle_migrated, receive, loaded,
}
use tokenir.Terminal.Flow.Guards.{receive_bought}
use tokenir.Terminal.Settings.{Window, MyApp, Amounts}
use tokenir.Terminal.Settings.Actions.{Action, act, open_token}
use tokenir.Terminal.Startup.Restart.{IsIdle, buys-idle}

-- The window and the task of the subscription share the pool, the lists and the settings.
pub record Desk : Type 0 where
  pub app : MyApp
  pub client : Client

abbrev window_of : Desk → Window
window_of k = record {
  app = k.app;
  pool = k.client.pool;
  automata = k.client.automata;
  blacklist = k.client.blacklist;
  opened = [];
}

abbrev shown : Window → Desk → Desk
shown w k = record {
  app = w.app;
  client = record k.client { pool = w.pool; automata = w.automata; blacklist = w.blacklist };
}

-- The user acts or logs in or out, a token comes, or a history was loaded.
pub data Event : Type 0 where
  acts : Action → Event
  logs : Bool → Event
  comes : UiToken → Bool → Option CreatorHistory → Purchase → Event
  loads : Event

module _ (sol : Solana) (amounts : Amounts) (fl : Floats) where
  unfoldable pub happen : Event → Desk → Desk
  happen (acts a) k = shown (act sol amounts a (window_of k)) k
  happen (logs b) k = record k { client = record k.client { logged_in = b } }
  happen (comes token autobuy history purchase) k = record k {
    client = (receive fl token autobuy history purchase k.client).0;
  }
  happen loads k = record k { client = loaded k.client }

  unfoldable pub run : List Event → Desk → Desk
  run [] k = k
  run (e ∷ es) k = run es (happen e k)

-- The server does not say that autobuy is allowed.
abbrev pub is_denied : Event → Bool
is_denied (acts a) = true
is_denied (logs b) = true
is_denied (comes token true history purchase) = false
is_denied (comes token false history purchase) = true
is_denied loads = true

abbrev with_enabled : BuyAutomata → Bool → BuyAutomata
with_enabled a b = record a { enabled = b }

-- The settings of the purchases and what was bought are the same.
abbrev Same : Desk → Desk → Type 0
Same k l = (l.client.automata ≡ k.client.automata) × (l.client.bought ≡ k.client.bought)

module _ (sol : Solana) (amounts : Amounts) (fl : Floats) where
  act-denied :
      (a : Action) (w : Window)
      → w.automata.enabled ≡ false
      → (act sol amounts a w).automata ≡ w.automata
  unfolding act open_token
  act-denied a w h = ground arith

  receive-denied :
      (token : UiToken) (history : Option CreatorHistory) (purchase : Purchase) (c : Client)
      → (receive fl token false history purchase c).0.automata
        ≡ record c.automata { enabled = false }
  unfolding receive handle_perf handle_migrated
  receive-denied token history purchase c = ground arith

  comes-denied :
      (token : UiToken) (history : Option CreatorHistory) (purchase : Purchase) (k : Desk)
      → k.client.automata.enabled ≡ false
      → IsIdle k.client
      → Same k (record k { client = (receive fl token false history purchase k.client).0 })
  comes-denied token history purchase k h idle = (
    receive-denied token history purchase k.client ∙ ap (with_enabled k.client.automata) (sym h),
    receive_bought fl token false history purchase k.client
        ∙ ground (arith, buys-idle fl (with_history history token) k.client idle),
  )

  happen-denied :
      (e : Event) (k : Desk)
      → is_denied e ≡ true
      → k.client.automata.enabled ≡ false
      → IsIdle k.client
      → Same k (happen sol amounts fl e k)
  unfolding happen loaded add_token
  happen-denied (acts a) k d h idle = (act-denied a (window_of k) h, refl)
  happen-denied (logs b) k d h idle = (refl, refl)
  happen-denied (comes token true history purchase) k d h idle = ground arith
  happen-denied (comes token false history purchase) k d h idle =
      comes-denied token history purchase k h idle
  happen-denied loads k d h idle = (ground arith, ground arith)

  -- A client whose purchases are all switched off and that is not told that autobuy is allowed, whatever
  -- the user does in the window, whenever the user logs in or out, and whatever tokens come: no
  -- setting of its purchases changes, and it buys nothing.
  pub run-denied :
      (es : List Event) (k : Desk)
      → all is_denied es ≡ true
      → k.client.automata.enabled ≡ false
      → IsIdle k.client
      → ((run sol amounts fl es k).client.automata ≡ k.client.automata)
        × ((run sol amounts fl es k).client.bought ≡ k.client.bought)
  unfolding run
  run-denied [] k d h idle = (refl, refl)
  run-denied (e ∷ es) k d h idle =
      let same = happen-denied e k (ground arith) h idle in
      let later =
        run-denied es (happen sol amounts fl e k) (ground arith)
          (ap (λ (a : BuyAutomata). a.enabled) same.0 ∙ h)
          (record {
            by_list = ap (λ (a : BuyAutomata). a.active_whitelist) same.0 ∙ idle.by_list;
            by_twitter = ap (λ (a : BuyAutomata). a.active_twitter) same.0 ∙ idle.by_twitter;
          }) in
      (later.0 ∙ same.0, later.1 ∙ same.1)
