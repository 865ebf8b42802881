-- ===== src/Terminal/Flow/Guards.antt =====
-- What has to hold for the client to spend money (tokenir_ui/src/main.rs).
use tokenir.Prelude.{
  ◌≡◌, Bool, false, ◌&&◌, ◌||◌, not, Option, none, some, [], ◌∷◌, ◌++◌, if◌then◌else◌, arith,
}
use tokenir.Token.{DevPerformance}
use tokenir.Terminal.{UiToken, CreatorHistory, matches, Floats}
use tokenir.Terminal.Flow.{
  Client, Purchase, is_panic, is_whitelisted, id_listed, with_history, handle_perf, handle_migrated,
  receive,
}

-- The reasons of a purchase.
abbrev pub by_whitelist : UiToken → Client → Bool
by_whitelist token c = c.automata.active_whitelist && is_whitelisted c.whitelist token

abbrev pub by_filters : Floats → UiToken → Option DevPerformance → Client → Bool
by_filters fl token none c = false
by_filters fl token (some perf) c =
    matches fl c.pool.filters token (some perf.average_ath)
    && (matches fl c.automata.params.filters token (some perf.average_ath)
        && (c.automata.active_twitter && not (id_listed token.twitter c.blacklist)))

-- A token that comes in is bought exactly where the client is logged in, and either the whitelist is
-- active and lists it, or it has a developer's performance, passes the filters of the view and of
-- the purchases, its creator is not on the blacklist and purchases are active. It is bought once,
-- with the developer's history that came, however the purchase ends.
pub receive_bought :
    (fl : Floats) (token : UiToken) (autobuy : Bool) (history : Option CreatorHistory)
    (purchase : Purchase) (c : Client)
    → let t = with_history history token in
      (receive fl token autobuy history purchase c).0.bought ≡ (
        if c.logged_in && (by_whitelist t c || by_filters fl t t.dev_performance c)
        then c.bought ++ t ∷ []
        else c.bought)
unfolding receive handle_perf handle_migrated
receive_bought fl token autobuy history purchase c =
    let t = with_history history token in ground arith

-- The callback panics exactly where it buys and the purchase panics.
pub receive-panics :
    (fl : Floats) (token : UiToken) (autobuy : Bool) (history : Option CreatorHistory)
    (purchase : Purchase) (c : Client)
    → let t = with_history history token in
      (receive fl token autobuy history purchase c).1 ≡ (
        c.logged_in
        && (by_whitelist t c || by_filters fl t t.dev_performance c)
        && is_panic (purchase (record c.automata { enabled = autobuy }) t))
unfolding receive handle_perf handle_migrated
receive-panics fl token autobuy history purchase c =
    let t = with_history history token in ground arith
