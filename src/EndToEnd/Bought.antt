-- ===== src/EndToEnd/Bought.antt =====
-- From the tokens that the server broadcasts (tokenir/src/main.rs) to those that the client buys
-- (tokenir_ui/src/main.rs).
use tokenir.Prelude.{
  ℕ, suc, ◌≡◌, refl, ap, ◌∙◌, Bool, ◌&&◌, ◌||◌, Option, none, some, List, [], ◌∷◌, ◌++◌, map,
  append_assoc, append-nil, sym, if◌then◌else◌, arith,
}
use tokenir.Prelude.Text.{Text}
use tokenir.Token.{DevPerformance}
use tokenir.Terminal.{UiToken, CreatorHistory, Floats, add_token}
use tokenir.Terminal.Connection
use tokenir.Terminal.Connection.{Calls}
use tokenir.Terminal.Autobuy.{BuyAutomata}
use tokenir.Terminal.Flow.{
  Client, Purchase, is_panic, with_history, handle_perf, handle_migrated, receive, Message,
  receive_all,
}
use tokenir.Terminal.Flow.Guards.{by_whitelist, by_filters, receive_bought, receive-panics}
use tokenir.EndToEnd.{Json, IsJson, Visit, attempt, told_all, subscribe-told}

-- What a client decides by.
record SameSettings (c d : Client) : Type 0 where
  login : d.logged_in ≡ c.logged_in
  listed : d.whitelist ≡ c.whitelist
  banned : d.blacklist ≡ c.blacklist
  view : d.pool.filters ≡ c.pool.filters
  wanted : d.automata.params ≡ c.automata.params
  by_list : d.automata.active_whitelist ≡ c.automata.active_whitelist
  by_twitter : d.automata.active_twitter ≡ c.automata.active_twitter
  told :
      (b : Bool)
      → Path BuyAutomata (record d.automata { enabled = b }) (record c.automata { enabled = b })

-- A token that comes changes no setting.
receive-SameSettings :
    (fl : Floats) (token : UiToken) (autobuy : Bool) (history : Option CreatorHistory)
    (purchase : Purchase) (c : Client)
    → SameSettings c (receive fl token autobuy history purchase c).0
unfolding receive handle_perf handle_migrated add_token
receive-SameSettings fl token autobuy history purchase c = record {
  login = ground arith;
  listed = ground arith;
  banned = ground arith;
  view = ground arith;
  wanted = ground arith;
  by_list = ground arith;
  by_twitter = ground arith;
  told = λ b. ground arith;
}

abbrev pub buys : Floats → UiToken → Client → Bool
buys fl t c = c.logged_in && (by_whitelist t c || by_filters fl t t.dev_performance c)

buys_alike :
    (fl : Floats) (t : UiToken) (p : Option DevPerformance) (c d : Client)
    → SameSettings c d
    → (d.logged_in && (by_whitelist t d || by_filters fl t p d))
      ≡ (c.logged_in && (by_whitelist t c || by_filters fl t p c))
buys_alike fl t none c d h = rw (h.login, h.by_list, h.listed) refl
buys_alike fl t (some perf) c d h =
    rw (h.login, h.by_list, h.listed, h.view, h.wanted, h.by_twitter, h.banned) refl

-- The messages that a client buys, with the history that came: up to the first whose purchase panics,
-- that one included.
abbrev pub picked : Floats → Client → List Message → List UiToken
picked fl c [] = []
picked fl c ((token, autobuy, history, purchase) ∷ ms) =
    let t = with_history history token in
    let rest = picked fl c ms in
    let panics = is_panic (purchase (record c.automata { enabled = autobuy }) t) in
    if buys fl t c then (if panics then t ∷ [] else t ∷ rest) else rest

picked_alike :
    (fl : Floats) (c d : Client) (ms : List Message)
    → SameSettings c d
    → picked fl d ms ≡ picked fl c ms
picked_alike fl c d [] h = refl
picked_alike fl c d ((token, autobuy, history, purchase) ∷ ms) h =
    let t = with_history history token in
    rw (buys_alike fl t t.dev_performance c d h, picked_alike fl c d ms h, h.told autobuy) refl

-- A client buys what its settings pick.
pub receive_all-picked :
    (fl : Floats) (ms : List Message) (c : Client)
    → (receive_all fl ms c).bought ≡ c.bought ++ picked fl c ms
unfolding receive_all
receive_all-picked fl [] c = sym (append-nil c.bought)
receive_all-picked fl ((token, autobuy, history, purchase) ∷ ms) c =
    let t = with_history history token in
    let d = (receive fl token autobuy history purchase c).0 in
    let later : (receive_all fl ms d).bought ≡ d.bought ++ picked fl c ms =
      receive_all-picked fl ms d
      ∙ ap (λ ts. d.bought ++ ts)
          (picked_alike fl c d ms (receive-SameSettings fl token autobuy history purchase c)) in
    ground (
      arith,
      later,
      receive_bought fl token autobuy history purchase c,
      receive-panics fl token autobuy history purchase c,
      append_assoc c.bought (t ∷ []) (picked fl c ms),
    )

-- Each call of the callback with what the services answer at it: the history if there is one, and the
-- purchase.
abbrev pub with_answers : (ℕ → Option CreatorHistory × Purchase) → Calls → List Message
with_answers answers [] = []
with_answers answers ((t, b) ∷ calls) =
    (t, b, (answers 0).0, (answers 0).1) ∷ with_answers (λ n. answers (suc n)) calls

-- Where the client reads the JSON of the server back, the first message of each connection is sent, and
-- of what is sent on each connection the first texts arrive: while the user changes no setting, a
-- subscription buys exactly those of the arriving tokens that the client's settings pick, each once
-- for each time that it arrives and in their order, with the histories that came; it buys nothing
-- else. A purchase that panics is the last one: it ends the task of the subscription.
pub bought-picked :
    (j : Json) (key : Text)
    → IsJson j
    → (fl : Floats) (visits : List Visit) (answers : ℕ → Option CreatorHistory × Purchase)
      (c : Client)
    → (receive_all fl
        (with_answers answers
          (Connection.subscribe j.as_message j.as_token (map (attempt j key) visits)))
        c).bought
      ≡ c.bought ++ picked fl c (with_answers answers (told_all j key visits))
bought-picked j key h fl visits answers c =
    ap (λ calls. (receive_all fl (with_answers answers calls) c).bought)
      (subscribe-told j key h visits)
    ∙ receive_all-picked fl (with_answers answers (told_all j key visits)) c
