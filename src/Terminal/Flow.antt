-- ===== src/Terminal/Flow.antt =====
-- What the client does with each token: `run_subscription`, `handle_perf`, `handle_migrated` and
-- `is_whitelisted` of tokenir_ui/src/main.rs.
--
-- `bought` and `opened` record the calls of `BuyAutomata::buy` and of the browser. A token whose
-- history is still being fetched by its own task is `loading`; the task adds it to the feed. A
-- browser's own thread reads the login as it is when the token comes. A panic in `buy` ends the task
-- of the subscription.
pub mod Guards
use tokenir.Prelude.{
  ℕ, suc, Bool, true, false, ◌&&◌, ◌||◌, not, Option, none, some, List, [], ◌∷◌, ◌++◌,
  if◌then◌else◌,
}
use tokenir.Prelude.Text.{Text}
use tokenir.Solana.{Pubkey}
use tokenir.Token.{CommunityInfo, DevPerformance}
use tokenir.Terminal.{
  UiToken, UiPool, CreatorHistory, Listed, twitter_name, wallet, present, add_token, matches,
  FilterSet, Floats,
}
use tokenir.Terminal.Autobuy.{BuyAutomata, Params, Outcome, sent, failed, panicked}

pub record Client : Type 0 where
  pub pool : UiPool
  pub loading : List UiToken
  pub total : ℕ
  pub blacklist : List Listed
  pub whitelist : List Listed
  pub automata : BuyAutomata
  pub logged_in : Bool
  pub bought : List UiToken
  pub opened : List Pubkey

abbrev name_listed : Option Text → List Listed → Bool
name_listed none list = false
name_listed (some screen_name) list = present (twitter_name screen_name) list

abbrev creator_listed : Option CommunityInfo → List Listed → Bool
creator_listed none list = false
creator_listed (some c) list = name_listed c.creator.screen_name list

unfoldable pub is_whitelisted : List Listed → UiToken → Bool
is_whitelisted list token = present (wallet token.dev) list || creator_listed token.twitter list

abbrev id_listed : Option CommunityInfo → List Listed → Bool
id_listed none list = false
id_listed (some c) list = present (twitter_name c.creator.id) list

abbrev buys : UiToken → Client → Client
buys token c = record c { bought = c.bought ++ token ∷ [] }

abbrev opens : UiToken → Client → Client
opens token c = if c.logged_in then record c { opened = c.opened ++ token.curve ∷ [] } else c

abbrev loads : UiToken → Client → Client
loads token c = record c { loading = c.loading ++ token ∷ [] }

-- How `BuyAutomata::buy` ends, with what the RPC server answers it: `Autobuy.buy`.
abbrev pub Purchase : Type 0
Purchase = BuyAutomata → UiToken → Outcome

abbrev pub is_panic : Outcome → Bool
is_panic (sent instructions) = false
is_panic (failed e) = false
is_panic panicked = true

-- With whether it panicked. A panic comes before the counting and the browser.
unfoldable pub handle_perf : Floats → Purchase → UiToken → ℕ → Client → Client × Bool
handle_perf fl purchase token avg_ath c =
    if not (matches fl c.pool.filters token (some avg_ath))
    then (c, false)
    else if id_listed token.twitter c.blacklist
    then (c, false)
    else (let c1 = loads token c in
        if matches fl c1.automata.params.filters token (some avg_ath) && c1.automata.active_twitter
        then (let c2 = buys token c1 in
            if is_panic (purchase c2.automata token)
            then (c2, true)
            else (opens token (record c2 { total = suc c2.total }), false))
        else (opens token (record c1 { total = suc c1.total }), false))

unfoldable pub handle_migrated : UiToken → Client → Client
handle_migrated token c = record c { pool = add_token token c.pool }

abbrev pub with_history : Option CreatorHistory → UiToken → UiToken
with_history none token = token
with_history (some h) token = record token { migrated = some h }

abbrev normal_flow : Floats → Purchase → UiToken → Option DevPerformance → Client → Client × Bool
normal_flow fl purchase token none c = (handle_migrated token c, false)
normal_flow fl purchase token (some perf) c = handle_perf fl purchase token perf.average_ath c

abbrev flow : Floats → Purchase → UiToken → Client → Client × Bool
flow fl purchase token c =
    if c.automata.active_whitelist && is_whitelisted c.whitelist token
    then (buys token (loads token (opens token c)), is_panic (purchase c.automata token))
    else normal_flow fl purchase token token.dev_performance c

-- The callback of `subscribe`: the token, the server's word on autobuy, the developer's history if it
-- came, and the purchase if there is one. With whether it panicked.
unfoldable pub receive :
    Floats → UiToken → Bool → Option CreatorHistory → Purchase → Client → Client × Bool
unfolding handle_perf handle_migrated
receive fl token autobuy history purchase c =
    let c1 = record c { automata = record c.automata { enabled = autobuy } } in
    if not c1.logged_in then (c1, false) else flow fl purchase (with_history history token) c1

-- A token with the server's word, the history that came, and its purchase.
abbrev pub Message : Type 0
Message = UiToken × Bool × Option CreatorHistory × Purchase

-- The tokens of one subscription: its task ends with the first panic.
unfoldable pub receive_all : Floats → List Message → Client → Client
receive_all fl [] c = c
receive_all fl ((token, autobuy, history, purchase) ∷ ms) c =
    let (c', panics) = receive fl token autobuy history purchase c in
    let rest = receive_all fl ms c' in if panics then c' else rest

abbrev load_first : List UiToken → Client → Client
load_first [] c = c
load_first (t ∷ ts) c = record c { loading = ts; pool = add_token t c.pool }

-- The task of the oldest token ends. `load_history` changes nothing in the token.
unfoldable pub loaded : Client → Client
loaded c = load_first c.loading c
