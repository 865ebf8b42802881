-- ===== src/Examples/Feeds.antt =====
-- Runs of the subscriptions, the connections and the saved keypairs.
use mathlib.Core.List.{Mem}
use tokenir.Prelude.{
  text_eq, nat_eq, ℕ, ◌+◌, ◌-◌, ◌≡◌, refl, true, all, Option, none, some, List, [], ◌∷◌, ◌++◌, map,
  replicate, arith,
}
use tokenir.Prelude.Int.{pos, as_i64}
use tokenir.Prelude.Map.{get, insert, contains_key}
use tokenir.Prelude.Text.{Text, codes, trim}
use tokenir.Addresses.{pool_pda}
use tokenir.Cache.{empty_cache}
use tokenir.Terminal.{UiToken}
use tokenir.Database.Clean.{clean}
use tokenir.Database.{statement, transaction, ◌>>=◌}
use tokenir.Database.Tokens.{add_token, add_dev, insert_token, find_token}
use tokenir.Events.{BuyEvent, TradeEvent, buy}
use tokenir.Fetcher.Pump.{Tasks, pump, amm, subscribe_to_pump}
use tokenir.Server.Feeds.Both.{handles}
use tokenir.Fetcher.{Floats, trade_event, parse_optimized}
use tokenir.Fetcher.Logs.{trade_log, IsLog, discriminator, body, event_of, parse_optimized-Log}
use tokenir.Fetcher.Stream.{
  refused, served, ping, words, close, calls, pongs, data_prefix, seconds, subscribe_to_websocket,
}
use tokenir.Fetcher.Delivery.{subscribe-Mem}
use tokenir.Token.{Token, fresh, dbtoken, usd_mcap, usd_value}
use tokenir.Server.{Shared, Web}
use tokenir.Server.Feeds.{on_event}
use tokenir.Server.Feeds.Bought.{RaisedTo, bought-RaisedTo}
use tokenir.Puppets as Puppets
use tokenir.Puppets.{Keys, PuppetMaster}
use tokenir.Puppets.RoundTrip.{IsBase58, is_inline, decode-encode}
use tokenir.History as History
use tokenir.History.{Codec, Step, asks, receives, breaks, times_out, run, reply}
use tokenir.History.Reply.{answered}
use tokenir.Terminal.Connection as Connection
use tokenir.Terminal.Connection.{connection_info, new_token, labelled, heard, subscribe-labelled}
use tokenir.Examples.{sol, store}

abbrev key : List ℕ
key = replicate 32 5

-- The sum stands for a quotient.
abbrev floats : Floats
floats = record {
  of_u64 = λ n. n;
  plus = λ a b. a + b;
  minus = λ a b. a - b;
  times = λ a b. a + b;
  over = λ a b. a + b;
  nano = 0;
  to_u64 = λ a. a;
  to_i64 = pos;
}

abbrev trade : TradeEvent
trade = record {
  mint = key;
  sol_amount = 10;
  token_amount = 20;
  is_buy = true;
  user = key;
  timestamp = pos 3;
  virtual_sol_reserves = 600;
  virtual_token_reserves = 3;
}

trade-IsLog : (extra : List ℕ) → IsLog (trade_log trade) extra
unfolding IsLog
trade-IsLog extra = (refl, omega arith, omega arith, refl, omega arith, omega arith, omega arith)

-- The text of a log is its bytes.
abbrev bytes : List ℕ
bytes = discriminator (trade_log trade) ++ (body (trade_log trade) ++ (7 ∷ []))

parse_optimized-Log_example :
    parse_optimized sol floats some (pos 9) bytes
    ≡ some (event_of sol floats (pos 9) (trade_log trade))
parse_optimized-Log_example =
    parse_optimized-Log sol floats (pos 9) some bytes (trade_log trade) (7 ∷ [])
      (trade-IsLog (7 ∷ [])) refl

abbrev two_logs : Text → Option (List Text)
two_logs message = some (codes "Program log: Buy" ∷ (data_prefix ++ bytes) ∷ [])

subscribe-Mem_example : Mem (calls 5 (event_of sol floats (seconds 5) (trade_log trade))) (
    subscribe_to_websocket sol floats some two_logs
      (refused ∷ served ((4, ping []) ∷ (5, words []) ∷ (6, close) ∷ []) ∷ []))
subscribe-Mem_example =
    subscribe-Mem sol floats some two_logs (refused ∷ []) [] ((4, ping []) ∷ []) ((6, close) ∷ []) 5
      [] (codes "Program log: Buy" ∷ []) [] bytes (trade_log trade) (7 ∷ []) refl refl refl
      (trade-IsLog (7 ∷ []))

-- A byte stands for itself, moved past the ends of lines.
abbrev keys : Keys
keys = record {
  encode = map (λ b. b + 32);
  decode = λ t. some (map (λ c. c - 32) t);
  keypair_from_seed = some;
}

back : (bs : List ℕ) → map (λ c. c - 32) (map (λ b. b + 32) bs) ≡ bs
back [] = refl
back (b ∷ bs) = rw (back bs) (ground arith)

inline : (bs : List ℕ) → all is_inline (map (λ b. b + 32) bs) ≡ true
inline [] = refl
inline (b ∷ bs) = ground (arith, inline bs)

keys-IsBase58 : IsBase58 keys
keys-IsBase58 = record { decodes = λ bs. rw (back bs) refl; one_line = inline }

abbrev two_keys : PuppetMaster
two_keys = record { master = replicate 64 1; puppets = replicate 64 2 ∷ [] }

decode-encode_example :
    Puppets.decode keys (some (Puppets.encode keys two_keys)) ≡ Puppets.ok two_keys
decode-encode_example = decode-encode keys keys-IsBase58 two_keys refl (refl, tt)

abbrev token : Token
token = fresh (codes "Token") (codes "TKN") (codes "dev") key none key true none none

abbrev nowhere : Web
nowhere = record {
  fetch_metadata = λ url. none;
  get_community_by_id = λ id. none;
  percentile_cont = λ aths. pos 0;
}

abbrev shared : Shared
shared = record { store = store; token_cache = empty_cache; community_cache = [] }

abbrev saved : Shared
saved = record shared {
  store = (add_token sol 1 key (dbtoken sol token key) (codes "dev") store).1;
}

bought-RaisedTo_example :
    (t : Shared) × (on_event sol nowhere [] (λ n s. s) 5 150 (trade_event sol floats trade) saved
      ≡ some t)
    × (RaisedTo (as_i64 30_000_000_000) (find_token key t.store.tables.tokens))
unfolding add_token add_dev insert_token dbtoken fresh pool_pda clean transaction statement ◌>>=◌
    usd_mcap trim find_token contains_key insert usd_value
bought-RaisedTo_example =
    bought-RaisedTo sol nowhere [] (λ n s. s) floats 5 150 30_000_000_000 1 trade token
      (codes "dev") shared saved refl (λ h. cc) refl refl refl refl refl refl

abbrev buy_with : ℕ → BuyEvent
buy_with reserves = record {
  mint = key;
  sol_amount = 1;
  token_amount = 2;
  user = key;
  timestamp = pos 3;
  virtual_sol_reserves_before = 600;
  virtual_sol_reserves_after = 601;
  virtual_token_reserves = reserves;
}

-- The curve's subscription panics at its first event, and the pools' one goes on.
abbrev handled : Tasks Shared
handled =
    subscribe_to_pump (handles sol nowhere [] (λ n s. s) (λ now. 150)) true
      (calls 1 (buy (buy_with 0)) ∷ []) (calls 2 (buy (buy_with 3)) ∷ pongs [] ∷ [])
      (pump ∷ amm ∷ amm ∷ []) shared

-- A value is a number, and a message the list of its bytes.
abbrev codec : Codec ℕ
codec = record {
  encode = λ kind seq route id. some (kind ∷ seq ∷ []);
  decode = some;
  as_u64 = some;
  history = λ v. some (record { total_count = v; migrated_count = 1 });
}

answered_example :
    get 1
      (run codec
        (asks (codes "a") []
          ∷ asks (codes "b") []
          ∷ breaks
          ∷ receives (1 ∷ 1000 ∷ 0 ∷ 9 ∷ [])
          ∷ times_out 0
          ∷ receives (1 ∷ 1001 ∷ 0 ∷ 42 ∷ [])
          ∷ [])
        History.new).results
    ≡ some (some (record { total_count = 42; migrated_count = 1 }))
unfolding run reply History.step History.get_dev_history History.new
answered_example =
    answered codec (asks (codes "a") [] ∷ [])
      (breaks ∷ receives (1 ∷ 1000 ∷ 0 ∷ 9 ∷ []) ∷ times_out 0 ∷ []) (codes "b") []
      (1 ∷ 1001 ∷ 0 ∷ 42 ∷ []) 42 (record { total_count = 42; migrated_count = 1 }) refl
      (omega arith) refl refl

abbrev ui_token : UiToken
ui_token = record {
  mint = key;
  name = codes "Token";
  ticker = codes "TKN";
  mcap = 0;
  dev = key;
  reserves = 0;
  curve = key;
  ath = 0;
  twitter = none;
  dev_performance = none;
  migrated = none;
  token_2022 = true;
  metadata_ipfs = none;
  metadata = none;
}

-- The empty message is a token, any other allows to buy.
abbrev says : Text → Option Connection.ServerMessage
says [] = some (new_token ui_token)
says (c ∷ rest) = some (connection_info true rest)

abbrev no_token : Text → Option UiToken
no_token text = none

-- The token of the second connection comes under what the first one said.
subscribe-labelled_example :
    Connection.subscribe says no_token (
      Connection.connected (Connection.message (1 ∷ []) ∷ Connection.failed ∷ [])
      ∷ Connection.refused
      ∷ Connection.connected (Connection.message [] ∷ [])
      ∷ [])
    ≡ (ui_token, true) ∷ []
unfolding labelled
subscribe-labelled_example = subscribe-labelled says no_token (
    Connection.connected (Connection.message (1 ∷ []) ∷ Connection.failed ∷ [])
    ∷ Connection.refused
    ∷ Connection.connected (Connection.message [] ∷ [])
    ∷ [])
