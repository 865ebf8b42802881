-- ===== src/Terminal/Desktop.antt =====
-- The launcher of tokenir_ui/src/ui.rs, and the task of tokenir_ui/src/main.rs that takes its keys.
-- Windows are what the user does in them; a file is what it holds.
pub mod Login
pub mod Session
use tokenir.Prelude.{
  text_eq, ℕ, suc, Bool, true, false, Option, none, some, List, [], ◌∷◌, ◌++◌, if◌then◌else◌, ◌==◌,
}
use tokenir.Prelude.Text.{Text, codes, trim}
use tokenir.Solana.{Solana, Pubkey}

pub data AppState : Type 0 where
  login : Text → Option Text → AppState
  running : AppState

-- `sent` holds the keys given to the task, `key_file` the key in key.json, if it holds one.
pub record Launcher : Type 0 where
  pub state : AppState
  pub is_logged_in : Bool
  pub sent : List Text
  pub key_file : Option Text

-- The key that was read from key.json.
unfoldable pub new : Option Text → Launcher
new none = record { state = login [] none; is_logged_in = false; sent = []; key_file = none }
new (some key) = record {
  state = running;
  is_logged_in = true;
  sent = key ∷ [];
  key_file = some key;
}

-- How writing the key went. A file that was created is empty before it is written.
pub data Saving : Type 0 where
  unserialized uncreated unwritten saved : Saving

-- The user edits the key, presses the button or Enter, or logs out.
pub data Input : Type 0 where
  edits : Text → Input
  enters : Saving → Input
  logs_out : Input

abbrev fails : Text → Text → Launcher → Launcher
fails input_key words l = record l { state = login input_key (some words) }

abbrev pub save_key : Text → Text → Saving → Launcher → Launcher
save_key input_key key_val unserialized l = fails input_key (codes "Serialization error") l
save_key input_key key_val uncreated l = fails input_key (codes "Failed to create key.json") l
save_key input_key key_val unwritten l =
    fails input_key (codes "Failed to write to key.json") (record l { key_file = none })
save_key input_key key_val saved l = record l {
  state = running;
  is_logged_in = true;
  sent = l.sent ++ (key_val ∷ []);
  key_file = some key_val;
}

abbrev pub enter : Text → Text → Saving → Launcher → Launcher
enter input_key [] saving l = fails input_key (codes "Key cannot be empty") l
enter input_key (c ∷ key_val) saving l = save_key input_key (c ∷ key_val) saving l

abbrev on_login : Text → Option Text → Input → Launcher → Launcher
on_login input_key error_msg (edits text) l = record l { state = login text error_msg }
on_login input_key error_msg (enters saving) l = enter input_key (trim input_key) saving l
on_login input_key error_msg logs_out l = l

abbrev on_running : Input → Launcher → Launcher
on_running (edits text) l = l
on_running (enters saving) l = l
on_running logs_out l = record l { is_logged_in = false; state = login [] none }

abbrev pub in_state : AppState → Input → Launcher → Launcher
in_state (login input_key error_msg) input l = on_login input_key error_msg input l
in_state running input l = on_running input l

unfoldable pub update : Input → Launcher → Launcher
update input l = in_state l.state input l

-- The task aborts the subscription under the last key and starts one under the new, at this address.
pub record Subscriptions : Type 0 where
  pub aborted : ℕ
  pub current : Option Text

abbrev count_current : Option Text → ℕ → ℕ
count_current none n = n
count_current (some url) n = suc n

unfoldable pub on_key : Text → Text → Subscriptions → Subscriptions
on_key base [] s = s
on_key base (c ∷ key) s = record {
  aborted = count_current s.current s.aborted;
  current = some (base ++ (codes "?key=" ++ (c ∷ key)));
}

-- `TradeTerminal`
pub data TradeTerminal : Type 0 where
  axiom_trade padre : TradeTerminal

unfoldable pub url : Solana → TradeTerminal → Pubkey → Text
url sol axiom_trade curve = codes "https://axiom.trade/meme/" ++ sol.to_string curve
url sol padre curve = codes "https://trade.padre.gg/trade/solana/" ++ sol.to_string curve
