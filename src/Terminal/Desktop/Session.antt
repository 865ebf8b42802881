-- ===== src/Terminal/Desktop/Session.antt =====
-- Which subscription runs: the launcher of tokenir_ui/src/ui.rs sends keys, and the task of
-- tokenir_ui/src/main.rs that waits for them sees the last one only, when it comes to look.
pub mod Synced
pub mod Current
use tokenir.Prelude.{ℕ, Option, none, some, List, [], ◌∷◌, ◌++◌, length, ltb, if◌then◌else◌}
use tokenir.Prelude.Text.{Text, codes}
use tokenir.Terminal.Desktop.{Launcher, Input, new, update, Subscriptions, on_key}

-- `seen` counts the keys that were there when the task looked last.
pub record Session : Type 0 where
  pub launcher : Launcher
  pub seen : ℕ
  pub subscriptions : Subscriptions

abbrev pub last? : List Text → Option Text
last? [] = none
last? (k ∷ []) = some k
last? (k ∷ l ∷ ks) = last? (l ∷ ks)

abbrev pub on_last : Text → Option Text → Subscriptions → Subscriptions
on_last base none s = s
on_last base (some key) s = on_key base key s

-- `changed` waits while nothing was sent since the last look.
unfoldable pub look : Text → Session → Session
look base d =
    if ltb d.seen (length d.launcher.sent)
    then record d {
      seen = length d.launcher.sent;
      subscriptions = on_last base (last? d.launcher.sent) d.subscriptions;
    }
    else d

pub data Happening : Type 0 where
  does : Input → Happening
  looks : Happening

unfoldable pub happen : Text → Happening → Session → Session
unfolding look
happen base (does i) d = record d { launcher = update i d.launcher }
happen base looks d = look base d

unfoldable pub run : Text → List Happening → Session → Session
run base [] d = d
run base (h ∷ hs) d = run base hs (happen base h d)

unfoldable pub start : Option Text → Session
start key_file = record {
  launcher = new key_file;
  seen = 0;
  subscriptions = record { aborted = 0; current = none };
}

abbrev pub address : Text → Text → Text
address base key = base ++ (codes "?key=" ++ key)

abbrev pub address_of : Text → Option Text → Option Text
address_of base none = none
address_of base (some key) = some (address base key)
