-- ===== src/Terminal/Desktop/Login.antt =====
-- When the launcher of tokenir_ui/src/ui.rs counts as logged in.
use tokenir.Prelude.{◌≡◌, ◌≢◌, refl, Bool, true, false, none, List, [], ◌∷◌, ◌++◌, arith}
use tokenir.Prelude.Text.{Text, trim, trim_idem}
use tokenir.Terminal.Desktop.{
  AppState, login, running, Launcher, Input, edits, enters, logs_out, Saving, unserialized,
  uncreated, unwritten, saved, new, update, in_state, enter, save_key,
}

abbrev pub is_running : AppState → Bool
is_running (login key error) = false
is_running running = true

abbrev pub IsKey : Text → Type 0
IsKey key = (key ≢ []) × (trim key ≡ key)

abbrev pub AreKeys : List Text → Type 0
AreKeys [] = Unit
AreKeys (k ∷ ks) = (IsKey k) × (AreKeys ks)

-- The flag says whether the application runs, and the keys sent are trimmed and not empty.
pub record IsConsistent (l : Launcher) : Type 0 where
  pub flag : l.is_logged_in ≡ is_running l.state
  pub keys : AreKeys l.sent

AreKeys-append : (ks : List Text) (k : Text) → AreKeys ks → IsKey k → AreKeys (ks ++ (k ∷ []))
AreKeys-append [] k h i = (i, tt)
AreKeys-append (j ∷ ks) k h i = (h.0, AreKeys-append ks k h.1 i)

saves_key :
    (input_key key_val : Text) (saving : Saving) (l : Launcher)
    → IsKey key_val
    → l.is_logged_in ≡ false
    → AreKeys l.sent
    → IsConsistent (save_key input_key key_val saving l)
saves_key input_key key_val unserialized l k f h = record { flag = f; keys = h }
saves_key input_key key_val uncreated l k f h = record { flag = f; keys = h }
saves_key input_key key_val unwritten l k f h = record { flag = f; keys = h }
saves_key input_key key_val saved l k f h = record {
  flag = refl;
  keys = AreKeys-append l.sent key_val h k;
}

enter-IsConsistent :
    (input_key key_val : Text) (saving : Saving) (l : Launcher)
    → trim key_val ≡ key_val
    → l.is_logged_in ≡ false
    → AreKeys l.sent
    → IsConsistent (enter input_key key_val saving l)
enter-IsConsistent input_key [] saving l t f h = record { flag = f; keys = h }
enter-IsConsistent input_key (c ∷ key_val) saving l t f h =
    saves_key input_key (c ∷ key_val) saving l ((λ e. absurd (ground arith)), t) f h

in_state-IsConsistent :
    (s : AppState) (input : Input) (l : Launcher)
    → l.state ≡ s
    → l.is_logged_in ≡ is_running s
    → AreKeys l.sent
    → IsConsistent (in_state s input l)
in_state-IsConsistent (login key error) (edits text) l e f h = record { flag = f; keys = h }
in_state-IsConsistent (login key error) (enters saving) l e f h =
    enter-IsConsistent key (trim key) saving l (trim_idem key) f h
in_state-IsConsistent (login key error) logs_out l e f h = record { flag = rw e f; keys = h }
in_state-IsConsistent running (edits text) l e f h = record { flag = rw e f; keys = h }
in_state-IsConsistent running (enters saving) l e f h = record { flag = rw e f; keys = h }
in_state-IsConsistent running logs_out l e f h = record { flag = refl; keys = h }

pub update-IsConsistent :
    (input : Input) (l : Launcher) → IsConsistent l → IsConsistent (update input l)
unfolding update
update-IsConsistent input l c = in_state-IsConsistent l.state input l refl c.flag c.keys

pub inputs : List Input → Launcher → Launcher
inputs [] l = l
inputs (i ∷ is) l = inputs is (update i l)

-- From a start without a key, or any consistent state, whatever the user does and however the files fail, the flag says whether
-- the application runs, and only trimmed keys that are not empty are sent.
pub inputs-IsConsistent :
    (is : List Input) (l : Launcher) → IsConsistent l → IsConsistent (inputs is l)
unfolding inputs
inputs-IsConsistent [] l c = c
inputs-IsConsistent (i ∷ is) l c = inputs-IsConsistent is (update i l) (update-IsConsistent i l c)

pub new-IsConsistent : IsConsistent (new none)
unfolding new
new-IsConsistent = record { flag = refl; keys = tt }
