-- ===== src/Terminal/Desktop/Session/Current.antt =====
-- Which subscription runs in the client: the launcher of tokenir_ui/src/ui.rs with the task of
-- tokenir_ui/src/main.rs.
use tokenir.Prelude.{
  ◌≡◌, refl, ap, ◌∙◌, true, false, Option, none, some, List, [], ◌∷◌, ◌++◌, length, ltb, inl, inr,
  Bool-cases, arith,
}
use tokenir.Prelude.Text.{Text, trim}
use tokenir.Terminal.Desktop.{
  AppState, login, running, Launcher, Input, edits, enters, logs_out, Saving, unserialized,
  uncreated, unwritten, saved, new, update, in_state, enter, save_key,
}
use tokenir.Terminal.Desktop.Login.{is_running}
use tokenir.Terminal.Desktop.Session.{
  Session, last?, look, Happening, does, looks, happen, run, start, address, address_of,
}
use tokenir.Terminal.Desktop.Session.Synced.{
  IsSynced, IsKeyFile, look-current, run-IsSynced, start-IsSynced,
}

-- A launcher that counts as logged in has the last key that it sent in its file.
abbrev KeepsKey : Launcher → Type 0
KeepsKey l =
    l.is_logged_in ≡ true → (key : Text) × (l.key_file ≡ some key) × (last? l.sent ≡ some key)

last?-append : (ks : List Text) (k : Text) → last? (ks ++ k ∷ []) ≡ some k
last?-append [] k = refl
last?-append (j ∷ []) k = refl
last?-append (j ∷ i ∷ ks) k = last?-append (i ∷ ks) k

save_key-KeepsKey :
    (input_key key_val : Text) (saving : Saving) (l : Launcher)
    → l.is_logged_in ≡ false
    → KeepsKey (save_key input_key key_val saving l)
save_key-KeepsKey input_key key_val unserialized l f = λ t. absurd (ground arith)
save_key-KeepsKey input_key key_val uncreated l f = λ t. absurd (ground arith)
save_key-KeepsKey input_key key_val unwritten l f = λ t. absurd (ground arith)
save_key-KeepsKey input_key key_val saved l f = λ t. (key_val, refl, last?-append l.sent key_val)

enter-KeepsKey :
    (input_key key_val : Text) (saving : Saving) (l : Launcher)
    → l.is_logged_in ≡ false
    → KeepsKey (enter input_key key_val saving l)
enter-KeepsKey input_key [] saving l f = λ t. absurd (ground arith)
enter-KeepsKey input_key (c ∷ k) saving l f = save_key-KeepsKey input_key (c ∷ k) saving l f

in_state-KeepsKey :
    (s : AppState) (i : Input) (l : Launcher)
    → l.is_logged_in ≡ is_running s
    → KeepsKey l
    → KeepsKey (in_state s i l)
in_state-KeepsKey (login key error) (edits text) l f h = h
in_state-KeepsKey (login key error) (enters saving) l f h = enter-KeepsKey key (trim key) saving l f
in_state-KeepsKey (login key error) logs_out l f h = h
in_state-KeepsKey running (edits text) l f h = h
in_state-KeepsKey running (enters saving) l f h = h
in_state-KeepsKey running logs_out l f h = λ t. absurd (ground arith)

happen-KeepsKey :
    (base : Text) (x : Happening) (d : Session)
    → IsSynced base d
    → KeepsKey d.launcher
    → KeepsKey (happen base x d).launcher
unfolding happen look update
happen-KeepsKey base (does i) d h k =
    in_state-KeepsKey d.launcher.state i d.launcher h.consistent.flag k
happen-KeepsKey base looks d h k = elim (Bool-cases (ltb d.seen (length d.launcher.sent))) [
  | inl e ↦ rw e k
  | inr e ↦ rw e k
]

run-KeepsKey :
    (base : Text) (hs : List Happening) (d : Session)
    → IsSynced base d
    → KeepsKey d.launcher
    → KeepsKey (run base hs d).launcher
unfolding run
run-KeepsKey base [] d h k = k
run-KeepsKey base (x ∷ hs) d h k =
    run-KeepsKey base hs _ (run-IsSynced base (x ∷ []) d h) (happen-KeepsKey base x d h k)

start-KeepsKey : (key_file : Option Text) → KeepsKey (start key_file).launcher
unfolding start new
start-KeepsKey none = λ t. absurd (ground arith)
start-KeepsKey (some key) = λ t. (key, refl, refl)

-- From a start whose key.json holds no key or a trimmed one that is not empty, whatever the user does,
-- however the files fail and however many keys the task misses: once the task has looked, the one
-- running subscription is that of the last key sent, or none runs and no key was sent; and while the
-- launcher counts as logged in, it is the subscription of the key in key.json.
pub run-current :
    (base : Text) (key_file : Option Text) (hs : List Happening)
    → IsKeyFile key_file
    → let d = look base (run base hs (start key_file)) in
      let l = (run base hs (start key_file)).launcher in
      (d.subscriptions.current ≡ address_of base (last? l.sent))
      × (l.is_logged_in ≡ true
          → (key : Text) × (l.key_file ≡ some key)
            × (d.subscriptions.current ≡ some (address base key)))
run-current base key_file hs h =
    let synced = run-IsSynced base hs (start key_file) (start-IsSynced base key_file h) in
    let now = look-current base (run base hs (start key_file)) synced in
    (
      now,
      λ t.
          let kept =
            run-KeepsKey base hs (start key_file) (start-IsSynced base key_file h)
              (start-KeepsKey key_file) t in
          (kept.0, kept.1, now ∙ ap (address_of base) kept.2),
    )
