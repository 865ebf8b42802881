-- ===== src/Terminal/Desktop/Session/Synced.antt =====
-- The subscription of tokenir_ui/src/main.rs follows the keys that the launcher sends.
use tokenir.Prelude.{
  ℕ, zero, suc, ◌≡◌, ◌≢◌, refl, sym, ap, ◌∙◌, ◌≤◌, ◌<◌, Option, none, some, List, [], ◌∷◌, ◌++◌,
  append-nil, length, length-append, take, ltb, inl, inr, Bool-cases, arith,
}
use tokenir.Prelude.Text.{Text, trim}
use tokenir.Terminal.Desktop.{
  AppState, login, running, Launcher, Input, edits, enters, logs_out, Saving, unserialized,
  uncreated, unwritten, saved, new, update, in_state, enter, save_key, Subscriptions, on_key,
}
use tokenir.Terminal.Desktop.Login.{IsKey, AreKeys, IsConsistent, update-IsConsistent}
use tokenir.Terminal.Desktop.Session.{
  Session, last?, on_last, look, Happening, does, looks, happen, run, start, address, address_of,
}

pub record IsSynced (base : Text) (d : Session) : Type 0 where
  pub consistent : IsConsistent d.launcher
  pub before : d.seen ≤ length d.launcher.sent
  pub follows : d.subscriptions.current ≡ address_of base (last? (take d.seen d.launcher.sent))

take-append_le : (n : ℕ) (xs ys : List Text) → n ≤ length xs → take n (xs ++ ys) ≡ take n xs
take-append_le zero xs ys h = refl
take-append_le (suc n) [] ys h = absurd (omega arith)
take-append_le (suc n) (x ∷ xs) ys h = ap (◌∷◌ x) (take-append_le n xs ys (omega arith))

take_self : (xs : List Text) → take (length xs) xs ≡ xs
take_self [] = refl
take_self (x ∷ xs) = ap (◌∷◌ x) (take_self xs)

-- A key is sent behind the others, or none is.
abbrev Extends : List Text → List Text → Type 0
Extends ks ms = (more : List Text) × (ms ≡ ks ++ more)

nothing : (ks : List Text) → Extends ks ks
nothing ks = ([], sym (append-nil ks))

save_key-Extends :
    (input_key key_val : Text) (saving : Saving) (l : Launcher)
    → Extends l.sent (save_key input_key key_val saving l).sent
save_key-Extends input_key key_val unserialized l = nothing l.sent
save_key-Extends input_key key_val uncreated l = nothing l.sent
save_key-Extends input_key key_val unwritten l = nothing l.sent
save_key-Extends input_key key_val saved l = (key_val ∷ [], refl)

enter-Extends :
    (input_key key_val : Text) (saving : Saving) (l : Launcher)
    → Extends l.sent (enter input_key key_val saving l).sent
enter-Extends input_key [] saving l = nothing l.sent
enter-Extends input_key (c ∷ k) saving l = save_key-Extends input_key (c ∷ k) saving l

in_state-Extends : (s : AppState) (i : Input) (l : Launcher) → Extends l.sent (in_state s i l).sent
in_state-Extends (login key error) (edits text) l = nothing l.sent
in_state-Extends (login key error) (enters saving) l = enter-Extends key (trim key) saving l
in_state-Extends (login key error) logs_out l = nothing l.sent
in_state-Extends running (edits text) l = nothing l.sent
in_state-Extends running (enters saving) l = nothing l.sent
in_state-Extends running logs_out l = nothing l.sent

update-Extends : (i : Input) (l : Launcher) → Extends l.sent (update i l).sent
unfolding update
update-Extends i l = in_state-Extends l.state i l

on_key-address :
    (base key : Text) (s : Subscriptions)
    → key ≢ []
    → (on_key base key s).current ≡ some (address base key)
unfolding on_key
on_key-address base [] s h = absurd (h refl)
on_key-address base (c ∷ key) s h = refl

on_last-address :
    (base : Text) (ks : List Text) (s : Subscriptions)
    → AreKeys ks
    → 0 < length ks
    → (on_last base (last? ks) s).current ≡ address_of base (last? ks)
on_last-address base [] s h p = absurd (omega arith)
on_last-address base (k ∷ []) s h p = on_key-address base k s h.0.0
on_last-address base (k ∷ l ∷ ks) s h p = on_last-address base (l ∷ ks) s h.1 (omega arith)

does-IsSynced :
    (base : Text) (i : Input) (d : Session)
    → IsSynced base d
    → IsSynced base (happen base (does i) d)
unfolding happen
does-IsSynced base i d h =
    let (more, e) = update-Extends i d.launcher in
    record {
      consistent = update-IsConsistent i d.launcher h.consistent;
      before = rw e (omega (arith, h.before, length-append d.launcher.sent more));
      follows =
          h.follows
          ∙ rw e (
              ap (λ ks. address_of base (last? ks))
                (sym (take-append_le d.seen d.launcher.sent more h.before)));
    }

-- After a look the running subscription is that of the last key.
pub look-current :
    (base : Text) (d : Session)
    → IsSynced base d
    → (look base d).subscriptions.current ≡ address_of base (last? d.launcher.sent)
unfolding look
look-current base d h = elim (Bool-cases (ltb d.seen (length d.launcher.sent))) [
  | inl e ↦
      rw e (on_last-address base d.launcher.sent d.subscriptions h.consistent.keys (ground arith))
  | inr e ↦
      let same : d.seen ≡ length d.launcher.sent = ground (arith, h.before) in
      rw e (
        h.follows
        ∙ ap (λ ks. address_of base (last? ks))
            (ap (λ n. take n d.launcher.sent) same ∙ take_self d.launcher.sent))
]

pub look-IsSynced : (base : Text) (d : Session) → IsSynced base d → IsSynced base (look base d)
unfolding look
look-IsSynced base d h = elim (Bool-cases (ltb d.seen (length d.launcher.sent))) [
  | inl e ↦ rw e (record {
    consistent = h.consistent;
    before = omega arith;
    follows =
        on_last-address base d.launcher.sent d.subscriptions h.consistent.keys (ground arith)
        ∙ ap (λ ks. address_of base (last? ks)) (sym (take_self d.launcher.sent));
  })
  | inr e ↦ rw e h
]

pub run-IsSynced :
    (base : Text) (hs : List Happening) (d : Session)
    → IsSynced base d
    → IsSynced base (run base hs d)
unfolding run happen
run-IsSynced base [] d h = h
run-IsSynced base (does i ∷ hs) d h = run-IsSynced base hs _ (does-IsSynced base i d h)
run-IsSynced base (looks ∷ hs) d h = run-IsSynced base hs _ (look-IsSynced base d h)

-- What key.json may hold at the start: nothing, or a key.
abbrev pub IsKeyFile : Option Text → Type 0
IsKeyFile none = Unit
IsKeyFile (some key) = IsKey key

pub start-IsSynced :
    (base : Text) (key_file : Option Text) → IsKeyFile key_file → IsSynced base (start key_file)
unfolding start new
start-IsSynced base none h = record {
  consistent = record { flag = refl; keys = tt };
  before = omega arith;
  follows = refl;
}
start-IsSynced base (some key) h = record {
  consistent = record { flag = refl; keys = (h, tt) };
  before = omega arith;
  follows = refl;
}
