-- ===== src/Server/Sessions/Single.antt =====
-- One live session for each spelling of a key (tokenir/src/main.rs).
use tokenir.Prelude.{
  text_eq, nat_eq, ℕ, suc, ◌+◌, ◌^◌, ◌<◌, ◌≤◌, ◌≡◌, Bool, false, Option, none, some, List, [], ◌∷◌,
  ◌==◌, nat_beq, eq_iff, if◌then◌else◌, arith, length,
}
use tokenir.Prelude.Map.{Map, get, get-insert, get-remove}
use tokenir.Prelude.Text.{Text}
use tokenir.Server.Sessions.{
  Sessions, ws_handler, cleanup, socket_closed, upgrade_failed, step, run, Occurrence, connects,
  closes, fails, removes,
}

abbrev is_own : Option ℕ → ℕ → Bool
is_own none id = false
is_own (some current) id = nat_beq current id

-- The entry of a key after a clean-up.
pub get-cleanup :
    (key j : Text) (id : ℕ) (m : Map Text ℕ)
    → get j (cleanup key id m)
      ≡ (if key == j then (if is_own (get key m) id then none else get j m) else get j m)
unfolding cleanup
get-cleanup key j id m = ground (arith, get-remove key j m)

-- Every live session holds the entry of its key, and every number is below the next.
pub record IsSingle (s : Sessions) : Type 0 where
  pub held :
      (id : ℕ) (key : Text) → get id s.live ≡ some key → get key s.active_connections ≡ some id
  pub below :
      (key : Text) (id : ℕ) → get key s.active_connections ≡ some id → id < s.next_session_id

connects-held :
    (key : Text) (s : Sessions)
    → suc s.next_session_id < 2 ^ 64
    → IsSingle s
    → (id : ℕ) (j : Text) → get id ((ws_handler key s).1).live ≡ some j
    → get j ((ws_handler key s).1).active_connections ≡ some id
unfolding ws_handler
connects-held key s room v id j h = ground (
  arith,
  v.held id j,
  v.below j id,
  eq_iff key j,
  eq_iff s.next_session_id id,
  get-insert key j s.next_session_id s.active_connections,
  get-insert s.next_session_id id key s.live,
)

connects-below :
    (key : Text) (s : Sessions)
    → suc s.next_session_id < 2 ^ 64
    → IsSingle s
    → (j : Text) (id : ℕ) → get j ((ws_handler key s).1).active_connections ≡ some id
    → id < ((ws_handler key s).1).next_session_id
unfolding ws_handler
connects-below key s room v j id h =
    ground
      (arith, v.below j id, eq_iff key j, get-insert key j s.next_session_id s.active_connections)

closes-held :
    (key : Text) (i : ℕ) (s : Sessions)
    → get i s.live ≡ some key
    → IsSingle s
    → (id : ℕ) (j : Text) → get id (socket_closed key i s).live ≡ some j
    → get j (socket_closed key i s).active_connections ≡ some id
unfolding socket_closed
closes-held key i s own v id j h = ground (
  arith,
  v.held id j,
  v.held i key,
  eq_iff key j,
  eq_iff i id,
  get-cleanup key j i s.active_connections,
  get-remove i id s.live,
)

closes-below :
    (key : Text) (i : ℕ) (s : Sessions)
    → IsSingle s
    → (j : Text) (id : ℕ) → get j (socket_closed key i s).active_connections ≡ some id
    → id < (socket_closed key i s).next_session_id
unfolding socket_closed
closes-below key i s v j id h =
    ground (arith, v.below j id, eq_iff key j, get-cleanup key j i s.active_connections)

fails-held :
    (i : ℕ) (s : Sessions)
    → IsSingle s
    → (id : ℕ) (j : Text) → get id (upgrade_failed i s).live ≡ some j
    → get j (upgrade_failed i s).active_connections ≡ some id
unfolding upgrade_failed
fails-held i s v id j h = ground (arith, v.held id j, eq_iff i id, get-remove i id s.live)

pub connects-next :
    (key : Text) (s : Sessions)
    → suc s.next_session_id < 2 ^ 64
    → (ws_handler key s).1.next_session_id ≤ suc s.next_session_id
unfolding ws_handler
connects-next key s room = ground arith

-- A socket closes under the key it was opened with, and no user is removed.
abbrev Occurs : Occurrence → Sessions → Type 0
Occurs (connects key) s = Unit
Occurs (closes key id) s = get id s.live ≡ some key
Occurs (fails id) s = Unit
Occurs (removes admin_key user_id) s = ⊥

unfoldable pub Possible : List Occurrence → Sessions → Type 0
Possible [] s = Unit
Possible (o ∷ os) s = Occurs o s × Possible os (step o s)

fails-below :
    (i : ℕ) (s : Sessions)
    → IsSingle s
    → (key : Text) (id : ℕ) → get key (upgrade_failed i s).active_connections ≡ some id
    → id < (upgrade_failed i s).next_session_id
unfolding upgrade_failed
fails-below i s v = v.below

step-IsSingle :
    (o : Occurrence) (s : Sessions)
    → Occurs o s
    → suc s.next_session_id < 2 ^ 64
    → IsSingle s
    → IsSingle (step o s)
unfolding step
step-IsSingle (connects key) s h room v = record {
  held = connects-held key s room v;
  below = connects-below key s room v;
}
step-IsSingle (closes key id) s h room v = record {
  held = closes-held key id s h v;
  below = closes-below key id s v;
}
step-IsSingle (fails id) s h room v = record {
  held = fails-held id s v;
  below = fails-below id s v;
}
step-IsSingle (removes admin_key user_id) s h room v = absurd h

pub step-next :
    (o : Occurrence) (s : Sessions)
    → Occurs o s
    → suc s.next_session_id < 2 ^ 64
    → (step o s).next_session_id ≤ suc s.next_session_id
unfolding step socket_closed upgrade_failed
step-next (connects key) s h room = connects-next key s room
step-next (closes key id) s h room = omega arith
step-next (fails id) s h room = omega arith
step-next (removes admin_key user_id) s h room = absurd h

run-IsSingle :
    (os : List Occurrence) (s : Sessions)
    → Possible os s
    → s.next_session_id + length os < 2 ^ 64
    → IsSingle s
    → IsSingle (run os s)
unfolding run Possible
run-IsSingle [] s h room v = v
run-IsSingle (o ∷ os) s (h, hs) room v =
    let small : suc s.next_session_id < 2 ^ 64 = omega arith in
    let grown : (step o s).next_session_id ≤ suc s.next_session_id = step-next o s h small in
    run-IsSingle os (step o s) hs (omega arith) (step-IsSingle o s h small v)

empty-IsSingle : (s : Sessions) → s.live ≡ [] → s.active_connections ≡ [] → IsSingle s
unfolding get
empty-IsSingle s l c = record {
  held = λ id key h. absurd (ground (arith, l, h));
  below = λ key id h. absurd (ground (arith, c, h));
}

-- Take a server without connections, and any sequence of connection attempts, socket ends and
-- failed upgrades in which a socket ends under the key it was opened with and the session counter
-- does not wrap. Two sessions that are live at its end with the same key are one session, and its
-- number is the entry of that key.
pub run-live_once :
    (os : List Occurrence) (s : Sessions)
    → s.live ≡ []
    → s.active_connections ≡ []
    → Possible os s
    → s.next_session_id + length os < 2 ^ 64
    → (key : Text) (i j : ℕ) → get i (run os s).live ≡ some key
    → get j (run os s).live ≡ some key
    → (i ≡ j) × (get key (run os s).active_connections ≡ some i)
run-live_once os s l c h room key i j hi hj =
    let v = run-IsSingle os s h room (empty-IsSingle s l c) in
    ground (arith, v.held i key hi, v.held j key hj)
