-- ===== src/Server/Sessions/Lockout.antt =====
-- What the session table of tokenir/src/main.rs does not prevent.
use tokenir.Prelude.{
  text_eq, nat_eq, ℕ, suc, ◌+◌, ◌%◌, ◌^◌, ◌<◌, ◌≤◌, ◌≡◌, refl, true, false, ◌≢◌, length, none, some,
  List, [], ◌∷◌, ◌==◌, eq_iff, arith,
}
use tokenir.Prelude.Map.{get, insert, get-insert, get-remove}
use tokenir.Prelude.Text.{Text}
use tokenir.Database.{Store, Tables, ok, statement}
use tokenir.Server.Sessions.Single.{Possible, get-cleanup, connects-next, step-next}
use tokenir.Database.Clean.{clean}
use tokenir.Database.Users.{validate_user_key}
use tokenir.Server.Sessions.{
  Sessions, upgraded, ws_handler, socket_closed, upgrade_failed, step, run, Occurrence, connects,
  closes, fails, removes,
}

-- Where no statement fails, the check of a key changes nothing.
validate-store :
    (key : Text) (t : Tables)
    → (validate_user_key key (record { tables = t; faults = [] })).1
      ≡ record { tables = t; faults = [] }
unfolding validate_user_key statement
validate-store key t = ground arith

validate-clean :
    (key key' : Text) (s : Store)
    → clean key ≡ clean key'
    → validate_user_key key s ≡ validate_user_key key' s
unfolding validate_user_key
validate-clean key key' s h = rw h refl

-- Take two different keys that `clean` makes one, a user with that key, no session of either, and
-- a server where no statement fails. Both keys are granted a session, one after the other, so one
-- account has two sessions.
pub two_spellings :
    (key key' : Text) (t : Tables) (s : Sessions)
    → s.store ≡ record { tables = t; faults = [] }
    → clean key ≡ clean key'
    → (key == key') ≡ false
    → (validate_user_key key s.store).0 ≡ ok true
    → get key s.active_connections ≡ none
    → get key' s.active_connections ≡ none
    → ((ws_handler key s).0 ≡ upgraded s.next_session_id)
      × ((ws_handler key' ((ws_handler key s).1)).0 ≡ upgraded ((s.next_session_id + 1) % 2 ^ 64))
unfolding ws_handler
two_spellings key key' t s st same other valid free free' = ground (
  arith,
  validate-store key t,
  validate-clean key key' s.store,
  get-insert key key' s.next_session_id s.active_connections,
  eq_iff key key',
)

-- The entry of a key names a session that is not live.
record IsLocked (key : Text) (id : ℕ) (s : Sessions) : Type 0 where
  entry : get key s.active_connections ≡ some id
  gone : get id s.live ≡ none
  past : id < s.next_session_id

connects-IsLocked :
    (key j : Text) (id : ℕ) (s : Sessions)
    → suc s.next_session_id < 2 ^ 64
    → IsLocked key id s
    → IsLocked key id (ws_handler j s).1
unfolding ws_handler
connects-IsLocked key j id s room v =
    let e = v.entry in
    let g = v.gone in
    let p = v.past in
    record {
      entry = ground (arith, eq_iff j key, get-insert j key s.next_session_id s.active_connections);
      gone = ground (arith, eq_iff s.next_session_id id, get-insert s.next_session_id id j s.live);
      past = ground arith;
    }

closes-IsLocked :
    (key j : Text) (id i : ℕ) (s : Sessions)
    → get i s.live ≡ some j
    → IsLocked key id s
    → IsLocked key id (socket_closed j i s)
unfolding socket_closed
closes-IsLocked key j id i s own v =
    let e = v.entry in
    let g = v.gone in
    record {
      entry = ground (arith, eq_iff j key, eq_iff i id, get-cleanup j key i s.active_connections);
      gone = ground (arith, eq_iff i id, get-remove i id s.live);
      past = v.past;
    }

fails-IsLocked :
    (key : Text) (id i : ℕ) (s : Sessions)
    → IsLocked key id s
    → IsLocked key id (upgrade_failed i s)
unfolding upgrade_failed
fails-IsLocked key id i s v =
    let g = v.gone in
    record {
      entry = v.entry;
      gone = ground (arith, eq_iff i id, get-remove i id s.live);
      past = v.past;
    }

step-IsLocked :
    (key : Text) (id : ℕ) (o : Occurrence) (s : Sessions)
    → Possible (o ∷ []) s
    → suc s.next_session_id < 2 ^ 64
    → IsLocked key id s
    → IsLocked key id (step o s)
unfolding step Possible
step-IsLocked key id (connects j) s h room v = connects-IsLocked key j id s room v
step-IsLocked key id (closes j i) s (h, u) room v = closes-IsLocked key j id i s h v
step-IsLocked key id (fails i) s h room v = fails-IsLocked key id i s v
step-IsLocked key id (removes admin_key user_id) s (h, u) room v = absurd h

run-IsLocked :
    (key : Text) (id : ℕ) (os : List Occurrence) (s : Sessions)
    → Possible os s
    → s.next_session_id + length os < 2 ^ 64
    → IsLocked key id s
    → IsLocked key id (run os s)
unfolding run Possible
run-IsLocked key id [] s h room v = v
run-IsLocked key id (o ∷ os) s (h, hs) room v =
    let small : suc s.next_session_id < 2 ^ 64 = omega arith in
    let grown : (step o s).next_session_id ≤ suc s.next_session_id = step-next o s h small in
    run-IsLocked key id os (step o s) hs (omega arith) (step-IsLocked key id o s (h, tt) small v)

locked-refused :
    (key : Text) (id n : ℕ) (s : Sessions) → IsLocked key id s → (ws_handler key s).0 ≢ upgraded n
unfolding ws_handler
locked-refused key id n s v h = let e = v.entry in ground arith

upgrade_failed-IsLocked :
    (key : Text) (id : ℕ) (s : Sessions)
    → suc s.next_session_id < 2 ^ 64
    → (ws_handler key s).0 ≡ upgraded id
    → IsLocked key id (upgrade_failed id (ws_handler key s).1)
unfolding ws_handler upgrade_failed
upgrade_failed-IsLocked key id s room h = record {
  entry = ground (arith, eq_iff key key, get-insert key key s.next_session_id s.active_connections);
  gone = ground (arith, eq_iff id id, get-remove id id (insert s.next_session_id key s.live));
  past = ground arith;
}

-- Let a key be granted a session and let the upgrade of that connection fail. Then, whatever
-- sequence of connection attempts, socket ends and failed upgrades follows (a socket ends under
-- the key it was opened with, the session counter does not wrap, no user is removed), the key is
-- never granted a session again.
pub upgrade_failed_locks :
    (key : Text) (id n : ℕ) (os : List Occurrence) (s : Sessions)
    → (ws_handler key s).0 ≡ upgraded id
    → Possible os (upgrade_failed id (ws_handler key s).1)
    → suc s.next_session_id + length os < 2 ^ 64
    → (ws_handler key (run os (upgrade_failed id (ws_handler key s).1))).0 ≢ upgraded n
unfolding upgrade_failed
upgrade_failed_locks key id n os s h hs room =
    let small : suc s.next_session_id < 2 ^ 64 = omega arith in
    let grown : (ws_handler key s).1.next_session_id ≤ suc s.next_session_id =
      connects-next key s small in
    let after = upgrade_failed id (ws_handler key s).1 in
    locked-refused key id n (run os after)
      (run-IsLocked key id os after hs (omega arith) (upgrade_failed-IsLocked key id s small h))
