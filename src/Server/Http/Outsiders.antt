-- ===== src/Server/Http/Outsiders.antt =====
-- What callers without an administrator's key can do to the server of tokenir/src/main.rs.
use tokenir.Prelude.{
  text_eq, ◌≡◌, ◌≢◌, arith, Option, refl, sym, subst, ap, ◌∙◌, none, some, List, [], ◌∷◌,
}
use tokenir.Database.{UserRow}
use tokenir.Database.Users.Invariant.{UsersIsValid}
use tokenir.Server.Sessions.{Sessions, status_forbidden, status_internal_error}
use tokenir.Server.Sessions.Admin.{handlers_guarded}
use tokenir.Server.Http.{
  Request, connects, adds_user, removes_user, gets_users, gets_connections, restarts, Response,
  says, shows, restarted, restart_response, handle, serve,
}
use tokenir.Server.Http.Harmless.{IsOutsider, IsUnharmed, handle-IsUnharmed, no_payload}

abbrev pub AreOutsiders : List Request → List UserRow → Type 0
AreOutsiders [] users = Unit
AreOutsiders (r ∷ rs) users = IsOutsider r users × AreOutsiders rs users

-- What a handler that asks for an administrator answers to others.
abbrev pub Refusal : Request → Option Response → Type 0
Refusal (connects key) a = a ≢ none
Refusal (adds_user key payload) a = a ≡ some (says status_forbidden)
Refusal (removes_user key id) a = a ≡ some (says status_internal_error)
Refusal (gets_users key) a = a ≡ some (shows none)
Refusal gets_connections a = a ≢ none
Refusal (restarts key) a = a ≡ some (restarted status_forbidden)

-- One answer for each request, and a Refusal where the request asks for an administrator.
abbrev pub AreRefused : List Request → List (Option Response) → Type 0
AreRefused [] [] = Unit
AreRefused [] (a ∷ answers) = ⊥
AreRefused (r ∷ rs) [] = ⊥
AreRefused (r ∷ rs) (a ∷ answers) = Refusal r a × AreRefused rs answers

handle-Refusal :
    (r : Request) (s : Sessions)
    → UsersIsValid s.store.tables
    → IsOutsider r s.store.tables.users
    → Refusal r (handle r s).0
unfolding handle
handle-Refusal (connects key) s v h = λ e. ground (arith, e)
handle-Refusal (adds_user key payload) s v h =
    ap (λ r. some (says r)) (handlers_guarded key payload 0 s v h.0 h.1).0.0
handle-Refusal (removes_user key id) s v h =
    ap (λ r. some (says r)) (handlers_guarded key no_payload id s v h.0 h.1).1.0
handle-Refusal (gets_users key) s v h =
    ap (λ r. some (shows r)) (handlers_guarded key no_payload 0 s v h.0 h.1).2
handle-Refusal gets_connections s v h = λ e. ground (arith, e)
handle-Refusal (restarts key) s v h =
    ap restart_response (handlers_guarded key no_payload 0 s v h.0 h.1).3.0

IsUnharmed-trans : (s t u : Sessions) → IsUnharmed s t → IsUnharmed t u → IsUnharmed s u
IsUnharmed-trans s t u a b = record {
  users = b.users ∙ a.users;
  valid = b.valid;
  signals = b.signals ∙ a.signals;
  entries = λ k n h. b.entries k n (a.entries k n h);
}

serve_running :
    (r : Request) (rs : List Request) (s : Sessions)
    → s.signals ≡ 0
    → serve (r ∷ rs) s ≡ ((handle r s).0 ∷ (serve rs (handle r s).1).0, (serve rs (handle r s).1).1)
unfolding serve
serve_running r rs s h = rw h refl

-- On tables whose users have distinct ids, below the next one, and distinct keys, whatever requests come
-- to a server that was not told to stop, if none of them shows an administrator's key where one is
-- asked for: every request is answered, those that need an administrator with their refusals; no user
-- is added, removed or changed, no entry of a session is lost, and the server is not told to stop.
pub serve-outsiders :
    (rs : List Request) (s : Sessions)
    → UsersIsValid s.store.tables
    → s.signals ≡ 0
    → AreOutsiders rs s.store.tables.users
    → AreRefused rs (serve rs s).0 × IsUnharmed s (serve rs s).1
unfolding serve
serve-outsiders [] s v h o =
    (tt, record { users = refl; valid = v; signals = refl; entries = λ k n h. h })
serve-outsiders (r ∷ rs) s v h o =
    let u = handle-IsUnharmed r s v o.0 in
    let (refused, rest) =
      serve-outsiders rs (handle r s).1 u.valid (u.signals ∙ h)
        (subst (AreOutsiders rs) (sym u.users) o.1) in
    rw (serve_running r rs s h)
      ((handle-Refusal r s v o.0, refused), IsUnharmed-trans s (handle r s).1 _ u rest)
