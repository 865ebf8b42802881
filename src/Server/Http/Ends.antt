-- ===== src/Server/Http/Ends.antt =====
-- What ends the server of tokenir/src/main.rs.
use tokenir.Prelude.{
  suc, ◌+◌, ◌<◌, ◌≡◌, ◌⊎◌, inl, inr, refl, ap, ◌∙◌, List, [], ◌∷◌, ◌++◌, length, Bool-cases, arith,
  Bool, true, false, not, ◌||◌, Option, some, ltb,
}
use tokenir.Prelude.Map.{is_some}
use tokenir.Prelude.Text.{Text}
use tokenir.Server.Sessions.{
  Sessions, status_ok, ws_handler, add_user_handler, remove_user_handler, get_users_handler,
  restart_handler, restart_outcome, tail_is_sliceable,
}
use tokenir.Database.{Result, ok, err}
use tokenir.Database.Users.{User, fetch_all_users}
use tokenir.Database.Users.Authority.{is_admin_key}
use tokenir.Server.Sessions.Admin.{fetch_all_users-guarded}
use tokenir.Server.Http.{
  Request, connects, adds_user, removes_user, gets_users, gets_connections, restarts, restarted,
  Response, restart_response, handle, serve,
}

signals-ws_handler : (key : Text) (s : Sessions) → (ws_handler key s).1.signals ≡ s.signals
unfolding ws_handler
signals-ws_handler key s = ground arith

-- A request leaves the signals alone, or is a restart that was granted to an administrator.
abbrev IsGranted : Request → Sessions → Type 0
IsGranted r s =
    (key : Text) × (r ≡ restarts key)
    × (is_admin_key key s.store.tables ≡ true)
    × ((handle r s).0 ≡ some (restarted status_ok))
    × ((handle r s).1.signals ≡ s.signals + 1)

signals-restart_outcome :
    (key : Text) (r : Result (List User)) (s : Sessions)
    → let m = restart_outcome key r s in
      (m.1.signals ≡ s.signals) ⊎ ((m.0 ≡ some status_ok) × (m.1.signals ≡ s.signals + 1))
signals-restart_outcome key (err e) s = inl refl
signals-restart_outcome key (ok users) s = elim (Bool-cases (tail_is_sliceable key)) [
  | inl e ↦ inr (rw e refl, rw e refl)
  | inr e ↦ inl (rw e refl)
]

signals-restart_handler :
    (key : Text) (s : Sessions)
    → let m = restart_handler key s in
      (m.1.signals ≡ s.signals)
      ⊎ ((is_admin_key key s.store.tables ≡ true)
          × (m.0 ≡ some status_ok)
          × (m.1.signals ≡ s.signals + 1))
unfolding restart_handler
signals-restart_handler key s = elim (Bool-cases (is_admin_key key s.store.tables)) [
  | inr e ↦ inl (ground (arith, fetch_all_users-guarded key s.store e))
  | inl e ↦
      let (r, store) = fetch_all_users key s.store in
      elim (signals-restart_outcome key r (record s { store = store })) [
        | inl same ↦ inl same
        | inr granted ↦ inr (e, granted.0, granted.1)
      ]
]

signals-handle : (r : Request) (s : Sessions) → ((handle r s).1.signals ≡ s.signals) ⊎ IsGranted r s
unfolding handle add_user_handler remove_user_handler get_users_handler
signals-handle (connects key) s = inl (signals-ws_handler key s)
signals-handle (adds_user key payload) s = inl refl
signals-handle (removes_user key id) s = inl (ground arith)
signals-handle (gets_users key) s = inl refl
signals-handle gets_connections s = inl refl
signals-handle (restarts key) s = elim (signals-restart_handler key s) [
  | inl e ↦ inl e
  | inr (admin, e, n) ↦ inr (key, refl, admin, ap restart_response e, n)
]

-- The handlers that answer in any case; the restart panics on a key that cannot be cut.
abbrev pub panics : Request → Bool
panics (restarts key) = not (tail_is_sliceable key)
panics (connects key) = false
panics (adds_user key payload) = false
panics (removes_user key id) = false
panics (gets_users key) = false
panics gets_connections = false

-- Each request that was taken has a response, but where its handler panics.
abbrev pub AreResponses : List Request → List (Option Response) → Type 0
AreResponses rs [] = Unit
AreResponses [] (a ∷ answers) = ⊥
AreResponses (r ∷ rs) (a ∷ answers) = ((is_some a || panics r) ≡ true) × AreResponses rs answers

-- All requests were taken, or those up to a restart that was granted to an administrator and that one.
abbrev pub AreTaken : List Request → Sessions → Type 0
AreTaken rs s =
    (length (serve rs s).0 ≡ length rs)
    ⊎ ((before : List Request) × (key : Text) × (after : List Request) × (rs
          ≡ before ++ restarts key ∷ after)
        × (is_admin_key key (serve before s).1.store.tables ≡ true)
        × (length (serve before s).0 ≡ length before)
        × ((serve rs s).0 ≡ (serve before s).0 ++ some (restarted status_ok) ∷ []))

abbrev pub IsAnswered : List Request → Sessions → Type 0
IsAnswered rs s = AreResponses rs (serve rs s).0 × AreTaken rs s

handle-panics : (r : Request) (s : Sessions) → (is_some (handle r s).0 || panics r) ≡ true
unfolding handle restart_handler
handle-panics (connects key) s = refl
handle-panics (adds_user key payload) s = refl
handle-panics (removes_user key id) s = refl
handle-panics (gets_users key) s = refl
handle-panics gets_connections s = refl
handle-panics (restarts key) s = ground arith

serve-AreResponses : (rs : List Request) (s : Sessions) → AreResponses rs (serve rs s).0
unfolding serve
serve-AreResponses [] s = tt
serve-AreResponses (r ∷ rs) s = elim (Bool-cases (ltb 0 s.signals)) [
  | inl stopped ↦ rw stopped tt
  | inr up ↦ rw up (handle-panics r s, serve-AreResponses rs (handle r s).1)
]

serve-stopped : (rs : List Request) (s : Sessions) → 0 < s.signals → (serve rs s).0 ≡ []
unfolding serve
serve-stopped [] s h = refl
serve-stopped (r ∷ rs) s h = ground arith

serve_step :
    (r : Request) (rs : List Request) (s : Sessions)
    → s.signals ≡ 0
    → (serve (r ∷ rs) s).0 ≡ (handle r s).0 ∷ (serve rs (handle r s).1).0
unfolding serve
serve_step r rs s h = rw h refl

serve_state :
    (r : Request) (rs : List Request) (s : Sessions)
    → s.signals ≡ 0
    → (serve (r ∷ rs) s).1 ≡ (serve rs (handle r s).1).1
unfolding serve
serve_state r rs s h = rw h refl

serve-granted :
    (r : Request) (rs : List Request) (s : Sessions)
    → s.signals ≡ 0
    → IsGranted r s
    → AreTaken (r ∷ rs) s
unfolding serve
serve-granted r rs s h (key, e, admin, answer, n) = inr (
  [],
  key,
  rs,
  ap (λ q. q ∷ rs) e,
  admin,
  refl,
  serve_step r rs s h ∙ rw (answer, serve-stopped rs (handle r s).1 (omega (arith, n))) refl,
)

serve-later :
    (r : Request) (rs : List Request) (s : Sessions)
    → s.signals ≡ 0
    → AreTaken rs (handle r s).1
    → AreTaken (r ∷ rs) s
unfolding serve
serve-later r rs s h (inl all) = inl (rw (serve_step r rs s h) (ap suc all))
serve-later r rs s h (inr (before, key, after, e, admin, n, answers)) = inr (
  r ∷ before,
  key,
  after,
  ap (◌∷◌ r) e,
  ap (λ (t : Sessions). is_admin_key key t.store.tables) (serve_state r before s h) ∙ admin,
  rw (serve_step r before s h) (ap suc n),
  serve_step r rs s h ∙ rw (serve_step r before s h, answers) refl,
)

serve-AreTaken : (rs : List Request) (s : Sessions) → s.signals ≡ 0 → AreTaken rs s
unfolding serve
serve-AreTaken [] s h = inl refl
serve-AreTaken (r ∷ rs) s h = elim (signals-handle r s) [
  | inl same ↦ serve-later r rs s h (serve-AreTaken rs (handle r s).1 (same ∙ h))
  | inr granted ↦ serve-granted r rs s h granted
]

-- A server that was not told to shut down takes every request, or it ends by a restart that was granted
-- to the key of an administrator: every request before that one and that one itself are taken, and
-- none after it is. Each request that is taken gets a response, but a restart that panics: its key
-- cannot be cut four bytes before its end.
pub serve-IsAnswered : (rs : List Request) (s : Sessions) → s.signals ≡ 0 → IsAnswered rs s
serve-IsAnswered rs s h = (serve-AreResponses rs s, serve-AreTaken rs s h)
