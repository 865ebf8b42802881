-- ===== src/AdminPanel/Loading.antt =====
-- What the panel of tokenir_admin/src/main.rs shows after a reply.
use tokenir.Prelude.{◌≡◌, refl, true, false, none, some, List, [], ◌∷◌}
use tokenir.Prelude.Text.{Text}
use tokenir.AdminPanel.{
  User, AdminApp, success, ends, frame, fetch_users, on_events, on_event, event_of, act, step, run,
  types_user_hint,
}

-- The reply to a request for the users is shown in the next frame, and the panel stops loading.
pub fetched_users_lem :
    (users : List User) (hint : Text) (a : AdminApp)
    → a.requests ≡ []
    → a.events ≡ []
    → let b =
        run (ends 0 (success (some users)) ∷ frame (types_user_hint hint) ∷ []) (fetch_users a) in
      (b.users ≡ users) × (b.is_loading ≡ false) × (b.requests ≡ [])
unfolding run step act on_events on_event event_of fetch_users
fetched_users_lem users hint a none_asked none_sent = rw (none_asked, none_sent) (refl, refl, refl)

-- If the body of the reply does not parse, the panel goes on loading with no request left.
pub unparsed_users_lem :
    (hint : Text) (a : AdminApp)
    → a.requests ≡ []
    → a.events ≡ []
    → let b = run (ends 0 (success none) ∷ frame (types_user_hint hint) ∷ []) (fetch_users a) in
      (b.is_loading ≡ true) × (b.requests ≡ []) × (b.events ≡ [])
unfolding run step act on_events event_of fetch_users
unparsed_users_lem hint a none_asked none_sent = rw (none_asked, none_sent) (refl, refl, refl)
