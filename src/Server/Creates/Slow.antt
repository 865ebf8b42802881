-- ===== src/Server/Creates/Slow.antt =====
-- What `process_slow_create` of tokenir/src/main.rs saves, where no other task runs in its waits.
use tokenir.Prelude.{
  text_eq, ℕ, Bool, true, false, ◌≡◌, ◌≢◌, refl, sym, ◌∙◌, subst, ◌⊎◌, inl, inr, Option, none, some,
  arith, Bool-cases, eq_refl,
}
use tokenir.Prelude.Map.{contains_key-insert}
use tokenir.Prelude.Text.{Text}
use tokenir.Solana.{Solana}
use tokenir.Database.{Store, Result, ok, err}
use tokenir.Database.Tokens.{token_any_exists, token_community_exists, add_token}
use tokenir.Database.Tokens.Queries.{tables-token_any_exists, tables-token_community_exists}
use tokenir.Database.Tokens.Upsert.{add_token_atomic}
use tokenir.Events.{CreateEvent}
use tokenir.Token.{Metadata, CommunityInfo, dbtoken}
use tokenir.Cache.{has_community, insert_community}
use tokenir.Server.{Shared, Web, Others}
use tokenir.Server.Creates.{
  get_metadata, process_slow_create, slow_fetched, slow_queried, slow_linked, slow_community, save,
  known_community, fetched, is_duplicate, fresh_token, id_in,
}
use tokenir.Server.Creates.Fast.{remembered}

abbrev pub idle : Others
idle n s = s

module _ (sol : Solana) (web : Web) (now : ℕ) (event : CreateEvent) where
  -- Why nothing is saved.
  pub data Skipped (s : Shared) : Option Metadata → Type 0 where
    unfetched : Skipped s none
    duplicate :
        (m : Metadata) → is_duplicate event m.image m.description s ≡ true → Skipped s (some m)
    unlinked : (m : Metadata) → id_in m.twitter ≡ none → Skipped s (some m)
    known :
        (m : Metadata) (id : Text)
        → id_in m.twitter ≡ some id
        → has_community s.community_cache id ≡ true
        → Skipped s (some m)
    unreachable :
        (m : Metadata) (id : Text)
        → id_in m.twitter ≡ some id
        → web.get_community_by_id id ≡ none
        → Skipped s (some m)

  abbrev pub Untouched : Shared → Shared → Type 0
  Untouched s t = (t.store.tables ≡ s.store.tables) × (t.token_cache ≡ s.token_cache)

  pub slow_community_unreachable :
      (m : Metadata) (id : Text) (s : Shared)
      → web.get_community_by_id id ≡ none
      → Untouched s (slow_community sol web idle now event m id s).1
  unfolding slow_community
  slow_community_unreachable m id s h = ground (arith, tables-token_community_exists id s.store)

  pub slow_community_known :
      (m : Metadata) (id : Text) (s : Shared)
      → has_community s.community_cache id ≡ true
      → (slow_community sol web idle now event m id s).1 ≡ s
  unfolding slow_community
  slow_community_known m id s h = ground arith

  abbrev Reason : Option Text → Shared → Type 0
  Reason o s =
      (o ≡ none)
      ⊎ ((id : Text) × (o ≡ some id)
          × ((has_community s.community_cache id ≡ true) ⊎ (web.get_community_by_id id ≡ none)))

  slow_linked-Untouched :
      (m : Metadata) (o : Option Text) (s : Shared)
      → Reason o s
      → Untouched s (slow_linked sol web idle now event m o s).1
  slow_linked-Untouched m o s (inl e) = rw e (refl, refl)
  slow_linked-Untouched m o s (inr (id, e, inl h)) =
      rw (e, slow_community_known m id s h) (refl, refl)
  slow_linked-Untouched m o s (inr (id, e, inr h)) = rw e (slow_community_unreachable m id s h)

  slow_queried-Untouched :
      (m : Metadata) (r : Result Bool) (store : Store) (s : Shared)
      → store.tables ≡ s.store.tables
      → Reason (id_in m.twitter) s
      → Untouched s (slow_queried sol web idle now event m (r, store) s).1
  slow_queried-Untouched m (err e) store s h why = (h, refl)
  slow_queried-Untouched m (ok true) store s h why = (h, refl)
  slow_queried-Untouched m (ok false) store s h why =
      let (tables, cache) =
        slow_linked-Untouched m (id_in m.twitter) (record s { store = store }) why in
      (tables ∙ h, cache)

  abbrev pub query_of : Metadata → Shared → Result Bool × Store
  query_of m s =
      token_any_exists (some event.name) (some event.symbol) (some event.uri) m.image m.description
        s.store

  slow_some-Untouched :
      (m : Metadata) (s : Shared)
      → (is_duplicate event m.image m.description s ≡ true) ⊎ Reason (id_in m.twitter) s
      → Untouched s (slow_fetched sol web idle now event (some m) s).1
  slow_some-Untouched m s (inl h) = rw h (refl, refl)
  slow_some-Untouched m s (inr why) =
      elim (Bool-cases (is_duplicate event m.image m.description s)) [
        | inl h ↦ rw h (refl, refl)
        | inr h ↦ rw h (
            slow_queried-Untouched m (query_of m s).0 (query_of m s).1 s
              (tables-token_any_exists (some event.name) (some event.symbol) (some event.uri)
                m.image m.description s.store)
              why)
      ]

  slow_fetched-Untouched :
      {s : Shared} {o : Option Metadata}
      → Skipped s o
      → Untouched s (slow_fetched sol web idle now event o s).1
  slow_fetched-Untouched unfetched = (refl, refl)
  slow_fetched-Untouched {s} (duplicate m h) = slow_some-Untouched m s (inl h)
  slow_fetched-Untouched {s} (unlinked m h) = slow_some-Untouched m s (inr (inl h))
  slow_fetched-Untouched {s} (known m id e h) = slow_some-Untouched m s (inr (inr (id, e, inl h)))
  slow_fetched-Untouched {s} (unreachable m id e h) =
      slow_some-Untouched m s (inr (inr (id, e, inr h)))

  -- Where no other task runs in the waits: nothing is saved or put into the token cache of a token whose
  -- metadata cannot be fetched, that the token cache holds, that names no community, or whose community
  -- the community cache holds or that cannot be fetched.
  pub process_slow_create_skips :
      (node : Text) (s : Shared)
      → Skipped s (get_metadata web node event.uri)
      → let t = (process_slow_create sol web idle now event node s).1 in
        (t.store.tables ≡ s.store.tables) × (t.token_cache ≡ s.token_cache)
  unfolding process_slow_create
  process_slow_create_skips node s why = slow_fetched-Untouched why

  known_community_lem :
      (id : Text) (s : Shared)
      → has_community (known_community sol web idle now event id s).community_cache id ≡ true
  unfolding has_community insert_community
  known_community_lem id s =
      rw (contains_key-insert id id tt s.community_cache) (ground (arith, eq_refl id))

  save-community_cache :
      (m : Metadata) (c : CommunityInfo) (s : Shared)
      → (save sol web idle now event m c s).1.community_cache ≡ s.community_cache
  unfolding save tokenir.Token.fresh
  save-community_cache m c s = refl

  fetched_marks :
      (m : Metadata) (id : Text) (o : Option CommunityInfo) (s : Shared)
      → let t = (fetched sol web idle now event m id o s).1 in
        t.store.tables ≢ s.store.tables → has_community t.community_cache id ≡ true
  fetched_marks m id none s changed = absurd (changed refl)
  fetched_marks m id (some c) s changed =
      rw (save-community_cache m c (known_community sol web idle now event id s))
        (known_community_lem id s)

  -- A community whose first token changes the tables is known from then on.
  slow_community_marks :
      (m : Metadata) (id : Text) (s : Shared)
      → let t = (slow_community sol web idle now event m id s).1 in
        t.store.tables ≢ s.store.tables → has_community t.community_cache id ≡ true
  unfolding slow_community
  slow_community_marks m id s changed =
      let s' : Shared = record s { store = (token_community_exists id s.store).1 } in
      ground (
        arith,
        tables-token_community_exists id s.store,
        known_community_lem id s',
        fetched_marks m id (web.get_community_by_id id) s',
      )

  slow_queried_marks :
      (m : Metadata) (id : Text) (r : Result Bool) (store : Store) (s : Shared)
      → id_in m.twitter ≡ some id
      → store.tables ≡ s.store.tables
      → let t = (slow_queried sol web idle now event m (r, store) s).1 in
        t.store.tables ≢ s.store.tables → has_community t.community_cache id ≡ true
  slow_queried_marks m id (err e) store s named h changed = absurd (changed h)
  slow_queried_marks m id (ok true) store s named h changed = absurd (changed h)
  slow_queried_marks m id (ok false) store s named h changed =
      subst
        (λ o.
          let t = (slow_linked sol web idle now event m o (record s { store = store })).1 in
          t.store.tables ≢ s.store.tables → has_community t.community_cache id ≡ true)
        (sym named) (λ c. slow_community_marks m id (record s { store = store }) (λ e. c (e ∙ h)))
        changed

  slow_fetched_marks :
      (m : Metadata) (id : Text) (s : Shared)
      → id_in m.twitter ≡ some id
      → let t = (slow_fetched sol web idle now event (some m) s).1 in
        t.store.tables ≢ s.store.tables → has_community t.community_cache id ≡ true
  slow_fetched_marks m id s named = elim (Bool-cases (is_duplicate event m.image m.description s)) [
    | inl h ↦ rw h (λ changed. absurd (changed refl))
    | inr h ↦ rw h (
        slow_queried_marks m id (query_of m s).0 (query_of m s).1 s named (
          tables-token_any_exists (some event.name) (some event.symbol) (some event.uri) m.image
            m.description s.store))
  ]

module _ (sol : Solana) (web : Web) where
  -- Where no other task runs in the waits of the two calls, and whatever runs between them: once a token
  -- that names a community has changed the tables, a later token that names it changes no table, if the
  -- community cache still holds the community where it held it after the first call.
  pub process_slow_create_once :
      (node : Text) (event later : CreateEvent) (now now' : ℕ) (m m' : Metadata) (id : Text)
      (s s' : Shared)
      → get_metadata web node event.uri ≡ some m
      → id_in m.twitter ≡ some id
      → (process_slow_create sol web idle now event node s).1.store.tables ≢ s.store.tables
      → (has_community (process_slow_create sol web idle now event node s).1.community_cache id
            ≡ true
          → has_community s'.community_cache id ≡ true)
      → get_metadata web node later.uri ≡ some m'
      → id_in m'.twitter ≡ some id
      → (process_slow_create sol web idle now' later node s').1.store.tables ≡ s'.store.tables
  unfolding process_slow_create
  process_slow_create_once node event later now now' m m' id s s' fetched named changed grown
        fetched' named' =
      let marked =
        subst
          (λ o.
            let t = (slow_fetched sol web idle now event o s).1 in
            t.store.tables ≢ s.store.tables → has_community t.community_cache id ≡ true)
          (sym fetched) (slow_fetched_marks sol web now event m id s named) changed in
      (process_slow_create_skips sol web now' later node s' (
        subst (Skipped sol web now' later s') (sym fetched') (known m' id named' (grown marked)))).0

  -- Where no other task runs in the waits and the database refuses the token, `save` tells the cache of it
  -- all the same: the tables are as they were, and every token with its uri or its name is a duplicate
  -- after it.
  pub save_unsaved :
      (event later : CreateEvent) (now : ℕ) (m : Metadata) (c : CommunityInfo) (s : Shared)
      (image description : Option Text)
      → (add_token sol now event.mint
          (dbtoken sol (fresh_token event (some c) (some m)) event.mint)
          c.creator.id
          s.store).0
        ≢ ok tt
      → (later.uri ≡ event.uri) ⊎ (later.name ≡ event.name)
      → let t = (save sol web idle now event m c s).1 in
        (t.store.tables ≡ s.store.tables) × (is_duplicate later image description t ≡ true)
  unfolding save tokenir.Token.fresh
  save_unsaved event later now m c s image description refused h =
      let token = fresh_token event (some c) (some m) in
      let (_, store) =
        add_token sol now token.mint (dbtoken sol token token.mint) c.creator.id s.store in
      (
        (add_token_atomic sol now token.mint (dbtoken sol token token.mint) c.creator.id s.store).0
            refused,
        remembered event later m image description (record s { store = store }) h,
      )
