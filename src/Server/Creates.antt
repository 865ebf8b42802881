-- ===== src/Server/Creates.antt =====
-- `process_fast_create`, `process_slow_create` and `median_dev_mcap_excluding` of tokenir/src/main.rs.
-- Times are in nanoseconds since the epoch. Logging is left out.
pub mod Fast
pub mod Slow
pub mod Saved
use tokenir.Prelude.{
  text_eq, ℕ, ◌-◌, ◌*◌, Bool, true, false, Option, none, some, List, ltb, if◌then◌else◌,
}
use tokenir.Prelude.Int.{ℤ, as_u64}
use tokenir.Prelude.Text.{Text}
use tokenir.Solana.{Solana, Pubkey}
use tokenir.Database.{Store, Result, ok, err}
use tokenir.Database.Tokens.{DbToken, token_any_exists, token_community_exists, add_token}
use tokenir.Database.Tokens.Listing.{get_dev_median_ath_excluding, get_last_tokens_by_dev_excluding}
use tokenir.Events.{CreateEvent}
use tokenir.Token.{Metadata, CommunityInfo, DevPerformance, Token, fresh, dbtoken}
use tokenir.Links.{parse_community_id, final_url}
use tokenir.Cache.{check_duplicate, insert_token, has_community, insert_community}
use tokenir.Server.{Shared, Web, Others}

abbrev pub id_in : Option Text → Option Text
id_in none = none
id_in (some link) = parse_community_id link

module _ (web : Web) where
  -- Both queries succeed and there is a median, or there is no performance.
  abbrev with_last : ℤ × ℕ → Result (List DbToken) × Store → Option DevPerformance × Store
  with_last m (err e, s) = (none, s)
  with_last (median, count) (ok last, s) =
      (some (record { average_ath = as_u64 median; last_tokens = last; count = count }), s)

  abbrev with_median : Text → Text → Result (Option (ℤ × ℕ)) × Store → Option DevPerformance × Store
  with_median dev mint (err e, s) = (none, s)
  with_median dev mint (ok none, s) = (none, s)
  with_median dev mint (ok (some m), s) =
      with_last m (get_last_tokens_by_dev_excluding dev mint 3 s)

  unfoldable pub median_dev_mcap_excluding : Text → Text → Store → Option DevPerformance × Store
  median_dev_mcap_excluding dev_address exclude_mint s =
      with_median dev_address exclude_mint
        (get_dev_median_ath_excluding web.percentile_cont dev_address exclude_mint s)

  unfoldable pub get_metadata : Text → Text → Option Metadata
  get_metadata ipfs_url url = web.fetch_metadata (final_url ipfs_url url)

  -- The community that the metaevents link names, if it is one and it can be fetched.
  abbrev community_named : Option Text → Option CommunityInfo
  community_named none = none
  community_named (some id) = web.get_community_by_id id

  unfoldable pub community_of_link : Option Text → Option CommunityInfo
  community_of_link link = community_named (id_in link)

abbrev pub five_seconds : ℕ
five_seconds = 5 * 1_000_000_000

abbrev pub or_false : Result Bool → Bool
or_false (ok b) = b
or_false (err e) = false

module _ (event : CreateEvent) where
  abbrev pub is_duplicate : Option Text → Option Text → Shared → Bool
  is_duplicate image description s =
      check_duplicate s.token_cache image (some event.uri) description (some event.name)
        (some event.symbol)

  abbrev pub remember : Metadata → Shared → Shared
  remember m s = record s {
    token_cache =
        insert_token s.token_cache m.image (some event.uri) m.description (some event.name)
          (some event.symbol);
  }

  abbrev pub fresh_token : Option CommunityInfo → Option Metadata → Token
  fresh_token community metadata =
      fresh event.name event.symbol event.user event.bonding_curve community event.mint
        event.token_2022 (some event.uri) metadata

module _ (sol : Solana) (web : Web) (ipfs_local_node : Text) (others : Others)
    (event : CreateEvent) where
  abbrev pub performance : Option CommunityInfo → Store → Option DevPerformance × Store
  performance none s = (none, s)
  performance (some c) s = median_dev_mcap_excluding web c.creator.id (sol.to_string event.mint) s

  -- The end of the fast path, behind its checks.
  abbrev pub broadcast : Metadata → Shared → Option Token × Shared
  broadcast m s =
      let community = community_of_link web m.twitter in
      let s' = others 1 s in
      let (perf, store) = performance community s'.store in
      (
        some (record (fresh_token event community (some m)) { dev_performance = perf }),
        remember event m (others 2 (record s' { store = store })),
      )

  abbrev pub fast_checked : ℕ → ℕ → Bool → Option Metadata → Shared → Option Token × Shared
  fast_checked now time exists none s =
      if is_duplicate event none none s then (none, s) else (some (fresh_token event none none), s)
  fast_checked now time exists (some m) s =
      if is_duplicate event m.image m.description s
      then (none, s)
      else if exists
      then (none, s)
      else if ltb five_seconds (now - time)
      then (none, s)
      else broadcast m s

  -- The metadata and the query of the table are awaited together.
  unfoldable pub process_fast_create : ℕ → ℕ → Shared → Option Token × Shared
  process_fast_create now time s =
      let (exists, store) =
        token_any_exists (some event.name) (some event.symbol) (some event.uri) none none s.store in
      fast_checked now time (or_false exists) (get_metadata web ipfs_local_node event.uri)
        (others 0 (record s { store = store }))

-- How a task ends: `return`, or a panic (`unwrap` of an error).
pub data Outcome : Type 0 where
  returned : Option (Unit {0}) → Outcome
  panicked : Outcome

module _ (sol : Solana) (web : Web) (others : Others) (now : ℕ) (event : CreateEvent) where
  -- `add_token`, whose error is dropped, and then the cache.
  unfoldable pub save : Metadata → CommunityInfo → Shared → Outcome × Shared
  save m community s =
      let token = fresh_token event (some community) (some m) in
      let (_, store) =
        add_token sol now token.mint (dbtoken sol token token.mint) community.creator.id s.store in
      (returned (some tt), remember event m (others 4 (record s { store = store })))

  abbrev pub known_community : Text → Shared → Shared
  known_community id s = record s { community_cache = insert_community s.community_cache id }

  abbrev pub fetched : Metadata → Text → Option CommunityInfo → Shared → Outcome × Shared
  fetched m id none s = (returned (some tt), s)
  fetched m id (some community) s = save m community (known_community id s)

  unfoldable pub slow_community : Metadata → Text → Shared → Outcome × Shared
  slow_community m id s =
      if has_community s.community_cache id
      then (returned none, s)
      else (let (exists, store) = token_community_exists id s.store in
          let s' = others 2 (record s { store = store }) in
          if or_false exists
          then (returned none, known_community id s')
          else fetched m id (web.get_community_by_id id) (others 3 s'))

  abbrev pub slow_linked : Metadata → Option Text → Shared → Outcome × Shared
  slow_linked m none s = (returned (some tt), s)
  slow_linked m (some id) s = slow_community m id s

  abbrev pub slow_queried : Metadata → Result Bool × Store → Shared → Outcome × Shared
  slow_queried m (err e, store) s = (panicked, record s { store = store })
  slow_queried m (ok true, store) s = (returned none, record s { store = store })
  slow_queried m (ok false, store) s =
      slow_linked m (id_in m.twitter) (others 1 (record s { store = store }))

  abbrev pub slow_fetched : Option Metadata → Shared → Outcome × Shared
  slow_fetched none s = (returned none, s)
  slow_fetched (some m) s =
      if is_duplicate event m.image m.description s
      then (returned none, s)
      else slow_queried m
          (token_any_exists (some event.name) (some event.symbol) (some event.uri) m.image
            m.description s.store)
          s

  unfoldable pub process_slow_create : Text → Shared → Outcome × Shared
  process_slow_create ipfs_local_node s =
      slow_fetched (get_metadata web ipfs_local_node event.uri) (others 0 s)
