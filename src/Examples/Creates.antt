-- ===== src/Examples/Creates.antt =====
-- Runs of the create handlers, the caches, the links and the market caps.
use tokenir.Prelude.{
  text_eq, pair_eq, ℕ, ◌*◌, ◌/◌, ◌<◌, ◌≤◌, ◌^◌, ◌≡◌, ◌≢◌, ◌↔◌, ◌⊎◌, inl, refl, true, ◌||◌, Option,
  none, some, [], ◌∷◌, ap, length, arith,
}
use tokenir.Prelude.Int.{pos}
use tokenir.Prelude.Map.{get, insert, contains_key}
use tokenir.Prelude.Text.{Text, codes, trim, trim_end, strip_prefix}
use tokenir.Database.{statement, transaction, ◌>>=◌}
use tokenir.Database.Clean.{clean}
use tokenir.Database.Tokens.{
  add_token, add_dev, insert_token, find_token, token_any_exists, token_community_exists,
}
use tokenir.Events.{CreateEvent, Trade, buys, trade_mcap, trade_reserves}
use tokenir.Token.{Metadata, CommunityInfo, Token, fresh, dbtoken, usd_mcap, update}
use tokenir.Token.Mcap.{usd_mcap_lem, update_lem}
use tokenir.Links.{contains, parse_community_id, last_piece}
use tokenir.Cache
use tokenir.Cache.{empty_cache, check_duplicate, has_community, insert_community}
use tokenir.Cache.Duplicates.{alike, check_duplicate-insert_token}
use tokenir.Server.{Shared, Web}
use tokenir.Server.Creates.{
  process_fast_create, process_slow_create, get_metadata, is_duplicate, slow_community, save,
}
use tokenir.Server.Creates.Fast.{process_fast_create_once}
use tokenir.Server.Creates.Slow.{idle, process_slow_create_once, save_unsaved}
use tokenir.Examples.{sol, store}

abbrev link : Text
link = codes "https://x.com/i/communities/42"

abbrev plain : Metadata
plain = record {
  name = codes "Token";
  symbol = codes "TKN";
  description = none;
  twitter = none;
  website = none;
  image = none;
}

abbrev linked : Metadata
linked = record plain { twitter = some link }

abbrev community : CommunityInfo
community = record {
  id = codes "42";
  name = codes "Friends";
  description = none;
  member_count = none;
  moderator_count = none;
  created_at = none;
  creator = record { id = codes "dev"; screen_name = none };
}

abbrev broken_community : CommunityInfo
broken_community = record community { creator = record { id = codes " new"; screen_name = none } }

-- Every document is the same one, or none is there.
abbrev web_with : Option Metadata → Web
web_with m = record {
  fetch_metadata = λ url. m;
  get_community_by_id = λ id. some community;
  percentile_cont = λ xs. pos 0;
}

abbrev event : CreateEvent
event = record {
  name = codes "Token";
  symbol = codes "TKN";
  uri = codes "ipfs://abc";
  mint = codes "mint";
  bonding_curve = codes "curve";
  user = codes "user";
  token_2022 = true;
  timestamp = pos 7;
}

abbrev node : Text
node = codes "http://node"

abbrev shared : Shared
shared = record { store = store; token_cache = empty_cache; community_cache = [] }

process_fast_create_once_example :
    (process_fast_create sol
      (web_with (some plain))
      node
      idle
      event
      9
      9
      (process_fast_create sol (web_with (some plain)) node idle event 8 8 shared).1).0
    ≡ none
unfolding get_metadata process_fast_create token_any_exists statement check_duplicate contains_key
    get
process_fast_create_once_example =
    process_fast_create_once sol (web_with (some plain)) node idle idle event event 8 8 9 9 shared
      (process_fast_create sol (web_with (some plain)) node idle event 8 8 shared).1
      (λ h. ground (arith, h)) (λ h. ground (arith, h)) (record { at = λ i u d n t h. h })
      (λ t. record { at = λ i u d n t h. h }) (inl refl)

-- The connection fails at the beginning of the transaction.
abbrev cut_off : Shared
cut_off = record shared { store = record store { faults = true ∷ [] } }

save_unsaved_example :
    let t = (save sol (web_with (some linked)) idle 7 event linked community cut_off).1 in
    (t.store.tables ≡ store.tables) × (is_duplicate event none none t ≡ true)
unfolding add_token transaction
save_unsaved_example =
    save_unsaved sol (web_with (some linked)) event event 7 linked community cut_off none none
      (λ h. ground (arith, h)) (inl refl)

abbrev saved : Shared
saved = (process_slow_create sol (web_with (some linked)) idle 7 event node shared).1

process_slow_create_once_example :
    (process_slow_create sol (web_with (some linked)) idle 8 event node saved).1.store.tables
    ≡ saved.store.tables
unfolding process_slow_create slow_community save fresh dbtoken get_metadata check_duplicate
    contains_key get token_any_exists token_community_exists parse_community_id last_piece contains
    strip_prefix trim_end statement add_token ◌>>=◌ transaction add_dev insert_token find_token
    clean trim insert has_community insert_community
process_slow_create_once_example =
    process_slow_create_once sol (web_with (some linked)) node event event 7 8 linked linked
      (codes "42") shared saved refl refl (λ h. ground (arith, ap (λ t. length t.tokens) h))
      (λ h. h) refl refl

check_duplicate-insert_token_example :
    check_duplicate
      (Cache.insert_token empty_cache none
        (some (codes "u"))
        none
        (some (codes "n"))
        (some (codes "t")))
      none
      (some (codes "u"))
      none
      none
      none
    ≡ (alike none
          (some (codes "u"))
          none
          (some (codes "n"))
          (some (codes "t"))
          none
          (some (codes "u"))
          none
          none
          none
        || check_duplicate empty_cache none (some (codes "u")) none none none)
check_duplicate-insert_token_example =
    check_duplicate-insert_token empty_cache none (some (codes "u")) none (some (codes "n"))
      (some (codes "t")) none (some (codes "u")) none none none

abbrev purchase : Trade
purchase = buys (record {
  mint = codes "mint";
  sol_amount = 5;
  token_amount = 6;
  user = codes "user";
  timestamp = pos 7;
  virtual_sol_reserves_before = 30_000;
  virtual_sol_reserves_after = 30_005;
  virtual_token_reserves = 1_000;
})

abbrev new_token : Token
new_token = record {
  mint = codes "mint";
  name = codes "Token";
  ticker = codes "TKN";
  mcap = 3264;
  dev = codes "dev";
  reserves = 1_073_000_000;
  curve = codes "curve";
  ath = 3264;
  twitter = none;
  dev_performance = none;
  token_2022 = true;
  metadata_ipfs = none;
  metadata = none;
}

abbrev thousand : ℕ
thousand = 1_000

usd_mcap_lem_example :
    ((usd_mcap 30_000 1_000 180 ≡ none) ↔ (thousand ≡ 0))
    × ((v : ℕ)
        → usd_mcap 30_000 1_000 180 ≡ some v
        → (v < 2 ^ 64)
          × (30_000 * (180 * 1_000_000) < 2 ^ 128
              → 30_000 * (180 * 1_000_000) / 1_000 < 2 ^ 64
              → v ≡ 30_000 * (180 * 1_000_000) / 1_000))
usd_mcap_lem_example = usd_mcap_lem 30_000 thousand 180

update_lem_example :
    ((update new_token purchase 180 ≡ none) ↔ (trade_reserves purchase ≡ 0))
    × ((u : Token)
        → update new_token purchase 180 ≡ some u
        → (u.mcap ≡ trade_mcap purchase)
          × (u.reserves ≡ trade_reserves purchase)
          × (usd_mcap u.mcap u.reserves 180 ≢ none)
          × (3264 ≤ u.ath)
          × ((v : ℕ)
              → usd_mcap u.mcap u.reserves 180 ≡ some v
              → (v ≤ u.ath) × ((u.ath ≡ 3264) ⊎ (u.ath ≡ v))))
update_lem_example = update_lem new_token purchase 180
