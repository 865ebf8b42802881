-- ===== src/Server/Creates/Saved.antt =====
-- Which tokens `process_slow_create` of tokenir/src/main.rs saves, where no other task runs in its waits.
use tokenir.Prelude.{text_eq, Bool, true, false, not, ◌&&◌, ◌||◌, ◌≡◌, some, List, all, ◌⊎◌, ℕ}
use tokenir.Prelude.Text.{Text}
use tokenir.Solana.{Solana}
use tokenir.Database.{TokenRow, err, SqlError}
use tokenir.Database.Tokens.{sql_eq, token_community_exists}
use tokenir.Events.{CreateEvent}
use tokenir.Token.{Metadata, CommunityInfo}
use tokenir.Cache.{has_community}
use tokenir.Server.{Shared, Web}
use tokenir.Server.Creates.{get_metadata, is_duplicate, id_in, or_false}
use tokenir.Server.Creates.Slow.{query_of}

-- No row has this image or uri, or this name with this ticker.
abbrev pub NoneAlike : CreateEvent → Metadata → List TokenRow → Type 0
NoneAlike event m rs =
    all
      (λ r.
        not (sql_eq r.image m.image)
        && not (sql_eq r.ipfs (some event.uri))
        && not (sql_eq r.name (some event.name) && sql_eq r.ticker (some event.symbol)))
      rs
    ≡ true

abbrev pub NoneNames : Text → List TokenRow → Type 0
NoneNames id rs = all (λ r. not (sql_eq r.community_id (some id))) rs ≡ true

abbrev matched : CreateEvent → Metadata → TokenRow → Bool
matched event m r =
    sql_eq r.image m.image
    || sql_eq r.ipfs (some event.uri)
    || (sql_eq r.description m.description && sql_eq r.name (some event.name))
    || (sql_eq r.description m.description && sql_eq r.ticker (some event.symbol))
    || (sql_eq r.name (some event.name) && sql_eq r.ticker (some event.symbol))

module _ (sol : Solana) (web : Web) (now : ℕ) (event : CreateEvent) where
  -- What is asked of the community.
  abbrev OfCommunity : Text → Shared → Type 0
  OfCommunity id s =
      (has_community s.community_cache id ≡ false)
      × (or_false (token_community_exists id s.store).0 ≡ false)
      × (c : CommunityInfo) × (web.get_community_by_id id ≡ some c)

  abbrev OfLink : Metadata → Shared → Type 0
  OfLink m s = (id : Text) × (id_in m.twitter ≡ some id) × OfCommunity id s

  -- Fetched and new to the caches and the tables, of a community that is new to them.
  abbrev pub IsNew : Text → Shared → Type 0
  IsNew node s =
      (m : Metadata) × (get_metadata web node event.uri ≡ some m)
      × (is_duplicate event m.image m.description s ≡ false)
      × NoneAlike event m s.store.tables.tokens
      × ((id : Text) × (id_in m.twitter ≡ some id)
          × (has_community s.community_cache id ≡ false)
          × (((e : SqlError) × ((token_community_exists id (query_of sol web now event m s).1).0
                  ≡ err e))
              ⊎ NoneNames id s.store.tables.tokens)
          × (c : CommunityInfo) × (web.get_community_by_id id ≡ some c))
