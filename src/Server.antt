-- ===== src/Server.antt =====
-- tokenir/src/main.rs: the state that the tasks of the server share, and what they take from outside.
--
-- A handler waits at its `await`s, and other tasks run. What they do to the shared state in the
-- handler's n-th wait is `others n`; theorems hold for every such function, or say what they need.
pub mod Creates
pub mod Feeds
pub mod Http
pub mod Relay
pub mod Sessions
use tokenir.Prelude.{text_eq, ℕ, Option, none, some}
use tokenir.Prelude.Map.{Map}
use tokenir.Prelude.Int.{ℤ}
use tokenir.Prelude.Text.{Text}
use tokenir.Prelude.{List}
use tokenir.Database.{Store, Result}
use tokenir.Token.{Metadata, CommunityInfo}
use tokenir.Cache.{TokenCache, CommunityCache}

-- The part of `AppState` that the create handlers share: the database and the two caches.
pub record Shared : Type 0 where
  pub store : Store
  pub token_cache : TokenCache
  pub community_cache : CommunityCache

-- The services on the network: the document at an address, and a community by its id. The last field
-- is the database server's median.
pub record Web : Type 0 where
  pub fetch_metadata : Text → Option Metadata
  pub get_community_by_id : Text → Option CommunityInfo
  pub percentile_cont : List ℤ → ℤ

abbrev pub Others : Type 0
Others = ℕ → Shared → Shared
