-- ===== src/TokenPool.antt =====
-- The token pool of tokenir/src/pool.rs and the filters of tokenir/src/filters.rs.
--
-- The history of a developer is stored and never read, so its type is a parameter. `none` for the
-- whole of an update is the panic of `Token::update`.
pub mod Eviction
use tokenir.Prelude.{
  text_eq, Eq, ℕ, suc, Bool, true, false, ◌&&◌, not, Option, none, some, List, [], ◌∷◌, ◌++◌, ltb,
  leb, if◌then◌else◌, length, head?, all, ◌⊎◌, inl, inr, ◌≡◌, ◌↔◌, arith,
}
use tokenir.Prelude.Map.{Map, get, insert, remove}
use tokenir.Prelude.Text.{Text}
use tokenir.Solana.{Solana, Pubkey}
use tokenir.Addresses.{pool_pda}
use tokenir.Events.{CreateEvent, Trade}
use tokenir.Database.Tokens.{DbToken}
use tokenir.Token.{Token, Metadata, CommunityInfo, fresh, update}

-- `Range<u64>`
pub record Range : Type 0 where
  pub first : ℕ
  pub past : ℕ

abbrev pub range_contains : Range → ℕ → Bool
range_contains r n = leb r.first n && ltb n r.past

-- filters.rs
pub data Tag : Type 0 where
  average_dev_market_cap transaction_count : Tag

pub data Filters : Type 0 where
  average_dev_market_cap_in : Range → Filters

pub record FilterSet : Type 0 where
  pub filters : List (Tag × Filters)

unfoldable pub filter : Filters → Token → ℕ → Bool
filter (average_dev_market_cap_in range) token average_mcap = range_contains range average_mcap

unfoldable pub matches : FilterSet → Token → ℕ → ℕ → Bool
unfolding filter
matches fs token price average_mcap = all (λ entry. filter entry.1 token average_mcap) fs.filters

abbrev tag_beq : Tag → Tag → Bool
tag_beq average_dev_market_cap average_dev_market_cap = true
tag_beq average_dev_market_cap transaction_count = false
tag_beq transaction_count average_dev_market_cap = false
tag_beq transaction_count transaction_count = true

pub tag_beq_iff : (a b : Tag) → (tag_beq a b ≡ true) ↔ (a ≡ b)
tag_beq_iff average_dev_market_cap average_dev_market_cap = ground arith
tag_beq_iff average_dev_market_cap transaction_count = ground arith
tag_beq_iff transaction_count average_dev_market_cap = ground arith
tag_beq_iff transaction_count transaction_count = ground arith

instance abbrev pub tag_eq : Eq Tag
tag_eq = record { same = tag_beq; agree = tag_beq_iff }

unfoldable pub add_filter : Tag → Filters → FilterSet → FilterSet
add_filter tag f fs = record { filters = insert tag f fs.filters }

unfoldable pub remove_filter : Tag → FilterSet → FilterSet
remove_filter tag fs = record { filters = remove tag fs.filters }

-- pool.rs
pub record TokenPool (H : Type 0) : Type 0 where
  pub filtered : List Pubkey
  pub filtered_check : List Pubkey
  pub pool : Map Pubkey Token
  pub history : Map Pubkey H
  pub collector : List Pubkey
  pub max_size : ℕ
  pub filters : FilterSet

abbrev evict : Option Pubkey → Map Pubkey Token → Map Pubkey Token
evict none pool = pool
evict (some front) pool = remove front pool

abbrev pub token_of : CreateEvent → Option Metadata → Option CommunityInfo → Token
token_of e metadata community =
    fresh e.name e.symbol e.user e.bonding_curve community e.mint e.token_2022 (some e.uri) metadata

abbrev with_performance : ℕ → List DbToken → ℕ → Token → Token
with_performance average_ath last_tokens count t = record t {
  dev_performance =
      some (record { last_tokens = last_tokens; average_ath = average_ath; count = count });
}

abbrev attached : Pubkey → ℕ → List DbToken → ℕ → Option Token → Map Pubkey Token → Map Pubkey Token
attached mint average_ath last_tokens count none pool = pool
attached mint average_ath last_tokens count (some t) pool =
    insert mint (with_performance average_ath last_tokens count t) pool

module _ (sol : Solana) {H : Type 0} where
  unfoldable pub new : TokenPool H
  new = record {
    filtered = [];
    filtered_check = [];
    pool = [];
    history = [];
    collector = [];
    max_size = 50;
    filters = record { filters = [] };
  }

  unfoldable pub get_token : Pubkey → TokenPool H → Option Token
  get_token pda p = get pda p.pool

  -- The front of the queue is looked at, and stays in the queue.
  unfoldable pub add :
      CreateEvent → Option Metadata → Option CommunityInfo → TokenPool H → TokenPool H
  add e metadata community p =
      let pda = (pool_pda sol e.mint).0 in
      let pool = insert pda (token_of e metadata community) p.pool in
      let collector = p.collector ++ pda ∷ [] in
      record p {
        pool = if ltb p.max_size (length collector) then evict (head? collector) pool else pool;
        collector = collector;
      }

  unfoldable pub remove_mint : Pubkey → TokenPool H → TokenPool H
  remove_mint mint p = record p { pool = remove (pool_pda sol mint).0 p.pool }

  unfoldable pub clear_migrated : TokenPool H → TokenPool H
  clear_migrated p = record p { filtered = [] }

  unfoldable pub add_dev : Pubkey → H → TokenPool H → TokenPool H
  add_dev dev h p = record p { history = insert dev h p.history }

  unfoldable pub attach_dev_performance : Pubkey → ℕ → List DbToken → ℕ → TokenPool H → TokenPool H
  attach_dev_performance mint average_ath last_tokens count p = record p {
    pool = attached mint average_ath last_tokens count (get mint p.pool) p.pool;
  }

  -- `inl` is `TokenNotFoundInPool`.
  abbrev updated_in : Pubkey → Option Token → TokenPool H → Unit {0} ⊎ Option (TokenPool H)
  updated_in mint none p = inr none
  updated_in mint (some t) p = inr (some (record p { pool = insert mint t p.pool }))

  abbrev update_found :
      Pubkey → Trade → ℕ → Option Token → TokenPool H → Unit {0} ⊎ Option (TokenPool H)
  update_found mint trade price none p = inl tt
  update_found mint trade price (some t) p = updated_in mint (update t trade price) p

  unfoldable pub update_pool : Pubkey → Trade → ℕ → TokenPool H → Unit {0} ⊎ Option (TokenPool H)
  update_pool mint trade price p = update_found mint trade price (get mint p.pool) p
