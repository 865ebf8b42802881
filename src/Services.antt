-- ===== src/Services.antt =====
-- The requests to foreign services in tokenir/src/constans.rs, with the types of
-- tokenir/src/types/requests.rs, and the one in tokenir_ui/src/token.rs.
--
-- What a request comes to is a function of the request; an f64 is its bit pattern. The parsers of JSON
-- are parameters. Building a client and parsing a constant address succeed.
pub mod Answers
pub mod Price
use tokenir.Prelude.{
  ℕ, ◌*◌, ◌/◌, ◌%◌, ◌^◌, ◌-◌, Bool, true, false, ◌&&◌, Option, none, some, List, [], ◌∷◌, ◌++◌,
  nat_beq, leb, ltb, if◌then◌else◌, min,
}
use tokenir.Prelude.Text.{Text, codes}
use tokenir.Solana.{Solana, Pubkey}
use tokenir.Token.{Metadata, CommunityInfo}
use tokenir.Links.{final_url}

pub record Request : Type 0 where
  pub url : Text
  pub headers : List (Text × Text)
  pub seconds : Option ℕ

-- No response, or a status with the body, if the body can be read.
pub data Answer : Type 0 where
  nothing : Answer
  answered : ℕ → Option Text → Answer

abbrev pub Net : Type 0
Net = Request → Answer

-- `error_for_status`
abbrev pub is_failure : ℕ → Bool
is_failure status = leb 400 status && ltb status 600

-- `send` and `text`, of whatever status.
abbrev text_of : Answer → Option Text
text_of nothing = none
text_of (answered status body) = body

abbrev pub checked : Answer → Option Text
checked nothing = none
checked (answered status body) = if is_failure status then none else body

abbrev pub parsed {ℓ} : {A : Type ℓ} → (Text → Option A) → Option Text → Option A
parsed parse none = none
parsed parse (some text) = parse text

-- tokenir/src/types/requests.rs
pub record LogValue : Type 0 where
  pub signature : Text
  pub logs : List Text

pub record ResultField : Type 0 where
  pub slot : ℕ
  pub value : LogValue

pub record LogsNotification : Type 0 where
  pub jsonrpc : Text
  pub method_name : Text
  pub result : ResultField
  pub subscription : ℕ

-- The lines that the subscription goes through.
unfoldable pub logs_of : LogsNotification → List Text
logs_of n = n.result.value.logs

pub record TokenInfo : Type 0 where
  pub pair_address : Text
  pub token_address : Text
  pub token_ticker : Text
  pub token_name : Text
  pub token_image : Text
  pub protocol : Text
  pub supply : ℕ
  pub extra : Option Text
  pub created_at : Text
  pub migrated : Bool
  pub liquidity_sol : ℕ
  pub liquidity_token : ℕ
  pub hourly_volume_sol : ℕ
  pub price_sol : ℕ

pub record CreatorHistory : Type 0 where
  pub tokens : List TokenInfo
  pub total_count : ℕ
  pub migrated_count : ℕ

-- `x == 0f64`, `x as u64` and `x.round() as u64`.
pub record Floats : Type 0 where
  pub is_zero : ℕ → Bool
  pub to_u64 : ℕ → ℕ
  pub round_u64 : ℕ → ℕ

abbrev divided : ℕ → ℕ → Option ℕ
divided n d = if nat_beq d 0 then none else some (n / d)

-- `none` is the panic of a division by zero.
unfoldable pub usd_mcap : Floats → TokenInfo → Option ℕ
usd_mcap fl t =
    if fl.is_zero t.liquidity_token
    then some 4900
    else divided (min (fl.to_u64 t.liquidity_sol * 177000000000) (2 ^ 64 - 1))
        (fl.to_u64 t.liquidity_token)

pub data HistoryError : Type 0 where
  request_error deserialization_error : HistoryError

pub data History : Type 0 where
  history : CreatorHistory → History
  failed : HistoryError → History

abbrev as_history : Option CreatorHistory → History
as_history none = failed deserialization_error
as_history (some h) = history h

abbrev history_in : (Text → Option CreatorHistory) → Option Text → History
history_in parse none = failed request_error
history_in parse (some body) = as_history (parse body)

-- The cookie of the environment goes with the request; `none` is the panic where there is no cookie.
-- The status is not looked at.
unfoldable pub get_user_created_coins :
    Solana → Net → (Text → Option CreatorHistory) → Option Text → Pubkey → Option History
get_user_created_coins sol net parse none user = none
get_user_created_coins sol net parse (some cookie) user = some (
    history_in parse (
      text_of (
        net (record {
          url = codes "https://api.axiom.trade/dev-tokens-v2?devAddress=" ++ sol.to_string user;
          headers = (codes "Cookie", cookie) ∷ [];
          seconds = none;
        }))))

abbrev pub document_request : Text → Request
document_request url = record { url = url; headers = []; seconds = some 10 }

unfoldable pub fetch_document : Net → (Text → Option Metadata) → Text → Option Metadata
fetch_document net parse url = parsed parse (checked (net (document_request url)))

-- The first step resolves the address, the second fetches the document.
unfoldable pub get_metadata : Net → (Text → Option Metadata) → Text → Text → Option Metadata
get_metadata net parse ipfs_url url = fetch_document net parse (final_url ipfs_url url)

-- `ApiResponse` holds the community, the status and a message.
pub record ApiResponse : Type 0 where
  pub community_info : CommunityInfo
  pub status : Text
  pub msg : Option Text

abbrev community_in : Option ApiResponse → Option CommunityInfo
community_in none = none
community_in (some r) = some r.community_info

-- The id goes into the address as it is.
abbrev pub community_request : Text → Text → Request
community_request api_key community_id = record {
  url = codes "https://api.twitterapi.io/twitter/community/info?community_id=" ++ community_id;
  headers = (codes "X-API-Key", api_key) ∷ (codes "User-Agent", codes "reqwest") ∷ [];
  seconds = none;
}

unfoldable pub get_community_by_id :
    Net → (Text → Option ApiResponse) → Text → Text → Option CommunityInfo
get_community_by_id net parse api_key community_id =
    community_in (parsed parse (checked (net (community_request api_key community_id))))

-- `PriceResponse`, by its one number. The status is not looked at.
unfoldable pub fetch_solana_price : Net → (Text → Option ℕ) → Option ℕ
fetch_solana_price net parse = parsed parse (
    text_of (
      net (record {
        url = codes "https://api.coingecko.com/api/v3/simple/price?ids=solana&vs_currencies=usd";
        headers = [];
        seconds = none;
      })))

abbrev pub stored : Floats → ℕ → Option ℕ → ℕ
stored fl price none = price
stored fl price (some fetched) = fl.round_u64 fetched

-- The task of `main` that polls the price: what the network is at each tick.
unfoldable pub poll_price : Floats → (Text → Option ℕ) → List Net → ℕ → ℕ
poll_price fl parse [] price = price
poll_price fl parse (net ∷ nets) price =
    poll_price fl parse nets (stored fl price (fetch_solana_price net parse))

-- The price that `main` starts with.
abbrev pub first_price : ℕ
first_price = 180

pub record MoralisMetadata : Type 0 where
  pub name : Option Text
  pub symbol : Option Text

-- `fetch_metadata` of the client, with the key of the environment.
unfoldable pub fetch_metadata :
    Solana → Net → (Text → Option MoralisMetadata) → Option Text → Pubkey → Option MoralisMetadata
fetch_metadata sol net parse none mint = none
fetch_metadata sol net parse (some api_key) mint = parsed parse (
    text_of (
      net (record {
        url =
            codes "https://solana-gateway.moralis.io/token/mainnet/"
            ++ (sol.to_string mint ++ codes "/metadata");
        headers = (codes "accept", codes "application/json") ∷ (codes "X-API-Key", api_key) ∷ [];
        seconds = none;
      })))
