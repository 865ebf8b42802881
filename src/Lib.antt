-- ===== src/Lib.antt =====
-- A model of tokenir, a server that watches token launches on Solana (tokenir/), and of its desktop
-- client (tokenir_ui/), with theorems on what they do.
--
-- The server. The chain's logs come in over websockets and are parsed (Fetcher:
-- tokenir/src/fetcher.rs) into events (Events: tokenir/src/types/logs.rs and trade.rs), other
-- connections bring the announced and the shredded creates (Fetcher/Portal, Fetcher/Shreds), and
-- two feeds hand the events on (Server/Feeds: `main` of tokenir/src/main.rs). For each new token
-- the fast path `process_fast_create` decides whether to broadcast it, and the slow path
-- `process_slow_create` whether to save it (Server/Creates: tokenir/src/main.rs). Both ask the
-- caches (Cache: main.rs), the database (Database: tokenir/src/database.rs and access.rs) and the
-- network, and read community links (Links: tokenir/src/constans.rs). Tokens and market caps are in
-- Token (tokenir/src/token.rs), the pool and the filters of the library in TokenPool
-- (tokenir/src/pool.rs and filters.rs). Clients connect over websockets under their keys, one
-- session for each, and administrators add and remove users (Server/Sessions: `ws_handler`,
-- `handle_socket` and the admin handlers of main.rs; Server/Relay: what a socket is sent;
-- Server/Http: the start of `main`, its router and its end). The administrators' own program is
-- AdminPanel (tokenir_admin/src/main.rs). Services holds the requests to foreign services
-- (tokenir/src/constans.rs, tokenir/src/types/requests.rs and tokenir_ui/src/token.rs), and
-- EndToEnd joins a socket of the server to the client's connection. Bundler is
-- tokenir/src/bundler.rs.
--
-- The client. Its connection to the server (Terminal/Connection: tokenir_ui/src/fetcher.rs) and the
-- service of developers' histories (History: tokenir_ui/src/migration.rs) bring what it goes by,
-- and keypairs are kept in a file (Puppets: pump_interaction/puppeting/puppetmaster.rs). The user
-- logs in (Terminal/Desktop: ui.rs and main.rs, with the subscription that follows the keys in
-- Terminal/Desktop/Session) and sets filters and amounts (Terminal/Settings: ui.rs), which files
-- keep (Terminal/Files); it starts with what they hold and writes its settings back when it ends
-- (Terminal/Startup: main.rs). Terminal/Permission joins the window and the incoming tokens over
-- one state. Each broadcast token goes through `run_subscription` (Terminal/Flow:
-- tokenir_ui/src/main.rs), which asks lists, filters and the feed (Terminal: filter.rs, pool.rs,
-- whitelist.rs, blacklist.rs, token.rs) and buys through `BuyAutomata` (Terminal/Autobuy:
-- autobuy.rs). A purchase prices its order on the bonding curve (Curve:
-- pump_interaction/accounts/bonding_curve.rs, with the account of wrappers/token.rs in Curve/Fetch)
-- and builds instructions (Instructions: pump_interaction/instructions, with Borsh for the encoding
-- and Addresses for the derived addresses of both programs).
--
-- How the code is rendered. Numbers are natural numbers, with the wrap-around of `u64` and `u128`
-- written out where the code can reach it; `i64` columns are integers; the `i32` ids and counts of
-- the database are natural numbers without their bound. Texts are lists of code points, public keys
-- lists of bytes. Hash maps are association lists and their theorems are stated through lookups. A
-- handler is a function on its state that returns its answer and the new state; what other tasks do
-- while it waits is an argument. Panics are values where the code can panic. Every loop of the code
-- runs over a list and is structural recursion; the only fuel is that of the digits of a `u64` in
-- Prelude/Decimal, which are at most twenty.
--
-- The database is the part of PostgreSQL that the code relies on: a statement changes the tables at
-- once or not at all, and each statement may fail, as a list of faults says. A transaction that fails
-- or cannot be committed changes nothing. CHAR(32) keys are compared without padding and read with it.
-- Ids are not bounded, tokens created at the same instant keep the order of their insertion, and the
-- median is the server's own and a parameter.
--
-- A connection is the list of the frames that it brings, and a loop that connects again is a list of
-- such attempts; a theorem on a loop holds for each of them. The clock is given with each frame and
-- stands while the frame is handled.
--
-- Parameters: `solana_sdk` (Solana), the network (Server), base64, JSON, bincode and MessagePack
-- (Fetcher, History, Terminal/Connection), base58 (Puppets), the arithmetic of floats, which are
-- bit patterns (Fetcher), the products in `f32` and instructions that other crates build
-- (Terminal). Not modelled: sockets, the drawing of windows, how files are written (Terminal/Startup
-- takes what is in them afterwards as a parameter), logging, pauses and heartbeats, how JSON and the
-- binary formats are parsed, and the layer for other origins.
--
-- Prelude holds what the modules share; Examples runs the theorems on concrete data.
pub mod Prelude
pub mod Solana
pub mod Addresses
pub mod Borsh
pub mod Database
pub mod EndToEnd
pub mod Events
pub mod Fetcher
pub mod Token
pub mod Links
pub mod Cache
pub mod Server
pub mod Services
pub mod Curve
pub mod TokenPool
pub mod Bundler
pub mod Instructions
pub mod Puppets
pub mod History
pub mod Terminal
pub mod AdminPanel
mod Examples
