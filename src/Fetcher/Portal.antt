-- ===== src/Fetcher/Portal.antt =====
-- `subscribe_new_tokens` of tokenir/src/fetcher.rs: the new tokens that a data service announces. The
-- clock is in nanoseconds.
use tokenir.Prelude.{
  text_eq, ℕ, ◌/◌, ◌%◌, true, ◌&&◌, Option, none, some, List, [], ◌∷◌, ◌++◌, ◌==◌, if◌then◌else◌,
}
use tokenir.Prelude.Text.{Text, codes}
use tokenir.Solana.{Solana, Pubkey, default_pubkey}
use tokenir.Events.{PumpCreateEvent, CreateEvent}
use tokenir.Fetcher.{Floats}
use tokenir.Fetcher.Stream.{
  Frame, ping, pong, words, close, fault, other, Attempt, refused, unsubscribed, served,
}

abbrev pub or_default : Option Pubkey → Pubkey
or_default none = default_pubkey
or_default (some k) = k

unfoldable pub current_timestamp_secs : Floats → ℕ → ℕ
current_timestamp_secs f now =
    f.plus (f.of_u64 (now / 1_000_000_000)) (f.times (f.of_u64 (now % 1_000_000_000)) f.nano)

module _ (sol : Solana) (f : Floats) (parse_event : Text → Option PumpCreateEvent) where
  unfoldable pub portal_create : ℕ → PumpCreateEvent → CreateEvent
  portal_create now raw_event = record {
    name = raw_event.name;
    symbol = raw_event.symbol;
    uri = raw_event.uri;
    mint = or_default (sol.parse raw_event.mint);
    bonding_curve = or_default (sol.parse raw_event.bonding_curve_key);
    user = or_default (sol.parse raw_event.trader_public_key);
    timestamp = f.to_i64 (current_timestamp_secs f now);
    token_2022 = true;
  }

  abbrev on_event : ℕ → Option PumpCreateEvent → List (CreateEvent × ℕ)
  on_event now none = []
  on_event now (some raw_event) =
      if (raw_event.tx_type == codes "create") && (raw_event.pool == codes "pump")
      then (portal_create now raw_event, now) ∷ []
      else []

  unfoldable pub portal_loop : List (ℕ × Frame) → List (CreateEvent × ℕ)
  portal_loop [] = []
  portal_loop ((now, ping payload) ∷ frames) = portal_loop frames
  portal_loop ((now, pong) ∷ frames) = portal_loop frames
  portal_loop ((now, words text) ∷ frames) = on_event now (parse_event text) ++ portal_loop frames
  portal_loop ((now, close) ∷ frames) = []
  portal_loop ((now, fault) ∷ frames) = []
  portal_loop ((now, other) ∷ frames) = portal_loop frames

  unfoldable pub subscribe_new_tokens : List Attempt → List (CreateEvent × ℕ)
  subscribe_new_tokens [] = []
  subscribe_new_tokens (refused ∷ attempts) = subscribe_new_tokens attempts
  subscribe_new_tokens (unsubscribed ∷ attempts) = subscribe_new_tokens attempts
  subscribe_new_tokens (served frames ∷ attempts) =
      portal_loop frames ++ subscribe_new_tokens attempts
