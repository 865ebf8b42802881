-- ===== src/Fetcher/Shreds.antt =====
-- `subscribe_jito` of tokenir/src/fetcher.rs: the creates in the transactions of a shred stream. The
-- clock is in nanoseconds.
use tokenir.Prelude.{
  text_eq, ℕ, Bool, Option, none, some, List, [], ◌∷◌, ◌++◌, ◌==◌, if◌then◌else◌, get_elem?,
}
use tokenir.Prelude.Text.{Text, strip_prefix}
use tokenir.Solana.{Solana, Pubkey}
use tokenir.Addresses.{pump_fun}
use tokenir.Borsh.Read.{Reader, pure, ◌>>=◌, read_bytes, read_text, read_bool}
use tokenir.Events.{CreateEvent, token_2022_program}
use tokenir.Fetcher.Stream.{seconds}

pub record CreateV2Args : Type 0 where
  pub name : Text
  pub symbol : Text
  pub uri : Text
  pub creator : Pubkey
  pub mayhem : Bool

unfoldable pub read_create_v2_args : Reader CreateV2Args
unfolding ◌>>=◌
read_create_v2_args = do
  name ← read_text
  symbol ← read_text
  uri ← read_text
  creator ← read_bytes 32
  mayhem ← read_bool
  pure (record { name = name; symbol = symbol; uri = uri; creator = creator; mayhem = mayhem })

abbrev whole : {A : Type 0} → Option (A × List ℕ) → Option A
whole none = none
whole (some (a, [])) = some a
whole (some (a, b ∷ rest)) = none

-- `try_from_slice`, which refuses bytes that are left over.
unfoldable pub create_v2_args : List ℕ → Option CreateV2Args
create_v2_args bytes = whole (read_create_v2_args bytes)

-- The indices are bytes.
pub record Instruction : Type 0 where
  pub program_id_index : ℕ
  pub accounts : List ℕ
  pub input : List ℕ

pub record Transaction : Type 0 where
  pub static_account_keys : List Pubkey
  pub instructions : List Instruction

abbrev create_v2_discriminator : List ℕ
create_v2_discriminator = 214 ∷ 144 ∷ 76 ∷ 236 ∷ 95 ∷ 139 ∷ 49 ∷ 180 ∷ []

abbrev key_at : Option ℕ → List Pubkey → Option Pubkey
key_at none lookup = none
key_at (some i) lookup = get_elem? lookup i

unfoldable pub get_account_ptr : ℕ → List ℕ → List Pubkey → Option Pubkey
get_account_ptr index instruction_accounts lookup =
    key_at (get_elem? instruction_accounts index) lookup

module _ (sol : Solana) (now : ℕ) where
  abbrev event_with :
      CreateV2Args → Option Pubkey → Option Pubkey → Option Pubkey → List CreateEvent
  event_with args (some mint) (some bonding_curve) (some token_acc) =
      record {
        name = args.name;
        symbol = args.symbol;
        uri = args.uri;
        mint = mint;
        bonding_curve = bonding_curve;
        user = args.creator;
        timestamp = seconds now;
        token_2022 = token_acc == sol.pubkey token_2022_program;
      }
      ∷ []
  event_with args (some mint) (some bonding_curve) none = []
  event_with args (some mint) none token_acc = []
  event_with args none bonding_curve token_acc = []

  abbrev with_args : List ℕ → List Pubkey → Option CreateV2Args → List CreateEvent
  with_args accounts lookup none = []
  with_args accounts lookup (some args) =
      event_with args (get_account_ptr 0 accounts lookup) (get_account_ptr 2 accounts lookup)
        (get_account_ptr 7 accounts lookup)

  abbrev with_input : List ℕ → List Pubkey → Option (List ℕ) → List CreateEvent
  with_input accounts lookup none = []
  with_input accounts lookup (some args) = with_args accounts lookup (create_v2_args args)

  abbrev with_program : Instruction → List Pubkey → Option Pubkey → List CreateEvent
  with_program i lookup none = []
  with_program i lookup (some program_id) =
      if program_id == pump_fun sol
      then with_input i.accounts lookup (strip_prefix create_v2_discriminator i.input)
      else []

  unfoldable pub instruction_events : List Pubkey → Instruction → List CreateEvent
  instruction_events lookup i = with_program i lookup (get_elem? lookup i.program_id_index)

  unfoldable pub instructions_events : List Pubkey → List Instruction → List CreateEvent
  instructions_events lookup [] = []
  instructions_events lookup (i ∷ is) = instruction_events lookup i ++ instructions_events lookup is

  unfoldable pub transactions_events : List Transaction → List CreateEvent
  transactions_events [] = []
  transactions_events (tx ∷ txs) =
      instructions_events tx.static_account_keys tx.instructions ++ transactions_events txs

-- What `message` brings: the bytes of a slot's entries, or an end or an error, which end the loop.
pub data Received : Type 0 where
  slot : ℕ → List ℕ → Received
  ended : Received

-- One turn of the outer loop.
pub data Session : Type 0 where
  refused : Session
  unsubscribed : Session
  streamed : List Received → Session

-- `deserialize` gives the transactions of the entries, in their order.
module _ (sol : Solana) (deserialize : List ℕ → Option (List Transaction)) where
  abbrev slot_events : ℕ → Option (List Transaction) → List CreateEvent
  slot_events now none = []
  slot_events now (some txs) = transactions_events sol now txs

  abbrev timed : ℕ → List CreateEvent → List (CreateEvent × ℕ)
  timed now [] = []
  timed now (e ∷ es) = (e, now) ∷ timed now es

  unfoldable pub stream_loop : List Received → List (CreateEvent × ℕ)
  stream_loop [] = []
  stream_loop (slot now entries ∷ rest) =
      timed now (slot_events now (deserialize entries)) ++ stream_loop rest
  stream_loop (ended ∷ rest) = []

  unfoldable pub subscribe_jito : List Session → List (CreateEvent × ℕ)
  subscribe_jito [] = []
  subscribe_jito (refused ∷ sessions) = subscribe_jito sessions
  subscribe_jito (unsubscribed ∷ sessions) = subscribe_jito sessions
  subscribe_jito (streamed received ∷ sessions) = stream_loop received ++ subscribe_jito sessions
