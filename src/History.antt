-- ===== src/History.antt =====
-- tokenir_ui/src/migration.rs: the client that asks for a developer's history. Callers are numbered in
-- the order of their calls. The connection's bounds, pauses and headers are left out: a message waits
-- in `outgoing` until a connection takes it.
pub mod Answer
pub mod Reply
use tokenir.Prelude.{
  nat_eq, ℕ, ◌+◌, ◌%◌, ◌^◌, Bool, true, false, Option, none, some, List, [], ◌∷◌, ◌++◌, leb, ltb,
  length, if◌then◌else◌,
}
use tokenir.Prelude.Map.{Map, get, insert, remove}
use tokenir.Prelude.Text.{Text, codes}
use tokenir.Terminal.{CreatorHistory}

-- `rmp_serde` and `serde_json`: a request as bytes, the array that bytes hold, and what a value is.
pub record Codec (Value : Type 0) : Type 0 where
  pub encode : ℕ → ℕ → Text → Text → Option (List ℕ)
  pub decode : List ℕ → Option (List Value)
  pub as_u64 : Value → Option ℕ
  pub history : Value → Option CreatorHistory

-- `pending` holds the caller behind each sender, `results` what the calls returned.
pub record Padre : Type 0 where
  pub next_seq : ℕ
  pub asked : ℕ
  pub pending : Map ℕ ℕ
  pub outgoing : List (List ℕ)
  pub results : Map ℕ (Option CreatorHistory)

unfoldable pub new : Padre
new = record { next_seq = 1000; asked = 0; pending = []; outgoing = []; results = [] }

-- A call that has returned stays as it is.
abbrev pub settle : ℕ → Option CreatorHistory → Option (Option CreatorHistory) → Padre → Padre
settle caller result none s = record s { results = insert caller result s.results }
settle caller result (some r) s = s

unfoldable pub finish : ℕ → Option CreatorHistory → Padre → Padre
finish caller result s = settle caller result (get caller s.results) s

-- Where a sender is dropped, its caller gets nothing.
abbrev pub drop_sender : Option ℕ → Padre → Padre
drop_sender none s = s
drop_sender (some caller) s = finish caller none s

abbrev pub send : Option (List ℕ) → Padre → Padre
send none s = s
send (some buf) s = record s { outgoing = s.outgoing ++ (buf ∷ []) }

unfoldable pub route : Text → Text
route dev_address = codes "/dev-tokens/chain/SOLANA/dev/" ++ (dev_address ++ codes "/get-dev-stats")

abbrev pub on_sender : Option ℕ → Option CreatorHistory → Padre → Padre
on_sender none result s = s
on_sender (some caller) result s = finish caller result s

-- The channels of the subscription.
pub data Step : Type 0 where
  asks : Text → Text → Step
  writes : Step
  receives : List ℕ → Step
  breaks : Step
  times_out : ℕ → Step

abbrev tail : List (List ℕ) → List (List ℕ)
tail [] = []
tail (m ∷ ms) = ms

module _ {Value : Type 0} (codec : Codec Value) where
  -- The call up to its wait.
  unfoldable pub get_dev_history : Text → Text → Padre → Padre
  get_dev_history dev_address request_id s =
      let seq = s.next_seq in
      let s' = drop_sender (get seq s.pending) s in
      send (codec.encode 8 seq (route dev_address) request_id) (record s' {
        next_seq = (seq + 1) % 2 ^ 32;
        asked = s.asked + 1;
        pending = insert seq s.asked s.pending;
      })

  abbrev numbered : Option ℕ → Value → Option (ℕ × Value)
  numbered none v = none
  numbered (some seq) v = some (seq % 2 ^ 32, v)

  -- The sequence number and the payload of an array of at least four values.
  abbrev reply_in : List Value → Option (ℕ × Value)
  reply_in (a ∷ b ∷ c ∷ d ∷ rest) = numbered (codec.as_u64 b) d
  reply_in _ = none

  abbrev reply_of : Option (List Value) → Option (ℕ × Value)
  reply_of none = none
  reply_of (some raw_array) = reply_in raw_array

  unfoldable pub reply : List ℕ → Option (ℕ × Value)
  reply bin = if leb (length bin) 2 then none else reply_of (codec.decode bin)

  abbrev pub on_reply : Option (ℕ × Value) → Padre → Padre
  on_reply none s = s
  on_reply (some (seq, v)) s =
      on_sender (get seq s.pending) (codec.history v) (record s { pending = remove seq s.pending })

  -- A short message is sent back.
  unfoldable pub on_binary : List ℕ → Padre → Padre
  on_binary bin s = if leb (length bin) 2 then send (some bin) s else on_reply (reply bin) s

  -- The message that is written may be lost with its connection. A call that waited too long, which
  -- is one that was made, leaves its sender where it is.
  unfoldable pub step : Step → Padre → Padre
  step (asks dev_address request_id) s = get_dev_history dev_address request_id s
  step writes s = record s { outgoing = tail s.outgoing }
  step (receives bin) s = on_binary bin s
  step breaks s = s
  step (times_out caller) s = if ltb caller s.asked then finish caller none s else s

  unfoldable pub run : List Step → Padre → Padre
  run [] s = s
  run (e ∷ es) s = run es (step e s)
