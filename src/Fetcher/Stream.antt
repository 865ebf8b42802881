-- ===== src/Fetcher/Stream.antt =====
-- `subscribe_to_websocket` of tokenir/src/fetcher.rs: the connections and the frames they bring, one
-- after the other, with the clock in nanoseconds at each frame, which stands while it is handled. The
-- heartbeat, the pauses and the logging are left out.
use tokenir.Prelude.{ℕ, ◌/◌, Bool, true, false, Option, none, some, List, [], ◌∷◌, ◌++◌}
use tokenir.Prelude.Int.{ℤ, as_i64}
use tokenir.Prelude.Text.{Text, codes, strip_prefix}
use tokenir.Solana.{Solana}
use tokenir.Events.{Event}
use tokenir.Fetcher.{Floats, parse_optimized}

pub data Frame : Type 0 where
  ping : List ℕ → Frame
  pong : Frame
  words : Text → Frame
  close : Frame
  fault : Frame
  other : Frame

-- One turn of the outer loop.
pub data Attempt : Type 0 where
  refused : Attempt
  unsubscribed : Attempt
  served : List (ℕ × Frame) → Attempt

-- The calls of the callback, and the pongs.
pub data Output : Type 0 where
  calls : ℕ → Event → Output
  pongs : List ℕ → Output

abbrev pub data_prefix : Text
data_prefix = codes "Program data: "

abbrev pub seconds : ℕ → ℤ
seconds nanos = as_i64 (nanos / 1_000_000_000)

module _ (sol : Solana) (f : Floats) (decode : Text → Option (List ℕ))
    (parse_logs : Text → Option (List Text)) where
  abbrev called : ℕ → Option Event → List Output
  called now none = []
  called now (some e) = calls now e ∷ []

  abbrev pub on_data : ℕ → Option Text → List Output
  on_data now none = []
  on_data now (some text) = called now (parse_optimized sol f decode (seconds now) text)

  unfoldable pub on_logs : ℕ → List Text → List Output
  on_logs now [] = []
  on_logs now (log ∷ logs) = on_data now (strip_prefix data_prefix log) ++ on_logs now logs

  abbrev pub on_words : ℕ → Option (List Text) → List Output
  on_words now none = []
  on_words now (some logs) = on_logs now logs

  -- The stream ends, or a close or an error ends the loop.
  unfoldable pub read_loop : List (ℕ × Frame) → List Output
  read_loop [] = []
  read_loop ((now, ping payload) ∷ frames) = pongs payload ∷ read_loop frames
  read_loop ((now, pong) ∷ frames) = read_loop frames
  read_loop ((now, words text) ∷ frames) = on_words now (parse_logs text) ++ read_loop frames
  read_loop ((now, close) ∷ frames) = []
  read_loop ((now, fault) ∷ frames) = []
  read_loop ((now, other) ∷ frames) = read_loop frames

  unfoldable pub subscribe_to_websocket : List Attempt → List Output
  subscribe_to_websocket [] = []
  subscribe_to_websocket (refused ∷ attempts) = subscribe_to_websocket attempts
  subscribe_to_websocket (unsubscribed ∷ attempts) = subscribe_to_websocket attempts
  subscribe_to_websocket (served frames ∷ attempts) =
      read_loop frames ++ subscribe_to_websocket attempts

-- The frame leaves the connection up.
abbrev pub stays_up : ℕ × Frame → Bool
stays_up (now, ping payload) = true
stays_up (now, pong) = true
stays_up (now, words text) = true
stays_up (now, close) = false
stays_up (now, fault) = false
stays_up (now, other) = true
