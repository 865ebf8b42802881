-- ===== src/Server/Relay.antt =====
-- `handle_socket` of tokenir/src/main.rs: what a client is sent. A receiver that was too slow misses
-- messages and goes on.
use tokenir.Prelude.{ℕ, ◌≡◌, refl, Bool, true, false, List, [], ◌∷◌, all, if◌then◌else◌, arith}
use tokenir.Prelude.Text.{Text, codes}
use tokenir.Server.Sessions.{Sessions, connection_info}

-- What `recv` gives, and whether sending it on works.
pub data Broadcast : Type 0 where
  message : Text → Bool → Broadcast
  lagged : ℕ → Broadcast
  closed : Broadcast

unfoldable pub send_task : List Broadcast → List Text
send_task [] = []
send_task (message text true ∷ rest) = text ∷ send_task rest
send_task (message text false ∷ rest) = []
send_task (lagged n ∷ rest) = send_task rest
send_task (closed ∷ rest) = []

-- The frames that the client sends are read and dropped, until one is an error. What is left is not
-- read; `true` is a frame.
unfoldable pub recv_task : List Bool → List Bool
recv_task [] = []
recv_task (true ∷ frames) = recv_task frames
recv_task (false ∷ frames) = frames

-- The words of the first message.
abbrev pub status_words : Bool → Text
status_words true = codes "Autobuy is enabled for your account"
status_words false = codes "Autobuy is disabled for your account"

-- `info` is the JSON of the first message: the flag, the number of the session and the words.
unfoldable pub greeting : (Bool → ℕ → Text → Text) → Text → ℕ → Sessions → Text × Sessions
greeting info key session_id s =
    let (status, s') = connection_info key s in (info status session_id (status_words status), s')

-- A first message that cannot be sent is dropped, and the relaying starts in any case. The end of the
-- task that reads frames does not stop it: `select!` lets go of the handle and the task goes on.
unfoldable pub handle_socket :
    (Bool → ℕ → Text → Text) → Text → ℕ → Bool → List Broadcast → Sessions → List Text × Sessions
handle_socket info key session_id greeted broadcasts s =
    let (first, s') = greeting info key session_id s in
    let rest = send_task broadcasts in (if greeted then first ∷ rest else rest, s')

abbrev texts : List Broadcast → List Text
texts [] = []
texts (message text sent ∷ rest) = text ∷ texts rest
texts (lagged n ∷ rest) = texts rest
texts (closed ∷ rest) = texts rest

abbrev works : Broadcast → Bool
works (message text sent) = sent
works (lagged n) = true
works closed = false

-- While the channel is open and sending works, every message that the receiver is given is sent on, in
-- the order of the channel.
pub send_task-texts : (bs : List Broadcast) → all works bs ≡ true → send_task bs ≡ texts bs
unfolding send_task
send_task-texts [] h = refl
send_task-texts (message text true ∷ rest) h = rw (send_task-texts rest h) refl
send_task-texts (message text false ∷ rest) h = ground arith
send_task-texts (lagged n ∷ rest) h = send_task-texts rest h
send_task-texts (closed ∷ rest) h = ground arith
