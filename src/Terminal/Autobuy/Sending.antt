-- ===== src/Terminal/Autobuy/Sending.antt =====
-- How tokenir_ui/src/autobuy.rs signs and sends a transaction. bincode and base64 are parameters, and
-- what comes of a posted body is a function of it.
use tokenir.Prelude.{ℕ, Option, none, some, List, ◌++◌}
use tokenir.Prelude.Text.{Text, codes}
use tokenir.Solana.{Pubkey}
use tokenir.Instructions.{Instruction}
use tokenir.Puppets.{Keypair}
use tokenir.Terminal.Autobuy.{
  BuyAutomata, Outcome, sent, failed, panicked, Error, block_hash_fetch_failed,
}

-- Signed by the wallet, which pays.
pub record Transaction : Type 0 where
  pub instructions : List Instruction
  pub payer : Pubkey
  pub blockhash : Text

-- The clone of a keypair is read from its bytes again; `none` is a panic.
unfoldable pub clone_keypair :
    (Keypair → List ℕ) → (List ℕ → Option Keypair) → Keypair → Option Keypair
clone_keypair to_bytes from_bytes keypair = from_bytes (to_bytes keypair)

unfoldable pub process_transaction :
    BuyAutomata → Option Text → List Instruction → Option Transaction
process_transaction a none instructions = none
process_transaction a (some blockhash) instructions =
    some (record { instructions = instructions; payer = a.wallet; blockhash = blockhash })

pub data Sent : Type 0 where
  transaction_error : Sent
  accepted : Text → Sent

-- `json!` puts the fields of an object in the order of their names. The quotes are code point 34.
abbrev quoted : Text → Text
quoted t = codes "\"" ++ (t ++ codes "\"")

abbrev pub body_of : Text → Text
body_of encoded =
    codes "{\"id\":1,\"jsonrpc\":\"2.0\",\"method\":\"sendTransaction\",\"params\":["
    ++ (quoted encoded ++ codes ",{\"encoding\":\"base64\",\"skipPreflight\":true}]}")

module _ (serialize : Transaction → Option (List ℕ)) (base64 : List ℕ → Text)
    (post : Text → Option (Option Text)) where
  -- `post` gives no response, or one whose body is the text, if it can be read.
  abbrev posted : Option (Option Text) → Sent
  posted none = transaction_error
  posted (some none) = transaction_error
  posted (some (some text)) = accepted text

  abbrev send_bytes : Option (List ℕ) → Sent
  send_bytes none = transaction_error
  send_bytes (some bytes) = posted (post (body_of (base64 bytes)))

  unfoldable pub send_via_jito : Transaction → Sent
  send_via_jito tx = send_bytes (serialize tx)

  -- What `buy` returns: nothing, an error, or a panic.
  pub data Returned : Type 0 where
    done : Returned
    gives : Error → Returned
    panics : Returned

  -- The last steps of `buy`: what came of sending is dropped.
  abbrev dropped : Sent → Returned
  dropped transaction_error = done
  dropped (accepted text) = done

  abbrev sends_transaction : Option Transaction → Returned
  sends_transaction none = gives block_hash_fetch_failed
  sends_transaction (some tx) = dropped (send_via_jito tx)

  unfoldable pub returned_of : BuyAutomata → Option Text → Outcome → Returned
  unfolding process_transaction send_via_jito
  returned_of a blockhash (sent instructions) =
      sends_transaction (process_transaction a blockhash instructions)
  returned_of a blockhash (failed e) = gives e
  returned_of a blockhash panicked = panics
