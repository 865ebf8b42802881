-- ===== src/Solana.antt =====
-- What the program takes from `solana_sdk`: the text form of public keys and derived addresses.
-- A public key is the list of its 32 bytes. The functions are parameters of the definitions that
-- call them; what a theorem relies on is a hypothesis of that theorem.
use tokenir.Prelude.{ℕ, Option, List, replicate, ◌≡◌, some}
use tokenir.Prelude.Text.{Text}

abbrev pub Pubkey : Type 0
Pubkey = List ℕ

-- `Pubkey::default()`
abbrev pub default_pubkey : Pubkey
default_pubkey = replicate 32 0

pub record Solana : Type 0 where
  -- `to_string`, and `parse::<Pubkey>()`
  pub to_string : Pubkey → Text
  pub parse : Text → Option Pubkey
  -- the macro `pubkey!` and `Pubkey::from_str_const`
  pub pubkey : Text → Pubkey
  pub find_program_address : List (List ℕ) → Pubkey → Pubkey × ℕ

-- Parsing a key's text gives the key back, so different keys have different texts.
pub record ParsesBack (sol : Solana) : Type 0 where
  pub parse-to_string : (k : Pubkey) → sol.parse (sol.to_string k) ≡ some k
