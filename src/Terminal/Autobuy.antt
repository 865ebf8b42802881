-- ===== src/Terminal/Autobuy.antt =====
-- `BuyAutomata` of tokenir_ui/src/autobuy.rs.
--
-- The constructors of foreign instructions and the answers of the RPC server are parameters. A
-- transaction is its list of instructions; the answer to it is ignored. `u64` wraps around.
pub mod Purchase
pub mod Sending
use tokenir.Prelude.{
  ℕ, ◌+◌, ◌*◌, ◌/◌, ◌%◌, ◌^◌, Bool, true, false, Option, none, some, List, [], ◌∷◌,
}
use tokenir.Prelude.Text.{codes}
use tokenir.Solana.{Solana, Pubkey}
use tokenir.Addresses.{token_program_of}
use tokenir.Curve
use tokenir.Curve.{BondingCurve}
use tokenir.Instructions
use tokenir.Instructions.{Instruction, Order, TokenAccounts, token_accounts}
use tokenir.Terminal.{UiToken, FilterSet, Floats}

pub record Params : Type 0 where
  pub lamport_amount : ℕ
  pub priority_fee : ℕ
  pub slippage : ℕ
  pub bribe : ℕ
  pub filters : FilterSet
  pub use_leader_send : Bool

pub record BuyAutomata : Type 0 where
  pub enabled : Bool
  pub wallet : Pubkey
  pub params : Params
  pub active_twitter : Bool
  pub active_migrate : Bool
  pub active_whitelist : Bool

unfoldable pub with_config : Pubkey → Params → BuyAutomata
with_config wallet params = record {
  enabled = false;
  wallet = wallet;
  params = params;
  active_twitter = false;
  active_migrate = false;
  active_whitelist = false;
}

-- Instructions that other crates build.
pub record Foreign : Type 0 where
  pub set_compute_unit_limit : ℕ → Instruction
  pub set_compute_unit_price : ℕ → Instruction
  pub create_associated_token_account_idempotent : Pubkey → Pubkey → Pubkey → Pubkey → Instruction
  pub system_transfer : Pubkey → Pubkey → ℕ → Instruction

pub data Error : Type 0 where
  block_hash_fetch_failed bounding_curve_not_found : Error

pub data Outcome : Type 0 where
  sent : List Instruction → Outcome
  failed : Error → Outcome
  panicked : Outcome

abbrev pub compute_limit : ℕ
compute_limit = 120_000

unfoldable pub micro_price : ℕ → ℕ
micro_price priority_fee = priority_fee * 1_000_000 / compute_limit % 2 ^ 64

-- The most lamports that the order may cost.
unfoldable pub max_cost : Floats → Params → ℕ
max_cost fl p = (p.lamport_amount + fl.scaled p.lamport_amount p.slippage) % 2 ^ 64

module _ (sol : Solana) (fl : Floats) (foreign : Foreign) where
  unfoldable pub order_instructions : BuyAutomata → UiToken → ℕ → List Instruction
  unfolding micro_price max_cost
  order_instructions a token amount =
      foreign.set_compute_unit_limit compute_limit
      ∷ foreign.set_compute_unit_price (micro_price a.params.priority_fee)
      ∷ foreign.create_associated_token_account_idempotent a.wallet a.wallet token.mint
          (token_program_of sol token.token_2022)
      ∷ Instructions.buy sol a.wallet (token_accounts sol token.mint token.dev token.token_2022)
          (record { token_amount = amount; slippage = max_cost fl a.params }) token.token_2022
      ∷ foreign.system_transfer a.wallet
          (sol.pubkey (codes "D1Mc6j9xQWgR1o1Z7yU5nVVXFQiAYx7FG9AW1aVfwrUM")) a.params.bribe
      ∷ []

  -- `proccess_transaction`: without a block hash nothing is sent.
  abbrev processed : Bool → List Instruction → Outcome
  processed false instructions = failed block_hash_fetch_failed
  processed true instructions = sent instructions

  -- `unwrap` panics on the error of the curve.
  abbrev unwrapped : BuyAutomata → UiToken → Bool → Option ℕ → Outcome
  unwrapped a token blockhash none = panicked
  unwrapped a token blockhash (some amount) =
      processed blockhash (order_instructions a token amount)

  abbrev with_curve : BuyAutomata → UiToken → Bool → Option BondingCurve → Outcome
  with_curve a token blockhash none = failed bounding_curve_not_found
  with_curve a token blockhash (some curve) =
      unwrapped a token blockhash (Curve.buy curve a.params.lamport_amount)

  -- What the server says of the curve's account and of the latest block hash comes as arguments.
  unfoldable pub buy : BuyAutomata → UiToken → Option BondingCurve → Bool → Outcome
  unfolding order_instructions
  buy a token curve blockhash = with_curve a token blockhash curve
