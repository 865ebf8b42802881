-- ===== src/Instructions.antt =====
-- tokenir_ui/src/pump_interaction/instructions and `TokenAccounts` of wrappers/token.rs. A signer is
-- its public key.
pub mod Layout
use tokenir.Prelude.{ℕ, ◌+◌, Bool, true, false, Option, none, some, List, [], ◌∷◌, ◌++◌}
use tokenir.Prelude.Text.{Text}
use tokenir.Solana.{Solana, Pubkey}
use tokenir.Borsh.{le_bytes, text_bytes}
use tokenir.Addresses.{
  pump_fun, metaplex_program, system_program, token_program, associated_token_program, rent_program,
  fee_config, fee_program, event_authority, mint_authority, global_account, pump_fee,
  bounding_curve, token_program_of, associated_token_address, creator_vault,
  get_global_volume_accumulator_pda, get_user_volume_accumulator_pda,
}
use tokenir.Addresses

-- `solana_sdk::instruction`
pub record AccountMeta : Type 0 where
  pub pubkey : Pubkey
  pub is_signer : Bool
  pub is_writable : Bool

abbrev pub writable : Pubkey → Bool → AccountMeta
writable key signs = record { pubkey = key; is_signer = signs; is_writable = true }

abbrev pub readonly : Pubkey → Bool → AccountMeta
readonly key signs = record { pubkey = key; is_signer = signs; is_writable = false }

pub record Instruction : Type 0 where
  pub program_id : Pubkey
  pub accounts : List AccountMeta
  pub bytes : List ℕ

pub record TokenAccounts : Type 0 where
  pub mint : Pubkey
  pub bonding_curve : Pubkey
  pub associated_bonding_curve : Pubkey
  pub metadata : Pubkey
  pub creator : Pubkey
  pub creator_vault : Pubkey

-- `Buy` and `Sell`
pub record Order : Type 0 where
  pub token_amount : ℕ
  pub slippage : ℕ

pub record Create : Type 0 where
  pub name : Text
  pub symbol : Text
  pub uri : Text
  pub creator : Pubkey

abbrev pub buy_discriminator : List ℕ
buy_discriminator = 102 ∷ 6 ∷ 61 ∷ 18 ∷ 1 ∷ 218 ∷ 235 ∷ 234 ∷ []

abbrev pub sell_discriminator : List ℕ
sell_discriminator = 51 ∷ 230 ∷ 133 ∷ 164 ∷ 1 ∷ 127 ∷ 131 ∷ 173 ∷ []

abbrev pub create_discriminator : List ℕ
create_discriminator = 24 ∷ 30 ∷ 200 ∷ 40 ∷ 5 ∷ 28 ∷ 7 ∷ 119 ∷ []

unfoldable pub buy_data : Order → List ℕ
buy_data o = buy_discriminator ++ le_bytes 8 o.token_amount ++ le_bytes 8 o.slippage

unfoldable pub sell_data : Order → List ℕ
sell_data o = sell_discriminator ++ le_bytes 8 o.token_amount ++ le_bytes 8 o.slippage

unfoldable pub create_data : Create → List ℕ
create_data c =
    create_discriminator
    ++ text_bytes c.name
    ++ text_bytes c.symbol
    ++ text_bytes c.uri
    ++ c.creator

unfoldable pub transfer_data : ℕ → List ℕ
transfer_data lamports = (2 ∷ 0 ∷ 0 ∷ 0 ∷ []) ++ le_bytes 8 lamports

module _ (sol : Solana) where
  unfoldable pub token_accounts : Pubkey → Pubkey → Bool → TokenAccounts
  token_accounts mint creator token_2022 =
      let curve = (bounding_curve sol mint).0 in
      record {
        mint = mint;
        bonding_curve = curve;
        associated_bonding_curve = (associated_token_address sol curve mint token_2022).0;
        metadata = (Addresses.metadata sol mint).0;
        creator = creator;
        creator_vault = (creator_vault sol creator).0;
      }

  unfoldable pub buy : Pubkey → TokenAccounts → Order → Bool → Instruction
  unfolding buy_data
  buy signer token order token_2022 = record {
    program_id = pump_fun sol;
    accounts =
        readonly (global_account sol) false
        ∷ writable (pump_fee sol) false
        ∷ readonly token.mint false
        ∷ writable token.bonding_curve false
        ∷ writable token.associated_bonding_curve false
        ∷ writable (associated_token_address sol signer token.mint token_2022).0 false
        ∷ writable signer true
        ∷ readonly (system_program sol) false
        ∷ readonly (token_program_of sol token_2022) false
        ∷ writable token.creator_vault false
        ∷ readonly (event_authority sol) false
        ∷ readonly (pump_fun sol) false
        ∷ writable (get_global_volume_accumulator_pda sol) false
        ∷ writable (get_user_volume_accumulator_pda sol signer) false
        ∷ readonly (fee_config sol) false
        ∷ readonly (fee_program sol) false
        ∷ [];
    bytes = buy_data order;
  }

  unfoldable pub sell : Pubkey → TokenAccounts → Order → Bool → Instruction
  unfolding sell_data
  sell signer token order token_2022 = record {
    program_id = pump_fun sol;
    accounts =
        readonly (global_account sol) false
        ∷ writable (pump_fee sol) false
        ∷ readonly token.mint false
        ∷ writable token.bonding_curve false
        ∷ writable token.associated_bonding_curve false
        ∷ writable (associated_token_address sol signer token.mint token_2022).0 false
        ∷ writable signer true
        ∷ readonly (system_program sol) false
        ∷ writable token.creator_vault false
        ∷ readonly (token_program_of sol token_2022) false
        ∷ readonly (event_authority sol) false
        ∷ readonly (pump_fun sol) false
        ∷ [];
    bytes = sell_data order;
  }

  unfoldable pub create : Pubkey → TokenAccounts → Create → Instruction
  unfolding create_data
  create signer token c = record {
    program_id = pump_fun sol;
    accounts =
        writable token.mint true
        ∷ readonly (mint_authority sol) false
        ∷ writable token.bonding_curve false
        ∷ writable token.associated_bonding_curve false
        ∷ readonly (global_account sol) false
        ∷ readonly (metaplex_program sol) false
        ∷ writable token.metadata false
        ∷ writable signer true
        ∷ readonly (system_program sol) false
        ∷ readonly (token_program sol) false
        ∷ readonly (associated_token_program sol) false
        ∷ readonly (rent_program sol) false
        ∷ readonly (event_authority sol) false
        ∷ readonly (pump_fun sol) false
        ∷ [];
    bytes = create_data c;
  }

  unfoldable pub create_account : Pubkey → Pubkey → Bool → Instruction
  create_account wallet mint token_2022 = record {
    program_id = associated_token_program sol;
    accounts =
        writable wallet true
        ∷ writable (associated_token_address sol wallet mint token_2022).0 false
        ∷ writable wallet true
        ∷ writable mint false
        ∷ readonly (system_program sol) false
        ∷ readonly (token_program_of sol token_2022) false
        ∷ [];
    bytes = 1 ∷ [];
  }

  unfoldable pub transfer : Pubkey → Pubkey → ℕ → Instruction
  unfolding transfer_data
  transfer from to lamports = record {
    program_id = system_program sol;
    accounts = writable from true ∷ writable to false ∷ [];
    bytes = transfer_data lamports;
  }
