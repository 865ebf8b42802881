-- ===== src/Addresses.antt =====
-- The derived addresses of tokenir/src/constans.rs (`helper`) and of
-- tokenir_ui/src/pump_interaction/constans/mod.rs (`programs`, `accounts`, `deriving`).
use tokenir.Prelude.{ℕ, [], ◌∷◌, Bool, true, false}
use tokenir.Prelude.Text.{codes}
use tokenir.Solana.{Solana, Pubkey}

module _ (sol : Solana) where
  unfoldable pub pump_fun : Pubkey
  pump_fun = sol.pubkey (codes "6EF8rrecthR5Dkzon8Nwu78hRvfCKubJ14M5uBEwF6P")

  unfoldable pub metaplex_program : Pubkey
  metaplex_program = sol.pubkey (codes "metaqbxxUerdq28cj1RbAWkYQm3ybzjb6a8bt518x1s")

  unfoldable pub system_program : Pubkey
  system_program = sol.pubkey (codes "11111111111111111111111111111111")

  unfoldable pub token_program : Pubkey
  token_program = sol.pubkey (codes "TokenkegQfeZyiNwAJbNbGKPFXCWuBvf9Ss623VQ5DA")

  unfoldable pub token_program_2022 : Pubkey
  token_program_2022 = sol.pubkey (codes "TokenzQdBNbLqP5VEhdkAS6EPFLC1PHnBqCXEpPxuEb")

  unfoldable pub associated_token_program : Pubkey
  associated_token_program = sol.pubkey (codes "ATokenGPvbdGVxr1b2hvZbsiqW5xWH25efTNsLJA8knL")

  unfoldable pub rent_program : Pubkey
  rent_program = sol.pubkey (codes "SysvarRent111111111111111111111111111111111")

  unfoldable pub fee_config : Pubkey
  fee_config = sol.pubkey (codes "8Wf5TiAheLUqBrKXeYg2JtAFFMWtKdG2BSFgqUcPVwTt")

  unfoldable pub fee_program : Pubkey
  fee_program = sol.pubkey (codes "pfeeUxB6jkeY1Hxd7CsFCAjcbHA9rWtchMGdZ6VojVZ")

  unfoldable pub event_authority : Pubkey
  event_authority = sol.pubkey (codes "Ce6TQqeHC9p8KetsN6JsjHK7UTZk7nasjjnr7XxXp9F1")

  unfoldable pub mint_authority : Pubkey
  mint_authority = sol.pubkey (codes "TSLvdd1pWpHVjahSpsvCXUbgwsL3JAcvokwaKt1eokM")

  unfoldable pub global_account : Pubkey
  global_account = sol.pubkey (codes "4wTV1YmiEkRvAtNtsSGPtUrqRYQMe5SKy2uB4Jjaxnjf")

  unfoldable pub pump_fee : Pubkey
  pump_fee = sol.pubkey (codes "G5UZAVbAf46s7cKWoyKu8kYTip9DGTpbLZ2qa9Aq69dP")

  -- constans.rs
  unfoldable pub pool_authority : Pubkey → Pubkey × ℕ
  unfolding pump_fun
  pool_authority mint =
      sol.find_program_address
        ((112 ∷ 111 ∷ 111 ∷ 108 ∷ 45 ∷ 97 ∷ 117 ∷ 116 ∷ 104 ∷ 111 ∷ 114 ∷ 105 ∷ 116 ∷ 121 ∷ [])
          ∷ mint
          ∷ [])
        pump_fun

  unfoldable pub pool_pda : Pubkey → Pubkey × ℕ
  unfolding pool_authority
  pool_pda base_mint =
      sol.find_program_address
        (codes "pool"
          ∷ (0 ∷ 0 ∷ [])
          ∷ (pool_authority base_mint).0
          ∷ base_mint
          ∷ sol.pubkey (codes "So11111111111111111111111111111111111111112")
          ∷ [])
        (sol.pubkey (codes "pAMMBay6oceH9fJKBRHGP5D4bD4sWpmSwMn52FMfXEA"))

  -- mod.rs
  unfoldable pub bounding_curve : Pubkey → Pubkey × ℕ
  unfolding pump_fun
  bounding_curve mint = sol.find_program_address (codes "bonding-curve" ∷ mint ∷ []) pump_fun

  -- The program that owns a token's accounts.
  unfoldable pub token_program_of : Bool → Pubkey
  unfolding token_program token_program_2022
  token_program_of true = token_program_2022
  token_program_of false = token_program

  unfoldable pub associated_token_address : Pubkey → Pubkey → Bool → Pubkey × ℕ
  unfolding token_program_of associated_token_program
  associated_token_address wallet mint token_2022 =
      sol.find_program_address (wallet ∷ token_program_of token_2022 ∷ mint ∷ [])
        associated_token_program

  unfoldable pub creator_vault : Pubkey → Pubkey × ℕ
  unfolding pump_fun
  creator_vault creator = sol.find_program_address (codes "creator-vault" ∷ creator ∷ []) pump_fun

  unfoldable pub metadata : Pubkey → Pubkey × ℕ
  unfolding metaplex_program
  metadata mint =
      sol.find_program_address (codes "metadata" ∷ metaplex_program ∷ mint ∷ []) metaplex_program

  unfoldable pub get_global_volume_accumulator_pda : Pubkey
  unfolding pump_fun
  get_global_volume_accumulator_pda =
      (sol.find_program_address (codes "global_volume_accumulator" ∷ []) pump_fun).0

  unfoldable pub get_user_volume_accumulator_pda : Pubkey → Pubkey
  unfolding pump_fun
  get_user_volume_accumulator_pda user =
      (sol.find_program_address (codes "user_volume_accumulator" ∷ user ∷ []) pump_fun).0
