-- ===== src/Events/Wire/Amm.antt =====
-- The bytes of the trades on the exchange, and that they read back (tokenir/src/types/logs.rs).
use tokenir.Prelude.{ℕ, List, [], ◌∷◌}
use tokenir.Prelude.Int.{as_u64}
use tokenir.Borsh.{le_bytes}
use tokenir.Events.{BuyEventAmm, SellEventAmm}
use tokenir.Events.Decode.{read_buy_amm, read_sell_amm}
use tokenir.Events.Reads.{
  IsU64, IsI64, IsKey, Reads, pure-Reads, bind-Reads, read_u64-Reads, read_i64-Reads,
  read_pubkey-Reads,
}
use tokenir.Events.Wire.{concat}

unfoldable pub buy_amm_bytes : BuyEventAmm → List ℕ
buy_amm_bytes e = concat (
    le_bytes 8 (as_u64 e.timestamp)
    ∷ le_bytes 8 e.base_amount_out
    ∷ le_bytes 8 e.max_quote_amount_in
    ∷ le_bytes 8 e.user_base_token_reserves
    ∷ le_bytes 8 e.user_quote_token_reserves
    ∷ le_bytes 8 e.pool_base_token_reserves
    ∷ le_bytes 8 e.pool_quote_token_reserves
    ∷ le_bytes 8 e.quote_amount_in
    ∷ le_bytes 8 e.lp_fee_basis_points
    ∷ le_bytes 8 e.lp_fee
    ∷ le_bytes 8 e.protocol_fee_basis_points
    ∷ le_bytes 8 e.protocol_fee
    ∷ le_bytes 8 e.quote_amount_in_with_lp_fee
    ∷ le_bytes 8 e.user_quote_amount_in
    ∷ e.pool
    ∷ e.user
    ∷ e.user_base_token_account
    ∷ e.user_quote_token_account
    ∷ e.protocol_fee_recipient
    ∷ e.protocol_fee_recipient_token_account
    ∷ [])

abbrev pub FitsBuyAmm : BuyEventAmm → Type 0
FitsBuyAmm e =
    (IsI64 e.timestamp)
    × (IsU64 e.base_amount_out)
    × (IsU64 e.max_quote_amount_in)
    × (IsU64 e.user_base_token_reserves)
    × (IsU64 e.user_quote_token_reserves)
    × (IsU64 e.pool_base_token_reserves)
    × (IsU64 e.pool_quote_token_reserves)
    × (IsU64 e.quote_amount_in)
    × (IsU64 e.lp_fee_basis_points)
    × (IsU64 e.lp_fee)
    × (IsU64 e.protocol_fee_basis_points)
    × (IsU64 e.protocol_fee)
    × (IsU64 e.quote_amount_in_with_lp_fee)
    × (IsU64 e.user_quote_amount_in)
    × (IsKey e.pool)
    × (IsKey e.user)
    × (IsKey e.user_base_token_account)
    × (IsKey e.user_quote_token_account)
    × (IsKey e.protocol_fee_recipient)
    × (IsKey e.protocol_fee_recipient_token_account)

pub buy_amm_bytes-Reads : (e : BuyEventAmm) → FitsBuyAmm e → Reads read_buy_amm e (buy_amm_bytes e)
unfolding buy_amm_bytes read_buy_amm
buy_amm_bytes-Reads e h = bind-Reads _ (read_i64-Reads h.0) (
    bind-Reads _ (read_u64-Reads h.1) (
      bind-Reads _ (read_u64-Reads h.2) (
        bind-Reads _ (read_u64-Reads h.3) (
          bind-Reads _ (read_u64-Reads h.4) (
            bind-Reads _ (read_u64-Reads h.5) (
              bind-Reads _ (read_u64-Reads h.6) (
                bind-Reads _ (read_u64-Reads h.7) (
                  bind-Reads _ (read_u64-Reads h.8) (
                    bind-Reads _ (read_u64-Reads h.9) (
                      bind-Reads _ (read_u64-Reads h.10) (
                        bind-Reads _ (read_u64-Reads h.11) (
                          bind-Reads _ (read_u64-Reads h.12) (
                            bind-Reads _ (read_u64-Reads h.13) (
                              bind-Reads _ (read_pubkey-Reads h.14) (
                                bind-Reads _ (read_pubkey-Reads h.15) (
                                  bind-Reads _ (read_pubkey-Reads h.16) (
                                    bind-Reads _ (read_pubkey-Reads h.17) (
                                      bind-Reads _ (read_pubkey-Reads h.18) (
                                        bind-Reads _ (read_pubkey-Reads h.19)
                                          (pure-Reads e))))))))))))))))))))

unfoldable pub sell_amm_bytes : SellEventAmm → List ℕ
sell_amm_bytes e = concat (
    le_bytes 8 (as_u64 e.timestamp)
    ∷ le_bytes 8 e.base_amount_in
    ∷ le_bytes 8 e.min_quote_amount_out
    ∷ le_bytes 8 e.user_base_token_reserves
    ∷ le_bytes 8 e.user_quote_token_reserves
    ∷ le_bytes 8 e.pool_base_token_reserves
    ∷ le_bytes 8 e.pool_quote_token_reserves
    ∷ le_bytes 8 e.quote_amount_out
    ∷ le_bytes 8 e.lp_fee_basis_points
    ∷ le_bytes 8 e.lp_fee
    ∷ le_bytes 8 e.protocol_fee_basis_points
    ∷ le_bytes 8 e.protocol_fee
    ∷ le_bytes 8 e.quote_amount_out_without_lp_fee
    ∷ le_bytes 8 e.user_quote_amount_out
    ∷ e.pool
    ∷ e.user
    ∷ e.user_base_token_account
    ∷ e.user_quote_token_account
    ∷ e.protocol_fee_recipient
    ∷ e.protocol_fee_recipient_token_account
    ∷ [])

abbrev pub FitsSellAmm : SellEventAmm → Type 0
FitsSellAmm e =
    (IsI64 e.timestamp)
    × (IsU64 e.base_amount_in)
    × (IsU64 e.min_quote_amount_out)
    × (IsU64 e.user_base_token_reserves)
    × (IsU64 e.user_quote_token_reserves)
    × (IsU64 e.pool_base_token_reserves)
    × (IsU64 e.pool_quote_token_reserves)
    × (IsU64 e.quote_amount_out)
    × (IsU64 e.lp_fee_basis_points)
    × (IsU64 e.lp_fee)
    × (IsU64 e.protocol_fee_basis_points)
    × (IsU64 e.protocol_fee)
    × (IsU64 e.quote_amount_out_without_lp_fee)
    × (IsU64 e.user_quote_amount_out)
    × (IsKey e.pool)
    × (IsKey e.user)
    × (IsKey e.user_base_token_account)
    × (IsKey e.user_quote_token_account)
    × (IsKey e.protocol_fee_recipient)
    × (IsKey e.protocol_fee_recipient_token_account)

pub sell_amm_bytes-Reads :
    (e : SellEventAmm) → FitsSellAmm e → Reads read_sell_amm e (sell_amm_bytes e)
unfolding sell_amm_bytes read_sell_amm
sell_amm_bytes-Reads e h = bind-Reads _ (read_i64-Reads h.0) (
    bind-Reads _ (read_u64-Reads h.1) (
      bind-Reads _ (read_u64-Reads h.2) (
        bind-Reads _ (read_u64-Reads h.3) (
          bind-Reads _ (read_u64-Reads h.4) (
            bind-Reads _ (read_u64-Reads h.5) (
              bind-Reads _ (read_u64-Reads h.6) (
                bind-Reads _ (read_u64-Reads h.7) (
                  bind-Reads _ (read_u64-Reads h.8) (
                    bind-Reads _ (read_u64-Reads h.9) (
                      bind-Reads _ (read_u64-Reads h.10) (
                        bind-Reads _ (read_u64-Reads h.11) (
                          bind-Reads _ (read_u64-Reads h.12) (
                            bind-Reads _ (read_u64-Reads h.13) (
                              bind-Reads _ (read_pubkey-Reads h.14) (
                                bind-Reads _ (read_pubkey-Reads h.15) (
                                  bind-Reads _ (read_pubkey-Reads h.16) (
                                    bind-Reads _ (read_pubkey-Reads h.17) (
                                      bind-Reads _ (read_pubkey-Reads h.18) (
                                        bind-Reads _ (read_pubkey-Reads h.19)
                                          (pure-Reads e))))))))))))))))))))
