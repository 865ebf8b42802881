-- ===== src/Events/Wire.antt =====
-- The bytes of an event as the chain writes them, and that they read back: creates and
-- trades on the curve (tokenir/src/types/logs.rs).
pub mod Amm
use tokenir.Prelude.{ℕ, ◌≡◌, ◌<◌, none, List, [], ◌∷◌, ◌++◌, length, arith, ap}
use tokenir.Prelude.Int.{ℤ, as_u64}
use tokenir.Borsh.{le_bytes, text_bytes}
use tokenir.Borsh.Read.{Reader, then_read, ◌>>=◌}
use tokenir.Events.{CreateEvent, CreateEventV2, TradeEvent}
use tokenir.Events.Decode.{read_create, read_create_v2, read_trade, read_pubkey}
use tokenir.Events.Reads.{
  IsU64, IsI64, IsKey, IsText, Reads, bind-fails, pure-Reads, bind-Reads, read_u64-Reads,
  read_i64-Reads, read_pubkey-Reads, read_text-Reads, read_bool-Reads, read_flag-Reads, bool_byte,
}

abbrev pub concat : List (List ℕ) → List ℕ
concat [] = []
concat (xs ∷ xss) = xs ++ concat xss

unfoldable pub create_v2_bytes : CreateEventV2 → List ℕ
create_v2_bytes e = concat (
    text_bytes e.name
    ∷ text_bytes e.symbol
    ∷ text_bytes e.uri
    ∷ e.mint
    ∷ e.bonding_curve
    ∷ e.user
    ∷ e.creator
    ∷ le_bytes 8 (as_u64 e.timestamp)
    ∷ le_bytes 8 e.virtual_token_reserves
    ∷ le_bytes 8 e.virtual_sol_reserves
    ∷ le_bytes 8 e.real_token_reserves
    ∷ le_bytes 8 e.token_total_supply
    ∷ e.token_program
    ∷ (bool_byte e.is_mayhem_mode ∷ [])
    ∷ [])

abbrev pub FitsCreateV2 : CreateEventV2 → Type 0
FitsCreateV2 e =
    (IsText e.name)
    × (IsText e.symbol)
    × (IsText e.uri)
    × (IsKey e.mint)
    × (IsKey e.bonding_curve)
    × (IsKey e.user)
    × (IsKey e.creator)
    × (IsI64 e.timestamp)
    × (IsU64 e.virtual_token_reserves)
    × (IsU64 e.virtual_sol_reserves)
    × (IsU64 e.real_token_reserves)
    × (IsU64 e.token_total_supply)
    × (IsKey e.token_program)

pub create_v2_bytes-Reads :
    (e : CreateEventV2) → FitsCreateV2 e → Reads read_create_v2 e (create_v2_bytes e)
unfolding create_v2_bytes read_create_v2
create_v2_bytes-Reads e h = bind-Reads _ (read_text-Reads h.0) (
    bind-Reads _ (read_text-Reads h.1) (
      bind-Reads _ (read_text-Reads h.2) (
        bind-Reads _ (read_pubkey-Reads h.3) (
          bind-Reads _ (read_pubkey-Reads h.4) (
            bind-Reads _ (read_pubkey-Reads h.5) (
              bind-Reads _ (read_pubkey-Reads h.6) (
                bind-Reads _ (read_i64-Reads h.7) (
                  bind-Reads _ (read_u64-Reads h.8) (
                    bind-Reads _ (read_u64-Reads h.9) (
                      bind-Reads _ (read_u64-Reads h.10) (
                        bind-Reads _ (read_u64-Reads h.11) (
                          bind-Reads _ (read_pubkey-Reads h.12)
                            (bind-Reads _ (read_bool-Reads _) (pure-Reads e))))))))))))))

unfoldable pub trade_bytes : TradeEvent → List ℕ
trade_bytes e = concat (
    e.mint
    ∷ le_bytes 8 e.sol_amount
    ∷ le_bytes 8 e.token_amount
    ∷ (bool_byte e.is_buy ∷ [])
    ∷ e.user
    ∷ le_bytes 8 (as_u64 e.timestamp)
    ∷ le_bytes 8 e.virtual_sol_reserves
    ∷ le_bytes 8 e.virtual_token_reserves
    ∷ [])

abbrev pub FitsTrade : TradeEvent → Type 0
FitsTrade e =
    (IsKey e.mint)
    × (IsU64 e.sol_amount)
    × (IsU64 e.token_amount)
    × (IsKey e.user)
    × (IsI64 e.timestamp)
    × (IsU64 e.virtual_sol_reserves)
    × (IsU64 e.virtual_token_reserves)

pub trade_bytes-Reads : (e : TradeEvent) → FitsTrade e → Reads read_trade e (trade_bytes e)
unfolding trade_bytes read_trade
trade_bytes-Reads e h = bind-Reads _ (read_pubkey-Reads h.0) (
    bind-Reads _ (read_u64-Reads h.1) (
      bind-Reads _ (read_u64-Reads h.2) (
        bind-Reads _ (read_bool-Reads _) (
          bind-Reads _ (read_pubkey-Reads h.3) (
            bind-Reads _ (read_i64-Reads h.4) (
              bind-Reads _ (read_u64-Reads h.5)
                (bind-Reads _ (read_u64-Reads h.6) (pure-Reads e))))))))

-- The old form of a create ends with its flag.
unfoldable pub create_bytes : CreateEvent → List ℕ
create_bytes e = concat (
    text_bytes e.name
    ∷ text_bytes e.symbol
    ∷ text_bytes e.uri
    ∷ e.mint
    ∷ e.bonding_curve
    ∷ e.user
    ∷ (bool_byte e.token_2022 ∷ [])
    ∷ [])

abbrev pub FitsCreate : CreateEvent → Type 0
FitsCreate e =
    (IsText e.name)
    × (IsText e.symbol)
    × (IsText e.uri)
    × (IsKey e.mint)
    × (IsKey e.bonding_curve)
    × (IsKey e.user)

pub create_bytes-Reads :
    (now : ℤ) (e : CreateEvent)
    → FitsCreate e
    → Reads (read_create now) (record e { timestamp = now }) (create_bytes e)
unfolding create_bytes read_create
create_bytes-Reads now e h = bind-Reads _ (read_text-Reads h.0) (
    bind-Reads _ (read_text-Reads h.1) (
      bind-Reads _ (read_text-Reads h.2) (
        bind-Reads _ (read_pubkey-Reads h.3) (
          bind-Reads _ (read_pubkey-Reads h.4) (
            bind-Reads _ (read_pubkey-Reads h.5)
              (bind-Reads _ (read_flag-Reads _) (pure-Reads (record e { timestamp = now }))))))))

read_pubkey_short : (bs : List ℕ) → length bs < 32 → read_pubkey bs ≡ none
unfolding read_pubkey
read_pubkey_short bs h = ground arith

module _ {A B : Type 0} where
  read_fails : (m : Reader A) (f : A → Reader B) (bs : List ℕ) → m bs ≡ none → (m >>= f) bs ≡ none
  unfolding ◌>>=◌
  read_fails m f bs h = ap (λ o. then_read o f) h

-- With less than 31 bytes behind its flag it is not taken for the new form.
pub read_create_v2-create_bytes :
    (e : CreateEvent) (extra : List ℕ)
    → FitsCreate e
    → length extra < 31
    → read_create_v2 (create_bytes e ++ extra) ≡ none
unfolding create_bytes read_create_v2
read_create_v2-create_bytes e extra h k = bind-fails _ _ extra (read_text-Reads h.0) (
    bind-fails _ _ extra (read_text-Reads h.1) (
      bind-fails _ _ extra (read_text-Reads h.2) (
        bind-fails _ _ extra (read_pubkey-Reads h.3) (
          bind-fails _ _ extra (read_pubkey-Reads h.4) (
            bind-fails _ _ extra (read_pubkey-Reads h.5) (
              read_fails read_pubkey _ _
                (read_pubkey_short (bool_byte e.token_2022 ∷ extra) (omega arith))))))))
