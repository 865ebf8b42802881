-- ===== src/Curve/Fetch.antt =====
-- The account of a bonding curve: its encoding in
-- tokenir_ui/src/pump_interaction/accounts/bonding_curve.rs, and `Token` of wrappers/token.rs, which
-- fetches it. The answer of the RPC server is the account's data, if there is any.
use tokenir.Prelude.{ℕ, ◌≡◌, refl, Option, none, some, List, [], ◌∷◌, ◌++◌}
use tokenir.Borsh.{le_bytes}
use tokenir.Borsh.Read.{Reader, pure, ◌>>=◌, read_bool}
use tokenir.Events.Decode.{read_u64}
use tokenir.Events.Reads.{
  IsU64, Reads, pure-Reads, bind-Reads, read_u64-Reads, read_bool-Reads, bool_byte,
}
use tokenir.Curve.{BondingCurve, default_curve}
use tokenir.Instructions.{TokenAccounts}

unfoldable pub read_curve : Reader BondingCurve
unfolding ◌>>=◌
read_curve = do
  discriminator ← read_u64
  virtual_token_reserves ← read_u64
  virtual_sol_reserves ← read_u64
  real_token_reserves ← read_u64
  real_sol_reserves ← read_u64
  token_total_supply ← read_u64
  complete ← read_bool
  pure (record {
    discriminator = discriminator;
    virtual_token_reserves = virtual_token_reserves;
    virtual_sol_reserves = virtual_sol_reserves;
    real_token_reserves = real_token_reserves;
    real_sol_reserves = real_sol_reserves;
    token_total_supply = token_total_supply;
    complete = complete;
  })

pub record Bonded : Type 0 where
  pub accounts : TokenAccounts
  pub bonding_curve : BondingCurve

unfoldable pub bond : TokenAccounts → Bonded
bond accounts = record { accounts = accounts; bonding_curve = default_curve }

abbrev curve_read : Option (BondingCurve × List ℕ) → Option BondingCurve
curve_read none = none
curve_read (some (c, rest)) = some c

unfoldable pub fetch_bounding_curve_data : Option (List ℕ) → Option BondingCurve
fetch_bounding_curve_data none = none
fetch_bounding_curve_data (some input) = curve_read (read_curve input)

abbrev updated : Option BondingCurve → Bonded → Option BondingCurve × Bonded
updated none b = (none, b)
updated (some c) b = (some c, record b { bonding_curve = c })

-- What was there stays where the account cannot be fetched or decoded.
unfoldable pub update_curve : Option (List ℕ) → Bonded → Option BondingCurve × Bonded
update_curve answer b = updated (fetch_bounding_curve_data answer) b

unfoldable pub curve_bytes : BondingCurve → List ℕ
curve_bytes c =
    le_bytes 8 c.discriminator
    ++ (le_bytes 8 c.virtual_token_reserves
        ++ (le_bytes 8 c.virtual_sol_reserves
            ++ (le_bytes 8 c.real_token_reserves
                ++ (le_bytes 8 c.real_sol_reserves
                    ++ (le_bytes 8 c.token_total_supply ++ ((bool_byte c.complete ∷ []) ++ []))))))

abbrev pub IsMachine : BondingCurve → Type 0
IsMachine c =
    (IsU64 c.discriminator)
    × (IsU64 c.virtual_token_reserves)
    × (IsU64 c.virtual_sol_reserves)
    × (IsU64 c.real_token_reserves)
    × (IsU64 c.real_sol_reserves)
    × (IsU64 c.token_total_supply)

curve_bytes-Reads : (c : BondingCurve) → IsMachine c → Reads read_curve c (curve_bytes c)
unfolding read_curve curve_bytes
curve_bytes-Reads c h = bind-Reads _ (read_u64-Reads h.0) (
    bind-Reads _ (read_u64-Reads h.1) (
      bind-Reads _ (read_u64-Reads h.2) (
        bind-Reads _ (read_u64-Reads h.3) (
          bind-Reads _ (read_u64-Reads h.4) (
            bind-Reads _ (read_u64-Reads h.5) (bind-Reads _ (read_bool-Reads _) (pure-Reads c)))))))

-- An account that holds a curve, and whatever follows it, is fetched as that curve.
pub fetch-curve_bytes :
    (c : BondingCurve) (rest : List ℕ) (b : Bonded)
    → IsMachine c
    → update_curve (some (curve_bytes c ++ rest)) b ≡ (some c, record b { bonding_curve = c })
unfolding update_curve fetch_bounding_curve_data
fetch-curve_bytes c rest b h = rw ((curve_bytes-Reads c h).at rest) refl
