-- ===== src/Fetcher/Logs.antt =====
-- The logs that the programs on the chain write, and that tokenir/src/fetcher.rs reads them back.
use tokenir.Prelude.{
  text_eq, ℕ, ◌≡◌, ◌<◌, refl, Option, some, List, ◌++◌, length, arith, length-append,
  take-append_self, drop-append_self,
}
use tokenir.Prelude.Int.{ℤ}
use tokenir.Prelude.Text.{Text}
use tokenir.Solana.{Solana}
use tokenir.Events.{
  CreateEvent, CreateEventV2, TradeEvent, BuyEventAmm, SellEventAmm, Event, create, buy, sell,
  create_of_v2, buy_of_amm, sell_of_amm,
}
use tokenir.Events.Wire.{
  create_bytes, create_v2_bytes, trade_bytes, FitsCreate, FitsCreateV2, FitsTrade,
  create_bytes-Reads, create_v2_bytes-Reads, trade_bytes-Reads, read_create_v2-create_bytes,
}
use tokenir.Events.Wire.Amm.{
  buy_amm_bytes, sell_amm_bytes, FitsBuyAmm, FitsSellAmm, buy_amm_bytes-Reads, sell_amm_bytes-Reads,
}
use tokenir.Fetcher.{
  Floats, create_discriminator, trade_discriminator, buy_amm_discriminator, sell_amm_discriminator,
  trade_event, parse_body, parse_bytes, parse_optimized,
}

-- The old form of a create has no timestamp of its own.
pub data Log : Type 0 where
  old_create_log : CreateEvent → Log
  create_log : CreateEventV2 → Log
  trade_log : TradeEvent → Log
  buy_amm_log : BuyEventAmm → Log
  sell_amm_log : SellEventAmm → Log

unfoldable pub discriminator : Log → List ℕ
discriminator (old_create_log e) = create_discriminator
discriminator (create_log e) = create_discriminator
discriminator (trade_log e) = trade_discriminator
discriminator (buy_amm_log e) = buy_amm_discriminator
discriminator (sell_amm_log e) = sell_amm_discriminator

unfoldable pub body : Log → List ℕ
body (old_create_log e) = create_bytes e
body (create_log e) = create_v2_bytes e
body (trade_log e) = trade_bytes e
body (buy_amm_log e) = buy_amm_bytes e
body (sell_amm_log e) = sell_amm_bytes e

unfoldable pub event_of : Solana → Floats → ℤ → Log → Event
event_of sol f now (old_create_log e) = create (record e { timestamp = now })
event_of sol f now (create_log e) = create (create_of_v2 sol e)
event_of sol f now (trade_log e) = trade_event sol f e
event_of sol f now (buy_amm_log e) = buy (buy_of_amm e)
event_of sol f now (sell_amm_log e) = sell (sell_of_amm e)

-- The fields are of their machine types. An old create is told from a new one by its end.
unfoldable pub IsLog : Log → List ℕ → Type 0
IsLog (old_create_log e) extra = (FitsCreate e) × (length extra < 31)
IsLog (create_log e) extra = FitsCreateV2 e
IsLog (trade_log e) extra = FitsTrade e
IsLog (buy_amm_log e) extra = FitsBuyAmm e
IsLog (sell_amm_log e) extra = FitsSellAmm e

module _ (sol : Solana) (f : Floats) (now : ℤ) where
  parse_body-Log :
      (l : Log) (extra : List ℕ)
      → IsLog l extra
      → parse_body sol f now (discriminator l) (body l ++ extra) ≡ some (event_of sol f now l)
  unfolding parse_body discriminator body event_of IsLog
  parse_body-Log (old_create_log e) extra h =
      rw (read_create_v2-create_bytes e extra h.0 h.1)
        (rw ((create_bytes-Reads now e h.0).at extra) refl)
  parse_body-Log (create_log e) extra h = rw ((create_v2_bytes-Reads e h).at extra) refl
  parse_body-Log (trade_log e) extra h = rw ((trade_bytes-Reads e h).at extra) refl
  parse_body-Log (buy_amm_log e) extra h = rw ((buy_amm_bytes-Reads e h).at extra) refl
  parse_body-Log (sell_amm_log e) extra h = rw ((sell_amm_bytes-Reads e h).at extra) refl

  length-discriminator : (l : Log) → length (discriminator l) ≡ 8
  unfolding discriminator
  length-discriminator (old_create_log e) = refl
  length-discriminator (create_log e) = refl
  length-discriminator (trade_log e) = refl
  length-discriminator (buy_amm_log e) = refl
  length-discriminator (sell_amm_log e) = refl

  parse_bytes-append :
      (d rest : List ℕ)
      → length d ≡ 8
      → parse_bytes sol f now (d ++ rest) ≡ parse_body sol f now d rest
  unfolding parse_bytes
  parse_bytes-append d rest h =
      ground (arith, length-append d rest, take-append_self d rest, drop-append_self d rest)

  -- A log of a create, in its new or its old form, of a trade or of a purchase or sale in a pool, with
  -- fields of their machine types, whose text decodes to its bytes and whatever follows them, is
  -- read as its event; behind the old form of a create fewer than 31 bytes may follow.
  pub parse_optimized-Log :
      (decode : Text → Option (List ℕ)) (text : Text) (l : Log) (extra : List ℕ)
      → IsLog l extra
      → decode text ≡ some (discriminator l ++ (body l ++ extra))
      → parse_optimized sol f decode now text ≡ some (event_of sol f now l)
  unfolding parse_optimized
  parse_optimized-Log decode text l extra h d = rw d (
      rw (parse_bytes-append (discriminator l) (body l ++ extra) (length-discriminator l))
        (parse_body-Log l extra h))
