-- ===== src/Database/Tokens/Listing.antt =====
-- The queries on the `tokens` table in tokenir/src/database.rs that list rows or take their median.
--
-- Rows of equal `created_at` come in the table's order. `percentile_cont` stands for the server's
-- PERCENTILE_CONT(0.5) with its cast to BIGINT, over the values of a group that is not empty.
use tokenir.Prelude.{
  text_eq, ℕ, Bool, true, ◌&&◌, not, Option, none, some, List, [], ◌∷◌, map, ◌==◌, if◌then◌else◌,
  ltb, keep, length, take,
}
use tokenir.Prelude.Int.{ℤ}
use tokenir.Prelude.Text.{Text, codes}
use tokenir.Database.{ok, TokenRow, Sql, query, is_bindable}
use tokenir.Database.Clean.{clean}
use tokenir.Database.Tokens.{DbToken, tokens_there, as_db_tokens}

-- ORDER BY created_at DESC
unfoldable pub insert_newest : TokenRow → List TokenRow → List TokenRow
insert_newest r [] = r ∷ []
insert_newest r (q ∷ rs) =
    if ltb r.created_at q.created_at then q ∷ insert_newest r rs else r ∷ q ∷ rs

unfoldable pub newest_first : List TokenRow → List TokenRow
unfolding insert_newest
newest_first [] = []
newest_first (r ∷ rs) = insert_newest r (newest_first rs)

abbrev pub of_dev : Text → TokenRow → Bool
of_dev dev r = r.dev_address == dev

abbrev pub of_dev_excluding : Text → Text → TokenRow → Bool
of_dev_excluding dev mint r = r.dev_address == dev && not (r.mint == mint)

unfoldable pub get_last_tokens_by_dev : Text → ℕ → Sql (List DbToken)
unfolding newest_first as_db_tokens
get_last_tokens_by_dev dev_address limit = query tokens_there λ t.
    as_db_tokens t.pool_address_column
      (take limit (newest_first (keep (of_dev (clean dev_address)) t.tokens)))

unfoldable pub get_last_tokens_by_dev_excluding : Text → Text → ℕ → Sql (List DbToken)
unfolding newest_first as_db_tokens
get_last_tokens_by_dev_excluding dev_address exclude_mint limit =
    query (λ t. tokens_there t && is_bindable exclude_mint)
      λ t. as_db_tokens t.pool_address_column (
        take limit
          (newest_first (keep (of_dev_excluding (clean dev_address) exclude_mint) t.tokens)))

-- The median is NULL where there is no row.
abbrev median_of : (List ℤ → ℤ) → List ℤ → Option (ℤ × ℕ)
median_of percentile_cont [] = none
median_of percentile_cont (a ∷ as') = some (percentile_cont (a ∷ as'), length (a ∷ as'))

unfoldable pub get_dev_median_ath : (List ℤ → ℤ) → Text → Sql (Option (ℤ × ℕ))
get_dev_median_ath percentile_cont dev_address = query tokens_there λ t.
    ok (median_of percentile_cont (map (λ r. r.ath) (keep (of_dev (clean dev_address)) t.tokens)))

unfoldable pub get_dev_median_ath_excluding : (List ℤ → ℤ) → Text → Text → Sql (Option (ℤ × ℕ))
get_dev_median_ath_excluding percentile_cont dev_address exclude_mint =
    query (λ t. tokens_there t && is_bindable exclude_mint)
      λ t. ok (
        median_of percentile_cont
          (map (λ r. r.ath) (keep (of_dev_excluding (clean dev_address) exclude_mint) t.tokens)))

abbrev or_text : Text → Option Text → Option Text
or_text d none = some d
or_text d (some v) = some v

abbrev with_defaults : TokenRow → TokenRow
with_defaults r = record r {
  name = or_text (codes "No name found") r.name;
  ticker = or_text (codes "No ticker found") r.ticker;
}

unfoldable pub get_tokens_by_dev : Text → Sql (List DbToken)
unfolding newest_first as_db_tokens
get_tokens_by_dev dev_address =
    query (λ t. tokens_there t && t.pool_address_column)
      λ t.
        as_db_tokens true
          (map with_defaults (newest_first (keep (of_dev (clean dev_address)) t.tokens)))

unfoldable pub get_total_coin_count : Sql ℕ
get_total_coin_count = query tokens_there (λ t. ok (length t.tokens))
