-- ===== src/Terminal/Filter.antt =====
-- When a token matches a set of filters (tokenir_ui/src/filter.rs), whatever order its map is walked in.
use tokenir.Prelude.{
  ℕ, ◌≡◌, ◌≢◌, refl, Bool, false, ◌&&◌, ◌||◌, Option, none, some, List, [], ◌∷◌, All, arith,
}
use tokenir.Terminal.{
  UiToken, Floats, Tag, average_dev_market_cap, migration_percentage, token_count, Filters,
  average_dev_market_cap_in, migration_percentage_in, token_count_in, FilterSet, Range,
  range_contains, filter, Passes, pass, passes, matches, nothing_found, is_none,
}

abbrev Entry : Type 0
Entry = Tag × Filters

-- The keys of a map are distinct.
abbrev pub Distinct : List Entry → Type 0
Distinct [] = Unit
Distinct ((tag, f) ∷ es) = All (λ e. e.0 ≢ tag) es × Distinct es

-- The range under each tag, found wherever it stands.
abbrev pub median_range : List Entry → Option Range
median_range [] = none
median_range ((average_dev_market_cap, average_dev_market_cap_in r) ∷ es) = some r
median_range ((average_dev_market_cap, token_count_in r) ∷ es) = median_range es
median_range ((average_dev_market_cap, migration_percentage_in r) ∷ es) = median_range es
median_range ((migration_percentage, f) ∷ es) = median_range es
median_range ((token_count, f) ∷ es) = median_range es

abbrev median_passes : Option ℕ → Option Range → Option Bool → Option Bool
median_passes mcap none before = before
median_passes none (some r) before = some false
median_passes (some n) (some r) before = some (range_contains r n)

no_median : (es : List Entry) → All (λ e. e.0 ≢ average_dev_market_cap) es → median_range es ≡ none
no_median [] h = refl
no_median ((average_dev_market_cap, f) ∷ es) h = absurd (h.0 refl)
no_median ((migration_percentage, f) ∷ es) h = no_median es h.1
no_median ((token_count, f) ∷ es) h = no_median es h.1

passes-mcap :
    (fl : Floats) (token : UiToken) (mcap : Option ℕ) (es : List Entry) (p : Passes)
    → Distinct es
    → (passes fl token mcap es p).mcap_pass ≡ median_passes mcap (median_range es) p.mcap_pass
unfolding passes pass
passes-mcap fl token mcap [] p d = refl
passes-mcap fl token mcap ((average_dev_market_cap, average_dev_market_cap_in r) ∷ es) p d =
    let rest =
      passes-mcap fl token mcap es
        (pass fl token mcap (average_dev_market_cap, average_dev_market_cap_in r) p) d.1 in
    ground (arith, rest, no_median es d.0)
passes-mcap fl token mcap ((average_dev_market_cap, token_count_in r) ∷ es) p d =
    passes-mcap fl token mcap es p d.1
passes-mcap fl token mcap ((average_dev_market_cap, migration_percentage_in r) ∷ es) p d =
    passes-mcap fl token mcap es p d.1
passes-mcap fl token mcap ((migration_percentage, f) ∷ es) p d =
    ground
      (arith, passes-mcap fl token mcap es (pass fl token mcap (migration_percentage, f) p) d.1)
passes-mcap fl token mcap ((token_count, f) ∷ es) p d =
    ground (arith, passes-mcap fl token mcap es (pass fl token mcap (token_count, f) p) d.1)

abbrev pub migration_range : List Entry → Option Range
migration_range [] = none
migration_range ((migration_percentage, migration_percentage_in r) ∷ es) = some r
migration_range ((migration_percentage, average_dev_market_cap_in r) ∷ es) = migration_range es
migration_range ((migration_percentage, token_count_in r) ∷ es) = migration_range es
migration_range ((average_dev_market_cap, f) ∷ es) = migration_range es
migration_range ((token_count, f) ∷ es) = migration_range es

abbrev migration_passes : Floats → UiToken → Option Range → Option Bool → Option Bool
migration_passes fl token none before = before
migration_passes fl token (some r) before = some (filter fl (migration_percentage_in r) token 0)

no_migration :
    (es : List Entry) → All (λ e. e.0 ≢ migration_percentage) es → migration_range es ≡ none
no_migration [] h = refl
no_migration ((migration_percentage, f) ∷ es) h = absurd (h.0 refl)
no_migration ((average_dev_market_cap, f) ∷ es) h = no_migration es h.1
no_migration ((token_count, f) ∷ es) h = no_migration es h.1

passes-migration :
    (fl : Floats) (token : UiToken) (mcap : Option ℕ) (es : List Entry) (p : Passes)
    → Distinct es
    → (passes fl token mcap es p).migration_pass
      ≡ migration_passes fl token (migration_range es) p.migration_pass
unfolding passes pass filter
passes-migration fl token mcap [] p d = refl
passes-migration fl token mcap ((migration_percentage, migration_percentage_in r) ∷ es) p d =
    let rest =
      passes-migration fl token mcap es
        (pass fl token mcap (migration_percentage, migration_percentage_in r) p) d.1 in
    ground (arith, rest, no_migration es d.0)
passes-migration fl token mcap ((migration_percentage, average_dev_market_cap_in r) ∷ es) p d =
    passes-migration fl token mcap es p d.1
passes-migration fl token mcap ((migration_percentage, token_count_in r) ∷ es) p d =
    passes-migration fl token mcap es p d.1
passes-migration fl token mcap ((average_dev_market_cap, f) ∷ es) p d = ground (
  arith,
  passes-migration fl token mcap es (pass fl token mcap (average_dev_market_cap, f) p) d.1,
)
passes-migration fl token mcap ((token_count, f) ∷ es) p d =
    ground (arith, passes-migration fl token mcap es (pass fl token mcap (token_count, f) p) d.1)

abbrev pub count_range : List Entry → Option Range
count_range [] = none
count_range ((token_count, token_count_in r) ∷ es) = some r
count_range ((token_count, average_dev_market_cap_in r) ∷ es) = count_range es
count_range ((token_count, migration_percentage_in r) ∷ es) = count_range es
count_range ((average_dev_market_cap, f) ∷ es) = count_range es
count_range ((migration_percentage, f) ∷ es) = count_range es

abbrev count_passes : Floats → UiToken → Option Range → Option Bool → Option Bool
count_passes fl token none before = before
count_passes fl token (some r) before = some (filter fl (token_count_in r) token 0)

no_count : (es : List Entry) → All (λ e. e.0 ≢ token_count) es → count_range es ≡ none
no_count [] h = refl
no_count ((token_count, f) ∷ es) h = absurd (h.0 refl)
no_count ((average_dev_market_cap, f) ∷ es) h = no_count es h.1
no_count ((migration_percentage, f) ∷ es) h = no_count es h.1

passes-count :
    (fl : Floats) (token : UiToken) (mcap : Option ℕ) (es : List Entry) (p : Passes)
    → Distinct es
    → (passes fl token mcap es p).token_count_pass
      ≡ count_passes fl token (count_range es) p.token_count_pass
unfolding passes pass filter
passes-count fl token mcap [] p d = refl
passes-count fl token mcap ((token_count, token_count_in r) ∷ es) p d =
    let rest =
      passes-count fl token mcap es (pass fl token mcap (token_count, token_count_in r) p) d.1 in
    ground (arith, rest, no_count es d.0)
passes-count fl token mcap ((token_count, average_dev_market_cap_in r) ∷ es) p d =
    passes-count fl token mcap es p d.1
passes-count fl token mcap ((token_count, migration_percentage_in r) ∷ es) p d =
    passes-count fl token mcap es p d.1
passes-count fl token mcap ((average_dev_market_cap, f) ∷ es) p d =
    ground
      (arith, passes-count fl token mcap es (pass fl token mcap (average_dev_market_cap, f) p) d.1)
passes-count fl token mcap ((migration_percentage, f) ∷ es) p d =
    ground
      (arith, passes-count fl token mcap es (pass fl token mcap (migration_percentage, f) p) d.1)

abbrev pub median_ok : Option ℕ → Option Range → Bool
median_ok mcap none = false
median_ok none (some r) = false
median_ok (some n) (some r) = range_contains r n

abbrev pub migration_ok : Floats → UiToken → Option Range → Bool
migration_ok fl token none = false
migration_ok fl token (some r) = filter fl (migration_percentage_in r) token 0

abbrev pub count_ok : Floats → UiToken → Option Range → Bool
count_ok fl token none = false
count_ok fl token (some r) = filter fl (token_count_in r) token 0

-- Where the tags of a set of filters are distinct, as in a map, and whatever their order, a token
-- matches exactly where there is a range for the developer's median market cap and that is known and in it,
-- or where the token has no developer's performance and there are ranges for the
-- percentage of migrated tokens and for their number, and both pass.
pub matches_lem :
    (fl : Floats) (fs : FilterSet) (token : UiToken) (mcap : Option ℕ)
    → Distinct fs.filters
    → matches fl fs token mcap ≡ (
        median_ok mcap (median_range fs.filters)
        || ((migration_ok fl token (migration_range fs.filters)
              && count_ok fl token (count_range fs.filters))
            && is_none token.dev_performance))
unfolding matches
matches_lem fl fs token mcap d = ground (
  arith,
  passes-mcap fl token mcap fs.filters nothing_found d,
  passes-migration fl token mcap fs.filters nothing_found d,
  passes-count fl token mcap fs.filters nothing_found d,
)
