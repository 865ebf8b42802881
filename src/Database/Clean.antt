-- ===== src/Database/Clean.antt =====
-- `clean` and `clean_opt` of tokenir/src/database.rs.
use tokenir.Prelude.{ℕ, ◌≡◌, Bool, true, not, Option, none, some, keep, all, all-keep, nat_beq}
use tokenir.Prelude.Text.{Text, trim, trim_idem, all-trim, keep-all}

abbrev not_nul : ℕ → Bool
not_nul c = not (nat_beq c 0)

unfoldable pub clean : Text → Text
clean s = trim (keep not_nul s)

unfoldable pub clean_opt : Option Text → Option Text
unfolding clean
clean_opt none = none
clean_opt (some v) = some (trim (keep not_nul v))

-- A cleaned text holds no NUL character.
pub all-clean : (s : Text) → all (λ c. not (nat_beq c 0)) (clean s) ≡ true
unfolding clean
all-clean s = all-trim not_nul (keep not_nul s) (all-keep not_nul s)

-- Cleaning twice is cleaning once.
pub clean_idem : (s : Text) → clean (clean s) ≡ clean s
unfolding clean
clean_idem s =
    rw (keep-all not_nul (trim (keep not_nul s)) (all-clean s)) (trim_idem (keep not_nul s))
