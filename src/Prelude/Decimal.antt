-- ===== src/Prelude/Decimal.antt =====
-- `to_string` and `parse::<u64>` of machine numbers.
use Prim.Native.Nat.{ℕ, zero, suc, ◌+◌, ◌-◌, ◌*◌, ◌/◌, ◌%◌, ◌^◌, ◌<◌}
use native.Mathlib.Nat.{pow-suc}
use mathlib.Core.Path.{◌≡◌, refl}
use mathlib.Core.Bool.{Bool, true, false, ◌&&◌}
use mathlib.Core.Option.{Option, none, some}
use mathlib.Core.List.{[], ◌∷◌, ◌++◌}
use native.Mathlib.Omega.{arith}
use tokenir.Prelude.Tests.{ltb, leb, nat_beq, if◌then◌else◌}
use tokenir.Prelude.Text.{Text}

-- A `u64` has at most 20 digits.
unfoldable pub show_from : ℕ → ℕ → Text
show_from zero n = (48 + n % 10) ∷ []
show_from (suc fuel) n =
    let front = show_from fuel (n / 10) in
    if ltb n 10 then (48 + n) ∷ [] else front ++ ((48 + n % 10) ∷ [])

unfoldable pub show_u64 : ℕ → Text
show_u64 n = show_from 19 n

abbrev pub is_digit : ℕ → Bool
is_digit c = leb 48 c && leb c 57

abbrev then_digit : Option ℕ → ℕ → Option ℕ
then_digit none c = none
then_digit (some acc) c = if is_digit c then some (acc * 10 + (c - 48)) else none

unfoldable pub digits : Option ℕ → Text → Option ℕ
digits acc [] = acc
digits acc (c ∷ s) = digits (then_digit acc c) s

abbrev fits : Option ℕ → Option ℕ
fits none = none
fits (some n) = if ltb n (2 ^ 64) then some n else none

abbrev some_digits : Text → Option ℕ
some_digits [] = none
some_digits (c ∷ s) = fits (digits (some 0) (c ∷ s))

abbrev without_plus : ℕ → Text → Option ℕ
without_plus c s = if nat_beq c 43 then some_digits s else some_digits (c ∷ s)

unfoldable pub parse_u64 : Text → Option ℕ
parse_u64 [] = none
parse_u64 (c ∷ s) = without_plus c s

digits-append :
    (acc : Option ℕ) (s : Text) (c : ℕ) → digits acc (s ++ (c ∷ [])) ≡ then_digit (digits acc s) c
unfolding digits
digits-append acc [] c = refl
digits-append acc (d ∷ s) c = digits-append (then_digit acc d) s c

digits-show_from : (fuel n : ℕ) → n < 10 ^ suc fuel → digits (some 0) (show_from fuel n) ≡ some n
unfolding digits show_from
digits-show_from zero n h = ground arith
digits-show_from (suc fuel) n h = ground (
  arith,
  digits-append (some 0) (show_from fuel (n / 10)) (48 + n % 10),
  digits-show_from fuel (n / 10),
  pow-suc 10 (suc fuel),
)

abbrev starts_digit : Text → Bool
starts_digit [] = false
starts_digit (c ∷ s) = is_digit c

starts_digit-append : (s t : Text) → starts_digit s ≡ true → starts_digit (s ++ t) ≡ true
starts_digit-append [] t h = ground arith
starts_digit-append (c ∷ s) t h = h

starts_digit-show_from : (fuel n : ℕ) → starts_digit (show_from fuel n) ≡ true
unfolding show_from
starts_digit-show_from zero n = ground arith
starts_digit-show_from (suc fuel) n = ground (
  arith,
  starts_digit-append (show_from fuel (n / 10)) ((48 + n % 10) ∷ []),
  starts_digit-show_from fuel (n / 10),
)

parse_digits : (s : Text) → starts_digit s ≡ true → parse_u64 s ≡ fits (digits (some 0) s)
unfolding parse_u64
parse_digits [] h = ground arith
parse_digits (c ∷ s) h = ground arith

-- A number that is shown is read back.
pub parse_u64-show_u64 : (n : ℕ) → n < 2 ^ 64 → parse_u64 (show_u64 n) ≡ some n
unfolding show_u64
parse_u64-show_u64 n h =
    let shown = digits-show_from 19 n (omega (arith, h)) in
    rw (parse_digits (show_from 19 n) (starts_digit-show_from 19 n)) (rw shown (ground (arith, h)))
