-- ===== src/Borsh.antt =====
-- The borsh encoding that the instructions of tokenir_ui/src/pump_interaction use: little-endian
-- integers of a fixed number of bytes, and texts as their length in four bytes and their UTF-8.
pub mod Utf8
pub mod Read
use native.Mathlib.Nat.{div-lt_iff_lt-mul, pow-suc}
use tokenir.Prelude.{
  ℕ, zero, suc, ◌+◌, ◌*◌, ◌/◌, ◌%◌, ◌^◌, ◌<◌, ◌≡◌, refl, List, [], ◌∷◌, ◌++◌, ltb, if◌then◌else◌,
  length, arith,
}
use tokenir.Prelude.Text.{Text}

unfoldable pub le_bytes : ℕ → ℕ → List ℕ
le_bytes zero n = []
le_bytes (suc k) n = n % 256 ∷ le_bytes k (n / 256)

unfoldable pub of_le_bytes : List ℕ → ℕ
of_le_bytes [] = 0
of_le_bytes (b ∷ bs) = b + 256 * of_le_bytes bs

abbrev pub utf8_char : ℕ → List ℕ
utf8_char c =
    if ltb c 128
    then c ∷ []
    else if ltb c 2048
    then (192 + c / 64) ∷ (128 + c % 64) ∷ []
    else if ltb c 65536
    then (224 + c / 4096) ∷ (128 + c / 64 % 64) ∷ (128 + c % 64) ∷ []
    else (240 + c / 262144) ∷ (128 + c / 4096 % 64) ∷ (128 + c / 64 % 64) ∷ (128 + c % 64) ∷ []

unfoldable pub utf8 : Text → List ℕ
utf8 [] = []
utf8 (c ∷ s) = utf8_char c ++ utf8 s

unfoldable pub text_bytes : Text → List ℕ
unfolding le_bytes utf8
text_bytes s = le_bytes 4 (length (utf8 s)) ++ utf8 s

pub length-le_bytes : (k n : ℕ) → length (le_bytes k n) ≡ k
unfolding le_bytes
length-le_bytes zero n = refl
length-le_bytes (suc k) n = omega (arith, length-le_bytes k (n / 256))

-- Reading back what was written.
pub of_le_bytes-le_bytes : (k n : ℕ) → n < 256 ^ k → of_le_bytes (le_bytes k n) ≡ n
unfolding le_bytes of_le_bytes
of_le_bytes-le_bytes zero n h = omega arith
of_le_bytes-le_bytes (suc k) n h = omega (
  arith,
  of_le_bytes-le_bytes k (n / 256) (
      (div-lt_iff_lt-mul {k = 256} {x = n} {y = 256 ^ k} (omega arith)).1
        (omega (arith, pow-suc 256 k))),
)
