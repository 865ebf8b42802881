-- ===== src/Borsh/Read.antt =====
-- The borsh decoders that tokenir/src/types/logs.rs and tokenir/src/fetcher.rs derive: each reads its
-- value from the front of the bytes and leaves the rest, or fails.
use tokenir.Prelude.{
  ℕ, ◌^◌, ◌<◌, ◌≡◌, refl, ap, ◌∙◌, Bool, true, false, Option, none, some, List, [], ◌∷◌, ◌++◌, leb,
  nat_beq, if◌then◌else◌, length, all, take, drop, arith, length-append, take-append_self,
  drop-append_self, append_assoc,
}
use tokenir.Prelude.Text.{Text}
use tokenir.Borsh.{le_bytes, of_le_bytes, utf8, text_bytes, length-le_bytes, of_le_bytes-le_bytes}
use tokenir.Borsh.Utf8.{is_scalar, from_utf8, from_utf8-utf8}

-- A read continues on the rest.
abbrev pub Reader : Type 0 → Type 0
Reader A = List ℕ → Option (A × List ℕ)

abbrev pub then_read : {A B : Type 0} → Option (A × List ℕ) → (A → Reader B) → Option (B × List ℕ)
then_read none f = none
then_read (some (a, rest)) f = f a rest

infixl 5 ◌>>=◌ ◌>>◌
unfoldable pub pure : {A : Type 0} → A → Reader A
pure a bs = some (a, bs)

unfoldable pub ◌>>=◌ : {A B : Type 0} → Reader A → (A → Reader B) → Reader B
unfolding pure
◌>>=◌ m f bs = then_read (m bs) f

abbrev pub ◌>>◌ : {B : Type 0} → Reader (Unit {0}) → Reader B → Reader B
m >> k = m >>= λ _. k

unfoldable pub read_bytes : ℕ → Reader (List ℕ)
read_bytes n bs = if leb n (length bs) then some (take n bs, drop n bs) else none

abbrev number_of : Option (List ℕ × List ℕ) → Option (ℕ × List ℕ)
number_of none = none
number_of (some (bytes, rest)) = some (of_le_bytes bytes, rest)

unfoldable pub read_number : ℕ → Reader ℕ
unfolding read_bytes of_le_bytes
read_number k bs = number_of (read_bytes k bs)

abbrev text_of : Option Text → List ℕ → Option (Text × List ℕ)
text_of none rest = none
text_of (some s) rest = some (s, rest)

abbrev decoded : Option (List ℕ × List ℕ) → Option (Text × List ℕ)
decoded none = none
decoded (some (bytes, rest)) = text_of (from_utf8 bytes) rest

unfoldable pub read_text : Reader Text
unfolding read_number read_bytes
read_text bs = then_read (read_number 4 bs) (λ n rest. decoded (read_bytes n rest))

-- A byte that is neither 0 nor 1 is an error.
unfoldable pub read_bool : Reader Bool
read_bool [] = none
read_bool (b ∷ bs) =
    if nat_beq b 0 then some (false, bs) else if nat_beq b 1 then some (true, bs) else none

pub read_bytes-append : (xs ys : List ℕ) → read_bytes (length xs) (xs ++ ys) ≡ some (xs, ys)
unfolding read_bytes
read_bytes-append xs ys =
    ground (arith, length-append xs ys, take-append_self xs ys, drop-append_self xs ys)

pub read_number-append :
    (k n : ℕ) (rest : List ℕ) → n < 256 ^ k → read_number k (le_bytes k n ++ rest) ≡ some (n, rest)
unfolding read_number
read_number-append k n rest h =
    let whole = read_bytes-append (le_bytes k n) rest in
    ground (arith, length-le_bytes k n, of_le_bytes-le_bytes k n h)

read_text_parts :
    (n : ℕ) (bytes : List ℕ) (s : Text) (rest : List ℕ)
    → n < 256 ^ 4
    → length bytes ≡ n
    → from_utf8 bytes ≡ some s
    → read_text (le_bytes 4 n ++ (bytes ++ rest)) ≡ some (s, rest)
unfolding read_text
read_text_parts n bytes s rest small e d =
    rw (read_number-append 4 n (bytes ++ rest) small)
      (ground (arith, d, read_bytes-append bytes rest))

pub read_text-append :
    (s : Text) (rest : List ℕ)
    → all is_scalar s ≡ true
    → length (utf8 s) < 2 ^ 32
    → read_text (text_bytes s ++ rest) ≡ some (s, rest)
unfolding text_bytes
read_text-append s rest h small =
    ap read_text (append_assoc (le_bytes 4 (length (utf8 s))) (utf8 s) rest)
    ∙ read_text_parts (length (utf8 s)) (utf8 s) s rest (omega arith) refl (from_utf8-utf8 s h)
