-- ===== src/Prelude/Text.antt =====
-- Text as its list of code points. Public keys are lists of 32 bytes and share the representation.
use Prim.Native.Nat.{ℕ, ◌+◌}
use Prim.Native.Char.{code}
use Prim.Native.String.{String}
use mathlib.Core.Path.{◌≡◌, refl}
use mathlib.Core.Bool.{Bool, true, ◌&&◌, ◌||◌}
use mathlib.Core.Option.{Option, none, some}
use mathlib.Core.List.{List, [], ◌∷◌, ◌++◌}
use native.Mathlib.Omega.{arith}
use tokenir.Prelude.Tests.{ltb, leb, nat_beq, if◌then◌else◌, Bool-cases}
use mathlib.Core.Logic.{inl, inr}
use tokenir.Prelude.Lists.{keep, all}

abbrev pub Text : Type 0
Text = List ℕ

abbrev pub codes : String → Text
codes String.[] = []
codes (String.◌∷◌ c s) = code c ∷ codes s

-- `s.len()`: the bytes of the UTF-8 encoding.
abbrev pub char_bytes : ℕ → ℕ
char_bytes c = if ltb c 0x80 then 1 else if ltb c 0x800 then 2 else if ltb c 0x10000 then 3 else 4

unfoldable pub byte_length : Text → ℕ
byte_length [] = 0
byte_length (c ∷ s) = char_bytes c + byte_length s

-- `char::is_whitespace`, the White_Space property.
abbrev pub is_whitespace : ℕ → Bool
is_whitespace c =
    (leb 9 c && leb c 13)
    || nat_beq c 32
    || nat_beq c 0x85
    || nat_beq c 0xa0
    || nat_beq c 0x1680
    || (leb 0x2000 c && leb c 0x200a)
    || nat_beq c 0x2028
    || nat_beq c 0x2029
    || nat_beq c 0x202f
    || nat_beq c 0x205f
    || nat_beq c 0x3000

-- `trim_start_matches` and `trim_end_matches` for a test on characters.
unfoldable pub trim_start : (ℕ → Bool) → Text → Text
trim_start p [] = []
trim_start p (c ∷ s) = if p c then trim_start p s else c ∷ s

-- A character in front of a trimmed rest goes only if the rest is gone and it passes the test.
abbrev pub trim_cons : (ℕ → Bool) → ℕ → Text → Text
trim_cons p c [] = if p c then [] else c ∷ []
trim_cons p c (d ∷ s) = c ∷ d ∷ s

unfoldable pub trim_end : (ℕ → Bool) → Text → Text
trim_end p [] = []
trim_end p (c ∷ s) = trim_cons p c (trim_end p s)

unfoldable pub trim : Text → Text
unfolding trim_start trim_end
trim s = trim_start is_whitespace (trim_end is_whitespace s)

-- `strip_prefix` and `starts_with`.
unfoldable pub strip_prefix : Text → Text → Option Text
strip_prefix [] s = some s
strip_prefix (p ∷ ps) [] = none
strip_prefix (p ∷ ps) (c ∷ s) = if nat_beq p c then strip_prefix ps s else none

pub strip_prefix-append : (p s : Text) → strip_prefix p (p ++ s) ≡ some s
unfolding strip_prefix
strip_prefix-append [] s = refl
strip_prefix-append (c ∷ p) s = ground (arith, strip_prefix-append p s)

pub strip_prefix_sound : (p s r : Text) → strip_prefix p s ≡ some r → s ≡ p ++ r
unfolding strip_prefix
strip_prefix_sound [] s r h = ground arith
strip_prefix_sound (c ∷ p) [] r h = ground arith
strip_prefix_sound (c ∷ p) (d ∷ s) r h = ground (arith, strip_prefix_sound p s r)

-- Trimming twice is trimming once, and trimming one end keeps the other trimmed.
pub trim_end_idem : (p : ℕ → Bool) (s : Text) → trim_end p (trim_end p s) ≡ trim_end p s
unfolding trim_end
trim_end_idem p [] = refl
trim_end_idem p (c ∷ s) = trim_cons_idem (trim_end p s) (trim_end_idem p s)
  where
    trim_cons_idem : (t : Text) → trim_end p t ≡ t → trim_end p (trim_cons p c t) ≡ trim_cons p c t
    trim_cons_idem [] h = ground arith
    trim_cons_idem (d ∷ t) h = rw h

trim_cons_tail : (p : ℕ → Bool) (c : ℕ) (t s : Text) → trim_cons p c t ≡ c ∷ s → t ≡ s
trim_cons_tail p c [] s h = ground arith
trim_cons_tail p c (d ∷ t) s h = ground arith

pub trim_end-trim_start :
    (p : ℕ → Bool) (s : Text) → trim_end p s ≡ s → trim_end p (trim_start p s) ≡ trim_start p s
unfolding trim_start trim_end
trim_end-trim_start p [] h = h
trim_end-trim_start p (c ∷ s) h =
    let rest = trim_end-trim_start p s (trim_cons_tail p c (trim_end p s) s h) in
    elim (Bool-cases (p c)) [ inl e ↦ rw e rest | inr e ↦ rw e h ]

pub trim_start_idem : (p : ℕ → Bool) (s : Text) → trim_start p (trim_start p s) ≡ trim_start p s
unfolding trim_start
trim_start_idem p [] = refl
trim_start_idem p (c ∷ s) = ground (arith, trim_start_idem p s)

pub trim_idem : (s : Text) → trim (trim s) ≡ trim s
unfolding trim
trim_idem s =
    rw
      (trim_end-trim_start is_whitespace (trim_end is_whitespace s) (trim_end_idem is_whitespace s))
      (trim_start_idem is_whitespace (trim_end is_whitespace s))

-- A test that all characters pass is passed by all that are left.
all-trim_cons :
    (q p : ℕ → Bool) (c : ℕ) (t : Text)
    → q c ≡ true
    → all q t ≡ true
    → all q (trim_cons p c t) ≡ true
all-trim_cons q p c [] h k = ground arith
all-trim_cons q p c (d ∷ t) h k = ground arith

all-trim_end : (q p : ℕ → Bool) (s : Text) → all q s ≡ true → all q (trim_end p s) ≡ true
unfolding trim_end
all-trim_end q p [] h = refl
all-trim_end q p (c ∷ s) h =
    all-trim_cons q p c (trim_end p s) (ground arith) (all-trim_end q p s (ground arith))

all-trim_start : (q p : ℕ → Bool) (s : Text) → all q s ≡ true → all q (trim_start p s) ≡ true
unfolding trim_start
all-trim_start q p [] h = refl
all-trim_start q p (c ∷ s) h = ground (arith, all-trim_start q p s)

pub all-trim : (q : ℕ → Bool) (s : Text) → all q s ≡ true → all q (trim s) ≡ true
unfolding trim
all-trim q s h =
    all-trim_start q is_whitespace (trim_end is_whitespace s) (all-trim_end q is_whitespace s h)

pub keep-all : (q : ℕ → Bool) (s : Text) → all q s ≡ true → keep q s ≡ s
keep-all q [] h = refl
keep-all q (c ∷ s) h = ground (arith, keep-all q s)
