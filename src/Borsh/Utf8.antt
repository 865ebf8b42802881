-- ===== src/Borsh/Utf8.antt =====
-- `String::from_utf8` of the standard library, which borsh's texts go through: the strict decoding of
-- UTF-8, and that it reads back what `utf8` writes.
use tokenir.Prelude.{
  ℕ, zero, suc, ◌+◌, ◌-◌, ◌*◌, ◌/◌, ◌%◌, ◌<◌, ◌≤◌, ◌≡◌, refl, ap, ◌∙◌, Bool, true, ◌&&◌, ◌||◌, not,
  Option, none, some, List, [], ◌∷◌, ◌++◌, ltb, leb, nat_beq, if◌then◌else◌, all, arith,
}
use tokenir.Prelude.Text.{Text}
use tokenir.Borsh.{utf8_char, utf8}

-- `char`: no surrogates.
abbrev pub is_scalar : ℕ → Bool
is_scalar c = ltb c 55296 || (leb 57344 c && ltb c 1114112)

abbrev push : ℕ → Option Text → Option Text
push c none = none
push c (some s) = some (c ∷ s)

-- What a leading byte announces: the number of bytes to come, its own bits, and the smallest code
-- point of that length.
abbrev lead : ℕ → ℕ × ℕ × ℕ
lead b =
    if ltb b 128
    then (0, b, 0)
    else if ltb b 224
    then (1, b - 192, 128)
    else if ltb b 240
    then (2, b - 224, 2048)
    else (3, b - 240, 65536)

abbrev is_lead : ℕ → Bool
is_lead b = ltb b 128 || (leb 192 b && ltb b 248)

abbrev after_lead : ℕ → Option Text → Option Text
after_lead b rest = if ltb b 128 then push b rest else if is_lead b then rest else none

abbrev after_next : ℕ → ℕ → ℕ → ℕ → Option Text → Option Text
after_next k low b code rest =
    if not (leb 128 b && ltb b 192)
    then none
    else if not (nat_beq k 0)
    then rest
    else if leb low code && is_scalar code
    then push code rest
    else none

-- `String::from_utf8`, with the bytes to come, the bits read and the smallest code point.
unfoldable pub utf8_from : ℕ → ℕ → ℕ → List ℕ → Option Text
utf8_from zero code low [] = some []
utf8_from (suc k) code low [] = none
utf8_from zero code low (b ∷ bs) =
    let (k, code', low') = lead b in after_lead b (utf8_from k code' low' bs)
utf8_from (suc k) code low (b ∷ bs) =
    let code' = 64 * code + (b - 128) in after_next k low b code' (utf8_from k code' low bs)

unfoldable pub from_utf8 : List ℕ → Option Text
unfolding utf8_from
from_utf8 bs = utf8_from 0 0 0 bs

-- Between two characters nothing is pending.
utf8_from_zero : (code low : ℕ) (bs : List ℕ) → utf8_from 0 code low bs ≡ utf8_from 0 0 0 bs
unfolding utf8_from
utf8_from_zero code low [] = refl
utf8_from_zero code low (b ∷ bs) = refl

-- A leading byte that announces `k` more.
leads :
    (b k code low : ℕ) (bs : List ℕ)
    → lead b ≡ (k, code, low)
    → ((r : Option Text) → after_lead b r ≡ r)
    → utf8_from 0 0 0 (b ∷ bs) ≡ utf8_from k code low bs
unfolding utf8_from
leads b k code low bs e through = through _ ∙ ap (λ (l : ℕ × ℕ × ℕ). utf8_from l.0 l.1 l.2 bs) e

leads_two : (x : ℕ) (bs : List ℕ) → x < 32 → utf8_from 0 0 0 ((192 + x) ∷ bs) ≡ utf8_from 1 x 128 bs
leads_two x bs h = leads (192 + x) 1 x 128 bs (ground arith) (λ r. ground arith)

leads_three :
    (x : ℕ) (bs : List ℕ) → x < 16 → utf8_from 0 0 0 ((224 + x) ∷ bs) ≡ utf8_from 2 x 2048 bs
leads_three x bs h = leads (224 + x) 2 x 2048 bs (ground arith) (λ r. ground arith)

leads_four :
    (x : ℕ) (bs : List ℕ) → x < 8 → utf8_from 0 0 0 ((240 + x) ∷ bs) ≡ utf8_from 3 x 65536 bs
leads_four x bs h = leads (240 + x) 3 x 65536 bs (ground arith) (λ r. ground arith)

continues :
    (k code low x : ℕ) (bs : List ℕ)
    → x < 64
    → utf8_from (suc (suc k)) code low ((128 + x) ∷ bs) ≡ utf8_from (suc k) (64 * code + x) low bs
unfolding utf8_from
continues k code low x bs h =
    let e : 128 + x - 128 ≡ x = omega arith in
    let through : (v : ℕ) (r : Option Text) → after_next (suc k) low (128 + x) v r ≡ r =
      λ v r. ground arith in
    through _ _ ∙ ap (λ y. utf8_from (suc k) (64 * code + y) low bs) e

ends :
    (code low x : ℕ) (bs : List ℕ)
    → x < 64
    → low ≤ 64 * code + x
    → is_scalar (64 * code + x) ≡ true
    → utf8_from 1 code low ((128 + x) ∷ bs) ≡ push (64 * code + x) (utf8_from 0 0 0 bs)
unfolding utf8_from
ends code low x bs h l v =
    let e : 128 + x - 128 ≡ x = omega arith in
    let last : (r : Option Text)
        → after_next 0 low (128 + x) (64 * code + x) r ≡ push (64 * code + x) r =
      λ r. ground arith in
    ap (λ y. after_next 0 low (128 + x) (64 * code + y) (utf8_from 0 (64 * code + y) low bs)) e
    ∙ last _
    ∙ ap (push (64 * code + x)) (utf8_from_zero (64 * code + x) low bs)

ends_at :
    (c code low : ℕ) (bs : List ℕ)
    → 64 * code + c % 64 ≡ c
    → low ≤ c
    → is_scalar c ≡ true
    → utf8_from 1 code low ((128 + c % 64) ∷ bs) ≡ push c (utf8_from 0 0 0 bs)
ends_at c code low bs e l v =
    let is_c = ends code low (c % 64) bs (omega arith) (omega arith) (rw e v) in
    is_c ∙ ap (λ x. push x (utf8_from 0 0 0 bs)) e

of_one : (c : ℕ) (bs : List ℕ) → c < 128 → utf8_from 0 0 0 (c ∷ bs) ≡ push c (utf8_from 0 0 0 bs)
unfolding utf8_from
of_one c bs h =
    let e : lead c ≡ (0, c, 0) = ground arith in
    let first : (r : Option Text) → after_lead c r ≡ push c r = λ r. ground arith in
    first _
    ∙ ap (λ (l : ℕ × ℕ × ℕ). push c (utf8_from l.0 l.1 l.2 bs)) e
    ∙ ap (push c) (utf8_from_zero c 0 bs)

of_two :
    (c : ℕ) (bs : List ℕ)
    → 128 ≤ c
    → c < 2048
    → is_scalar c ≡ true
    → utf8_from 0 0 0 ((192 + c / 64) ∷ (128 + c % 64) ∷ bs) ≡ push c (utf8_from 0 0 0 bs)
of_two c bs l h v = leads_two (c / 64) _ (omega arith) ∙ ends_at c (c / 64) 128 bs (omega arith) l v

of_three :
    (c : ℕ) (bs : List ℕ)
    → 2048 ≤ c
    → c < 65536
    → is_scalar c ≡ true
    → utf8_from 0 0 0 ((224 + c / 4096) ∷ (128 + c / 64 % 64) ∷ (128 + c % 64) ∷ bs)
      ≡ push c (utf8_from 0 0 0 bs)
of_three c bs l h v =
    leads_three (c / 4096) _ (omega arith)
    ∙ continues 0 (c / 4096) 2048 (c / 64 % 64) _ (omega arith)
    ∙ ends_at c (64 * (c / 4096) + c / 64 % 64) 2048 bs (omega arith) l v

of_four :
    (c : ℕ) (bs : List ℕ)
    → 65536 ≤ c
    → c < 1114112
    → is_scalar c ≡ true
    → utf8_from 0 0 0
        ((240 + c / 262144) ∷ (128 + c / 4096 % 64) ∷ (128 + c / 64 % 64) ∷ (128 + c % 64) ∷ bs)
      ≡ push c (utf8_from 0 0 0 bs)
of_four c bs l h v =
    leads_four (c / 262144) _ (omega arith)
    ∙ continues 1 (c / 262144) 65536 (c / 4096 % 64) _ (omega arith)
    ∙ continues 0 (64 * (c / 262144) + c / 4096 % 64) 65536 (c / 64 % 64) _ (omega arith)
    ∙ ends_at c (64 * (64 * (c / 262144) + c / 4096 % 64) + c / 64 % 64) 65536 bs (omega arith) l v

utf8_from-char :
    (c : ℕ) (bs : List ℕ)
    → is_scalar c ≡ true
    → utf8_from 0 0 0 (utf8_char c ++ bs) ≡ push c (utf8_from 0 0 0 bs)
utf8_from-char c bs h = ground (arith, of_one c bs, of_two c bs, of_three c bs, of_four c bs)

-- Decoding reads back the text that was encoded.
pub from_utf8-utf8 : (s : Text) → all is_scalar s ≡ true → from_utf8 (utf8 s) ≡ some s
unfolding from_utf8 utf8 utf8_from
from_utf8-utf8 [] h = refl
from_utf8-utf8 (c ∷ s) h =
    let rest = from_utf8-utf8 s (ground arith) in
    let e = utf8_from-char c (utf8 s) (ground arith) in e ∙ ap (push c) rest
