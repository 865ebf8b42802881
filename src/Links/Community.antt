-- ===== src/Links/Community.antt =====
-- What `parse_community_id` makes of a link.
use tokenir.Prelude.{
  ℕ, Bool, true, not, ◌≡◌, refl, some, [], ◌∷◌, ◌++◌, if◌then◌else◌, all, arith, replicate, zero,
  suc, Bool-cases, inl, inr,
}
use mathlib.Core.List.{append_assoc, append-nil}
use tokenir.Prelude.Map.{is_some}
use tokenir.Prelude.Text.{Text, codes, strip_prefix, strip_prefix-append, trim_end}
use tokenir.Links.{contains, is_slash, last_piece, parse_community_id}

abbrev pub IsPlain : Text → Type 0
IsPlain s = all (λ c. not (is_slash c)) s ≡ true

all-snoc :
    (p : ℕ → Bool) (s : Text) (c : ℕ) → all p s ≡ true → p c ≡ true → all p (s ++ c ∷ []) ≡ true
all-snoc p [] c h k = ground arith
all-snoc p (d ∷ s) c h k = ground (arith, all-snoc p s c)

last_piece-IsPlain : (seen s : Text) → IsPlain seen → IsPlain (last_piece seen s)
unfolding last_piece
last_piece-IsPlain seen [] h = h
last_piece-IsPlain seen (c ∷ s) h =
    last_piece-IsPlain (if is_slash c then [] else seen ++ c ∷ []) s
      (elim (Bool-cases (is_slash c)) [
        | inl e ↦ rw e
        | inr e ↦ rw e (all-snoc (λ d. not (is_slash d)) seen c h (rw e))
      ])

last_piece-plain : (seen s : Text) → IsPlain s → last_piece seen s ≡ seen ++ s
unfolding last_piece
last_piece-plain seen [] h = rw append-nil
last_piece-plain seen (c ∷ s) h =
    let rest = last_piece-plain (seen ++ c ∷ []) s (ground arith) in
    ground (arith, rest, append_assoc seen (c ∷ []) s)

trim_end-slashes : (n : ℕ) → trim_end is_slash (replicate n b'/') ≡ []
unfolding trim_end
trim_end-slashes zero = refl
trim_end-slashes (suc n) = rw (trim_end-slashes n)

trim_end-append :
    (p : ℕ → Bool) (s t : Text) (c : ℕ) (u : Text)
    → trim_end p t ≡ c ∷ u
    → trim_end p (s ++ t) ≡ s ++ c ∷ u
unfolding trim_end
trim_end-append p [] t c u h = h
trim_end-append p (d ∷ []) t c u h = rw h
trim_end-append p (d ∷ e ∷ s) t c u h = rw (trim_end-append p (e ∷ s) t c u h)

-- Trailing slashes go, and nothing of a plain text.
trim_end-slashes_after :
    (c : ℕ) (s : Text) (n : ℕ)
    → IsPlain (c ∷ s)
    → trim_end is_slash ((c ∷ s) ++ replicate n b'/') ≡ c ∷ s
unfolding trim_end
trim_end-slashes_after c [] n h = rw (trim_end-slashes n) (ground arith)
trim_end-slashes_after c (d ∷ s) n h = rw (trim_end-slashes_after d s n (ground arith))

contains_of_prefix : (p s : Text) → is_some (strip_prefix p s) ≡ true → contains p s ≡ true
unfolding contains
contains_of_prefix p [] h = h
contains_of_prefix p (c ∷ s) h = rw h

contains_behind : (p : Text) (c : ℕ) (s : Text) → contains p s ≡ true → contains p (c ∷ s) ≡ true
unfolding contains
contains_behind p c s h = rw h (ground arith)

contains-append : (p a b : Text) → contains p (a ++ (p ++ b)) ≡ true
contains-append p [] b = contains_of_prefix p (p ++ b) (rw (strip_prefix-append p b))
contains-append p (c ∷ a) b = contains_behind p c (a ++ (p ++ b)) (contains-append p a b)

last_piece-behind :
    (seen a s : Text) → IsPlain s → last_piece seen (a ++ (codes "/i/communities/" ++ s)) ≡ s
unfolding last_piece
last_piece-behind seen [] s h = last_piece-plain [] s h
last_piece-behind seen (c ∷ a) s h =
    last_piece-behind (if is_slash c then [] else seen ++ c ∷ []) a s h

-- A link that names a community, with whatever in front and any number of slashes behind, is read as
-- that community: the text behind `/i/communities/`, if it is not empty and holds no slash.
pub parse_community_id_link :
    (front : Text) (c : ℕ) (s : Text) (n : ℕ)
    → all (λ d. not (is_slash d)) (c ∷ s) ≡ true
    → parse_community_id (front ++ (codes "/i/communities/" ++ ((c ∷ s) ++ replicate n b'/')))
      ≡ some (c ∷ s)
unfolding parse_community_id
parse_community_id_link front c s n h =
    let pattern : Text = codes "/i/communities/" in
    let behind : Text = (c ∷ s) ++ replicate n b'/' in
    let trimmed : trim_end is_slash (front ++ (pattern ++ behind)) ≡ front ++ (pattern ++ c ∷ s) =
      trim_end-append is_slash front (pattern ++ behind) b'/' _
        (trim_end-append is_slash pattern behind c s (trim_end-slashes_after c s n h)) in
    rw (contains-append pattern front behind, trimmed, last_piece-behind [] front (c ∷ s) h)

-- Whatever link is read as a community contains `/i/communities/`, and the id holds no slash.
parse_community_id_sound :
    (url id : Text)
    → parse_community_id url ≡ some id
    → (contains (codes "/i/communities/") url ≡ true) × (all (λ d. not (is_slash d)) id ≡ true)
unfolding parse_community_id
parse_community_id_sound url id h =
    ground (arith, last_piece-IsPlain [] (trim_end is_slash url) refl)
