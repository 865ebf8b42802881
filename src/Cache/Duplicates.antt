-- ===== src/Cache/Duplicates.antt =====
-- When the cache takes a token for a duplicate (tokenir/src/main.rs).
use tokenir.Prelude.{
  text_eq, pair_eq, Bool, true, false, ◌||◌, ◌&&◌, ◌==◌, ◌≡◌, refl, Option, none, some,
  if◌then◌else◌, arith,
}
use tokenir.Prelude.Map.{contains_key-insert}
use tokenir.Prelude.Text.{Text}
use tokenir.Cache.{Set, TokenCache, has, has_pair, put, put_pair, check_duplicate, insert_token}

-- Both are there, and equal.
abbrev pub same : Option Text → Option Text → Bool
same none b = false
same (some a) none = false
same (some a) (some b) = a == b

-- Two tokens that count as duplicates of one another, by the rule of `check_duplicate`.
abbrev pub alike :
    (image ipfs description name ticker : Option Text)
    (image' ipfs' description' name' ticker' : Option Text)
    → Bool
alike image ipfs description name ticker image' ipfs' description' name' ticker' =
    same image image'
    || same ipfs ipfs'
    || (same description description' && same name name')
    || (same description description' && same ticker ticker')
    || same name name'

has-put : (k j : Option Text) (m : Set Text) → has j (put k m) ≡ (same k j || has j m)
has-put none j m = refl
has-put (some a) none m = refl
has-put (some a) (some b) m = ground (arith, contains_key-insert a b tt m)

has_pair-put_pair :
    (a b c d : Option Text) (m : Set (Text × Text))
    → has_pair c d (put_pair a b m) ≡ ((same a c && same b d) || has_pair c d m)
has_pair-put_pair none b c d m = refl
has_pair-put_pair (some a) none none d m = refl
has_pair-put_pair (some a) none (some c) none m = ground arith
has_pair-put_pair (some a) none (some c) (some d) m = ground arith
has_pair-put_pair (some a) (some b) none d m = refl
has_pair-put_pair (some a) (some b) (some c) none m = ground arith
has_pair-put_pair (some a) (some b) (some c) (some d) m =
    ground (arith, contains_key-insert (a, b) (c, d) tt m)

-- What was there and what was put, in the order of the checks. A pair of name and ticker that is the
-- same has the same name.
regroup :
    (i u d n t : Bool) (i' u' dn dt nt n' : Bool)
    → (if i || i'
        then true
        else if u || u'
        then true
        else if (d && n) || dn
        then true
        else if (d && t) || dt
        then true
        else if (n && t) || nt
        then true
        else n || n')
      ≡ ((i || u || (d && n) || (d && t) || n)
          || (if i'
              then true
              else if u'
              then true
              else if dn
              then true
              else if dt
              then true
              else if nt
              then true
              else n'))
regroup true u d n t i' u' dn dt nt n' = refl
regroup false true d n t i' u' dn dt nt n' = ground arith
regroup false false true n t i' u' dn dt nt n' = ground arith
regroup false false false true t i' u' dn dt nt n' = ground arith
regroup false false false false t i' u' dn dt nt n' = ground arith

-- After a token has been inserted, exactly the tokens that were duplicates before and those that are
-- alike the inserted one are duplicates.
pub check_duplicate-insert_token :
    (c : TokenCache) (image ipfs description name ticker : Option Text)
    (image' ipfs' description' name' ticker' : Option Text)
    → check_duplicate
        (insert_token c image ipfs description name ticker)
        image'
        ipfs'
        description'
        name'
        ticker'
      ≡ (alike image ipfs description name ticker image' ipfs' description' name' ticker'
          || check_duplicate c image' ipfs' description' name' ticker')
unfolding check_duplicate insert_token
check_duplicate-insert_token c i u d n t i' u' d' n' t' =
    rw
      (
        has-put i i' c.images,
        has-put u u' c.ipfs,
        has_pair-put_pair d n d' n' c.desc_name_pairs,
        has_pair-put_pair d t d' t' c.desc_ticker_pairs,
        has_pair-put_pair n t n' t' c.name_ticker_pairs,
        has-put n n' c.names,
      )
      (regroup (same i i') (same u u') (same d d') (same n n') (same t t') _ _ _ _ _ _)
