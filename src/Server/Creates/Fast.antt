-- ===== src/Server/Creates/Fast.antt =====
-- What `process_fast_create` of tokenir/src/main.rs broadcasts, and what it remembers.
use tokenir.Prelude.{
  text_eq, ℕ, ◌-◌, ltb, not, ◌&&◌, Bool, true, false, ◌≡◌, ◌≢◌, sym, ◌∙◌, ap, subst, ◌⊎◌, inl, inr,
  Option, none, some, arith, eq_iff, Option-cases,
}
use tokenir.Prelude.Map.{is_some}
use tokenir.Prelude.Text.{Text}
use tokenir.Solana.{Solana}
use tokenir.Database.Tokens.{token_any_exists}
use tokenir.Events.{CreateEvent}
use tokenir.Token.{Metadata, Token}
use tokenir.Cache.{TokenCache, check_duplicate}
use tokenir.Cache.Duplicates.{check_duplicate-insert_token}
use tokenir.Server.{Shared, Web, Others}
use tokenir.Server.Creates.{
  five_seconds, performance, community_of_link, get_metadata, process_fast_create, fast_checked,
  or_false, is_duplicate, remember,
}

-- What is a duplicate in the first state is one in the second.
pub record CacheGrows (s t : Shared) : Type 0 where
  pub at :
      (image ipfs description name ticker : Option Text)
      → check_duplicate s.token_cache image ipfs description name ticker ≡ true
      → check_duplicate t.token_cache image ipfs description name ticker ≡ true

-- The cache only grows: remembering a token keeps every duplicate.
pub remember-CacheGrows :
    (event : CreateEvent) (m : Metadata) (s : Shared) → CacheGrows s (remember event m s)
remember-CacheGrows event m s = record {
  at = λ i u d n t h.
      rw
        (check_duplicate-insert_token s.token_cache m.image (some event.uri) m.description
          (some event.name) (some event.symbol) i u d n t)
        (ground (arith, h));
}

-- A remembered token's uri or name makes every token a duplicate that has it.
pub remembered :
    (event later : CreateEvent) (m : Metadata) (image description : Option Text) (s : Shared)
    → (later.uri ≡ event.uri) ⊎ (later.name ≡ event.name)
    → is_duplicate later image description (remember event m s) ≡ true
remembered event later m image description s h =
    rw
      (check_duplicate-insert_token s.token_cache m.image (some event.uri) m.description
        (some event.name) (some event.symbol) image (some later.uri) description (some later.name)
        (some later.symbol))
      (ground (arith, eq_iff event.uri later.uri, eq_iff event.name later.name))

abbrev pub SameUriOrName : CreateEvent → CreateEvent → Type 0
SameUriOrName event later = (later.uri ≡ event.uri) ⊎ (later.name ≡ event.name)

module _ (sol : Solana) (web : Web) (node : Text) (others : Others) (event : CreateEvent)
    (now time : ℕ) where
  abbrev checked : Bool → Option Metadata → Shared → Option Token × Shared
  checked = fast_checked sol web node others event now time

  -- The state at the check.
  abbrev pub at_check : Shared → Shared
  at_check s = others 0 (record s {
    store =
        (token_any_exists (some event.name) (some event.symbol) (some event.uri) none none
          s.store).1;
  })

  checked-duplicate :
      (b : Bool) (o : Option Metadata) (s : Shared)
      → ((image description : Option Text) → is_duplicate event image description s ≡ true)
      → (checked b o s).0 ≡ none
  checked-duplicate b none s dup = rw (dup none none)
  checked-duplicate b (some m) s dup = rw (dup m.image m.description)

  checked_remembers :
      (b : Bool) (m : Metadata) (s : Shared) (later : CreateEvent) (image description : Option Text)
      → (checked b (some m) s).0 ≢ none
      → SameUriOrName event later
      → is_duplicate later image description (checked b (some m) s).1 ≡ true
  checked_remembers b m s later image description sent h =
      let s' = others 1 s in
      let (_, store) =
        performance sol web node others event (community_of_link web m.twitter) s'.store in
      ground (
        arith,
        remembered event later m image description (others 2 (record s' { store = store })) h,
      )

  process_remembers :
      (s : Shared) (later : CreateEvent) (image description : Option Text)
      → get_metadata web node event.uri ≢ none
      → (process_fast_create sol web node others event now time s).0 ≢ none
      → SameUriOrName event later
      → is_duplicate later image description
          (process_fast_create sol web node others event now time s).1
        ≡ true
  unfolding process_fast_create
  process_remembers s later image description fetched sent h =
      elim (Option-cases (get_metadata web node event.uri)) [
        | inl e ↦ absurd (fetched e)
        | inr (m, e) ↦
            let b =
              or_false
                (token_any_exists (some event.name) (some event.symbol) (some event.uri) none none
                  s.store).0 in
            subst
              (λ o.
                (checked b o (at_check s)).0 ≢ none
                → is_duplicate later image description (checked b o (at_check s)).1 ≡ true)
              (sym e) (λ q. checked_remembers b m (at_check s) later image description q h) sent
      ]

  -- Without metadata the check of the cache alone decides, and nothing is remembered.
  checked_unfetched :
      (b : Bool) (s : Shared)
      → ((checked b none s).1 ≡ s)
        × (is_duplicate event none none s ≡ false → (checked b none s).0 ≢ none)
  checked_unfetched b s = ground arith

  process_unfetched :
      (s : Shared)
      → get_metadata web node event.uri ≡ none
      → is_duplicate event none none (at_check s) ≡ false
      → ((process_fast_create sol web node others event now time s).0 ≢ none)
        × ((process_fast_create sol web node others event now time s).1 ≡ at_check s)
  unfolding process_fast_create
  process_unfetched s e fresh =
      let b =
        or_false
          (token_any_exists (some event.name) (some event.symbol) (some event.uri) none none
            s.store).0 in
      let (same, sent) = checked_unfetched b (at_check s) in
      subst
        (λ o. ((checked b o (at_check s)).0 ≢ none) × ((checked b o (at_check s)).1 ≡ at_check s))
        (sym e) (sent fresh, same)

-- Whether a token passes the checks.
abbrev accepted : CreateEvent → ℕ → ℕ → Bool → Option Metadata → Shared → Bool
accepted event now time b none s = not (is_duplicate event none none s)
accepted event now time b (some m) s =
    not (is_duplicate event m.image m.description s) && not b && not (ltb five_seconds (now - time))

is_some-checked :
    (sol : Solana) (web : Web) (node : Text) (others : Others) (event : CreateEvent) (now time : ℕ)
    (b : Bool) (o : Option Metadata) (s : Shared)
    → is_some (fast_checked sol web node others event now time b o s).0
      ≡ accepted event now time b o s
is_some-checked sol web node others event now time b none s = ground arith
is_some-checked sol web node others event now time b (some m) s = ground arith

module _ (sol : Solana) (web : Web) (node : Text) where
  -- Once the task of a token whose metadata was fetched has broadcast it and returned: if no duplicate
  -- leaves the cache after that, no task that starts then broadcasts a token with the same uri or the
  -- same name. Of tasks that overlap it says nothing.
  pub process_fast_create_once :
      (others others' : Others) (event later : CreateEvent) (now time now' time' : ℕ)
      (s s' : Shared)
      → get_metadata web node event.uri ≢ none
      → (process_fast_create sol web node others event now time s).0 ≢ none
      → CacheGrows (process_fast_create sol web node others event now time s).1 s'
      → ((t : Shared) → CacheGrows t (others' 0 t))
      → (later.uri ≡ event.uri) ⊎ (later.name ≡ event.name)
      → (process_fast_create sol web node others' later now' time' s').0 ≡ none
  unfolding process_fast_create
  process_fast_create_once others others' event later now time now' time' s s' fetched sent grown
        grows h =
      let first = process_fast_create sol web node others event now time s in
      checked-duplicate sol web node others' later now' time' _ (get_metadata web node later.uri)
        (at_check sol web node others' later now' time' s')
        λ image description.
          (grows _).at image (some later.uri) description (some later.name) (some later.symbol) (
            grown.at image (some later.uri) description (some later.name) (some later.symbol) (
              process_remembers sol web node others event now time s later image description fetched
                sent h))

  -- A token whose metadata cannot be fetched is broadcast if the cache, as it is at the check, does not
  -- hold its uri, its name or its name and ticker, and the cache is not told of it: where no other task
  -- changes the cache, the same event is broadcast again, however often it comes.
  process_fast_create_unfetched :
      (others : Others) (event : CreateEvent) (now time now' time' : ℕ) (s : Shared)
      → get_metadata web node event.uri ≡ none
      → ((t : Shared) → (others 0 t).token_cache ≡ t.token_cache)
      → is_duplicate event none none s ≡ false
      → let m = process_fast_create sol web node others event now time s in
        (m.0 ≢ none)
        × (m.1.token_cache ≡ s.token_cache)
        × ((process_fast_create sol web node others event now' time' m.1).0 ≢ none)
  unfolding process_fast_create
  process_fast_create_unfetched others event now time now' time' s e quiet fresh =
      let s' = at_check sol web node others event now time s in
      let kept : s'.token_cache ≡ s.token_cache = quiet _ in
      let duplicate = λ (c : TokenCache).
        check_duplicate c none (some event.uri) none (some event.name) (some event.symbol) in
      let (sent, same) =
        process_unfetched sol web node others event now time s e (ap duplicate kept ∙ fresh) in
      let first = (process_fast_create sol web node others event now time s).1 in
      let still : first.token_cache ≡ s.token_cache =
        ap (λ (t : Shared). t.token_cache) same ∙ kept in
      (
        sent,
        still,
        (process_unfetched sol web node others event now' time' first e
            (ap duplicate (quiet _ ∙ still) ∙ fresh)).0,
      )

  -- The check and the insertion are two steps: whether a token is broadcast does not depend on what
  -- other tasks do to the caches and the tables in between.
  process_fast_create_overlap :
      (others others' : Others) (event : CreateEvent) (now time : ℕ) (s : Shared)
      → ((t : Shared) → others 0 t ≡ others' 0 t)
      → is_some (process_fast_create sol web node others event now time s).0
        ≡ is_some (process_fast_create sol web node others' event now time s).0
  unfolding process_fast_create
  process_fast_create_overlap others others' event now time s agree =
      let b =
        or_false
          (token_any_exists (some event.name) (some event.symbol) (some event.uri) none none
            s.store).0 in
      let o = get_metadata web node event.uri in
      is_some-checked sol web node others event now time b o _
      ∙ ap (accepted event now time b o) (agree _)
      ∙ sym (is_some-checked sol web node others' event now time b o _)
