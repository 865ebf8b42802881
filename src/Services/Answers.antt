-- ===== src/Services/Answers.antt =====
-- What the answers of the services in tokenir/src/constans.rs come to, and what they are asked.
use tokenir.Prelude.{
  text_eq, ℕ, ◌≡◌, ◌≢◌, ◌↔◌, refl, sym, ap, ◌∙◌, Bool, true, false, not, Option, none, some, List,
  [], ◌∷◌, ◌++◌, eq_iff, all, Bool-cases, Option-cases, inl, inr, append-nil, arith,
}
use tokenir.Prelude.Map.{contains_key-insert}
use tokenir.Prelude.Int.{ℤ}
use tokenir.Prelude.Text.{Text, codes}
use tokenir.Token.{Metadata, CommunityInfo}
use tokenir.Links.{is_slash, parse_community_id, final_url}
use tokenir.Links.Community.{parse_community_id_link}
use tokenir.Cache.{CommunityCache, has_community, insert_community}
use tokenir.Server.{Web}
use tokenir.Server.Creates
use tokenir.Services.{
  Answer, nothing, answered, Net, is_failure, checked, parsed, document_request, fetch_document,
  ApiResponse, community_request, get_community_by_id,
}

-- A body that came with no failure, and is what the parser reads as `a`.
abbrev pub Brings : {A : Type 0} → (Text → Option A) → Answer → A → Type 0
Brings parse answer a =
    (status : ℕ) × (body : Text) × (answer ≡ answered status (some body))
    × (is_failure status ≡ false)
    × (parse body ≡ some a)

checked-Brings :
    {A : Type 0} (parse : Text → Option A) (answer : Answer) (a : A)
    → parsed parse (checked answer) ≡ some a
    → Brings parse answer a
checked-Brings parse nothing a h = absurd (ground arith)
checked-Brings parse (answered status none) a h = elim (Bool-cases (is_failure status)) [
  | inl e ↦ absurd (ground arith)
  | inr e ↦ absurd (ground arith)
]
checked-Brings parse (answered status (some body)) a h = elim (Bool-cases (is_failure status)) [
  | inl e ↦ absurd (ground arith)
  | inr e ↦ (status, body, refl, e, ground arith)
]

Brings-checked :
    {A : Type 0} (parse : Text → Option A) (answer : Answer) (a : A)
    → Brings parse answer a
    → parsed parse (checked answer) ≡ some a
Brings-checked parse answer a (status, body, e, ok, p) = rw e (rw ok p)

-- The services of the create handlers, over a network with a key of the environment.
abbrev pub web_of :
    Net → (Text → Option Metadata) → (Text → Option ApiResponse) → Text → (List ℤ → ℤ) → Web
web_of net parse_metadata parse_community api_key percentile_cont = record {
  fetch_metadata = fetch_document net parse_metadata;
  get_community_by_id = get_community_by_id net parse_community api_key;
  percentile_cont = percentile_cont;
}

-- The handlers are given a token's metadata exactly where the document at the resolved address is a
-- metadata and comes without a failure.
metadata-Brings :
    (net : Net) (parse : Text → Option Metadata) (api : Text → Option ApiResponse) (key : Text)
    (median : List ℤ → ℤ) (node url : Text) (m : Metadata)
    → (Creates.get_metadata (web_of net parse api key median) node url ≡ some m)
      ↔ Brings parse (net (document_request (final_url node url))) m
unfolding Creates.get_metadata fetch_document
metadata-Brings net parse api key median node url m =
    (checked-Brings parse _ m, Brings-checked parse _ m)

community-Brings :
    (net : Net) (parse : Text → Option ApiResponse) (api_key id : Text) (c : CommunityInfo)
    → get_community_by_id net parse api_key id ≡ some c
    → (r : ApiResponse) × (Brings parse (net (community_request api_key id)) r)
      × (r.community_info ≡ c)
unfolding get_community_by_id
community-Brings net parse api_key id c h =
    let o = parsed parse (checked (net (community_request api_key id))) in
    elim (Option-cases o) [
      | inl e ↦ absurd (ground arith)
      | inr (r, e) ↦ (r, checked-Brings parse _ r e, ground arith)
    ]

all-append : (p : ℕ → Bool) (s t : Text) → all p s ≡ true → all p t ≡ true → all p (s ++ t) ≡ true
all-append p [] t h k = k
all-append p (c ∷ s) t h k = ground (arith, all-append p s t)

append-ne : (s : Text) (c : ℕ) (t : Text) → s ++ c ∷ t ≢ s
append-ne [] c t h = ground arith
append-ne (d ∷ s) c t h = ground (arith, append-ne s c t)

-- A link to a community with a query behind it is read as another community, the id with the query, of
-- which a cache that learns the community itself learns nothing.
pub query_link :
    (front : Text) (c : ℕ) (s query : Text) (cache : CommunityCache)
    → all (λ d. not (is_slash d)) (c ∷ s) ≡ true
    → all (λ d. not (is_slash d)) query ≡ true
    → let id = c ∷ s in
      let other = id ++ b'?' ∷ query in
      (parse_community_id (front ++ (codes "/i/communities/" ++ other)) ≡ some other)
      × (other ≢ id)
      × (has_community (insert_community cache id) other ≡ has_community cache other)
unfolding has_community insert_community
query_link front c s query cache plain rest =
    let id = c ∷ s in
    let other = id ++ b'?' ∷ query in
    let whole : all (λ d. not (is_slash d)) other ≡ true =
      all-append (λ d. not (is_slash d)) id (b'?' ∷ query) plain (rw rest refl) in
    (
      ap (λ (t : Text). parse_community_id (front ++ (codes "/i/communities/" ++ t)))
            (sym (append-nil other))
          ∙ parse_community_id_link front c (s ++ b'?' ∷ query) 0 whole,
      append-ne id b'?' query,
      ground
          (arith, eq_iff id other, append-ne id b'?' query, contains_key-insert id other tt cache),
    )
