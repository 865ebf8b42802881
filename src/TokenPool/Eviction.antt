-- ===== src/TokenPool/Eviction.antt =====
-- Which tokens the pool of tokenir/src/pool.rs gives up.
use tokenir.Prelude.{
  text_eq, suc, ◌+◌, ◌≤◌, ◌≡◌, ◌≢◌, Option, none, some, List, [], ◌∷◌, ◌++◌, ◌==◌, arith, length,
  head?, length-append, eq_iff, if◌then◌else◌,
}
use tokenir.Prelude.Map.{get, insert, get-insert, get-remove}
use tokenir.Solana.{Solana, Pubkey}
use tokenir.Addresses.{pool_pda}
use tokenir.Events.{CreateEvent}
use tokenir.Token.{Metadata, CommunityInfo}
use tokenir.TokenPool.{TokenPool, add, token_of}

-- One call of `add`.
abbrev pub Addition : Type 0
Addition = CreateEvent × Option Metadata × Option CommunityInfo

head?-append : (c : Pubkey) (ks js : List Pubkey) → head? ks ≡ some c → head? (ks ++ js) ≡ some c
head?-append c [] js h = absurd (ground (arith, h))
head?-append c (k ∷ ks) js h = h

module _ (sol : Solana) {H : Type 0} where
  unfoldable pub add_all : List Addition → TokenPool H → TokenPool H
  add_all [] p = p
  add_all ((e, metadata, community) ∷ es) p = add_all es (add sol e metadata community p)

  -- One addition keeps the front of the queue, and the pool's entry of every other address, or
  -- overwrites it with the new token.
  add_lem :
      (e : CreateEvent) (metadata : Option Metadata) (community : Option CommunityInfo)
      (p : TokenPool H) (c k : Pubkey)
      → head? p.collector ≡ some c
      → c ≢ k
      → let p' = add sol e metadata community p in
        (head? p'.collector ≡ some c)
        × (length p'.collector ≡ suc (length p.collector))
        × (get k p'.pool ≡ (
            if (pool_pda sol e.mint).0 == k
            then some (token_of e metadata community)
            else get k p.pool))
  unfolding add
  add_lem e metadata community p c k h other =
      let pda = (pool_pda sol e.mint).0 in
      let pool = insert pda (token_of e metadata community) p.pool in
      let front = head?-append c p.collector (pda ∷ []) h in
      ground (
        arith,
        front,
        length-append p.collector (pda ∷ []),
        get-insert pda k (token_of e metadata community) p.pool,
        get-remove c k pool,
        eq_iff c k,
      )

  -- The front itself goes where the queue is longer than the size.
  add-front :
      (e : CreateEvent) (metadata : Option Metadata) (community : Option CommunityInfo)
      (p : TokenPool H) (c : Pubkey)
      → head? p.collector ≡ some c
      → p.max_size ≤ length p.collector
      → get c (add sol e metadata community p).pool ≡ none
  unfolding add
  add-front e metadata community p c h full =
      let pda = (pool_pda sol e.mint).0 in
      let pool = insert pda (token_of e metadata community) p.pool in
      ground (
        arith,
        head?-append c p.collector (pda ∷ []) h,
        length-append p.collector (pda ∷ []),
        get-remove c c pool,
        eq_iff c c,
      )

  -- Whatever is added to a pool, the token whose address stands at the front of the queue is the only
  -- one that can leave it: that address stays at the front, every other token that is in the pool
  -- stays in it, and the queue grows by one for each addition.
  pub add_all-keeps :
      (es : List Addition) (p : TokenPool H) (c k : Pubkey)
      → head? p.collector ≡ some c
      → c ≢ k
      → get k p.pool ≢ none
      → (get k (add_all es p).pool ≢ none)
        × (head? (add_all es p).collector ≡ some c)
        × (length (add_all es p).collector ≡ length p.collector + length es)
  unfolding add_all
  add_all-keeps [] p c k h other present = (present, h, omega arith)
  add_all-keeps ((e, metadata, community) ∷ es) p c k h other present =
      let (front, longer, entry) = add_lem e metadata community p c k h other in
      let (kept, front', total) =
        add_all-keeps es (add sol e metadata community p) c k front other (ground arith) in
      (kept, front', omega arith)
