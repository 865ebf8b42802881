-- ===== src/Bundler.antt =====
-- tokenir/src/bundler.rs: tokens collected up to a limit. Its `send` sends nothing.
use tokenir.Prelude.{
  text_eq, ℕ, ◌+◌, ◌%◌, ◌^◌, ◌<◌, ◌∙◌, ◌≡◌, refl, Bool, List, [], ◌∷◌, leb, length, arith,
}
use tokenir.Prelude.Map.{Map, insert}
use tokenir.Solana.{Pubkey}
use tokenir.Database.Tokens.{DbToken}

pub record Bundler : Type 0 where
  pub limit : ℕ
  pub current : ℕ
  pub tokens : Map Pubkey DbToken

unfoldable pub new : ℕ → Bundler
new limit = record { limit = limit; current = 0; tokens = [] }

unfoldable pub add : Pubkey × DbToken → Bundler → Bundler
add (k, token) b = record b { current = (b.current + 1) % 2 ^ 64; tokens = insert k token b.tokens }

unfoldable pub full : Bundler → Bool
full b = leb b.limit b.current

unfoldable pub send : Bundler → Bundler
send b = b

pub add_all : List (Pubkey × DbToken) → Bundler → Bundler
add_all [] b = b
add_all (entry ∷ entries) b = add_all entries (add entry b)

current-add_all :
    (es : List (Pubkey × DbToken)) (b : Bundler)
    → b.current + length es < 2 ^ 64
    → (add_all es b).current ≡ b.current + length es
unfolding add_all add
current-add_all [] b h = omega arith
current-add_all (e ∷ es) b h =
    let next : (add e b).current ≡ b.current + 1 = omega (arith, h) in
    current-add_all es (add e b) (omega (arith, h, next)) ∙ omega (arith, next)

limit-add_all : (es : List (Pubkey × DbToken)) (b : Bundler) → (add_all es b).limit ≡ b.limit
unfolding add_all add
limit-add_all [] b = refl
limit-add_all (e ∷ es) b = limit-add_all es (add e b)

-- A new bundler is full after as many additions as its limit, whether or not their keys differ.
pub full-add_all :
    (limit : ℕ) (es : List (Pubkey × DbToken))
    → length es < 2 ^ 64
    → full (add_all es (new limit)) ≡ leb limit (length es)
unfolding full new
full-add_all limit es h =
    rw (current-add_all es (new limit) (omega (arith, h)), limit-add_all es (new limit))
      (ground arith)
