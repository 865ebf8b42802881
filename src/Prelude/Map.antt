-- ===== src/Prelude/Map.antt =====
-- `HashMap` and `HashSet`: association lists with one entry for each key. The program never relies
-- on the order in which a map is walked, and the theorems are stated through `get`.
use Prim.Native.Nat.{suc, ◌≤◌}
use mathlib.Core.Path.{◌≡◌, refl}
use mathlib.Core.Bool.{Bool, true, false}
use mathlib.Core.List.{List, [], ◌∷◌}
use mathlib.Core.Option.{Option, none, some}
use native.Mathlib.Omega.{arith}
use tokenir.Prelude.Tests.{if◌then◌else◌}
use tokenir.Prelude.Lists.{length}
use tokenir.Prelude.Equality.{Eq, ◌==◌, eq_iff}

abbrev pub Map {ℓ κ} : Type ℓ → Type κ → Type (ℓ ⊔ κ)
Map K V = List (K × V)

abbrev pub is_some {ℓ} : {A : Type ℓ} → Option A → Bool
is_some none = false
is_some (some v) = true

module _ {ℓ κ} {K : Type ℓ} {V : Type κ} ⦃e : Eq K⦄ where
  unfoldable pub get : K → Map K V → Option V
  get k [] = none
  get k ((j, v) ∷ m) = if j == k then some v else get k m

  unfoldable pub insert : K → V → Map K V → Map K V
  insert k v [] = (k, v) ∷ []
  insert k v ((j, w) ∷ m) = if j == k then (k, v) ∷ m else (j, w) ∷ insert k v m

  unfoldable pub remove : K → Map K V → Map K V
  remove k [] = []
  remove k ((j, v) ∷ m) = let rest = remove k m in if j == k then rest else (j, v) ∷ rest

  unfoldable pub contains_key : K → Map K V → Bool
  unfolding get
  contains_key k m = is_some (get k m)

  pub get-insert :
      (k j : K) (v : V) (m : Map K V) → get j (insert k v m) ≡ (if k == j then some v else get j m)
  unfolding get insert
  get-insert k j v [] = refl
  get-insert k j v ((i, w) ∷ m) =
      ground (arith, eq_iff k j, eq_iff i k, eq_iff i j, get-insert k j v m)

  pub get-remove : (k j : K) (m : Map K V) → get j (remove k m) ≡ (if k == j then none else get j m)
  unfolding get remove
  get-remove k j [] = ground arith
  get-remove k j ((i, w) ∷ m) = ground (arith, eq_iff k j, eq_iff i k, eq_iff i j, get-remove k j m)

  pub contains_key-insert :
      (k j : K) (v : V) (m : Map K V)
      → contains_key j (insert k v m) ≡ (if k == j then true else contains_key j m)
  unfolding contains_key
  contains_key-insert k j v m = ground (arith, get-insert k j v m)

  pub length-insert_new :
      (k : K) (v : V) (m : Map K V) → get k m ≡ none → length (insert k v m) ≡ suc (length m)
  unfolding get insert
  length-insert_new k v [] h = refl
  length-insert_new k v ((j, w) ∷ m) h = ground (arith, length-insert_new k v m)

  pub length-remove-le : (k : K) (m : Map K V) → length (remove k m) ≤ length m
  unfolding remove
  length-remove-le k [] = omega arith
  length-remove-le k ((j, v) ∷ m) = ground (arith, length-remove-le k m)

  -- A removal of an absent key changes nothing.
  pub remove_absent : (k : K) (m : Map K V) → get k m ≡ none → remove k m ≡ m
  unfolding get remove
  remove_absent k [] h = refl
  remove_absent k ((j, v) ∷ m) h = ground (arith, remove_absent k m)
