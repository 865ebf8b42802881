-- ===== src/Prelude/Equality.antt =====
-- The derived `PartialEq`: a test that agrees with equality, for numbers, texts and pairs.
use Prim.Native.Nat.{ℕ}
use mathlib.Core.Path.{◌≡◌, refl}
use mathlib.Core.Logic.{◌↔◌}
use mathlib.Core.Bool.{Bool, true, false, ◌&&◌}
use mathlib.Core.List.{List, [], ◌∷◌}
use native.Mathlib.Omega.{arith}
use tokenir.Prelude.Tests.{nat_beq, nat_beq_iff}

pub record Eq {ℓ} (A : Type ℓ) : Type ℓ where
  pub same : A → A → Bool
  pub agree : (a b : A) → (same a b ≡ true) ↔ (a ≡ b)

infix 50 ◌==◌
abbrev pub ◌==◌ {ℓ} : {A : Type ℓ} ⦃e : Eq A⦄ → A → A → Bool
◌==◌ ⦃e⦄ = e.same

module _ {ℓ} {A : Type ℓ} ⦃e : Eq A⦄ where
  pub eq_iff : (a b : A) → ((a == b) ≡ true) ↔ (a ≡ b)
  eq_iff a b = e.agree a b

  pub eq_refl : (a : A) → (a == a) ≡ true
  eq_refl a = (e.agree a a).1 refl

abbrev pub list_beq : List ℕ → List ℕ → Bool
list_beq [] [] = true
list_beq [] (y ∷ ys) = false
list_beq (x ∷ xs) [] = false
list_beq (x ∷ xs) (y ∷ ys) = nat_beq x y && list_beq xs ys

pub list_beq_iff : (a b : List ℕ) → (list_beq a b ≡ true) ↔ (a ≡ b)
list_beq_iff [] [] = ground arith
list_beq_iff [] (y ∷ ys) = ground arith
list_beq_iff (x ∷ xs) [] = ground arith
list_beq_iff (x ∷ xs) (y ∷ ys) = ground (arith, list_beq_iff xs ys)

pub pair_beq_iff {ℓ κ} :
    {A : Type ℓ} {B : Type κ} (e : Eq A) (f : Eq B) (p q : A × B)
    → ((e.same p.0 q.0 && f.same p.1 q.1) ≡ true) ↔ (p ≡ q)
pair_beq_iff e f (a, b) (c, d) = ground (arith, e.agree a c, f.agree b d)

instance abbrev pub nat_eq : Eq ℕ
nat_eq = record { same = nat_beq; agree = nat_beq_iff }

instance abbrev pub text_eq : Eq (List ℕ)
text_eq = record { same = list_beq; agree = list_beq_iff }

instance abbrev pub pair_eq {ℓ κ} : {A : Type ℓ} {B : Type κ} ⦃e : Eq A⦄ ⦃f : Eq B⦄ → Eq (A × B)
pair_eq ⦃e⦄ ⦃f⦄ = record {
  same = λ p q. e.same p.0 q.0 && f.same p.1 q.1;
  agree = pair_beq_iff e f;
}
