-- ===== src/Prelude/Int.antt =====
-- Signed integers over the native numbers, under the library's names, and the casts between `u64`
-- and `i64`, which keep the bit pattern.
use Prim.Native.Nat.{ℕ, suc, ◌+◌, ◌-◌, ◌≤◌, ◌<◌, ◌^◌}
use mathlib.Core.Path.{◌≡◌}
use mathlib.Core.Bool.{Bool}
use native.Mathlib.Omega.{arith}
use tokenir.Prelude.Tests.{ltb, if◌then◌else◌}

-- `negsuc n` is -(n + 1).
pub data ℤ : Type 0 where
  pos : ℕ → ℤ
  negsuc : ℕ → ℤ

abbrev pub pos_part : ℤ → ℕ
pos_part (pos n) = n
pos_part (negsuc n) = 0

abbrev pub neg_part : ℤ → ℕ
neg_part (pos n) = 0
neg_part (negsuc n) = suc n

infix 50 ◌≤ℤ◌
abbrev pub ◌≤ℤ◌ : ℤ → ℤ → Type 0
a ≤ℤ b = pos_part a + neg_part b ≤ pos_part b + neg_part a

abbrev pub ltb_ℤ : ℤ → ℤ → Bool
ltb_ℤ a b = ltb (pos_part a + neg_part b) (pos_part b + neg_part a)

-- SQL's `GREATEST` of two values that are not NULL.
unfoldable pub greatest : ℤ → ℤ → ℤ
greatest a b = if ltb_ℤ a b then b else a

pub le-greatest_left : (a b : ℤ) → a ≤ℤ greatest a b
unfolding greatest
le-greatest_left a b = ground arith

pub le-greatest_right : (a b : ℤ) → b ≤ℤ greatest a b
unfolding greatest
le-greatest_right a b = ground arith

pub greatest-le : (a b c : ℤ) → a ≤ℤ c → b ≤ℤ c → greatest a b ≤ℤ c
unfolding greatest
greatest-le a b c h k = ground arith

pub ≤ℤ_trans : (a b c : ℤ) → a ≤ℤ b → b ≤ℤ c → a ≤ℤ c
≤ℤ_trans a b c h k = omega arith

-- `x as i64` for a `u64`.
unfoldable pub as_i64 : ℕ → ℤ
as_i64 w = if ltb w (2 ^ 63) then pos w else negsuc (2 ^ 64 - w - 1)

-- `x as u64` for an `i64`.
unfoldable pub as_u64 : ℤ → ℕ
as_u64 (pos n) = n
as_u64 (negsuc n) = 2 ^ 64 - suc n

pub as_u64-as_i64 : (w : ℕ) → w < 2 ^ 64 → as_u64 (as_i64 w) ≡ w
unfolding as_u64 as_i64
as_u64-as_i64 w h = ground arith
