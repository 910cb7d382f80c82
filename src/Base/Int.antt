-- ===== src/Base/Int.antt =====
-- Signed integers over the native numbers, under the library's names, and `as u32`.
use Prim.Native.Nat.{ℕ, suc, ◌+◌, ◌-◌, ◌%◌, ◌^◌, ◌≤◌, ◌<◌}
use mathlib.Core.Path.{◌≡◌}
use mathlib.Core.Bool.{Bool}
use native.Mathlib.Omega.{arith}
use probe_run.Base.Tests.{leb, ltb, if◌then◌else◌}

-- `negsuc n` is -(n + 1).
pub data ℤ : Type 0 where
  pos : ℕ → ℤ
  negsuc : ℕ → ℤ

abbrev pub pos_part : ℤ → ℕ
pos_part (pos n) = n
pos_part (negsuc n) = 0

abbrev pub neg_part : ℤ → ℕ
neg_part (pos n) = 0
neg_part (negsuc n) = suc n

-- a - b, as an integer
abbrev pub sub_ℕ : ℕ → ℕ → ℤ
sub_ℕ a b = if leb b a then pos (a - b) else negsuc (b - a - 1)

infixl 65 ◌+ℤ◌
unfoldable pub ◌+ℤ◌ : ℤ → ℤ → ℤ
a +ℤ b = sub_ℕ (pos_part a + pos_part b) (neg_part a + neg_part b)

abbrev pub ltb_ℤ : ℤ → ℤ → Bool
ltb_ℤ a b = ltb (pos_part a + neg_part b) (pos_part b + neg_part a)

-- `x as u32` for a signed x: the remainder by 2 ^ 32, never negative.
unfoldable pub as_u32 : ℤ → ℕ
as_u32 (pos n) = n % 2 ^ 32
as_u32 (negsuc n) = 2 ^ 32 - 1 - n % 2 ^ 32

pub as_u32-lt : (x : ℤ) → as_u32 x < 2 ^ 32
unfolding as_u32
as_u32-lt (pos n) = omega arith
as_u32-lt (negsuc n) = omega arith

-- Where the exact sum fits 32 bits, the cast gives it.
pub as_u32-+ℤ_pos : (a n : ℕ) → a + n < 2 ^ 32 → as_u32 (pos a +ℤ pos n) ≡ a + n
unfolding as_u32 ◌+ℤ◌
as_u32-+ℤ_pos a n h = ground arith

pub as_u32-+ℤ_negsuc : (a n : ℕ) → suc n ≤ a → a < 2 ^ 32 → as_u32 (pos a +ℤ negsuc n) ≡ a - suc n
unfolding as_u32 ◌+ℤ◌
as_u32-+ℤ_negsuc a n h k = ground arith
