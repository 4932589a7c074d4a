-- ===== src/Base/Int.antt =====
-- Signed integers, and Go's `int64` as the integers in its range.
use Prim.Native.Nat.{ℕ, suc, ◌+◌, ◌-◌, ◌<◌, ◌^◌}
use mathlib.Core.Bool.{Bool, true, not}
use mathlib.Core.Path.{◌≡◌}
use mathlib.Core.Logic.{◌↔◌}
use native.Mathlib.Omega.{arith}
use openpubkey.Base.Tests.{ltb, leb, if◌then◌else◌}

-- `negsuc n` is -(n + 1).
pub data ℤ : Type 0 where
  pos : ℕ → ℤ
  negsuc : ℕ → ℤ

abbrev pub pos_part : ℤ → ℕ
pos_part (pos n) = n
pos_part (negsuc n) = 0

abbrev pub neg_part : ℤ → ℕ
neg_part (pos n) = 0
neg_part (negsuc n) = suc n

-- a < b
abbrev pub ltz : ℤ → ℤ → Bool
ltz a b = ltb (pos_part a + neg_part b) (pos_part b + neg_part a)

infix 50 ◌<ℤ◌
abbrev pub ◌<ℤ◌ : ℤ → ℤ → Type 0
a <ℤ b = pos_part a + neg_part b < pos_part b + neg_part a

abbrev pub int64_max : ℕ
int64_max = 2 ^ 63 - 1

-- `a + b` on `int64` for non-negative `a` and `b` below 2^63: a sum past the range wraps to
-- a + b - 2^64, which is negative.
abbrev pub add64 : ℕ → ℕ → ℤ
add64 a b = if leb (a + b) int64_max then pos (a + b) else negsuc (2 ^ 64 - (a + b) - 1)

pub ltz_iff : (a b : ℤ) → (ltz a b ≡ true) ↔ (a <ℤ b)
ltz_iff a b = ground arith

pub ltz_false : (a b : ℤ) → (not (ltz a b) ≡ true) ↔ (¬ (a <ℤ b))
ltz_false a b = ground arith
