-- ===== src/Base/Int.antt =====
-- Signed integers over the native numbers, and the 64-bit words of Go on top of them: `int64` is an
-- integer, `uint64` a number below 2 ^ 64, and a conversion keeps the bit pattern.
use Prim.Native.Nat.{ℕ, suc, ◌+◌, ◌-◌, ◌%◌, ◌^◌, ◌≤◌, ◌<◌}
use mathlib.Core.Path.{◌≡◌}
use mathlib.Core.Bool.{Bool}
use native.Mathlib.Omega.{arith}
use rate_limiter.Base.Tests.{ltb, leb, if◌then◌else◌}

-- `negsuc n` is -(n + 1).
pub data ℤ : Type 0 where
  pos : ℕ → ℤ
  negsuc : ℕ → ℤ

abbrev pub pos_part : ℤ → ℕ
pos_part (pos n) = n
pos_part (negsuc n) = 0

abbrev pub neg_part : ℤ → ℕ
neg_part (pos n) = 0
neg_part (negsuc n) = suc n

-- a - b, as an integer.
abbrev pub sub_ℕ : ℕ → ℕ → ℤ
sub_ℕ a b = if leb b a then pos (a - b) else negsuc (b - a - 1)

infixl 65 ◌+ℤ◌ ◌-ℤ◌
infix 50 ◌≤ℤ◌
unfoldable pub ◌+ℤ◌ : ℤ → ℤ → ℤ
a +ℤ b = sub_ℕ (pos_part a + pos_part b) (neg_part a + neg_part b)

unfoldable pub ◌-ℤ◌ : ℤ → ℤ → ℤ
a -ℤ b = sub_ℕ (pos_part a + neg_part b) (neg_part a + pos_part b)

abbrev pub ◌≤ℤ◌ : ℤ → ℤ → Type 0
a ≤ℤ b = pos_part a + neg_part b ≤ pos_part b + neg_part a

abbrev pub ltb_ℤ : ℤ → ℤ → Bool
ltb_ℤ a b = ltb (pos_part a + neg_part b) (pos_part b + neg_part a)

abbrev pub leb_ℤ : ℤ → ℤ → Bool
leb_ℤ a b = leb (pos_part a + neg_part b) (pos_part b + neg_part a)

-- `uint64(a)`
unfoldable pub u64_of : ℤ → ℕ
u64_of (pos n) = n % 2 ^ 64
u64_of (negsuc n) = 2 ^ 64 - 1 - n % 2 ^ 64

-- `int64(u)` of a `uint64`
unfoldable pub i64_of : ℕ → ℤ
i64_of u = if ltb u (2 ^ 63) then pos u else negsuc (2 ^ 64 - 1 - u)

-- `a + b` and `a - b` of two `int64`, which wrap around.
unfoldable pub add_i64 : ℤ → ℤ → ℤ
unfolding u64_of i64_of ◌+ℤ◌
add_i64 a b = i64_of (u64_of (a +ℤ b))

unfoldable pub sub_i64 : ℤ → ℤ → ℤ
unfolding u64_of i64_of ◌-ℤ◌
sub_i64 a b = i64_of (u64_of (a -ℤ b))

abbrev pub IsI64 : ℤ → Type 0
IsI64 a = (pos_part a < 2 ^ 63) × (neg_part a ≤ 2 ^ 63)

pub i64_of-u64_of : (a : ℤ) → IsI64 a → i64_of (u64_of a) ≡ a
unfolding u64_of i64_of
i64_of-u64_of a h = ground arith

pub u64_of-i64_of : (u : ℕ) → u < 2 ^ 64 → u64_of (i64_of u) ≡ u
unfolding u64_of i64_of
u64_of-i64_of u h = ground arith
