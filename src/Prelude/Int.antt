-- ===== src/Prelude/Int.antt =====
-- Go's signed 64-bit integers: the integers over the native numbers, with the wrap-around of `+`.
use Prim.Native.Nat.{ℕ, suc, ◌+◌, ◌-◌, ◌*◌, ◌%◌, ◌≤◌, ◌<◌}
use mathlib.Core.Path.{◌≡◌}
use mathlib.Core.Bool.{Bool}
use native.Mathlib.Omega.{arith}
use feishu_super_search.Prelude.Tests.{ltb, leb, if◌then◌else◌}

-- `negsuc n` is -(n + 1).
pub data ℤ : Type 0 where
  pos : ℕ → ℤ
  negsuc : ℕ → ℤ

abbrev pub pos_part : ℤ → ℕ
pos_part (pos n) = n
pos_part (negsuc n) = 0

abbrev pub neg_part : ℤ → ℕ
neg_part (pos n) = 0
neg_part (negsuc n) = suc n

-- a - b, as an integer.
abbrev pub sub_ℕ : ℕ → ℕ → ℤ
sub_ℕ a b = if leb b a then pos (a - b) else negsuc (b - a - 1)

abbrev pub ltz : ℤ → ℤ → Bool
ltz a b = ltb (pos_part a + neg_part b) (pos_part b + neg_part a)

-- `z <= 0`, `z < 0` and `z > 0`.
abbrev pub is_nonpos : ℤ → Bool
is_nonpos z = leb (pos_part z) 0

abbrev pub is_neg : ℤ → Bool
is_neg z = ltb 0 (neg_part z)

abbrev pub is_positive : ℤ → Bool
is_positive z = ltb 0 (pos_part z)

-- 2 ^ 63, the first value that an int64 cannot hold.
abbrev pub int_limit : ℕ
int_limit = 9223372036854775808

abbrev int_modulus : ℕ
int_modulus = 18446744073709551616

-- `a + b` on int64: the sum, brought back into the range -2^63 .. 2^63 - 1.
unfoldable pub add64 : ℤ → ℤ → ℤ
add64 a b =
    sub_ℕ
      ((pos_part a + pos_part b + int_limit + 2 * int_modulus - (neg_part a + neg_part b))
        % int_modulus)
      int_limit

infix 50 ◌≤ℤ◌
abbrev pub ◌≤ℤ◌ : ℤ → ℤ → Type 0
a ≤ℤ b = pos_part a + neg_part b ≤ pos_part b + neg_part a

-- Where the sum of two non-negative numbers fits, nothing wraps.
pub add64-pos : (a b : ℕ) → a + b < int_limit → add64 (pos a) (pos b) ≡ pos (a + b)
unfolding add64
add64-pos a b h = ground arith

-- `z * k` on int64, for a factor k that is not negative.
unfoldable pub scale64 : ℤ → ℕ → ℤ
scale64 z k =
    sub_ℕ
      ((pos_part z * k + int_limit + (int_modulus - neg_part z * k % int_modulus)) % int_modulus)
      int_limit

pub scale64-pos : (a k : ℕ) → a * k < int_limit → scale64 (pos a) k ≡ pos (a * k)
unfolding scale64
scale64-pos a k h = ground arith
