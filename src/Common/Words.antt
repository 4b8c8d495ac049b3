-- ===== src/Common/Words.antt =====
-- 32-bit words: the arithmetic of `int` and `unsigned int`, on bit patterns below 2 ^ 32.
use Prim.Native.Nat.{◌/◌, ℕ, ◌+◌, ◌-◌, ◌%◌, ◌^◌}
use mathlib.Core.Bool.{Bool, ◌&&◌}
use pand_ossh.Common.Tests.{if◌then◌else◌, ltb, leb}

abbrev pub add32 : ℕ → ℕ → ℕ
add32 a b = (a + b) % 2 ^ 32

abbrev pub sub32 : ℕ → ℕ → ℕ
sub32 a b = (a + 2 ^ 32 - b) % 2 ^ 32

-- The pattern of the `int` -n.
abbrev pub neg32 : ℕ → ℕ
neg32 n = (2 ^ 32 - n) % 2 ^ 32

-- `(int)a > 0`
abbrev pub is_pos : ℕ → Bool
is_pos a = ltb 0 a && ltb a (2 ^ 31)

-- `(int)a < 0`
abbrev pub is_neg : ℕ → Bool
is_neg a = leb (2 ^ 31) a

-- Adding 2 ^ 31 turns the order of `int` into that of the patterns.
abbrev pub biased : ℕ → ℕ
biased a = (a + 2 ^ 31) % 2 ^ 32

-- `(int)a < (int)b`
abbrev pub slt32 : ℕ → ℕ → Bool
slt32 a b = ltb (biased a) (biased b)

-- Division and remainder of an `int` by a positive one; both round towards 0.
abbrev pub sdiv32 : ℕ → ℕ → ℕ
sdiv32 a b = if is_neg a then neg32 (neg32 a / b) else a / b

abbrev pub srem32 : ℕ → ℕ → ℕ
srem32 a b = if is_neg a then neg32 (neg32 a % b) else a % b
