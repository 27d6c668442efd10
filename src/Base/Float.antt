-- ===== src/Base/Float.antt =====
-- IEEE 754 doubles (Rust's `f64`) as 64-bit patterns, with the tests that the program makes:
-- `is_finite`, `< 0.0`, `0.0 <=` and `<= 1.0`. A pattern is a number below 2 ^ 64.
use Prim.Native.Nat.{ℕ, ◌/◌, ◌%◌, ◌^◌}
use mathlib.Core.Bool.{Bool, not, ◌&&◌, ◌||◌}
use portus_window.Base.Tests.{◌==◌, ltb, leb}

-- The eleven bits under the sign.
exponent : ℕ → ℕ
exponent x = x / 2 ^ 52 % 2048

sign : ℕ → ℕ
sign x = x / 2 ^ 63 % 2

-- Everything but the sign.
magnitude : ℕ → ℕ
magnitude x = x % 2 ^ 63

-- The pattern of 1.0, and that of the infinity.
abbrev pub one : ℕ
one = 0x3ff0000000000000

abbrev infinity : ℕ
infinity = 0x7ff0000000000000

unfoldable pub is_nan : ℕ → Bool
unfolding magnitude
is_nan x = ltb infinity (magnitude x)

unfoldable pub is_finite : ℕ → Bool
unfolding exponent
is_finite x = not (exponent x == 2047)

-- x < 0.0: a sign, and neither zero nor a NaN.
unfoldable pub is_negative : ℕ → Bool
unfolding is_nan sign
is_negative x = sign x == 1 && not (magnitude x == 0) && not (is_nan x)

-- 0.0 <= x
unfoldable pub zero_le : ℕ → Bool
unfolding is_nan sign
zero_le x = not (is_nan x) && (sign x == 0 || magnitude x == 0)

-- x <= 1.0
unfoldable pub le_one : ℕ → Bool
unfolding is_nan sign
le_one x = not (is_nan x) && (sign x == 1 || leb (magnitude x) one)

-- x <= 0.0
unfoldable pub le_zero : ℕ → Bool
unfolding is_nan sign
le_zero x = not (is_nan x) && (sign x == 1 || magnitude x == 0)

-- x > 600.0
unfoldable pub exceeds_600 : ℕ → Bool
unfolding is_nan sign
exceeds_600 x = not (is_nan x) && (sign x == 0 && ltb 0x4082c00000000000 (magnitude x))
