-- ===== src/Base/Int64.antt =====
-- A Go int64 as its bit pattern, a number below 2 ^ 64: sums and differences wrap around, and the
-- order is that of the integers that the patterns stand for.
use Prim.Native.Nat.{ℕ, ◌+◌, ◌-◌, ◌%◌, ◌<◌}
use mathlib.Core.Path.{◌≡◌}
use mathlib.Core.Bool.{Bool}
use native.Mathlib.Omega.{arith}
use go_little_project.Base.Tests.{ltb}

abbrev pub modulus : ℕ
modulus = 18446744073709551616

abbrev pub half : ℕ
half = 9223372036854775808

unfoldable pub add64 : ℕ → ℕ → ℕ
add64 a b = (a + b) % modulus

unfoldable pub sub64 : ℕ → ℕ → ℕ
sub64 a b = (a + (modulus - b % modulus)) % modulus

-- `a < b`
unfoldable pub lt64 : ℕ → ℕ → Bool
lt64 a b = ltb ((a + half) % modulus) ((b + half) % modulus)

pub add64_wrap : (t a b : ℕ) → add64 (t % modulus) (add64 a b) ≡ (t + (a + b)) % modulus
unfolding add64
add64_wrap t a b = omega arith

pub sub64_wrap : (t a b u : ℕ) → u + (a + b) ≡ t → sub64 (t % modulus) (add64 a b) ≡ u % modulus
unfolding add64 sub64
sub64_wrap t a b u h = omega arith

pub replace64_wrap : (t a b u : ℕ) → t + a ≡ u + b → add64 (t % modulus) (sub64 a b) ≡ u % modulus
unfolding add64 sub64
replace64_wrap t a b u h = omega arith

-- Below 2 ^ 63 the order of the patterns is that of the numbers.
pub lt64_small : (a b : ℕ) → a < half → b < half → lt64 a b ≡ ltb a b
unfolding lt64
lt64_small a b h k = ground arith
