-- ===== src/Libc/Word.antt =====
-- `unsigned long long`: numbers below 2 ^ 64, with the wrap-around written out. Each number is at
-- most 2 ^ 64 - 1, so the truncated subtraction below is exact.
use monitor_program.Base.{ℕ, ◌+◌, ◌-◌, ◌%◌, ◌^◌, ◌≤◌, ◌<◌, ◌≡◌, arith}

abbrev pub modulus : ℕ
modulus = 2 ^ 64

unfoldable pub add64 : ℕ → ℕ → ℕ
add64 a b = (a + b) % modulus

unfoldable pub sub64 : ℕ → ℕ → ℕ
sub64 a b = (a + modulus - b) % modulus

-- A difference that does not go below zero is the true one.
pub sub64_exact : (a b : ℕ) → b ≤ a → a < modulus → sub64 a b ≡ a - b
unfolding sub64
sub64_exact a b h lt = omega arith

-- A difference that goes below zero comes out as a number above it by 2 ^ 64.
pub sub64_wraps : (a b : ℕ) → a < b → b < modulus → sub64 a b ≡ modulus - (b - a)
unfolding sub64
sub64_wraps a b h lt = omega arith

-- A sum that fits is the true one.
pub add64_exact : (a b : ℕ) → a + b < modulus → add64 a b ≡ a + b
unfolding add64
add64_exact a b h = omega arith

pub add64-lt : (a b : ℕ) → add64 a b < modulus
unfolding add64
add64-lt a b = omega arith

pub sub64-lt : (a b : ℕ) → sub64 a b < modulus
unfolding sub64
sub64-lt a b = omega arith
