-- ===== src/Double/Range.antt =====
-- Ranges that follow from the laws of `Double`.
use monitor_program.Base.{ℕ, ◌≤◌, ◌<◌, ◌≡◌, true, arith}
use monitor_program.Double.{Double, IsLawful, Within, of_ull, percentage}

module _ (F : Double) (laws : IsLawful F) where
  pub of_ull-Within : (m n : ℕ) → m ≤ n → Within F 0 n (of_ull F m)
  of_ull-Within m n h = record {
    above = laws.of_int_mono 0 m (omega arith);
    below = laws.of_int_mono m n h;
  }

  -- A part of a positive whole is between 0 and 100 percent of it.
  pub percentage-Within : (a b : ℕ) → 0 < b → a ≤ b → Within F 0 100 (percentage F a b)
  percentage-Within a b h le =
      laws.mul_unit _ 100 (laws.div_unit (of_ull F a) b h (of_ull-Within a b le))

  -- A number that is not below a positive whole is at least 100 percent of it.
  pub percentage_above : (a b : ℕ) → 0 < b → b ≤ a → F.le (of_ull F 100) (percentage F a b) ≡ true
  percentage_above a b h le =
      laws.mul_above _ 100 (omega arith) (laws.div_above (of_ull F a) b h (laws.of_int_mono b a le))
