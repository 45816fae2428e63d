-- ===== src/Double.antt =====
-- C's `double`, as far as the program computes with it: a parameter of the model, since floating
-- point belongs to the machine. The laws below are those of IEEE 754 that the theorems rely on.
pub mod Rational
pub mod Range
use monitor_program.Base.{ℕ, suc, ◌≤◌, ◌<◌, ◌≡◌, Bool, true, false}
use monitor_program.Base.Int.{ℤ, pos, negsuc}

pub record Double : Type 1 where
  pub Carrier : Type 0
  pub of_int : ℤ → Carrier  -- the conversion of an integer, and the integral constants
  pub mul : Carrier → Carrier → Carrier
  pub div : Carrier → Carrier → Carrier
  pub le : Carrier → Carrier → Bool  -- the test <=

module _ (F : Double) where
  open F use {Carrier, of_int, le}

  abbrev pub of_ull : ℕ → Carrier
  of_ull n = of_int (pos n)

  -- ((double)a / b) * 100.0
  abbrev pub percentage : ℕ → ℕ → Carrier
  percentage a b = F.mul (F.div (of_ull a) (of_ull b)) (of_ull 100)

  -- The value lies between two integers.
  pub record Within (lo hi : ℕ) (x : Carrier) : Type 0 where
    pub above : le (of_ull lo) x ≡ true
    pub below : le x (of_ull hi) ≡ true

pub record IsLawful (F : Double) : Type 0 where
  -- Conversion keeps order, and the sign.
  pub of_int_mono : (m n : ℕ) → m ≤ n → F.le (F.of_int (pos m)) (F.of_int (pos n)) ≡ true
  pub of_int_neg : (n : ℕ) → F.le (F.of_int (pos 0)) (F.of_int (negsuc n)) ≡ false
  -- The quotient of a number by a positive number that it does not pass is within 0 and 1.
  pub div_unit :
      (x : F.Carrier) (d : ℕ) → 0 < d → Within F 0 d x → Within F 0 1 (F.div x (F.of_int (pos d)))
  -- Scaling by a constant keeps the order.
  pub mul_unit :
      (x : F.Carrier) (k : ℕ) → Within F 0 1 x → Within F 0 k (F.mul x (F.of_int (pos k)))
  -- The same upwards: a quotient of a number that is not below its divisor, and its multiples.
  pub div_above :
      (x : F.Carrier) (d : ℕ)
      → 0 < d
      → F.le (F.of_int (pos d)) x ≡ true
      → F.le (F.of_int (pos 1)) (F.div x (F.of_int (pos d))) ≡ true
  pub mul_above :
      (x : F.Carrier) (k : ℕ)
      → 0 < k
      → F.le (F.of_int (pos 1)) x ≡ true
      → F.le (F.of_int (pos k)) (F.mul x (F.of_int (pos k))) ≡ true
