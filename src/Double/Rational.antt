-- ===== src/Double/Rational.antt =====
-- An implementation of `Double` by exact fractions, which shows that the laws can hold together.
use monitor_program.Base.{
  ℕ, suc, ◌*◌, ◌<◌, ◌≡◌, refl, arith, Bool, true, false, leb, le→leb, leb→le,
}
use monitor_program.Base.Int.{ℤ, pos, negsuc}
use monitor_program.Double.{Double, IsLawful, Within}

-- A sign, set for negative fractions, a numerator and a denominator.
pub data Fraction : Type 0 where
  plus : ℕ → ℕ → Fraction
  minus : ℕ → ℕ → Fraction

abbrev convert : ℤ → Fraction
convert (pos n) = plus n 1
convert (negsuc n) = minus (suc n) 1

abbrev mul : Fraction → Fraction → Fraction
mul (plus a b) (plus c d) = plus (a * c) (b * d)
mul (plus a b) (minus c d) = minus (a * c) (b * d)
mul (minus a b) (plus c d) = minus (a * c) (b * d)
mul (minus a b) (minus c d) = plus (a * c) (b * d)

abbrev invert : Fraction → Fraction
invert (plus a b) = plus b a
invert (minus a b) = minus b a

abbrev le : Fraction → Fraction → Bool
le (plus a b) (plus c d) = leb (a * d) (c * b)
le (plus a b) (minus c d) = false
le (minus a b) (plus c d) = true
le (minus a b) (minus c d) = leb (c * b) (a * d)

abbrev pub rational : Double
rational = record {
  Carrier = Fraction;
  of_int = convert;
  mul = mul;
  div = λ x y. mul x (invert y);
  le = le;
}

quotient_bound : (a b d : ℕ) → leb (a * 1) (d * b) ≡ true → leb (a * 1 * 1) (1 * (b * d)) ≡ true
quotient_bound a b d h = le→leb _ _ (omega (arith, leb→le _ _ h))

product_bound : (a b k : ℕ) → leb (a * 1) (1 * b) ≡ true → leb (a * k * 1) (k * (b * 1)) ≡ true
product_bound a b k h = le→leb _ _ (grind (arith, leb→le (a * 1) (1 * b) h))

zero_below : (x y : ℕ) → leb (0 * x) y ≡ true
zero_below x y = le→leb _ _ (omega arith)

rational_div_unit :
    (x : Fraction) (d : ℕ)
    → 0 < d
    → Within rational 0 d x
    → Within rational 0 1 (rational.div x (plus d 1))
rational_div_unit (plus a b) d h w = record {
  above = zero_below _ _;
  below = quotient_bound a b d w.below;
}
rational_div_unit (minus a b) d h w = cc w.above

rational_mul_unit :
    (x : Fraction) (k : ℕ) → Within rational 0 1 x → Within rational 0 k (rational.mul x (plus k 1))
rational_mul_unit (plus a b) k w = record {
  above = zero_below _ _;
  below = product_bound a b k w.below;
}
rational_mul_unit (minus a b) k w = cc w.above

quotient_above : (a b d : ℕ) → leb (d * b) (a * 1) ≡ true → leb (1 * (b * d)) (a * 1 * 1) ≡ true
quotient_above a b d h = le→leb _ _ (omega (arith, leb→le _ _ h))

product_above : (a b k : ℕ) → leb (1 * b) (a * 1) ≡ true → leb (k * (b * 1)) (a * k * 1) ≡ true
product_above a b k h = le→leb _ _ (grind (arith, leb→le (1 * b) (a * 1) h))

rational_div_above :
    (x : Fraction) (d : ℕ)
    → 0 < d
    → rational.le (plus d 1) x ≡ true
    → rational.le (plus 1 1) (rational.div x (plus d 1)) ≡ true
rational_div_above (plus a b) d h e = quotient_above a b d e
rational_div_above (minus a b) d h e = cc

rational_mul_above :
    (x : Fraction) (k : ℕ)
    → 0 < k
    → rational.le (plus 1 1) x ≡ true
    → rational.le (plus k 1) (rational.mul x (plus k 1)) ≡ true
rational_mul_above (plus a b) k h e = product_above a b k e
rational_mul_above (minus a b) k h e = cc

pub rational-IsLawful : IsLawful rational
rational-IsLawful = record {
  of_int_mono = λ m n h. le→leb _ _ (omega arith);
  of_int_neg = λ n. refl;
  div_unit = rational_div_unit;
  mul_unit = rational_mul_unit;
  div_above = rational_div_above;
  mul_above = rational_mul_above;
}
