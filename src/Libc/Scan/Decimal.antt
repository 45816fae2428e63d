-- ===== src/Libc/Scan/Decimal.antt =====
-- Decimal notation, as the kernel's `seq_printf` writes it, and its reading by the conversions.
use monitor_program.Base.{
  ℕ, zero, suc, ◌+◌, ◌/◌, ◌%◌, ◌^◌, ◌≤◌, ◌<◌, ◌≡◌, refl, arith, Bool, true, false, some, [], ◌∷◌,
  Bytes, ◌==◌, if◌then◌else◌,
}
use monitor_program.Base.Int.{pos}
use monitor_program.Libc.Word.{modulus}
use monitor_program.Libc.Scan.{
  unsigned, signed, skip_unsigned, Step, assign, pass, number, integer, is_digit, skip_space,
  read_digits, number_at, convert_number, convert,
}

-- The digits of `n` in front of `rest`, nothing for 0; a round divides by ten.
digits : ℕ → ℕ → Bytes → Bytes
digits zero n rest = rest
digits (suc fuel) n rest =
    let more = digits fuel (n / 10) ((b'0' + n % 10) ∷ rest) in if n == 0 then rest else more

-- `n` in decimal, in front of `rest`.
unfoldable pub decimal : ℕ → Bytes → Bytes
unfolding digits
decimal n rest = if n == 0 then b'0' ∷ rest else digits n n rest

-- `rest` does not go on with a digit.
abbrev pub stops : Bytes → Bool
stops [] = true
stops (c ∷ s) = if is_digit c then false else true

-- Text padded with `k` blanks in front.
abbrev pub padded : ℕ → Bytes → Bytes
padded zero s = s
padded (suc k) s = 32 ∷ padded k s

pub read_digits-stops : (s : Bytes) (n : ℕ) → stops s ≡ true → read_digits s n ≡ (n, s)
unfolding read_digits
read_digits-stops [] n h = refl
read_digits-stops (c ∷ s) n h = ground arith

-- Reading the last digit of `n` behind the digits before it gives `n`.
read_last :
    (n : ℕ) (rest : Bytes) → read_digits ((b'0' + n % 10) ∷ rest) (n / 10) ≡ read_digits rest n
unfolding read_digits
read_last n rest = ground arith

read_digits-digits :
    (fuel n : ℕ) (rest : Bytes) → n ≤ fuel → read_digits (digits fuel n rest) 0 ≡ read_digits rest n
unfolding digits
read_digits-digits zero n rest h = ground arith
read_digits-digits (suc fuel) n rest h =
    ground (arith, read_digits-digits fuel (n / 10) ((b'0' + n % 10) ∷ rest), read_last n rest)

pub read_digits-decimal :
    (n : ℕ) (rest : Bytes) → stops rest ≡ true → read_digits (decimal n rest) 0 ≡ (n, rest)
unfolding decimal read_digits
read_digits-decimal n rest h =
    ground
      (arith, read_digits-digits n n rest, read_digits-stops rest n h, read_digits-stops rest 0 h)

abbrev starts_digit : Bytes → Bool
starts_digit [] = false
starts_digit (c ∷ s) = is_digit c

digits_start :
    (fuel n : ℕ) (rest : Bytes)
    → starts_digit rest ≡ true
    → starts_digit (digits fuel n rest) ≡ true
unfolding digits
digits_start zero n rest h = h
digits_start (suc fuel) n rest h =
    ground (arith, digits_start fuel (n / 10) ((b'0' + n % 10) ∷ rest))

decimal_start : (n : ℕ) (rest : Bytes) → starts_digit (decimal n rest) ≡ true
unfolding decimal digits
decimal_start zero rest = refl
decimal_start (suc n) rest =
    ground (arith, digits_start n (suc n / 10) ((b'0' + suc n % 10) ∷ rest))

number_at_digits :
    (s : Bytes)
    → starts_digit s ≡ true
    → number_at s ≡ some (false, (read_digits s 0).0, (read_digits s 0).1)
unfolding number_at
number_at_digits [] h = ground arith
number_at_digits (c ∷ s) h = ground arith

convert_number_digits :
    (k : Bool → ℕ → Bytes → Step) (s : Bytes)
    → starts_digit s ≡ true
    → convert_number k s ≡ k false (read_digits s 0).0 (read_digits s 0).1
unfolding convert_number
convert_number_digits k [] h = ground arith
convert_number_digits k (c ∷ s) h = rw (number_at_digits (c ∷ s) h, convert_number)

skip_space_digits : (s : Bytes) → starts_digit s ≡ true → skip_space s ≡ s
unfolding skip_space
skip_space_digits [] h = refl
skip_space_digits (c ∷ s) h = ground arith

pub skip_space-padded : (k : ℕ) (s : Bytes) → skip_space (padded k s) ≡ skip_space s
unfolding skip_space
skip_space-padded zero s = refl
skip_space-padded (suc k) s = skip_space-padded k s

pub skip_space-decimal : (n : ℕ) (rest : Bytes) → skip_space (decimal n rest) ≡ decimal n rest
skip_space-decimal n rest = skip_space_digits (decimal n rest) (decimal_start n rest)

-- Every conversion of a number reads a decimal back, whatever blanks stand in front of it.
pub convert_number-decimal :
    (k : Bool → ℕ → Bytes → Step) (blanks n : ℕ) (rest : Bytes)
    → stops rest ≡ true
    → convert_number k (skip_space (padded blanks (decimal n rest))) ≡ k false n rest
convert_number-decimal k blanks n rest h = rw (
  skip_space-padded,
  skip_space-decimal,
  convert_number_digits k _ (decimal_start n rest),
  read_digits-decimal n rest h,
)

module _ (blanks n : ℕ) (rest : Bytes) (h : stops rest ≡ true) where
  pub convert-unsigned :
      n < modulus → convert (unsigned 64) (padded blanks (decimal n rest)) ≡ assign (number n) rest
  unfolding convert
  convert-unsigned fits = rw (convert_number-decimal _ blanks n rest h) (ground arith)

  pub convert-unsigned_32 :
      n < 2 ^ 32 → convert (unsigned 32) (padded blanks (decimal n rest)) ≡ assign (number n) rest
  unfolding convert
  convert-unsigned_32 fits = rw (convert_number-decimal _ blanks n rest h) (ground arith)

  pub convert-signed :
      n < 2 ^ 31 → convert signed (padded blanks (decimal n rest)) ≡ assign (integer (pos n)) rest
  unfolding convert
  convert-signed fits = rw (convert_number-decimal _ blanks n rest h) (ground arith)

  pub convert-skip_unsigned : convert skip_unsigned (padded blanks (decimal n rest)) ≡ pass rest
  unfolding convert
  convert-skip_unsigned = convert_number-decimal _ blanks n rest h
