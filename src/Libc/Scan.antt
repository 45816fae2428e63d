-- ===== src/Libc/Scan.antt =====
-- `sscanf`, for the directives that the formats of metrics.c contain. A format is the list of its
-- directives; the result has the values assigned, in order, and the `int` returned.
pub mod Decimal
pub mod Runs
pub mod Fields
pub mod Words
use monitor_program.Base.{
  ℕ, zero, suc, ◌+◌, ◌-◌, ◌*◌, ◌%◌, ◌^◌, ◌≡◌, refl, Bool, true, false, ◌&&◌, ◌||◌, Option, none,
  some, List, [], ◌∷◌, ◌++◌, map, Bytes, String, codes, length, ltb, leb, ◌==◌, if◌then◌else◌,
}
use monitor_program.Base.Int.{ℤ, pos, negsuc}
use monitor_program.Libc.Word.{modulus}

pub data Directive : Type 0 where
  space : Directive  -- white space, which matches any amount of it, also none
  lit : ℕ → Directive  -- any other byte, which matches itself
  unsigned : ℕ → Directive  -- %llu at 64 bits, %u at 32
  signed : Directive  -- %d
  word : Directive  -- %s
  until : ℕ → ℕ → Directive  -- %31[^:] is `until 31 b':'`
  skip_until : ℕ → Directive  -- %*[^:]
  skip_unsigned : Directive  -- %*u
  skip_float : Directive  -- %*f

pub data Value : Type 0 where
  number : ℕ → Value
  integer : ℤ → Value
  text : Bytes → Value

-- What one directive does with the unread text: an assignment, a match that assigns nothing, a
-- matching failure, or an input failure.
pub data Step : Type 0 where
  assign : Value → Bytes → Step
  pass : Bytes → Step
  mismatch : Step
  ended : Step

abbrev pub is_space : ℕ → Bool
is_space c = c == 32 || (leb 9 c && leb c 13)

abbrev pub is_digit : ℕ → Bool
is_digit c = leb b'0' c && leb c b'9'

unfoldable pub skip_space : Bytes → Bytes
skip_space [] = []
skip_space (c ∷ s) = let rest = skip_space s in if is_space c then rest else c ∷ s

-- The number that the digits in front spell behind `n`, and what follows them.
unfoldable pub read_digits : Bytes → ℕ → ℕ × Bytes
read_digits [] n = (n, [])
read_digits (c ∷ s) n =
    let more = read_digits s (n * 10 + (c - b'0')) in if is_digit c then more else (n, c ∷ s)

-- `strtoull` and `strtol`: a value out of range becomes the nearest bound.
abbrev pub to_unsigned : Bool → ℕ → ℕ
to_unsigned negative n =
    if leb modulus n then modulus - 1 else if negative then (modulus - n) % modulus else n

abbrev pub to_signed : Bool → ℕ → ℤ
to_signed true zero = pos 0
to_signed true (suc n) = negsuc (if ltb n (2 ^ 63) then n else 2 ^ 63 - 1)
to_signed false n = pos (if ltb n (2 ^ 63) then n else 2 ^ 63 - 1)

-- A `long` stored through a pointer to `int` keeps its low 32 bits.
abbrev pub low_int : ℕ → ℤ
low_int w = if ltb w (2 ^ 31) then pos w else negsuc (2 ^ 32 - w - 1)

abbrev pub to_int : ℤ → ℤ
to_int (pos n) = low_int (n % 2 ^ 32)
to_int (negsuc n) = low_int ((2 ^ 32 - 1) - n % 2 ^ 32)

abbrev pub Reading : Type 0
Reading = Option (Bool × ℕ × Bytes)

-- At least one digit.
unfoldable pub magnitude : Bool → Bytes → Reading
unfolding read_digits
magnitude negative [] = none
magnitude negative (c ∷ s) =
    if is_digit c then (let r = read_digits (c ∷ s) 0 in some (negative, r.0, r.1)) else none

-- An optional sign, and digits.
unfoldable pub number_at : Bytes → Reading
unfolding magnitude
number_at [] = none
number_at (c ∷ s) =
    if c == b'-'
    then magnitude true s
    else if c == b'+'
    then magnitude false s
    else magnitude false (c ∷ s)

-- Leading white space is skipped; nothing behind it is an input failure.
unfoldable pub convert_number : (Bool → ℕ → Bytes → Step) → Bytes → Step
convert_number k [] = ended
convert_number k (c ∷ s) = elim (number_at (c ∷ s)) [ none ↦ mismatch | some r ↦ k r.0 r.1 r.2 ]

-- The bytes in front that are no white space, and the rest.
unfoldable pub read_word : Bytes → Bytes × Bytes
read_word [] = ([], [])
read_word (c ∷ s) =
    let more = read_word s in if is_space c then ([], c ∷ s) else (c ∷ more.0, more.1)

-- At most `width` bytes in front that differ from `stop`, and the rest.
unfoldable pub read_until : ℕ → ℕ → Bytes → Bytes × Bytes
read_until stop zero s = ([], s)
read_until stop (suc width) [] = ([], [])
read_until stop (suc width) (c ∷ s) =
    let more = read_until stop width s in if c == stop then ([], c ∷ s) else (c ∷ more.0, more.1)

-- The fraction of a number in decimal notation.
unfoldable pub skip_fraction : Bytes → Bytes
unfolding read_digits
skip_fraction [] = []
skip_fraction (c ∷ s) = if c == b'.' then (read_digits s 0).1 else c ∷ s

unfoldable pub convert_set : (Bytes → Bytes → Step) → ℕ → ℕ → Bytes → Step
unfolding read_until
convert_set k stop width [] = ended
convert_set k stop width (c ∷ s) =
    let r = read_until stop width (c ∷ s) in if c == stop then mismatch else k r.0 r.1

unfoldable pub convert_word : Bytes → Step
unfolding read_word
convert_word [] = ended
convert_word (c ∷ s) = let r = read_word (c ∷ s) in assign (text r.0) r.1

unfoldable pub convert : Directive → Bytes → Step
unfolding skip_space number_at convert_number convert_set convert_word skip_fraction
convert space s = pass (skip_space s)
convert (lit b) [] = ended
convert (lit b) (c ∷ s) = if c == b then pass s else mismatch
convert (unsigned bits) s =
    convert_number (λ negative n rest. assign (number (to_unsigned negative n % 2 ^ bits)) rest)
      (skip_space s)
convert signed s =
    convert_number (λ negative n rest. assign (integer (to_int (to_signed negative n))) rest)
      (skip_space s)
convert word s = convert_word (skip_space s)
convert (until width stop) s = convert_set (λ t rest. assign (text t) rest) stop width s
convert (skip_until stop) s = convert_set (λ t rest. pass rest) stop (length s) s
convert skip_unsigned s = convert_number (λ negative n rest. pass rest) (skip_space s)
convert skip_float s = convert_number (λ negative n rest. pass (skip_fraction rest)) (skip_space s)

-- The values assigned until a directive fails, and whether it failed for want of input.
unfoldable pub run : List Directive → Bytes → List Value × Bool
run [] s = ([], false)
run (d ∷ ds) s = elim (convert d s) [
  | assign v rest ↦ (let more = run ds rest in (v ∷ more.0, more.1))
  | pass rest ↦ run ds rest
  | mismatch ↦ ([], false)
  | ended ↦ ([], true)
]

-- What sscanf(s, format, ...) assigns.
unfoldable pub sscanf : List Directive → Bytes → List Value
unfolding run
sscanf format s = (run format s).0

-- What it returns: the number of assignments, or EOF, -1, if the input ended before the first one.
abbrev returned : List Value → Bool → ℤ
returned [] true = negsuc 0
returned vs failed = pos (length vs)

unfoldable pub sscanf_return : List Directive → Bytes → ℤ
unfolding run
sscanf_return format s = let r = run format s in returned r.0 r.1

-- The directives of a text with no conversion and no white space.
abbrev pub literal : String → List Directive
literal s = map lit (codes s)

meminfo_example :
    sscanf
      (literal "MemTotal:" ++ (space ∷ unsigned 64 ∷ space ∷ literal "kB"))
      (codes "MemTotal:   16284 kB")
    ≡ number 16284 ∷ []
unfolding sscanf convert
meminfo_example = refl

negative_example :
    sscanf (signed ∷ lit b'/' ∷ signed ∷ []) (codes " -3/12 x")
    ≡ integer (negsuc 2) ∷ integer (pos 12) ∷ []
unfolding sscanf convert
negative_example = refl

float_example :
    sscanf (skip_float ∷ space ∷ skip_float ∷ space ∷ signed ∷ []) (codes "0.52 10 7/8")
    ≡ integer (pos 7) ∷ []
unfolding sscanf convert
float_example = refl
