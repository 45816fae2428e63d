-- ===== src/Libc/Stream.antt =====
-- `fgets` on a file of which the rest is a byte string, and the loop that calls it until `NULL`.
pub mod Rounds
pub mod Append
use monitor_program.Base.{
  ℕ, zero, suc, ◌+◌, ◌-◌, ◌≤◌, ◌<◌, ◌≡◌, ◌≢◌, refl, ap, arith, Bool, true, false, Option, none,
  some, List, [], ◌∷◌, ◌++◌, Bytes, All, length, ◌==◌, if◌then◌else◌,
}

abbrev pub newline : ℕ
newline = 10

-- At most `n` bytes, up to a newline, which is kept.
unfoldable pub take_line : ℕ → Bytes → Bytes × Bytes
take_line zero s = ([], s)
take_line (suc n) [] = ([], [])
take_line (suc n) (c ∷ s) =
    let rest = take_line n s in if c == newline then (c ∷ [], s) else (c ∷ rest.0, rest.1)

-- fgets(buffer, size, fp): the buffer's text and the rest of the file, or `none` for `NULL`.
unfoldable pub fgets : ℕ → Bytes → Option (Bytes × Bytes)
unfolding take_line
fgets size [] = none
fgets size (c ∷ s) = some (take_line (size - 1) (c ∷ s))

-- What `while (fgets(buffer, size, fp) != NULL)` finds in the buffer, round by round.
unfoldable pub read_rounds : ℕ → ℕ → Bytes → List Bytes
read_rounds size zero s = []
read_rounds size (suc fuel) s = elim (fgets size s) [
  | none ↦ []
  | some r ↦ r.0 ∷ read_rounds size fuel r.1
]

-- Every round takes a byte at least, so the length of the file is fuel enough.
unfoldable pub read_lines : ℕ → Bytes → List Bytes
unfolding read_rounds
read_lines size s = read_rounds size (length s) s

pub flatten : List Bytes → Bytes
flatten [] = []
flatten (l ∷ ls) = l ++ flatten ls

-- A line that fits a buffer of `size` bytes: it ends in its only newline, and leaves a byte free.
unfoldable pub is_line : ℕ → Bytes → Bool
is_line room [] = false
is_line zero (c ∷ s) = false
is_line (suc room) (c ∷ []) = c == newline
is_line (suc room) (c ∷ d ∷ s) = if c == newline then false else is_line room (d ∷ s)

abbrev pub IsLine : ℕ → Bytes → Type 0
IsLine size l = is_line (size - 1) l ≡ true

take_line-append :
    (room : ℕ) (l s : Bytes) → is_line room l ≡ true → take_line room (l ++ s) ≡ (l, s)
unfolding take_line is_line
take_line-append room [] s h = ground arith
take_line-append zero (c ∷ l) s h = ground arith
take_line-append (suc room) (c ∷ []) s h = ground arith
take_line-append (suc room) (c ∷ d ∷ l) s h = ground (arith, take_line-append room (d ∷ l) s)
