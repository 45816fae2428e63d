-- ===== src/Libc/Stream/Rounds.antt =====
-- The rounds of the reading loop, and the bytes and lines that they find.
use monitor_program.Base.{
  ℕ, zero, suc, ◌+◌, ◌-◌, ◌≤◌, ◌<◌, ◌≡◌, refl, ap, arith, some, List, [], ◌∷◌, ◌++◌, Bytes, All,
  length, length-append, Bool-cases, inl, inr, ◌==◌,
}
use monitor_program.Libc.Stream.{
  newline, take_line, fgets, read_rounds, read_lines, flatten, is_line, IsLine, take_line-append,
}

pub fgets-append : (size : ℕ) (l s : Bytes) → IsLine size l → fgets size (l ++ s) ≡ some (l, s)
unfolding fgets
fgets-append size [] s h = unfold is_line in ground arith
fgets-append size (c ∷ l) s h = rw (take_line-append (size - 1) (c ∷ l) s h)

IsLine-length : (size : ℕ) (l : Bytes) → IsLine size l → 0 < length l
unfolding is_line
IsLine-length size [] h = ground arith
IsLine-length size (c ∷ l) h = omega arith

read_rounds-flatten :
    (size fuel : ℕ) (ls : List Bytes)
    → length (flatten ls) ≤ fuel
    → All (IsLine size) ls
    → read_rounds size fuel (flatten ls) ≡ ls
unfolding read_rounds flatten
read_rounds-flatten size zero [] h lines = refl
read_rounds-flatten size (suc fuel) [] h lines = unfold fgets in refl
read_rounds-flatten size zero (l ∷ ls) h (hl, hs) =
    absurd (omega (arith, length-append l (flatten ls), IsLine-length size l hl))
read_rounds-flatten size (suc fuel) (l ∷ ls) h (hl, hs) =
    rw (fgets-append size l (flatten ls) hl, read_rounds)
      (ap (λ (rest : List Bytes). l ∷ rest)
        (read_rounds-flatten size fuel ls
          (omega (arith, length-append l (flatten ls), IsLine-length size l hl)) hs))

-- A file whose lines fit the buffer is read line by line.
pub read_lines-flatten :
    (size : ℕ) (ls : List Bytes) → All (IsLine size) ls → read_lines size (flatten ls) ≡ ls
unfolding read_lines
read_lines-flatten size ls h = read_rounds-flatten size (length (flatten ls)) ls (omega arith) h

take_line_parts : (n : ℕ) (s : Bytes) → (take_line n s).0 ++ (take_line n s).1 ≡ s
unfolding take_line
take_line_parts zero s = refl
take_line_parts (suc n) [] = refl
take_line_parts (suc n) (c ∷ s) = ground (arith, take_line_parts n s)

length-take_line :
    (n : ℕ) (s : Bytes)
    → (length (take_line n s).0 ≤ n)
      × (length (take_line n s).0 + length (take_line n s).1 ≡ length s)
unfolding take_line
length-take_line zero s = ground arith
length-take_line (suc n) [] = ground arith
length-take_line (suc n) (c ∷ s) = ground (arith, length-take_line n s)

take_line_takes : (n c : ℕ) (s : Bytes) → 0 < n → 0 < length (take_line n (c ∷ s)).0
unfolding take_line
take_line_takes zero c s h = ground arith
take_line_takes (suc n) c s h = ground arith

-- A round leaves less of the file.
pub rest_shorter :
    (size fuel c : ℕ) (s : Bytes)
    → 2 ≤ size
    → length (c ∷ s) ≤ suc fuel
    → length (take_line (size - 1) (c ∷ s)).1 ≤ fuel
rest_shorter size fuel c s big h =
    omega (arith, length-take_line (size - 1) (c ∷ s), take_line_takes (size - 1) c s (omega arith))

read_rounds_parts :
    (size fuel : ℕ) (s : Bytes) → 2 ≤ size → length s ≤ fuel → flatten (read_rounds size fuel s) ≡ s
unfolding read_rounds flatten fgets
read_rounds_parts size zero [] big h = refl
read_rounds_parts size (suc fuel) [] big h = refl
read_rounds_parts size zero (c ∷ s) big h = absurd (omega arith)
read_rounds_parts size (suc fuel) (c ∷ s) big h =
    rw
      (read_rounds_parts size fuel (take_line (size - 1) (c ∷ s)).1 big
        (rest_shorter size fuel c s big h))
      (take_line_parts (size - 1) (c ∷ s))

-- With room for a byte and the terminator, the rounds give the whole file, in order.
pub flatten-read_lines : (size : ℕ) (s : Bytes) → 2 ≤ size → flatten (read_lines size s) ≡ s
unfolding read_lines
flatten-read_lines size s h = read_rounds_parts size (length s) s h (omega arith)

read_rounds-fits :
    (size fuel : ℕ) (s : Bytes) → 2 ≤ size → All (λ l. length l < size) (read_rounds size fuel s)
unfolding read_rounds fgets
read_rounds-fits size zero s h = tt
read_rounds-fits size (suc fuel) [] h = tt
read_rounds-fits size (suc fuel) (c ∷ s) h = (
  omega (arith, length-take_line (size - 1) (c ∷ s)),
  read_rounds-fits size fuel (take_line (size - 1) (c ∷ s)).1 h,
)

-- No round writes past the buffer: a text and its terminator take `size` bytes at most.
pub read_lines-fits :
    (size : ℕ) (s : Bytes) → 2 ≤ size → All (λ l. length l < size) (read_lines size s)
unfolding read_lines
read_lines-fits size s h = read_rounds-fits size (length s) s h

take_line-cons : (room c : ℕ) (s : Bytes) → (l : Bytes) × ((take_line (suc room) (c ∷ s)).0 ≡ c ∷ l)
unfolding take_line
take_line-cons room c s = elim (Bool-cases (c == newline)) [
  | inl e ↦ ([], rw e refl)
  | inr e ↦ ((take_line room s).0, rw e refl)
]

-- The first round finds the first byte.
pub read_lines-cons :
    (room c : ℕ) (s : Bytes)
    → (l : Bytes) × (ls : List Bytes) × (read_lines (room + 2) (c ∷ s) ≡ (c ∷ l) ∷ ls)
unfolding read_lines read_rounds fgets
read_lines-cons room c s =
    let (l, e) = take_line-cons room c s in
    let last : room + 2 - 1 ≡ suc room = omega arith in
    let others = read_rounds (room + 2) (length s) (take_line (suc room) (c ∷ s)).1 in
    (l, others, rw last (ap (λ (line : Bytes). line ∷ others) e))
