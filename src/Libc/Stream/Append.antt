-- ===== src/Libc/Stream/Append.antt =====
-- A file that is a text ending in a newline, followed by another text, is read as the two in turn,
-- however long the lines of the first are.
use monitor_program.Base.{
  ℕ, zero, suc, ◌+◌, ◌-◌, ◌≤◌, ◌≡◌, refl, ap, ◌∙◌, arith, Bool, true, List, [], ◌∷◌, ◌++◌, Bytes,
  length, length-append, ◌==◌,
}
use monitor_program.Libc.Stream.{newline, take_line, fgets, read_rounds, read_lines, IsLine}
use monitor_program.Libc.Stream.Rounds.{rest_shorter, fgets-append}

-- The text is empty or its last byte is a newline.
abbrev pub ends_line : Bytes → Bool
ends_line [] = true
ends_line (c ∷ []) = c == newline
ends_line (c ∷ d ∷ s) = ends_line (d ∷ s)

-- Any fuel that the text's length does not pass gives the same rounds.
read_rounds_fuel :
    (size f g : ℕ) (s : Bytes)
    → 2 ≤ size
    → length s ≤ f
    → length s ≤ g
    → read_rounds size f s ≡ read_rounds size g s
unfolding read_rounds fgets
read_rounds_fuel size zero zero s big hf hg = refl
read_rounds_fuel size zero (suc g) [] big hf hg = refl
read_rounds_fuel size (suc f) zero [] big hf hg = refl
read_rounds_fuel size (suc f) (suc g) [] big hf hg = refl
read_rounds_fuel size zero (suc g) (c ∷ s) big hf hg = absurd (omega arith)
read_rounds_fuel size (suc f) zero (c ∷ s) big hf hg = absurd (omega arith)
read_rounds_fuel size (suc f) (suc g) (c ∷ s) big hf hg =
    ap (λ (rest : List Bytes). (take_line (size - 1) (c ∷ s)).0 ∷ rest)
      (read_rounds_fuel size f g (take_line (size - 1) (c ∷ s)).1 big
        (rest_shorter size f c s big hf) (rest_shorter size g c s big hg))

take_line_ends :
    (n c : ℕ) (a s : Bytes)
    → ends_line (c ∷ a) ≡ true
    → (take_line n (c ∷ a ++ s) ≡ ((take_line n (c ∷ a)).0, (take_line n (c ∷ a)).1 ++ s))
      × (ends_line (take_line n (c ∷ a)).1 ≡ true)
unfolding take_line
take_line_ends zero c a s h = (refl, h)
take_line_ends (suc n) c [] s h = ground arith
take_line_ends (suc n) c (d ∷ a) s h = ground (arith, take_line_ends n d a s)

read_rounds-append :
    (size f g : ℕ) (a s : Bytes)
    → 2 ≤ size
    → length a ≤ f
    → length a + length s ≤ g
    → ends_line a ≡ true
    → read_rounds size g (a ++ s) ≡ read_rounds size f a ++ read_rounds size (length s) s
unfolding read_rounds fgets
read_rounds-append size zero g [] s big hf hg e =
    read_rounds_fuel size g (length s) s big (omega arith) (omega arith)
read_rounds-append size (suc f) g [] s big hf hg e =
    read_rounds_fuel size g (length s) s big (omega arith) (omega arith)
read_rounds-append size zero g (c ∷ a) s big hf hg e = absurd (omega arith)
read_rounds-append size (suc f) zero (c ∷ a) s big hf hg e = absurd (omega arith)
read_rounds-append size (suc f) (suc g) (c ∷ a) s big hf hg e =
    let ends = take_line_ends (size - 1) c a s e in
    let shorter = rest_shorter size f c a big hf in
    let fits = rest_shorter size (length a) c a big (omega arith) in
    rw (ends.0, read_rounds)
      (ap (λ (rest : List Bytes). (take_line (size - 1) (c ∷ a)).0 ∷ rest)
        (read_rounds-append size f g (take_line (size - 1) (c ∷ a)).1 s big shorter (omega arith)
          ends.1))

-- The rounds on a text that ends in a newline, followed by another, are those on the two in turn.
pub read_lines-append :
    (size : ℕ) (a s : Bytes)
    → 2 ≤ size
    → ends_line a ≡ true
    → read_lines size (a ++ s) ≡ read_lines size a ++ read_lines size s
unfolding read_lines
read_lines-append size a s big e =
    read_rounds-append size (length a) (length (a ++ s)) a s big (omega arith)
      (omega (arith, length-append a s)) e

read_rounds_line :
    (size k : ℕ) (l s : Bytes)
    → IsLine size l
    → read_rounds size (suc k) (l ++ s) ≡ l ∷ read_rounds size k s
unfolding read_rounds
read_rounds_line size k l s h = rw (fgets-append size l s h, read_rounds)

-- A line that fits the buffer is one round.
pub read_lines-line :
    (size : ℕ) (l s : Bytes)
    → 2 ≤ size
    → IsLine size l
    → read_lines size (l ++ s) ≡ l ∷ read_lines size s
unfolding read_lines
read_lines-line size l s big h =
    read_rounds_fuel size (length (l ++ s)) (suc (length (l ++ s))) (l ++ s) big (omega arith)
      (omega arith)
    ∙ read_rounds_line size (length (l ++ s)) l s h
    ∙ ap (λ (rest : List Bytes). l ∷ rest)
        (read_rounds_fuel size (length (l ++ s)) (length s) s big (omega (arith, length-append l s))
          (omega arith))
