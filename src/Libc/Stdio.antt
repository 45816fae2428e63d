-- ===== src/Libc/Stdio.antt =====
-- The calls of stdio that a function makes, in order, and the loop
-- `while (fgets(buffer, size, fp) != NULL) { … }`, which takes one line at a time from the file.
pub mod Tidy
use monitor_program.Base.{
  ℕ, zero, suc, ◌-◌, ◌≤◌, ◌⊎◌, inl, inr, ◌≡◌, refl, ap, arith, Bool, Option, none, some, List, [],
  ◌∷◌, ◌++◌, Bytes, String, length,
}
use monitor_program.Base.Int.{ℤ}
use monitor_program.Libc.Stream.{take_line, fgets, read_rounds, read_lines}
use monitor_program.Libc.Stream.Rounds.{rest_shorter}

pub data FileCall : Type 0 where
  opened : String → Bool → FileCall  -- fopen(path, "r"), and whether it is not NULL
  line_read : Option Bytes → FileCall  -- fgets, with the line, or `none` for NULL
  closed : FileCall  -- fclose
  system_error : String → FileCall  -- perror
  error_message : String → FileCall  -- fprintf(stderr, …)
  printed : String → ℤ → FileCall  -- printf with a format and a number

-- How a round of the loop ends: at its end or by `continue`, or by `break`, with its variables.
pub data Next (S : Type 0) : Type 0 where
  go_on : S → Next S
  leave : S → Next S

pub Next-cases : {S : Type 0} (n : Next S) → ((w : S) × (n ≡ leave w)) ⊎ ((w : S) × (n ≡ go_on w))
Next-cases (leave w) = inl (w, refl)
Next-cases (go_on w) = inr (w, refl)

-- The body of the loop: the calls that it makes on a line, and how it ends.
abbrev pub Round : Type 0 → Type 0
Round S = Bytes → S → List FileCall × Next S

module _ {S : Type 0} (body : Round S) where
  -- The loop on a file, with the calls that it makes and its variables at the end. A round takes a
  -- byte at least, and the last one none, so one more than the length of the file is fuel enough.
  unfoldable pub read_while : ℕ → ℕ → Bytes → S → List FileCall × S
  read_while size zero s v = ([], v)
  read_while size (suc fuel) s v = elim (fgets size s) [
    | none ↦ (line_read none ∷ [], v)
    | some r ↦
        let did = body r.0 v in
        elim did.1 [
          | leave w ↦ (line_read (some r.0) ∷ did.0, w)
          | go_on w ↦
              let rest = read_while size fuel r.1 w in
              (line_read (some r.0) ∷ (did.0 ++ rest.0), rest.1)
        ]
  ]

  abbrev pub read_all : ℕ → Bytes → S → List FileCall × S
  read_all size s v = read_while size (suc (length s)) s v

  -- The variables after the loop, from the lines of the file.
  unfoldable pub fold_lines : List Bytes → S → S
  fold_lines [] v = v
  fold_lines (line ∷ lines) v = elim (body line v).1 [ leave w ↦ w | go_on w ↦ fold_lines lines w ]

  -- What the rounds call beside `fgets`.
  unfoldable pub said : List Bytes → S → List FileCall
  said [] v = []
  said (line ∷ lines) v = elim (body line v).1 [
    | leave w ↦ (body line v).0
    | go_on w ↦ (body line v).0 ++ said lines w
  ]

  -- The calls of one round, and of those behind it.
  pub said-cons :
      (line : Bytes) (lines : List Bytes) (v : S) (r : List FileCall × Next S)
      → body line v ≡ r
      → said (line ∷ lines) v
        ≡ (elim r.1 as (λ n. List FileCall) [ leave w ↦ r.0 | go_on w ↦ r.0 ++ said lines w ])
  unfolding said
  said-cons line lines v r e =
      ap
        (λ (did : List FileCall × Next S). elim did.1 as (λ n. List FileCall) [
          | leave w ↦ did.0
          | go_on w ↦ did.0 ++ said lines w
        ])
        e

  read_while-fold_lines :
      (size fuel : ℕ) (s : Bytes) (v : S)
      → 2 ≤ size
      → length s ≤ fuel
      → (read_while size (suc fuel) s v).1 ≡ fold_lines (read_rounds size fuel s) v
  unfolding read_while fold_lines read_rounds fgets
  read_while-fold_lines size zero [] v big h = refl
  read_while-fold_lines size (suc fuel) [] v big h = refl
  read_while-fold_lines size zero (c ∷ s) v big h = absurd (omega arith)
  read_while-fold_lines size (suc fuel) (c ∷ s) v big h =
      let r = take_line (size - 1) (c ∷ s) in
      elim (Next-cases (body r.0 v).1) [
        | inl (w, e) ↦ rw (e, read_while, fold_lines) refl
        | inr (w, e) ↦
            rw (e, read_while, fold_lines)
              (read_while-fold_lines size fuel r.1 w big (rest_shorter size fuel c s big h))
      ]

  -- The loop leaves the variables that its body computes from the lines of the file.
  pub read_all-fold_lines :
      (size : ℕ) (s : Bytes) (v : S)
      → 2 ≤ size
      → (read_all size s v).1 ≡ fold_lines (read_lines size s) v
  unfolding read_lines
  read_all-fold_lines size s v big = read_while-fold_lines size (length s) s v big (omega arith)
