-- ===== src/Libc/Scan/Fields.antt =====
-- The conversions of text: "%s", and "%31[^:]" with its suppressed form.
use monitor_program.Base.{
  ℕ, zero, suc, ◌≤◌, ◌≡◌, refl, ap, ◌∙◌, arith, true, false, List, [], ◌∷◌, ◌++◌, Bytes, All,
  length, length-append, ◌==◌,
}
use monitor_program.Libc.Scan.{
  Directive, space, word, until, skip_until, text, assign, is_space, skip_space, read_word,
  read_until, convert_word, convert_set, convert, sscanf,
}
use monitor_program.Libc.Scan.Decimal.{padded, skip_space-padded}
use monitor_program.Libc.Scan.Runs.{sscanf_assign, sscanf_pass, sscanf-space}

-- Text with no white space in it, and at least one byte.
abbrev pub NoSpace : Bytes → Type 0
NoSpace s = All (λ c. is_space c ≡ false) s

read_word-append :
    (s rest : Bytes) (b : ℕ)
    → NoSpace s
    → is_space b ≡ true
    → read_word (s ++ (b ∷ rest)) ≡ (s, b ∷ rest)
unfolding read_word
read_word-append [] rest b h hb = rw hb
read_word-append (c ∷ s) rest b (h, hs) hb = rw (h, read_word-append s rest b hs hb)

skip_space_at : (c : ℕ) (s : Bytes) → is_space c ≡ false → skip_space (c ∷ s) ≡ c ∷ s
unfolding skip_space
skip_space_at c s h = rw h

convert_word-append :
    (c : ℕ) (s rest : Bytes) (b : ℕ)
    → NoSpace (c ∷ s)
    → is_space b ≡ true
    → convert_word (c ∷ (s ++ (b ∷ rest))) ≡ assign (text (c ∷ s)) (b ∷ rest)
unfolding convert_word
convert_word-append c s rest b h hb = rw (read_word-append (c ∷ s) rest b h hb)

convert-word :
    (c : ℕ) (s rest : Bytes) (b : ℕ)
    → NoSpace (c ∷ s)
    → is_space b ≡ true
    → convert word (c ∷ (s ++ (b ∷ rest))) ≡ assign (text (c ∷ s)) (b ∷ rest)
convert-word c s rest b h hb =
    unfold convert in
    (ap convert_word (skip_space_at c (s ++ (b ∷ rest)) h.0) ∙ convert_word-append c s rest b h hb)

-- A word behind white space of the format, with white space behind it.
pub sscanf-space_word :
    (ds : List Directive) (blanks : ℕ) (c : ℕ) (s rest : Bytes) (b : ℕ)
    → NoSpace (c ∷ s)
    → is_space b ≡ true
    → sscanf (space ∷ word ∷ ds) (padded blanks ((c ∷ s) ++ (b ∷ rest)))
      ≡ text (c ∷ s) ∷ sscanf ds (b ∷ rest)
sscanf-space_word ds blanks c s rest b h hb =
    sscanf-space (word ∷ ds) _
    ∙ ap (sscanf (word ∷ ds))
        (skip_space-padded blanks ((c ∷ s) ++ (b ∷ rest)) ∙ skip_space_at c (s ++ (b ∷ rest)) h.0)
    ∙ sscanf_assign word ds _ (b ∷ rest) (text (c ∷ s)) (convert-word c s rest b h hb)

-- Text that lacks a byte.
abbrev pub Lacks : ℕ → Bytes → Type 0
Lacks stop s = All (λ c. (c == stop) ≡ false) s

read_until-append :
    (stop width : ℕ) (s rest : Bytes)
    → length s ≤ width
    → Lacks stop s
    → read_until stop width (s ++ (stop ∷ rest)) ≡ (s, stop ∷ rest)
unfolding read_until
read_until-append stop zero [] rest h l = refl
read_until-append stop (suc width) [] rest h l = ground arith
read_until-append stop zero (c ∷ s) rest h l = absurd (omega arith)
read_until-append stop (suc width) (c ∷ s) rest h (l, ls) =
    rw (l, read_until-append stop width s rest (omega arith) ls)

module _ (ds : List Directive) (stop : ℕ) (c : ℕ) (s rest : Bytes) (l : Lacks stop (c ∷ s)) where
  pub sscanf-until :
      (width : ℕ)
      → length (c ∷ s) ≤ width
      → sscanf (until width stop ∷ ds) ((c ∷ s) ++ (stop ∷ rest))
        ≡ text (c ∷ s) ∷ sscanf ds (stop ∷ rest)
  unfolding convert convert_set
  sscanf-until width h =
      sscanf_assign (until width stop) ds _ (stop ∷ rest) (text (c ∷ s))
        (rw (l.0, read_until-append stop width (c ∷ s) rest h l))

  pub sscanf-skip_until :
      sscanf (skip_until stop ∷ ds) ((c ∷ s) ++ (stop ∷ rest)) ≡ sscanf ds (stop ∷ rest)
  unfolding convert convert_set
  sscanf-skip_until =
      let shorter = read_until-append stop (length (s ++ (stop ∷ rest))) s rest room l.1 in
      sscanf_pass (skip_until stop) ds _ (stop ∷ rest) (rw (l.0, shorter))
    where
      room : length s ≤ length (s ++ (stop ∷ rest))
      room = omega (arith, length-append s (stop ∷ rest))

-- On any text that does not begin with the stop, the conversion assigns what stands before it.
pub convert-until :
    (width stop c : ℕ) (s : Bytes)
    → (c == stop) ≡ false
    → let found = read_until stop width (c ∷ s) in
      convert (until width stop) (c ∷ s) ≡ assign (text found.0) found.1
unfolding convert convert_set
convert-until width stop c s h = rw h refl
