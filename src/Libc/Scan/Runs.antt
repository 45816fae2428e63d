-- ===== src/Libc/Scan/Runs.antt =====
-- `sscanf` one directive at a time, on text that the directive reads.
use monitor_program.Base.{
  ℕ, ◌^◌, ◌<◌, ◌≡◌, refl, ◌∙◌, Bool-cases, inl, inr, arith, Bool, true, false, List, [], ◌∷◌, ◌++◌,
  map, Bytes, ◌==◌, if◌then◌else◌,
}
use monitor_program.Base.Int.{pos}
use monitor_program.Libc.Word.{modulus}
use monitor_program.Libc.Scan.{
  Directive, space, lit, unsigned, signed, skip_unsigned, Value, assign, pass, mismatch, number,
  integer, skip_space, convert, sscanf,
}
use monitor_program.Libc.Scan.Decimal.{
  decimal, stops, padded, skip_space-padded, skip_space-decimal, convert-unsigned,
  convert-unsigned_32, convert-signed, convert-skip_unsigned,
}

-- A text starts with the bytes of another one.
abbrev pub starts_with : Bytes → Bytes → Bool
starts_with s [] = true
starts_with [] (b ∷ p) = false
starts_with (c ∷ s) (b ∷ p) = let more = starts_with s p in if c == b then more else false

-- One directive that assigns, or that only passes over text.
pub sscanf_assign :
    (d : Directive) (ds : List Directive) (s rest : Bytes) (v : Value)
    → convert d s ≡ assign v rest
    → sscanf (d ∷ ds) s ≡ v ∷ sscanf ds rest
unfolding sscanf
sscanf_assign d ds s rest v h = rw (h, sscanf)

pub sscanf_pass :
    (d : Directive) (ds : List Directive) (s rest : Bytes)
    → convert d s ≡ pass rest
    → sscanf (d ∷ ds) s ≡ sscanf ds rest
unfolding sscanf
sscanf_pass d ds s rest h = rw (h, sscanf)

sscanf_mismatch :
    (d : Directive) (ds : List Directive) (s : Bytes)
    → convert d s ≡ mismatch
    → sscanf (d ∷ ds) s ≡ []
unfolding sscanf
sscanf_mismatch d ds s h = rw (h, sscanf)

pub sscanf-nil : (s : Bytes) → sscanf [] s ≡ []
unfolding sscanf
sscanf-nil s = refl

convert-lit : (b : ℕ) (s : Bytes) → convert (lit b) (b ∷ s) ≡ pass s
unfolding convert
convert-lit b s = ground arith

convert-lit_eq : (b c : ℕ) (s : Bytes) → (c == b) ≡ true → convert (lit b) (c ∷ s) ≡ pass s
unfolding convert
convert-lit_eq b c s h = rw h

convert-lit_ne : (b c : ℕ) (s : Bytes) → (c == b) ≡ false → convert (lit b) (c ∷ s) ≡ mismatch
unfolding convert
convert-lit_ne b c s h = rw h

pub sscanf-lit :
    (b : ℕ) (ds : List Directive) (s : Bytes) → sscanf (lit b ∷ ds) (b ∷ s) ≡ sscanf ds s
sscanf-lit b ds s = sscanf_pass (lit b) ds (b ∷ s) s (convert-lit b s)

pub sscanf-space :
    (ds : List Directive) (s : Bytes) → sscanf (space ∷ ds) s ≡ sscanf ds (skip_space s)
unfolding convert
sscanf-space ds s = sscanf_pass space ds s (skip_space s) refl

-- The literal bytes of a format read themselves.
pub sscanf-bytes :
    (p : Bytes) (ds : List Directive) (s : Bytes) → sscanf (map lit p ++ ds) (p ++ s) ≡ sscanf ds s
sscanf-bytes [] ds s = refl
sscanf-bytes (b ∷ p) ds s = sscanf-lit b (map lit p ++ ds) (p ++ s) ∙ sscanf-bytes p ds s

-- A text that does not start with the literal bytes of a format gets no assignment.
pub sscanf-bytes_ne :
    (p : Bytes) (ds : List Directive) (s : Bytes)
    → starts_with s p ≡ false
    → sscanf (map lit p ++ ds) s ≡ []
sscanf-bytes_ne [] ds s h = ground arith
sscanf-bytes_ne (b ∷ p) ds [] h = unfold sscanf convert in refl
sscanf-bytes_ne (b ∷ p) ds (c ∷ s) h = elim (Bool-cases (c == b)) [
  | inl e ↦
      sscanf_pass (lit b) (map lit p ++ ds) (c ∷ s) s (convert-lit_eq b c s e)
      ∙ sscanf-bytes_ne p ds s (rw e at h)
  | inr e ↦ sscanf_mismatch (lit b) (map lit p ++ ds) (c ∷ s) (convert-lit_ne b c s e)
]

module _ (ds : List Directive) (blanks n : ℕ) (rest : Bytes) (h : stops rest ≡ true) where
  pub sscanf-unsigned :
      n < modulus
      → sscanf (unsigned 64 ∷ ds) (padded blanks (decimal n rest)) ≡ number n ∷ sscanf ds rest
  sscanf-unsigned fits =
      sscanf_assign (unsigned 64) ds _ rest (number n) (convert-unsigned blanks n rest h fits)

  pub sscanf-unsigned_32 :
      n < 2 ^ 32
      → sscanf (unsigned 32 ∷ ds) (padded blanks (decimal n rest)) ≡ number n ∷ sscanf ds rest
  sscanf-unsigned_32 fits =
      sscanf_assign (unsigned 32) ds _ rest (number n) (convert-unsigned_32 blanks n rest h fits)

  pub sscanf-signed :
      n < 2 ^ 31
      → sscanf (signed ∷ ds) (padded blanks (decimal n rest)) ≡ integer (pos n) ∷ sscanf ds rest
  sscanf-signed fits =
      sscanf_assign signed ds _ rest (integer (pos n)) (convert-signed blanks n rest h fits)

  pub sscanf-skip_unsigned :
      sscanf (skip_unsigned ∷ ds) (padded blanks (decimal n rest)) ≡ sscanf ds rest
  sscanf-skip_unsigned = sscanf_pass skip_unsigned ds _ rest (convert-skip_unsigned blanks n rest h)

-- White space of a format in front of a number reads blanks that the number would skip itself.
pub skip_space-blanks_decimal :
    (blanks n : ℕ) (rest : Bytes) → skip_space (padded blanks (decimal n rest)) ≡ decimal n rest
skip_space-blanks_decimal blanks n rest = skip_space-padded blanks _ ∙ skip_space-decimal n rest

module _ (ds : List Directive) (blanks n : ℕ) (rest : Bytes) (h : stops rest ≡ true) where
  -- A number behind white space of the format.
  pub sscanf-space_unsigned :
      n < modulus
      → sscanf (space ∷ unsigned 64 ∷ ds) (padded blanks (decimal n rest))
        ≡ number n ∷ sscanf ds rest
  sscanf-space_unsigned fits =
      rw (sscanf-space, skip_space-blanks_decimal) (sscanf-unsigned ds 0 n rest h fits)

  -- A number behind a label.
  pub sscanf-labelled :
      (label : Bytes)
      → n < modulus
      → sscanf
          (map lit label ++ (space ∷ unsigned 64 ∷ ds))
          (label ++ padded blanks (decimal n rest))
        ≡ number n ∷ sscanf ds rest
  sscanf-labelled label fits =
      sscanf-bytes label (space ∷ unsigned 64 ∷ ds) (padded blanks (decimal n rest))
      ∙ sscanf-space_unsigned fits

  -- A suppressed number behind white space of the format.
  pub sscanf-space_skip :
      sscanf (space ∷ skip_unsigned ∷ ds) (padded blanks (decimal n rest)) ≡ sscanf ds rest
  sscanf-space_skip =
      rw (sscanf-space, skip_space-blanks_decimal) (sscanf-skip_unsigned ds 0 n rest h)
