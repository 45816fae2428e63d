-- ===== src/Libc/Scan/Words.antt =====
-- What `sscanf` assigns, whatever the text: a number is an `unsigned long long`, and an integer an
-- `int`.
use monitor_program.Base.{
  ℕ, ◌%◌, ◌^◌, ◌<◌, ◌≡◌, ◌≢◌, refl, arith, Bool, true, false, none, some, List, [], ◌∷◌, Bytes, All,
  length, ◌-◌, subst, ap, ◌==◌, if◌then◌else◌,
}
use monitor_program.Base.Int.{ℤ, pos, negsuc}
use monitor_program.Libc.Word.{modulus}
use monitor_program.Libc.Scan.{
  Directive, space, lit, unsigned, signed, word, until, skip_until, skip_unsigned, skip_float,
  Value, number, integer, text, Step, assign, pass, mismatch, ended, to_unsigned, to_signed, to_int,
  low_int, skip_space, skip_fraction, Reading, number_at, convert_number, convert_set, convert_word,
  convert, run, sscanf,
}

-- The range of `int`.
abbrev pub IsInt : ℤ → Type 0
IsInt (pos n) = n < 2 ^ 31
IsInt (negsuc n) = n < 2 ^ 31

abbrev pub IsWord : Value → Type 0
IsWord (number n) = n < modulus
IsWord (integer i) = IsInt i
IsWord (text t) = Unit {0}

to_unsigned-lt : (bits : ℕ) (negative : Bool) (n : ℕ) → to_unsigned negative n % 2 ^ bits < modulus
to_unsigned-lt bits negative n = ground arith

low_int-IsInt : (w : ℕ) → w < 2 ^ 32 → IsInt (low_int w)
low_int-IsInt w h = ground arith

to_int-IsInt : (i : ℤ) → IsInt (to_int i)
to_int-IsInt (pos n) = low_int-IsInt (n % 2 ^ 32) (omega arith)
to_int-IsInt (negsuc n) = low_int-IsInt ((2 ^ 32 - 1) - n % 2 ^ 32) (omega arith)

module _ (k : Bool → ℕ → Bytes → Step) (v : Value) (rest : Bytes) where
  abbrev Origin : Type 0
  Origin = (negative : Bool) × (n : ℕ) × (left : Bytes) × (k negative n left ≡ assign v rest)

  reading_origin :
      (r : Reading) → (elim r [ none ↦ mismatch | some t ↦ k t.0 t.1 t.2 ]) ≡ assign v rest → Origin
  reading_origin none h = cc
  reading_origin (some t) h = (t.0, t.1, t.2, h)

  -- What a conversion of a number assigns comes from a number that it read.
  convert_number_origin : (s : Bytes) → convert_number k s ≡ assign v rest → Origin
  unfolding convert_number
  convert_number_origin [] h = cc
  convert_number_origin (c ∷ s) h = reading_origin (number_at (c ∷ s)) h

abbrev assigned_value : Step → Value
assigned_value (assign v rest) = v
assigned_value r = text []

assigned : (w v : Value) (r s : Bytes) → assign w r ≡ assign v s → IsWord w → IsWord v
assigned w v r s e h = subst IsWord (ap assigned_value e) h

unsigned-IsWord :
    (bits : ℕ) (s : Bytes) (v : Value) (rest : Bytes)
    → convert (unsigned bits) s ≡ assign v rest
    → IsWord v
unfolding convert
unsigned-IsWord bits s v rest h =
    let o =
      convert_number_origin
        (λ negative m left. assign (number (to_unsigned negative m % 2 ^ bits)) left) v rest
        (skip_space s) h in
    assigned _ v o.2 rest o.3 (to_unsigned-lt bits o.0 o.1)

signed-IsWord : (s : Bytes) (v : Value) (rest : Bytes) → convert signed s ≡ assign v rest → IsWord v
unfolding convert
signed-IsWord s v rest h =
    let o =
      convert_number_origin
        (λ negative m left. assign (integer (to_int (to_signed negative m))) left) v rest
        (skip_space s) h in
    assigned _ v o.2 rest o.3 (to_int-IsInt (to_signed o.0 o.1))

skip_unsigned_no_value :
    (s : Bytes) (v : Value) (rest : Bytes) → convert skip_unsigned s ≢ assign v rest
unfolding convert
skip_unsigned_no_value s v rest h =
    let o = convert_number_origin (λ negative m left. pass left) v rest (skip_space s) h in cc o.3

skip_float_no_value : (s : Bytes) (v : Value) (rest : Bytes) → convert skip_float s ≢ assign v rest
unfolding convert
skip_float_no_value s v rest h =
    let o =
      convert_number_origin (λ negative m left. pass (skip_fraction left)) v rest (skip_space s)
        h in
    cc o.3

convert_word-IsWord :
    (s : Bytes) (v : Value) (rest : Bytes) → convert_word s ≡ assign v rest → IsWord v
unfolding convert_word
convert_word-IsWord [] v rest h = cc
convert_word-IsWord (c ∷ s) v rest h = assigned _ v _ rest h tt

guarded_text-IsWord :
    (b : Bool) (t left : Bytes) (v : Value) (rest : Bytes)
    → (if b then mismatch else assign (text t) left) ≡ assign v rest
    → IsWord v
guarded_text-IsWord true t left v rest h = cc
guarded_text-IsWord false t left v rest h = assigned (text t) v left rest h tt

convert_set-IsWord :
    (stop width : ℕ) (s : Bytes) (v : Value) (rest : Bytes)
    → convert_set (λ t left. assign (text t) left) stop width s ≡ assign v rest
    → IsWord v
unfolding convert_set
convert_set-IsWord stop width [] v rest h = cc
convert_set-IsWord stop width (c ∷ s) v rest h = guarded_text-IsWord (c == stop) _ _ v rest h

skip_set_no_value :
    (stop width : ℕ) (s : Bytes) (v : Value) (rest : Bytes)
    → convert_set (λ t left. pass left) stop width s ≢ assign v rest
unfolding convert_set
skip_set_no_value stop width [] v rest = λ h. cc
skip_set_no_value stop width (c ∷ s) v rest = λ h. ground arith

lit_no_value : (b : ℕ) (s : Bytes) (v : Value) (rest : Bytes) → convert (lit b) s ≢ assign v rest
unfolding convert
lit_no_value b [] v rest = λ h. cc
lit_no_value b (c ∷ s) v rest = λ h. ground arith

convert-IsWord :
    (d : Directive) (s : Bytes) (v : Value) (rest : Bytes) → convert d s ≡ assign v rest → IsWord v
unfolding convert
convert-IsWord space s v rest h = cc
convert-IsWord (lit b) s v rest h = absurd (lit_no_value b s v rest h)
convert-IsWord (unsigned bits) s v rest h = unsigned-IsWord bits s v rest h
convert-IsWord signed s v rest h = signed-IsWord s v rest h
convert-IsWord word s v rest h = convert_word-IsWord (skip_space s) v rest h
convert-IsWord (until width stop) s v rest h = convert_set-IsWord stop width s v rest h
convert-IsWord (skip_until stop) s v rest h = absurd (skip_set_no_value stop (length s) s v rest h)
convert-IsWord skip_unsigned s v rest h = absurd (skip_unsigned_no_value s v rest h)
convert-IsWord skip_float s v rest h = absurd (skip_float_no_value s v rest h)

pub sscanf-IsWord : (ds : List Directive) (s : Bytes) → All IsWord (sscanf ds s)
unfolding sscanf
sscanf-IsWord [] s = tt
sscanf-IsWord (d ∷ ds) s =
    go (convert d s) (λ v rest e. convert-IsWord d s v rest e) (λ rest. sscanf-IsWord ds rest)
  where
    go :
        (r : Step)
        → ((v : Value) (rest : Bytes) → r ≡ assign v rest → IsWord v)
        → ((rest : Bytes) → All IsWord (run ds rest).0)
        → All IsWord
            (elim r as (λ x. List Value × Bool) [
              | assign v rest ↦ (v ∷ (run ds rest).0, (run ds rest).1)
              | pass rest ↦ run ds rest
              | mismatch ↦ ([], false)
              | ended ↦ ([], true)
            ]).0
    go (assign v rest) h ih = (h v rest refl, ih rest)
    go (pass rest) h ih = ih rest
    go mismatch h ih = tt
    go ended h ih = tt
