-- ===== src/Metrics/Memory/Bounds.antt =====
-- The range of `get_memory_usage`, on every file.
use monitor_program.Base.{
  ℕ, ◌-◌, ◌≤◌, ◌<◌, ◌≡◌, refl, arith, Bool-cases, Option-cases, ◌⊎◌, inl, inr, Option, none, some,
  List, [], ◌∷◌, Bytes, All, ◌==◌, ◌||◌,
}
use monitor_program.Base.Int.{negsuc}
use monitor_program.Libc.Word.{modulus, sub64_exact}
use monitor_program.Libc.Stream.{read_lines}
use monitor_program.Libc.Scan.{Value, number, integer, text, sscanf}
use monitor_program.Libc.Scan.Words.{IsWord, sscanf-IsWord}
use monitor_program.Double.{Double, IsLawful, Within}
use monitor_program.Double.Range.{percentage-Within}
use monitor_program.Metrics.Memory.{
  meminfo_buffer_size, total_format, available_format, first_number, scan_meminfo, memory_percent,
  get_memory_usage,
}

pub first_number-IsWord :
    (vs : List Value) (n : ℕ) → All IsWord vs → first_number vs ≡ some n → n < modulus
first_number-IsWord [] n h e = cc
first_number-IsWord (number m ∷ vs) n (h, hs) e = ground arith
first_number-IsWord (integer i ∷ vs) n h e = cc
first_number-IsWord (text t ∷ vs) n h e = cc

scan_meminfo-IsWord :
    (lines : List Bytes) (total free : ℕ)
    → total < modulus
    → (scan_meminfo lines total free).0 < modulus
unfolding scan_meminfo
scan_meminfo-IsWord [] total free h = h
scan_meminfo-IsWord (line ∷ lines) total free h =
    elim (Option-cases (first_number (sscanf total_format line))) [
      | inl e ↦ elim (Option-cases (first_number (sscanf available_format line))) [
        | inl e' ↦ rw (e, e', scan_meminfo) (scan_meminfo-IsWord lines total free h)
        | inr r ↦ rw (e, r.1, scan_meminfo) h
      ]
      | inr r ↦
          rw (r.1, scan_meminfo)
            (scan_meminfo-IsWord lines r.0 free
              (first_number-IsWord _ r.0 (sscanf-IsWord total_format line) r.1))
    ]

-- The two numbers that the loop leaves in `total_mem` and `free_mem`.
abbrev pub scanned : Bytes → ℕ × ℕ
scanned content = scan_meminfo (read_lines meminfo_buffer_size content) 0 0

-- The file does not open, or the available memory found in it does not pass the total.
abbrev pub IsPlausible : Option Bytes → Type 0
IsPlausible none = Unit {0}
IsPlausible (some content) = (scanned content).1 ≤ (scanned content).0

module _ (F : Double) (laws : IsLawful F) where
  memory_percent_bounds :
      (total free : ℕ)
      → free ≤ total
      → total < modulus
      → (memory_percent F total free ≡ F.of_int (negsuc 0))
        ⊎ Within F 0 100 (memory_percent F total free)
  unfolding memory_percent
  memory_percent_bounds total free le lt = elim (Bool-cases (total == 0 || free == 0)) [
    | inl e ↦ inl (rw e)
    | inr e ↦ inr (
        rw (e, sub64_exact total free le lt)
          (percentage-Within F laws (total - free) total (ground arith) (omega arith)))
  ]

  -- On every file whose available memory does not pass its total, the usage is -1.0 or lies
  -- between 0 and 100.
  pub get_memory_usage_bounds :
      (file : Option Bytes)
      → IsPlausible file
      → (get_memory_usage F file ≡ F.of_int (negsuc 0)) ⊎ Within F 0 100 (get_memory_usage F file)
  unfolding get_memory_usage
  get_memory_usage_bounds none h = inl refl
  get_memory_usage_bounds (some content) h =
      memory_percent_bounds (scanned content).0 (scanned content).1 h
        (scan_meminfo-IsWord (read_lines meminfo_buffer_size content) 0 0 (omega arith))
