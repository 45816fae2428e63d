-- ===== src/Metrics/Memory.antt =====
-- `get_memory_usage` of src/metrics.c.
pub mod Reading
pub mod Bounds
pub mod Errors
pub mod Traced
use monitor_program.Base.{
  ℕ, Bool, ◌||◌, Option, none, some, List, [], ◌∷◌, ◌++◌, Bytes, ◌==◌, if◌then◌else◌,
}
use monitor_program.Base.Int.{negsuc}
use monitor_program.Libc.Word.{sub64}
use monitor_program.Libc.Stream.{read_lines}
use monitor_program.Libc.Scan.{Directive, space, unsigned, Value, number, sscanf, literal}
use monitor_program.Double.{Double, percentage}

abbrev pub meminfo_buffer_size : ℕ
meminfo_buffer_size = 256

-- "MemTotal: %llu kB" and "MemAvailable: %llu kB"
abbrev pub total_format : List Directive
total_format = literal "MemTotal:" ++ (space ∷ unsigned 64 ∷ space ∷ literal "kB")

abbrev pub available_format : List Directive
available_format = literal "MemAvailable:" ++ (space ∷ unsigned 64 ∷ space ∷ literal "kB")

-- The number that a format with one conversion assigns: `none` where `sscanf` does not return 1.
abbrev pub first_number : List Value → Option ℕ
first_number (number n ∷ vs) = some n
first_number vs = none

-- The loop over the lines, with `total_mem` and `free_mem`.
unfoldable pub scan_meminfo : List Bytes → ℕ → ℕ → ℕ × ℕ
scan_meminfo [] total free = (total, free)
scan_meminfo (line ∷ lines) total free = elim (first_number (sscanf total_format line)) [
  | some n ↦ scan_meminfo lines n free
  | none ↦ elim (first_number (sscanf available_format line)) [
    | some n ↦ (total, n)
    | none ↦ scan_meminfo lines total free
  ]
]

module _ (F : Double) where
  -- What follows the loop.
  unfoldable pub memory_percent : ℕ → ℕ → F.Carrier
  memory_percent total free =
      if total == 0 || free == 0 then F.of_int (negsuc 0) else percentage F (sub64 total free) total

  unfoldable pub get_memory_usage : Option Bytes → F.Carrier
  unfolding memory_percent scan_meminfo
  get_memory_usage none = F.of_int (negsuc 0)
  get_memory_usage (some content) =
      let r = scan_meminfo (read_lines meminfo_buffer_size content) 0 0 in memory_percent r.0 r.1
