-- ===== src/Metrics/Processes.antt =====
-- `get_running_processes` of src/metrics.c.
pub mod Reading
pub mod Traced
use monitor_program.Base.{ℕ, Option, none, some, List, [], ◌∷◌, Bytes}
use monitor_program.Base.Int.{ℤ, pos, negsuc}
use monitor_program.Libc.Stream.{fgets}
use monitor_program.Libc.Scan.{Directive, space, lit, signed, skip_float, Value, integer, sscanf}

abbrev pub loadavg_buffer_size : ℕ
loadavg_buffer_size = 128

-- "%*f %*f %*f %d/%d"
abbrev pub loadavg_format : List Directive
loadavg_format =
    skip_float ∷ space ∷ skip_float ∷ space ∷ skip_float ∷ space ∷ signed ∷ lit b'/' ∷ signed ∷ []

-- `running_processes` after the assignments: it starts at 0.
abbrev pub first_integer : List Value → ℤ
first_integer (integer i ∷ vs) = i
first_integer vs = pos 0

unfoldable pub get_running_processes : Option Bytes → ℤ
get_running_processes none = negsuc 0
get_running_processes (some content) = elim (fgets loadavg_buffer_size content) [
  | none ↦ pos 0
  | some r ↦ first_integer (sscanf loadavg_format r.0)
]
