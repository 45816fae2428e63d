-- ===== src/Metrics/Processes/Traced.antt =====
-- `get_running_processes` with its calls of stdio.
use monitor_program.Base.{◌≡◌, refl, arith, true, false, Option, none, some, List, [], ◌∷◌, Bytes}
use monitor_program.Base.Int.{ℤ, pos, negsuc}
use monitor_program.Libc.Stream.{fgets}
use monitor_program.Libc.Scan.{sscanf}
use monitor_program.Libc.Stdio.{FileCall, opened, line_read, closed, system_error}
use monitor_program.Libc.Stdio.Tidy.{uses, messages}
use monitor_program.Metrics.Processes.{
  loadavg_buffer_size, loadavg_format, first_integer, get_running_processes,
}

unfoldable pub get_running_processes_traced : Option Bytes → List FileCall × ℤ
get_running_processes_traced none =
    (opened "/proc/loadavg" false ∷ system_error "Error al abrir /proc/loadavg" ∷ [], negsuc 0)
get_running_processes_traced (some content) = elim (fgets loadavg_buffer_size content) [
  | none ↦ (opened "/proc/loadavg" true ∷ line_read none ∷ closed ∷ [], pos 0)
  | some line ↦ (
    opened "/proc/loadavg" true ∷ line_read (some line.0) ∷ closed ∷ [],
    first_integer (sscanf loadavg_format line.0),
  )
]

pub get_running_processes_traced-value :
    (file : Option Bytes) → (get_running_processes_traced file).1 ≡ get_running_processes file
unfolding get_running_processes_traced get_running_processes
get_running_processes_traced-value none = refl
get_running_processes_traced-value (some content) = ground arith

pub get_running_processes_traced-uses :
    (file : Option Bytes) → uses "/proc/loadavg" (get_running_processes_traced file).0 ≡ true
unfolding get_running_processes_traced uses
get_running_processes_traced-uses none = refl
get_running_processes_traced-uses (some content) = ground arith

pub get_running_processes_traced-messages :
    (content : Bytes) → messages (get_running_processes_traced (some content)).0 ≡ []
unfolding get_running_processes_traced messages
get_running_processes_traced-messages content = ground arith
