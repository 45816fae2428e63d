-- ===== src/Metrics/ContextSwitches.antt =====
-- `get_context_switches` of src/metrics.c.
pub mod Reading
pub mod Traced
use monitor_program.Base.{ℕ, Option, none, some, List, [], ◌∷◌, ◌++◌, Bytes}
use monitor_program.Libc.Stream.{read_lines}
use monitor_program.Libc.Scan.{Directive, space, unsigned, sscanf, literal}
use monitor_program.Metrics.Memory.{first_number}
use monitor_program.Metrics.Cpu.{stat_buffer_size}

-- "ctxt %llu"
abbrev pub ctxt_format : List Directive
ctxt_format = literal "ctxt" ++ (space ∷ unsigned 64 ∷ [])

-- The loop over the lines; `context_switches` stays 0 until a line matches.
unfoldable pub scan_ctxt : List Bytes → ℕ
scan_ctxt [] = 0
scan_ctxt (line ∷ lines) = elim (first_number (sscanf ctxt_format line)) [
  | some n ↦ n
  | none ↦ scan_ctxt lines
]

unfoldable pub get_context_switches : Option Bytes → ℕ
unfolding scan_ctxt
get_context_switches none = 0
get_context_switches (some content) = scan_ctxt (read_lines stat_buffer_size content)
