-- ===== src/Metrics/ContextSwitches/Traced.antt =====
-- `get_context_switches` with its calls of stdio.
use monitor_program.Base.{
  ℕ, ◌≡◌, refl, ap, ◌∙◌, arith, true, false, Option, Option-cases, none, some, inl, inr, List, [],
  ◌∷◌, ◌++◌, Bytes,
}
use monitor_program.Libc.Stream.{read_lines}
use monitor_program.Libc.Scan.{sscanf}
use monitor_program.Libc.Stdio.{
  FileCall, opened, closed, system_error, go_on, leave, Round, read_all, fold_lines,
  read_all-fold_lines,
}
use monitor_program.Libc.Stdio.Tidy.{
  uses, messages, quiet-messages, said-quiet, uses-loop, messages-loop,
}
use monitor_program.Metrics.Memory.{first_number}
use monitor_program.Metrics.Cpu.{stat_buffer_size}
use monitor_program.Metrics.ContextSwitches.{ctxt_format, scan_ctxt, get_context_switches}

-- The body of the loop, with `context_switches`.
unfoldable pub ctxt_round : Round ℕ
ctxt_round line switches = elim (first_number (sscanf ctxt_format line)) [
  | some n ↦ ([], leave n)
  | none ↦ ([], go_on switches)
]

unfoldable pub get_context_switches_traced : Option Bytes → List FileCall × ℕ
unfolding ctxt_round
get_context_switches_traced none =
    (opened "/proc/stat" false ∷ system_error "Error al abrir /proc/stat" ∷ [], 0)
get_context_switches_traced (some content) =
    let r = read_all ctxt_round stat_buffer_size content 0 in
    (opened "/proc/stat" true ∷ (r.0 ++ (closed ∷ [])), r.1)

silent_round : (line : Bytes) (switches : ℕ) → (ctxt_round line switches).0 ≡ []
unfolding ctxt_round
silent_round line switches = ground arith

scan_ctxt-fold_lines : (lines : List Bytes) → fold_lines ctxt_round lines 0 ≡ scan_ctxt lines
unfolding fold_lines ctxt_round scan_ctxt
scan_ctxt-fold_lines [] = refl
scan_ctxt-fold_lines (line ∷ lines) = elim (Option-cases (first_number (sscanf ctxt_format line))) [
  | inl e ↦ rw (e, fold_lines, ctxt_round, scan_ctxt) (scan_ctxt-fold_lines lines)
  | inr r ↦ rw (r.1, fold_lines, ctxt_round, scan_ctxt) refl
]

pub get_context_switches_traced-value :
    (file : Option Bytes) → (get_context_switches_traced file).1 ≡ get_context_switches file
unfolding get_context_switches_traced get_context_switches
get_context_switches_traced-value none = refl
get_context_switches_traced-value (some content) =
    read_all-fold_lines ctxt_round stat_buffer_size content 0 (omega arith)
    ∙ scan_ctxt-fold_lines (read_lines stat_buffer_size content)

pub get_context_switches_traced-uses :
    (file : Option Bytes) → uses "/proc/stat" (get_context_switches_traced file).0 ≡ true
unfolding get_context_switches_traced
get_context_switches_traced-uses none = unfold uses in refl
get_context_switches_traced-uses (some content) =
    uses-loop ctxt_round (quiet-messages ctxt_round silent_round) "/proc/stat" stat_buffer_size
      content 0 [] tt refl

pub get_context_switches_traced-messages :
    (content : Bytes) → messages (get_context_switches_traced (some content)).0 ≡ []
unfolding get_context_switches_traced
get_context_switches_traced-messages content =
    messages-loop ctxt_round (quiet-messages ctxt_round silent_round) "/proc/stat" stat_buffer_size
      content 0 [] tt (omega arith)
    ∙ ap (λ (ms : List FileCall). ms ++ []) (said-quiet ctxt_round silent_round _ 0)
