-- ===== src/Metrics/Memory/Traced.antt =====
-- `get_memory_usage` with its calls of stdio: the file that it opens, reads and closes, and what it
-- reports.
use monitor_program.Base.{
  ℕ, ◌≡◌, refl, ap, ◌∙◌, arith, true, false, ◌||◌, Option, Option-cases, none, some, inl, inr, List,
  [], ◌∷◌, ◌++◌, Bytes, ◌==◌, if◌then◌else◌, All,
}
use monitor_program.Base.Int.{negsuc}
use monitor_program.Libc.Stream.{read_lines}
use monitor_program.Libc.Scan.{sscanf}
use monitor_program.Libc.Stdio.{
  FileCall, opened, closed, system_error, error_message, go_on, leave, Round, read_all, fold_lines,
  read_all-fold_lines,
}
use monitor_program.Libc.Stdio.Tidy.{
  uses, messages, quiet-messages, said-quiet, uses-loop, messages-loop, IsMessage,
}
use monitor_program.Double.{Double}
use monitor_program.Metrics.Memory.{
  meminfo_buffer_size, total_format, available_format, first_number, scan_meminfo, memory_percent,
  get_memory_usage,
}

-- The body of the loop, with `total_mem` and `free_mem`.
unfoldable pub meminfo_round : Round (ℕ × ℕ)
meminfo_round line v = elim (first_number (sscanf total_format line)) [
  | some n ↦ ([], go_on (n, v.1))
  | none ↦ elim (first_number (sscanf available_format line)) [
    | some n ↦ ([], leave (v.0, n))
    | none ↦ ([], go_on v)
  ]
]

abbrev pub no_memory : FileCall
no_memory = error_message "Error al leer la información de memoria desde /proc/meminfo\n"

abbrev pub memory_report : ℕ → ℕ → List FileCall
memory_report total free = if total == 0 || free == 0 then no_memory ∷ [] else []

module _ (F : Double) where
  unfoldable pub get_memory_usage_traced : Option Bytes → List FileCall × F.Carrier
  unfolding meminfo_round
  get_memory_usage_traced none = (
    opened "/proc/meminfo" false ∷ system_error "Error al abrir /proc/meminfo" ∷ [],
    F.of_int (negsuc 0),
  )
  get_memory_usage_traced (some content) =
      let r = read_all meminfo_round meminfo_buffer_size content (0, 0) in
      (
        opened "/proc/meminfo" true ∷ (r.0 ++ (closed ∷ memory_report r.1.0 r.1.1)),
        memory_percent F r.1.0 r.1.1,
      )

silent_round : (line : Bytes) (v : ℕ × ℕ) → (meminfo_round line v).0 ≡ []
unfolding meminfo_round
silent_round line v = ground arith

report_messages : (total free : ℕ) → All IsMessage (memory_report total free)
report_messages total free = ground arith

scan_meminfo-fold_lines :
    (lines : List Bytes) (total free : ℕ)
    → fold_lines meminfo_round lines (total, free) ≡ scan_meminfo lines total free
unfolding fold_lines meminfo_round scan_meminfo
scan_meminfo-fold_lines [] total free = refl
scan_meminfo-fold_lines (line ∷ lines) total free =
    elim (Option-cases (first_number (sscanf total_format line))) [
      | inl e ↦ elim (Option-cases (first_number (sscanf available_format line))) [
        | inl e' ↦
            rw (e, e', fold_lines, meminfo_round, scan_meminfo)
              (scan_meminfo-fold_lines lines total free)
        | inr r ↦ rw (e, r.1, fold_lines, meminfo_round, scan_meminfo) refl
      ]
      | inr r ↦
          rw (r.1, fold_lines, meminfo_round, scan_meminfo) (scan_meminfo-fold_lines lines r.0 free)
    ]

-- The two numbers that the loop leaves.
loop_numbers :
    (content : Bytes)
    → (read_all meminfo_round meminfo_buffer_size content (0, 0)).1
      ≡ scan_meminfo (read_lines meminfo_buffer_size content) 0 0
loop_numbers content =
    read_all-fold_lines meminfo_round meminfo_buffer_size content (0, 0) (omega arith)
    ∙ scan_meminfo-fold_lines (read_lines meminfo_buffer_size content) 0 0

pub get_memory_usage_traced-value :
    (F : Double) (file : Option Bytes)
    → (get_memory_usage_traced F file).1 ≡ get_memory_usage F file
unfolding get_memory_usage_traced get_memory_usage
get_memory_usage_traced-value F none = refl
get_memory_usage_traced-value F (some content) =
    ap (λ (r : ℕ × ℕ). memory_percent F r.0 r.1) (loop_numbers content)

pub get_memory_usage_traced-uses :
    (F : Double) (file : Option Bytes)
    → uses "/proc/meminfo" (get_memory_usage_traced F file).0 ≡ true
unfolding get_memory_usage_traced
get_memory_usage_traced-uses F none = unfold uses in refl
get_memory_usage_traced-uses F (some content) =
    let v = (read_all meminfo_round meminfo_buffer_size content (0, 0)).1 in
    uses-loop meminfo_round (quiet-messages meminfo_round silent_round) "/proc/meminfo"
      meminfo_buffer_size content (0, 0) (memory_report v.0 v.1) (report_messages v.0 v.1) refl

pub get_memory_usage_traced-messages :
    (F : Double) (content : Bytes)
    → let r = scan_meminfo (read_lines meminfo_buffer_size content) 0 0 in
      messages (get_memory_usage_traced F (some content)).0 ≡ memory_report r.0 r.1
unfolding get_memory_usage_traced
get_memory_usage_traced-messages F content =
    let v = (read_all meminfo_round meminfo_buffer_size content (0, 0)).1 in
    messages-loop meminfo_round (quiet-messages meminfo_round silent_round) "/proc/meminfo"
      meminfo_buffer_size content (0, 0) (memory_report v.0 v.1) (report_messages v.0 v.1)
      (omega arith)
    ∙ ap (λ (ms : List FileCall). ms ++ memory_report v.0 v.1)
        (said-quiet meminfo_round silent_round _ (0, 0))
    ∙ ap (λ (r : ℕ × ℕ). memory_report r.0 r.1) (loop_numbers content)
