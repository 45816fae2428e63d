-- ===== src/Metrics/Cpu/Traced.antt =====
-- `get_cpu_usage` with its calls of stdio.
use monitor_program.Base.{
  ◌≡◌, refl, arith, true, false, Option, none, some, List, [], ◌∷◌, Bytes, ◌==◌, if◌then◌else◌,
}
use monitor_program.Libc.Word.{sub64}
use monitor_program.Libc.Stream.{fgets}
use monitor_program.Libc.Scan.{sscanf}
use monitor_program.Libc.Stdio.{FileCall, opened, line_read, closed, system_error, error_message}
use monitor_program.Libc.Stdio.Tidy.{uses}
use monitor_program.Double.{Double}
use monitor_program.Metrics.Cpu.{
  stat_buffer_size, cpu_format, CpuTimes, CpuState, cpu_times, total_time, cpu_step, get_cpu_usage,
}

abbrev pub no_parse : FileCall
no_parse = error_message "Error al parsear /proc/stat\n"

abbrev pub no_time : FileCall
no_time = error_message "Totald es cero, manteniendo el último valor de uso de CPU\n"

module _ (F : Double) where
  -- What follows the reading of the line.
  unfoldable pub parse_cpu : Option CpuTimes → CpuState F → List FileCall × F.Carrier × CpuState F
  parse_cpu none s = (no_parse ∷ [], s.percent, s)
  parse_cpu (some now) s =
      let totald = sub64 (total_time now) (total_time s.prev) in
      let r = cpu_step F now s in (if totald == 0 then no_time ∷ [] else [], r.0, r.1)

  unfoldable pub get_cpu_usage_traced :
      Option Bytes → CpuState F → List FileCall × F.Carrier × CpuState F
  unfolding parse_cpu
  get_cpu_usage_traced none s =
      (opened "/proc/stat" false ∷ system_error "Error al abrir /proc/stat" ∷ [], s.percent, s)
  get_cpu_usage_traced (some content) s = elim (fgets stat_buffer_size content) [
    | none ↦ (
      opened "/proc/stat" true
          ∷ line_read none
          ∷ system_error "Error al leer /proc/stat"
          ∷ closed
          ∷ [],
      s.percent,
      s,
    )
    | some line ↦
        let r = parse_cpu (cpu_times (sscanf cpu_format line.0)) s in
        (opened "/proc/stat" true ∷ line_read (some line.0) ∷ closed ∷ r.0, r.1, r.2)
  ]

  pub get_cpu_usage_traced-value :
      (file : Option Bytes) (s : CpuState F)
      → let r = get_cpu_usage_traced file s in (r.1, r.2) ≡ get_cpu_usage F file s
  unfolding get_cpu_usage_traced get_cpu_usage
  get_cpu_usage_traced-value none s = refl
  get_cpu_usage_traced-value (some content) s = ground arith

  pub get_cpu_usage_traced-uses :
      (file : Option Bytes) (s : CpuState F)
      → uses "/proc/stat" (get_cpu_usage_traced file s).0 ≡ true
  unfolding get_cpu_usage_traced uses
  get_cpu_usage_traced-uses none s = refl
  get_cpu_usage_traced-uses (some content) s = ground arith
