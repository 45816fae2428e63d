-- ===== src/Metrics/Reports.antt =====
-- What the readers report on the standard error, and what they return then.
use monitor_program.Base.{
  ℕ, ◌<◌, ◌≡◌, ◌≢◌, refl, true, false, arith, Bool-cases, ◌⊎◌, inl, inr, Option, none, some, List,
  [], ◌∷◌, Bytes, ◌==◌, ◌||◌,
}
use monitor_program.Base.Int.{negsuc}
use monitor_program.Libc.Word.{modulus, sub64, add64-lt}
use monitor_program.Libc.Stream.{fgets, read_lines}
use monitor_program.Libc.Scan.{sscanf}
use monitor_program.Libc.Stdio.{FileCall}
use monitor_program.Libc.Stdio.Tidy.{messages}
use monitor_program.Double.{Double, percentage}
use monitor_program.Metrics.Memory.{
  meminfo_buffer_size, scan_meminfo, memory_percent, get_memory_usage,
}
use monitor_program.Metrics.Memory.Traced.{
  no_memory, memory_report, get_memory_usage_traced, get_memory_usage_traced-value,
  get_memory_usage_traced-messages,
}
use monitor_program.Metrics.Cpu.{
  CpuState, cpu_format, CpuTimes, cpu_times, cpu_step, total_time, idle_total, non_idle,
}
use monitor_program.Metrics.Cpu.Traced.{no_parse, no_time, parse_cpu, get_cpu_usage_traced}

-- One message.
abbrev pub Reported : List FileCall → Type 0
Reported ms = (m : FileCall) × (ms ≡ m ∷ [])

module _ (F : Double) where
  -- One message and -1.0, or none and the percentage of two numbers that are not 0.
  abbrev pub MemoryReports : List FileCall → F.Carrier → Type 0
  MemoryReports ms value =
      (Reported ms × (value ≡ F.of_int (negsuc 0)))
      ⊎ ((ms ≡ [])
          × ((total : ℕ) × (free : ℕ) × (0 < total)
              × (0 < free)
              × (value ≡ percentage F (sub64 total free) total)))

  memory_percent-MemoryReports :
      (total free : ℕ) → MemoryReports (memory_report total free) (memory_percent F total free)
  unfolding memory_percent
  memory_percent-MemoryReports total free = elim (Bool-cases (total == 0 || free == 0)) [
    | inl e ↦ inl ((no_memory, rw e refl), rw e refl)
    | inr e ↦ inr (rw e refl, (total, free, ground arith, ground arith, rw e refl))
  ]

  get_memory_usage-MemoryReports :
      (file : Option Bytes)
      → let r = get_memory_usage_traced F file in MemoryReports (messages r.0) r.1
  unfolding get_memory_usage
  get_memory_usage-MemoryReports none =
      unfold get_memory_usage_traced messages in inl ((_, refl), refl)
  get_memory_usage-MemoryReports (some content) =
      let r = scan_meminfo (read_lines meminfo_buffer_size content) 0 0 in
      rw
        (
          get_memory_usage_traced-messages F content,
          get_memory_usage_traced-value F (some content),
          get_memory_usage,
        )
        (memory_percent-MemoryReports r.0 r.1)

  module _ (s : CpuState F) where
    -- One message and the percentage and the state of the call before, or none and a step with
    -- counters whose sum moved.
    abbrev pub CpuReports : List FileCall → F.Carrier × CpuState F → Type 0
    CpuReports ms r =
        (Reported ms × (r ≡ (s.percent, s)))
        ⊎ ((ms ≡ []) × (r.0 ≡ r.1.percent) × (total_time r.1.prev ≢ total_time s.prev))

    still : (a : ℕ) → a < modulus → sub64 a a ≡ 0
    unfolding sub64
    still a h = omega arith

    total_time-lt : (t : CpuTimes) → total_time t < modulus
    unfolding total_time
    total_time-lt t = add64-lt (idle_total t) (non_idle t)

    cpu_step_stays :
        (now : CpuTimes)
        → (sub64 (total_time now) (total_time s.prev) == 0) ≡ true
        → cpu_step F now s ≡ (s.percent, s)
    unfolding cpu_step
    cpu_step_stays now e = rw e refl

    cpu_step_moves :
        (now : CpuTimes)
        → (sub64 (total_time now) (total_time s.prev) == 0) ≡ false
        → let r = cpu_step F now s in
          (r.0 ≡ r.1.percent) × (total_time r.1.prev ≢ total_time s.prev)
    unfolding cpu_step
    cpu_step_moves now e =
        rw e
          (refl, λ same. ground (arith, e, same, still (total_time s.prev) (total_time-lt s.prev)))

    parse_cpu-CpuReports :
        (o : Option CpuTimes) → let r = parse_cpu F o s in CpuReports (messages r.0) (r.1, r.2)
    unfolding parse_cpu
    parse_cpu-CpuReports none = unfold messages in inl ((no_parse, refl), refl)
    parse_cpu-CpuReports (some now) =
        elim (Bool-cases (sub64 (total_time now) (total_time s.prev) == 0)) [
          | inl e ↦ rw e (unfold messages in inl ((no_time, refl), cpu_step_stays now e))
          | inr e ↦
              rw e
                (unfold messages in inr (refl, (cpu_step_moves now e).0, (cpu_step_moves now e).1))
        ]

    pub get_cpu_usage-CpuReports :
        (file : Option Bytes)
        → let r = get_cpu_usage_traced F file s in CpuReports (messages r.0) (r.1, r.2)
    unfolding get_cpu_usage_traced messages
    get_cpu_usage-CpuReports none = inl ((_, refl), refl)
    get_cpu_usage-CpuReports (some []) = unfold fgets in inl ((_, refl), refl)
    get_cpu_usage-CpuReports (some (c ∷ content)) =
        unfold fgets in parse_cpu-CpuReports (cpu_times (sscanf cpu_format _))

    -- On every file, and if it does not open: get_memory_usage reports one error and returns -1.0,
    -- or it reports none and returns the percentage of a total and an available memory that are not
    -- 0. get_cpu_usage reports one error, returns the percentage of the call before and keeps its
    -- state, or it reports none, returns the percentage that it keeps, and keeps counters with
    -- another sum than those before.
    pub errors_reported :
        (file : Option Bytes)
        → (let r = get_memory_usage_traced F file in MemoryReports (messages r.0) r.1)
          × (let r = get_cpu_usage_traced F file s in CpuReports (messages r.0) (r.1, r.2))
    errors_reported file = (get_memory_usage-MemoryReports file, get_cpu_usage-CpuReports file)
