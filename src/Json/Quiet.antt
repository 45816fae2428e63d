-- ===== src/Json/Quiet.antt =====
-- What `send_metrics_as_json` reports when all the files of /proc are in the kernel's layout.
use monitor_program.Base.{
  ℕ, Option, Bool, ◌<◌, ◌≤◌, ◌≡◌, ◌≢◌, refl, sym, subst, map, ap, ◌∙◌, arith, inl, inr, some, List,
  [], ◌∷◌, Bytes, All,
}
use monitor_program.Libc.Stream.{flatten}
use monitor_program.Libc.Stdio.{FileCall}
use monitor_program.Libc.Stdio.Tidy.{messages}
use monitor_program.Double.{Double}
use monitor_program.Metrics.Memory.Traced.{
  memory_report, get_memory_usage_traced, get_memory_usage_traced-messages,
}
use monitor_program.Metrics.Memory.Reading.{scan_meminfo-file}
use monitor_program.Metrics.Cpu.{CpuState, get_cpu_usage}
use monitor_program.Metrics.Cpu.Step.{elapsed, Later}
use monitor_program.Metrics.Cpu.Traced.{get_cpu_usage_traced, get_cpu_usage_traced-value}
use monitor_program.Metrics.Reports.{get_cpu_usage-CpuReports}
use monitor_program.Metrics.Disk.{DiskStats}
use monitor_program.Metrics.Disk.Reading.{
  Entry as DiskEntry, IsEntry as IsDiskEntry, line_of, diskstats_file, find_disk, find_disk_safe,
  get_disk_stats-find_disk,
}
use monitor_program.Metrics.Disk.Complaints.{
  Piece, good, IsPiece, text_of, reports, Calls-map, get_disk_stats_traced-pieces,
}
use monitor_program.Metrics.Disk.Traced.{Calls, get_disk_stats_traced, get_disk_stats_traced-some}
use monitor_program.Metrics.Network.Traced.{
  get_network_stats_traced, get_network_stats_traced-messages,
}
use monitor_program.Metrics.Processes.Traced.{
  get_running_processes_traced, get_running_processes_traced-messages,
}
use monitor_program.Metrics.ContextSwitches.Traced.{
  get_context_switches_traced, get_context_switches_traced-messages,
}
use monitor_program.Expose.Update.{interface}
use monitor_program.Json.{JsonCall, Field, send_metrics_as_json}
use monitor_program.Json.Effects.{shown, shown-quiet}
use monitor_program.Json.Resources.{
  fields, all_calls, pipe_message, shown-ending, send_metrics_as_json-calls,
}
use monitor_program.Json.Kernel.{Snapshot, files, IsKernel, cpu_reading}

quiet_report : (total free : ℕ) → 0 < free → free ≤ total → memory_report total free ≡ []
quiet_report total free h le = ground arith

-- A table of the kernel's lines only.
rows : List DiskEntry → List Piece
rows es = map good es

IsPiece-rows : (es : List DiskEntry) → All IsDiskEntry es → All IsPiece (rows es)
unfolding rows
IsPiece-rows [] h = tt
IsPiece-rows (e ∷ es) (h, hs) = (h, IsPiece-rows es hs)

text_of-rows : (es : List DiskEntry) → map text_of (rows es) ≡ diskstats_file es
unfolding rows
text_of-rows [] = refl
text_of-rows (e ∷ es) = ap (λ (ls : List Bytes). line_of e ∷ ls) (text_of-rows es)

reports-rows : (es : List DiskEntry) → reports (rows es) ≡ []
unfolding reports rows
reports-rows [] = refl
reports-rows (e ∷ es) = ground (arith, reports-rows es)

module _ (F : Double) (k : Snapshot) (h : IsKernel k) where
  quiet_disk : Calls (λ cs. messages cs ≡ []) (get_disk_stats_traced (files k).diskstats)
  quiet_disk =
      subst (λ ls. Calls (λ cs. messages cs ≡ []) (get_disk_stats_traced (some (flatten ls))))
        (text_of-rows k.disks)
        (Calls-map _ (reports-rows k.disks)
          (get_disk_stats_traced-pieces (rows k.disks) (IsPiece-rows k.disks h.disks)).1)

  quiet_memory : messages (get_memory_usage_traced F (files k).meminfo).0 ≡ []
  quiet_memory =
      get_memory_usage_traced-messages F _
      ∙ ap (λ (r : ℕ × ℕ). memory_report r.0 r.1)
          (scan_meminfo-file k.memory_before k.total_blanks k.total k.memory_between
            k.available_blanks k.available k.memory_after h.memory_before h.total h.memory_between
            h.available)
      ∙ quiet_report k.total k.available h.some_memory h.less_memory

  quiet_cpu :
      (s : CpuState F)
      → Later s.prev k.times
      → elapsed s.prev < elapsed k.times
      → messages (get_cpu_usage_traced F (files k).stat s).0 ≡ []
  quiet_cpu s later advance = elim (get_cpu_usage-CpuReports F s (files k).stat) [
    | inl (reported, stays) ↦
        let moved =
          sym stays
          ∙ get_cpu_usage_traced-value F (files k).stat s
          ∙ cpu_reading F k h s later advance in
        absurd (differ (ap (λ r. elapsed r.1.prev) moved))
    | inr (quiet, kept, moved) ↦ quiet
  ]
    where
      differ : elapsed s.prev ≢ elapsed k.times
      differ e = omega arith

  module _ (print : List (Field F) → Option Bytes) (opens : Bool) (s : CpuState F)
      (later : Later s.prev k.times) (advance : elapsed s.prev < elapsed k.times) where
    all_calls-shown :
        (disk : List FileCall) (t : Option Bytes)
        → messages disk ≡ []
        → shown (all_calls F print opens (files k) s disk t) ≡ pipe_message opens t
    unfolding shown
    all_calls-shown disk t quiet =
        let p = files k in
        rw (
          shown-quiet (get_cpu_usage_traced F p.stat s).0 (quiet_cpu s later advance),
          shown-quiet (get_memory_usage_traced F p.meminfo).0 quiet_memory,
          shown-quiet disk quiet,
          shown-quiet (get_network_stats_traced p.garbage interface p.net_dev).0
              (get_network_stats_traced-messages interface k.garbage _),
          shown-quiet (get_running_processes_traced p.loadavg).0
              (get_running_processes_traced-messages _),
          shown-quiet (get_context_switches_traced p.stat_later).0
              (get_context_switches_traced-messages _),
          shown-ending opens t,
        )

    -- When every file is in the kernel's layout, and the processor's counters moved on and none
    -- went back, the function returns, and none of the six functions that it calls reports
    -- anything, on the standard error or the standard output. The only message is that the pipe
    -- does not open, which is reported exactly if there is a text for it.
    pub send_metrics_as_json_quiet :
        (disk : DiskStats) × (cs : List JsonCall) × (find_disk k.disks ≡ some disk)
        × (send_metrics_as_json F print opens (files k) s
            ≡ some (cs, (get_cpu_usage F (files k).stat s).1))
        × (shown cs ≡ pipe_message opens (print (fields F print opens (files k) s disk)))
    send_metrics_as_json_quiet =
        let (disk, found) = find_disk_safe k.disks h.short in
        let reading = get_disk_stats-find_disk k.disks h.disks ∙ found in
        let traced = get_disk_stats_traced-some (files k).diskstats disk reading in
        let quiet = subst (Calls (λ cs. messages cs ≡ [])) traced.1 quiet_disk in
        (
          disk,
          all_calls F print opens (files k) s traced.0
              (print (fields F print opens (files k) s disk)),
          found,
          send_metrics_as_json-calls F print opens (files k) s disk traced.0 traced.1,
          all_calls-shown traced.0 _ quiet,
        )
