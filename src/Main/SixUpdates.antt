-- ===== src/Main/SixUpdates.antt =====
-- The six functions `update_*` that read /proc, on any files: the values that they leave in the
-- gauges, and the states that they keep.
use monitor_program.Base.{ℕ, ◌≡◌, refl, ap, ◌∙◌, some, List, ◌++◌}
use monitor_program.Libc.Stdio.{FileCall}
use monitor_program.Double.{Double}
use monitor_program.Metrics.Cpu.{CpuState, get_cpu_usage}
use monitor_program.Metrics.Disk.{DiskStats, get_disk_stats}
use monitor_program.Metrics.Network.{NetStats, get_network_stats}
use monitor_program.Expose.{Gauge, Call, read_calls}
use monitor_program.Expose.Update.{
  cpu_calls, memory_calls, disk_calls, network_calls, processes_calls, context_switches_step,
  interface, update_cpu_gauge, update_memory_gauge, update_disk_metrics, update_network_metrics,
  update_count_processes, update_context_switches_metric,
}
use monitor_program.Expose.Values.{final_value}
use monitor_program.Main.Gauges.{is}
use monitor_program.Metrics.Cpu.Traced.{get_cpu_usage_traced, get_cpu_usage_traced-value}
use monitor_program.Metrics.Memory.Traced.{get_memory_usage_traced, get_memory_usage_traced-value}
use monitor_program.Metrics.Disk.Traced.{get_disk_stats_traced-some}
use monitor_program.Metrics.Network.Traced.{
  get_network_stats_traced, get_network_stats_traced-value,
}
use monitor_program.Metrics.Processes.Traced.{
  get_running_processes_traced, get_running_processes_traced-value,
}
use monitor_program.Metrics.ContextSwitches.Traced.{
  get_context_switches_traced, get_context_switches_traced-value,
}
use monitor_program.Main.GaugeValues.{
  Alike, Alike-append, final_value-read_calls, updated, final_value-unread_calls,
}
use monitor_program.Metrics.Memory.{get_memory_usage}
use monitor_program.Metrics.Processes.{get_running_processes}
use monitor_program.Metrics.ContextSwitches.{get_context_switches}
use monitor_program.Json.{Proc}

module _ (F : Double) where
  Alike-read_then :
      {A : Type 0} (fs : List FileCall) (then_make : A → List (Call F)) (read expected : A)
      → read ≡ expected
      → Alike F (read_calls F fs ++ then_make read) (then_make expected)
  Alike-read_then fs then_make read expected e = record {
    same = λ this old.
        final_value-read_calls F fs (then_make read) this old
        ∙ ap (λ v. final_value F this (then_make v) old) e;
  }

  module _ (proc : Proc) (s : CpuState F) (prev : NetStats) (before : ℕ) where
    -- The calls of all of them, in the order in which `main` has them in comments; those of
    -- `update_disk_metrics` are an argument.
    abbrev pub six_updates : List (Call F) → List (Call F)
    six_updates disk_updates =
        disk_updates
        ++ ((update_cpu_gauge F proc.stat s).0
            ++ (update_memory_gauge F proc.meminfo
                ++ ((update_network_metrics F proc.garbage proc.net_dev prev).0
                    ++ (update_count_processes F proc.loadavg
                        ++ (update_context_switches_metric F proc.stat_later before).0))))

    update_cpu_gauge_lem :
        let r = update_cpu_gauge F proc.stat s in
        let read = get_cpu_usage F proc.stat s in Alike F r.0 (cpu_calls F read.0) × (r.1 ≡ read.1)
    unfolding update_cpu_gauge
    update_cpu_gauge_lem =
        let r = get_cpu_usage_traced F proc.stat s in
        let e = get_cpu_usage_traced-value F proc.stat s in
        (
          Alike-read_then r.0 (cpu_calls F) r.1 _ (ap (λ (o : F.Carrier × CpuState F). o.0) e),
          ap (λ (o : F.Carrier × CpuState F). o.1) e,
        )

    update_memory_gauge_lem :
        Alike F
          (update_memory_gauge F proc.meminfo)
          (memory_calls F (get_memory_usage F proc.meminfo))
    unfolding update_memory_gauge
    update_memory_gauge_lem =
        let r = get_memory_usage_traced F proc.meminfo in
        Alike-read_then r.0 (memory_calls F) r.1 _ (get_memory_usage_traced-value F proc.meminfo)

    update_disk_metrics_lem :
        (disk : DiskStats)
        → get_disk_stats proc.diskstats ≡ some disk
        → (cs : List (Call F)) × (update_disk_metrics F proc.diskstats ≡ some cs)
          × Alike F cs (disk_calls F disk)
    unfolding update_disk_metrics
    update_disk_metrics_lem disk e =
        let read = get_disk_stats_traced-some proc.diskstats disk e in
        (
          read_calls F read.0 ++ disk_calls F disk,
          rw (read.1, update_disk_metrics) refl,
          Alike-read_then read.0 (disk_calls F) disk disk refl,
        )

    update_network_metrics_lem :
        let r = update_network_metrics F proc.garbage proc.net_dev prev in
        let net = get_network_stats proc.garbage interface proc.net_dev in
        Alike F r.0 (network_calls F prev net) × (r.1 ≡ net)
    unfolding update_network_metrics
    update_network_metrics_lem =
        let r = get_network_stats_traced proc.garbage interface proc.net_dev in
        let e = get_network_stats_traced-value interface proc.garbage proc.net_dev in
        (Alike-read_then r.0 (network_calls F prev) r.1 _ e, e)

    update_count_processes_lem :
        Alike F
          (update_count_processes F proc.loadavg)
          (processes_calls F (get_running_processes proc.loadavg))
    unfolding update_count_processes
    update_count_processes_lem =
        let r = get_running_processes_traced proc.loadavg in
        Alike-read_then r.0 (processes_calls F) r.1 _
          (get_running_processes_traced-value proc.loadavg)

    update_context_switches_metric_lem :
        let r = update_context_switches_metric F proc.stat_later before in
        let step = context_switches_step F (get_context_switches proc.stat_later) before in
        Alike F r.0 step.0 × (r.1 ≡ step.1)
    unfolding update_context_switches_metric
    update_context_switches_metric_lem =
        let r = get_context_switches_traced proc.stat_later in
        let e = get_context_switches_traced-value proc.stat_later in
        (
          Alike-read_then r.0 (λ n. (context_switches_step F n before).0) r.1 _ e,
          ap (λ n. (context_switches_step F n before).1) e,
        )

    -- What they leave in the gauges, and what they keep.
    pub record Updates (disk : DiskStats) (disk_updates : List (Call F)) : Type 0 where
      pub made : update_disk_metrics F proc.diskstats ≡ some disk_updates
      pub values :
          (g : Gauge) (old : F.Carrier)
          → final_value F (is g) (six_updates disk_updates) old
            ≡ updated F
                (get_cpu_usage F proc.stat s).0
                (get_memory_usage F proc.meminfo)
                disk
                prev
                (get_network_stats proc.garbage interface proc.net_dev)
                (get_running_processes proc.loadavg)
                before
                (get_context_switches proc.stat_later)
                g
                old
      pub cpu : (update_cpu_gauge F proc.stat s).1 ≡ (get_cpu_usage F proc.stat s).1
      pub network :
          (update_network_metrics F proc.garbage proc.net_dev prev).1
          ≡ get_network_stats proc.garbage interface proc.net_dev
      pub switches :
          (update_context_switches_metric F proc.stat_later before).1
          ≡ (context_switches_step F (get_context_switches proc.stat_later) before).1

    pub six_updates_lem :
        (disk : DiskStats)
        → get_disk_stats proc.diskstats ≡ some disk
        → (cs : List (Call F)) × Updates disk cs
    six_updates_lem disk e =
        let of_disk = update_disk_metrics_lem disk e in
        let alike = Alike-append F of_disk.2 (
          Alike-append F update_cpu_gauge_lem.0 (
            Alike-append F update_memory_gauge_lem (
              Alike-append F update_network_metrics_lem.0 (
                Alike-append F update_count_processes_lem
                  update_context_switches_metric_lem.0)))) in
        (
          of_disk.0,
          record {
            made = of_disk.1;
            values = λ g old.
                alike.same (is g) old ∙ final_value-unread_calls F _ _ disk prev _ _ before _ g old;
            cpu = update_cpu_gauge_lem.1;
            network = update_network_metrics_lem.1;
            switches = update_context_switches_metric_lem.1;
          },
        )
