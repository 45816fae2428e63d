-- ===== src/Json/Kernel.antt =====
-- What `send_metrics_as_json` sends when all the files of /proc are in the kernel's layout.
use monitor_program.Base.{
  [], ◌∷◌, ltb, if◌then◌else◌, ℕ, ◌-◌, ◌<◌, ◌≤◌, ◌≡◌, ◌∙◌, ap, true, arith, Bool, Option, some,
  List, ◌++◌, Bytes, All, length,
}
use monitor_program.Base.Int.{pos}
use monitor_program.Libc.Word.{modulus}
use monitor_program.Libc.Stream.{IsLine, read_lines, flatten}
use monitor_program.Libc.Stream.Append.{ends_line}
use monitor_program.Libc.Scan.Decimal.{stops}
use monitor_program.Double.{of_ull, Double, percentage}
use monitor_program.Metrics.Memory.{get_memory_usage}
use monitor_program.Metrics.Memory.Reading.{
  meminfo_file, OtherLines, EntryLine, total_name, available_name, get_memory_usage_exact,
}
use monitor_program.Metrics.Cpu.{stat_buffer_size, CpuTimes, CpuState, get_cpu_usage}
use monitor_program.Metrics.Cpu.Step.{elapsed, Fits, Later, busy_share, cpu_step_exact}
use monitor_program.Metrics.Cpu.Reading.{cpu_line, sample-cpu_line, get_cpu_usage-sample}
use monitor_program.Metrics.Disk.{DiskStats, interface_name_size}
use monitor_program.Metrics.Disk.Reading.{
  Entry as DiskEntry, IsEntry as IsDiskEntry, device, diskstats_file, find_disk, find_disk_safe,
  get_disk_stats-find_disk,
}
use monitor_program.Metrics.Network.{netdev_buffer_size, get_network_stats}
use monitor_program.Metrics.Network.Line.{Entry as NetEntry, IsEntry as IsNetEntry}
use monitor_program.Metrics.Network.Reading.{
  Skips, netdev_file, find_interface, get_network_stats-find_interface,
}
use monitor_program.Metrics.Processes.{get_running_processes}
use monitor_program.Metrics.Processes.Reading.{
  Average, loadavg_line, IsLoadavg, get_running_processes_exact,
}
use monitor_program.Metrics.ContextSwitches.{get_context_switches}
use monitor_program.Metrics.ContextSwitches.Reading.{ctxt_line, NoCtxt, get_context_switches_exact}
use monitor_program.Expose.Update.{interface}
use monitor_program.Json.{Proc, JsonCall, Field, json_fields, send_metrics_as_json}
use monitor_program.Json.Effects.{written}
use monitor_program.Json.Resources.{line_written, fields, send_metrics_as_json-releases}

-- What the kernel reports, and the layout in which it prints it.
pub record Snapshot : Type 0 where
  pub times : CpuTimes
  pub stat_rest : Bytes
  pub stat_more : Bytes
  pub memory_before : Bytes
  pub total_blanks : ℕ
  pub total : ℕ
  pub memory_between : Bytes
  pub available_blanks : ℕ
  pub available : ℕ
  pub memory_after : Bytes
  pub disks : List DiskEntry
  pub titles : Bytes
  pub interfaces : List NetEntry
  pub load_1 : Average
  pub load_5 : Average
  pub load_15 : Average
  pub running : ℕ
  pub processes : ℕ
  pub load_rest : Bytes
  pub load_more : Bytes
  pub switches_before : Bytes
  pub switches : ℕ
  pub switches_after : Bytes
  pub garbage : Bytes

abbrev pub files : Snapshot → Proc
files k = record {
  stat = some (cpu_line k.times k.stat_rest ++ k.stat_more);
  meminfo = some (
      meminfo_file k.memory_before k.total_blanks k.total k.memory_between k.available_blanks
        k.available k.memory_after);
  diskstats = some (flatten (diskstats_file k.disks));
  net_dev = some (netdev_file k.titles k.interfaces);
  loadavg =
      some
        (loadavg_line k.load_1 k.load_5 k.load_15 k.running k.processes k.load_rest ++ k.load_more);
  stat_later = some (k.switches_before ++ (ctxt_line k.switches ++ k.switches_after));
  garbage = k.garbage;
}

-- The lines fit the buffers and the numbers their variables, and no line is taken for another.
pub record IsKernel (k : Snapshot) : Type 0 where
  pub times : Fits k.times
  pub stat_ends : stops k.stat_rest ≡ true
  pub stat_line : IsLine stat_buffer_size (cpu_line k.times k.stat_rest)
  pub memory_before : OtherLines k.memory_before
  pub total : EntryLine total_name k.total_blanks k.total
  pub memory_between : OtherLines k.memory_between
  pub available : EntryLine available_name k.available_blanks k.available
  pub some_memory : 0 < k.available
  pub less_memory : k.available ≤ k.total
  pub disks : All IsDiskEntry k.disks
  pub short : All (λ e. length (device e) < interface_name_size) k.disks
  pub titles_end : ends_line k.titles ≡ true
  pub titles : All (Skips interface) (read_lines netdev_buffer_size k.titles)
  pub interfaces : All IsNetEntry k.interfaces
  pub loadavg : IsLoadavg k.load_1 k.load_5 k.load_15 k.running k.processes k.load_rest
  pub switches_before : NoCtxt k.switches_before
  pub switches : k.switches < modulus
  pub switches_line : IsLine stat_buffer_size (ctxt_line k.switches)

-- The names and values of an object that tells what the kernel reported, with the counters of the
-- disk.
abbrev pub reported_fields :
    (F : Double) (k : Snapshot) (s : CpuState F) (disk : DiskStats) → List (Field F)
reported_fields F k s disk =
    let net = find_interface interface k.interfaces in
    let thousandth = λ (n : ℕ). F.div (of_ull F n) (of_ull F 1000) in
    ("cpu_usage_percentage", busy_share F k.times s.prev)
    ∷ ("memory_usage_percentage", percentage F (k.total - k.available) k.total)
    ∷ ("disk_reads", of_ull F disk.reads)
    ∷ ("disk_writes", of_ull F disk.writes)
    ∷ ("disk_read_time_seconds", thousandth disk.read_time)
    ∷ ("disk_write_time_seconds", thousandth disk.write_time)
    ∷ ("network_bandwidth_rx", of_ull F net.bytes_received)
    ∷ ("network_bandwidth_tx", of_ull F net.bytes_transmitted)
    ∷ (
      "network_packet_ratio",
      if ltb 0 net.packets_received
          then F.div (of_ull F net.packets_transmitted) (of_ull F net.packets_received)
          else of_ull F 0,
    )
    ∷ ("running_processes_count", of_ull F k.running)
    ∷ ("context_switches_total", of_ull F k.switches)
    ∷ []

module _ (F : Double) (k : Snapshot) (h : IsKernel k) (s : CpuState F) where
  abbrev pub share : F.Carrier
  share = busy_share F k.times s.prev

  pub cpu_reading :
      Later s.prev k.times
      → elapsed s.prev < elapsed k.times
      → get_cpu_usage F (files k).stat s ≡ (share, record { prev = k.times; percent = share })
  cpu_reading later advance =
      get_cpu_usage-sample F (files k).stat s
      ∙ rw
          (
            sample-cpu_line k.times k.stat_rest k.stat_more h.times h.stat_ends h.stat_line,
            cpu_step_exact F k.times s h.times later,
          )
          (ground arith)

  pub memory_reading :
      get_memory_usage F (files k).meminfo ≡ percentage F (k.total - k.available) k.total
  memory_reading =
      get_memory_usage_exact F k.memory_before k.total_blanks k.total k.memory_between
        k.available_blanks k.available k.memory_after h.memory_before h.total h.memory_between
        h.available h.some_memory h.less_memory

  pub network_reading :
      get_network_stats k.garbage interface (files k).net_dev
      ≡ find_interface interface k.interfaces
  network_reading =
      get_network_stats-find_interface k.garbage interface k.titles k.interfaces h.titles_end
        h.titles h.interfaces

  pub running_reading : get_running_processes (files k).loadavg ≡ pos k.running
  running_reading =
      get_running_processes_exact k.load_1 k.load_5 k.load_15 k.running k.processes k.load_rest
        k.load_more h.loadavg

  pub switches_reading : get_context_switches (files k).stat_later ≡ k.switches
  switches_reading =
      get_context_switches_exact k.switches_before k.switches k.switches_after h.switches_before
        h.switches h.switches_line

  pub fields_read :
      (print : List (Field F) → Option Bytes) (opens : Bool) (disk : DiskStats)
      → Later s.prev k.times
      → elapsed s.prev < elapsed k.times
      → fields F print opens (files k) s disk ≡ reported_fields F k s disk
  unfolding json_fields
  fields_read print opens disk later advance = rw (
    cpu_reading later advance,
    memory_reading,
    network_reading,
    running_reading,
    switches_reading,
  )

  -- When every file is in the kernel's layout, and the processor's counters moved on and none went
  -- back, the function returns. The counters of the disk are those of the first entry for "sda", or
  -- zeros. If there is a text and the pipe opens, it writes the text of the object whose fields are
  -- the busy share of the time elapsed, the share of the memory in use, those counters, the
  -- counters of the interface, the processes that run and the context switches, as the kernel
  -- printed them; it keeps that share and the processor's counters.
  pub send_metrics_as_json-files :
      (print : List (Field F) → Option Bytes) (opens : Bool)
      → Later s.prev k.times
      → elapsed s.prev < elapsed k.times
      → (disk : DiskStats) × (cs : List JsonCall) × (find_disk k.disks ≡ some disk)
        × (send_metrics_as_json F print opens (files k) s
            ≡ some (cs, record { prev = k.times; percent = share }))
        × (written cs ≡ line_written opens (print (reported_fields F k s disk)))
  send_metrics_as_json-files print opens later advance =
      let (disk, found) = find_disk_safe k.disks h.short in
      let reading = get_disk_stats-find_disk k.disks h.disks ∙ found in
      let sent = send_metrics_as_json-releases F print opens (files k) s disk reading in
      (
        disk,
        sent.0,
        found,
        sent.1 ∙ ap (λ r. some (sent.0, r.1)) (cpu_reading later advance),
        sent.3
            ∙ ap (λ fs. line_written opens (print fs)) (fields_read print opens disk later advance),
      )
