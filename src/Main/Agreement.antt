-- ===== src/Main/Agreement.antt =====
-- Where the object sent and the gauges tell of the same files, and where they differ.
use text.Mathlib.Text.{◌==◌ as str_eq}
use monitor_program.Base.{
  ℕ, ◌≡◌, refl, sym, ap, ◌∙◌, Bool, Option, none, some, List, [], ◌∷◌, Bytes, String, ltb,
  if◌then◌else◌,
}
use monitor_program.Base.Int.{is_nonneg}
use monitor_program.Libc.Word.{sub64}
use monitor_program.Double.{Double, of_ull}
use monitor_program.Metrics.Cpu.{CpuState, get_cpu_usage}
use monitor_program.Metrics.Memory.{get_memory_usage}
use monitor_program.Metrics.Disk.{DiskStats, get_disk_stats}
use monitor_program.Metrics.Network.{NetStats, get_network_stats}
use monitor_program.Metrics.Processes.{get_running_processes}
use monitor_program.Metrics.ContextSwitches.{get_context_switches}
use monitor_program.Expose.{
  Gauge, Call, cpu_usage, memory_usage, disk_reads, disk_writes, disk_read_time, disk_write_time,
  network_bandwidth_rx, network_bandwidth_tx, network_packet_ratio, count_processes,
  context_switches,
}
use monitor_program.Expose.Update.{interface, zero_value, update_cpu_gauge, update_disk_metrics}
use monitor_program.Expose.Values.{final_value}
use monitor_program.Json.{Proc, JsonCall, Field, json_fields, send_metrics_as_json}
use monitor_program.Json.Effects.{written}
use monitor_program.Json.Resources.{fields, line_written, send_metrics_as_json-releases}
use monitor_program.Main.Gauges.{is}
use monitor_program.Main.SixUpdates.{six_updates, six_updates_lem}

module _ (F : Double) where
  -- The value of a field, by its name.
  abbrev pub field : String → List (Field F) → Option F.Carrier
  field name [] = none
  field name ((n, v) ∷ fs) = if str_eq n name then some v else field name fs

  module _ (proc : Proc) (s : CpuState F) (prev : NetStats) (before : ℕ) (disk : DiskStats) where
    -- What the fields of an object and the gauges tell, the gauges having had a value.
    pub record Agree (object : List (Field F)) (old : F.Carrier) (gauge : Gauge → F.Carrier)
        : Type 0 where
      -- The same, but that a gauge keeps its value where the reading failed.
      pub cpu :
          let usage = (get_cpu_usage F proc.stat s).0 in
          (field "cpu_usage_percentage" object ≡ some usage)
          × (gauge cpu_usage ≡ (if F.le (zero_value F) usage then usage else old))
      pub memory :
          let usage = get_memory_usage F proc.meminfo in
          (field "memory_usage_percentage" object ≡ some usage)
          × (gauge memory_usage ≡ (if F.le (zero_value F) usage then usage else old))
      pub processes :
          let running = get_running_processes proc.loadavg in
          (field "running_processes_count" object ≡ some (F.of_int running))
          × (gauge count_processes ≡ (if is_nonneg running then F.of_int running else old))
      -- The same.
      pub reads : field "disk_reads" object ≡ some (gauge disk_reads)
      pub writes : field "disk_writes" object ≡ some (gauge disk_writes)
      pub ratio : field "network_packet_ratio" object ≡ some (gauge network_packet_ratio)
      -- A total, and what came since the call before.
      pub received :
          let n = (get_network_stats proc.garbage interface proc.net_dev).bytes_received in
          (field "network_bandwidth_rx" object ≡ some (of_ull F n))
          × (gauge network_bandwidth_rx ≡ of_ull F (sub64 n prev.bytes_received))
      pub transmitted :
          let n = (get_network_stats proc.garbage interface proc.net_dev).bytes_transmitted in
          (field "network_bandwidth_tx" object ≡ some (of_ull F n))
          × (gauge network_bandwidth_tx ≡ of_ull F (sub64 n prev.bytes_transmitted))
      pub switches :
          let n = get_context_switches proc.stat_later in
          let more = sub64 n before in
          (field "context_switches_total" object ≡ some (of_ull F n))
          × (gauge context_switches
              ≡ (if ltb 0 n then (if ltb 0 more then of_ull F more else old) else old))
      -- A time, and a number of operations.
      pub read_time :
          (field "disk_read_time_seconds" object
            ≡ some (F.div (of_ull F disk.read_time) (of_ull F 1000)))
          × (gauge disk_read_time ≡ F.div (of_ull F disk.reads) (of_ull F 1000))
      pub write_time :
          (field "disk_write_time_seconds" object
            ≡ some (F.div (of_ull F disk.write_time) (of_ull F 1000)))
          × (gauge disk_write_time ≡ F.div (of_ull F disk.writes) (of_ull F 1000))

    -- On any files, if the reading of the disk stays within its buffers, `send_metrics_as_json` and
    -- the six updates return, with the same state of the processor. The text written is that of an
    -- object. It and the gauges agree on the numbers of reads and writes and on the ratio of
    -- packets; on the processor, the memory and the processes where the reading is not negative,
    -- while a gauge keeps its value where it is. They differ on the bandwidth and the context
    -- switches, of which the object has the total and the gauges the difference to the call before;
    -- and on the times of the disk, of which the object has the thousandth part and the gauges a
    -- thousandth of the numbers of operations.
    pub json_and_gauges :
        (print : List (Field F) → Option Bytes) (opens : Bool)
        → get_disk_stats proc.diskstats ≡ some disk
        → (object : List (Field F)) × (sent : List JsonCall) × (disk_updates : List (Call F))
          × (send_metrics_as_json F print opens proc s
              ≡ some (sent, (update_cpu_gauge F proc.stat s).1))
          × (update_disk_metrics F proc.diskstats ≡ some disk_updates)
          × (written sent ≡ line_written opens (print object))
          × ((old : F.Carrier)
              → Agree object old
                  (λ g. final_value F (is g) (six_updates F proc s prev before disk_updates) old))
    unfolding json_fields
    json_and_gauges print opens e =
        let json = send_metrics_as_json-releases F print opens proc s disk e in
        let six = six_updates_lem F proc s prev before disk e in
        (
          fields F print opens proc s disk,
          json.0,
          six.0,
          json.1 ∙ ap (λ cpu. some (json.0, cpu)) (sym six.1.cpu),
          six.1.made,
          json.3,
          λ old. record {
            cpu = (refl, six.1.values cpu_usage old);
            memory = (refl, six.1.values memory_usage old);
            processes = (refl, six.1.values count_processes old);
            reads = ap some (sym (six.1.values disk_reads old));
            writes = ap some (sym (six.1.values disk_writes old));
            ratio = ap some (sym (six.1.values network_packet_ratio old));
            received = (refl, six.1.values network_bandwidth_rx old);
            transmitted = (refl, six.1.values network_bandwidth_tx old);
            switches = (refl, six.1.values context_switches old);
            read_time = (refl, six.1.values disk_read_time old);
            write_time = (refl, six.1.values disk_write_time old);
          },
        )
