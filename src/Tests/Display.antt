-- ===== src/Tests/Display.antt =====
-- Gauges updated from the files of one snapshot.
use monitor_program.Base.{◌≡◌, ◌∙◌, [], ◌∷◌, codes, refl, true, some, List, ◌++◌, arith}
use monitor_program.Double.{percentage}
use monitor_program.Double.Rational.{rational, rational-IsLawful}
use monitor_program.Libc.Text.{strcmp_eq}
use monitor_program.Metrics.Disk.{DiskStats}
use monitor_program.Metrics.Disk.Reading.{find_disk, get_disk_stats-find_disk}
use monitor_program.Metrics.Network.{NetStats}
use monitor_program.Metrics.Network.Reading.{find_interface, stats_of}
use monitor_program.Expose.{Gauge, Call}
use monitor_program.Expose.Update.{
  update_cpu_gauge, update_memory_gauge, update_disk_metrics, update_network_metrics,
  update_count_processes, update_context_switches_metric,
}
use monitor_program.Expose.Values.{final_value}
use monitor_program.Json.Kernel.{files}
use monitor_program.Main.Gauges.{is}
use monitor_program.Main.SixUpdates.{six_updates}
use monitor_program.Main.Agreement.{Agree, json_and_gauges}
use monitor_program.Json.{JsonCall, Field, send_metrics_as_json}
use monitor_program.Json.Effects.{written}
use monitor_program.Tests.Small.{print}
use monitor_program.Main.Display.{displayed, gauges_display}
use monitor_program.Tests.Kernel.{snapshot, snapshot-IsKernel}
use monitor_program.Tests.Readings.{later_times, cpu_state}
use monitor_program.Tests.Network.{wifi}

abbrev earlier : NetStats
earlier = record (stats_of wifi) { bytes_received = 900; bytes_transmitted = 450 }

-- The call before had seen 21 context switches less.
gauges_display_example :
    let cpu = update_cpu_gauge rational (files snapshot).stat cpu_state in
    let network =
      update_network_metrics rational snapshot.garbage (files snapshot).net_dev earlier in
    let switches = update_context_switches_metric rational (files snapshot).stat_later 4300 in
    (disk : DiskStats) × (cs : List (Call rational)) × (find_disk snapshot.disks ≡ some disk)
    × (update_disk_metrics rational (files snapshot).diskstats ≡ some cs)
    × ((g : Gauge) (old : rational.Carrier)
        → let all =
            cs
            ++ (cpu.0
                ++ (update_memory_gauge rational (files snapshot).meminfo
                    ++ (network.0
                        ++ (update_count_processes rational (files snapshot).loadavg
                            ++ switches.0)))) in
          final_value rational (is g) all old
          ≡ displayed rational
              (percentage rational 10 40)
              (percentage rational 12000 16000)
              disk
              earlier
              (stats_of wifi)
              3
              4300
              4321
              g
              old)
    × (cpu.1 ≡ record { prev = later_times; percent = percentage rational 10 40 })
    × (network.1 ≡ stats_of wifi)
    × (switches.1 ≡ 4321)
unfolding find_interface strcmp_eq
gauges_display_example =
    gauges_display rational snapshot snapshot-IsKernel cpu_state rational-IsLawful earlier 4300
      (omega arith) (omega arith) (omega arith) (omega arith) (omega arith) (omega arith)

-- What the entry of the disk gives.
abbrev disk_stats : DiskStats
disk_stats = record { reads = 5000; writes = 7000; read_time = 300; write_time = 900 }

json_and_gauges_example :
    (object : List (Field rational)) × (sent : List JsonCall) × (disk_updates : List
      (Call rational))
    × (send_metrics_as_json rational print true (files snapshot) cpu_state
        ≡ some (sent, (update_cpu_gauge rational (files snapshot).stat cpu_state).1))
    × (update_disk_metrics rational (files snapshot).diskstats ≡ some disk_updates)
    × (written sent ≡ codes "{}" ∷ [])
    × ((old : rational.Carrier)
        → Agree rational (files snapshot) cpu_state earlier 4300 disk_stats object old (λ g.
          final_value rational
            (is g)
            (six_updates rational (files snapshot) cpu_state earlier 4300 disk_updates)
            old))
json_and_gauges_example =
    json_and_gauges rational (files snapshot) cpu_state earlier 4300 disk_stats print true (
      get_disk_stats-find_disk snapshot.disks snapshot-IsKernel.disks
      ∙ unfold find_disk strcmp_eq in refl)
