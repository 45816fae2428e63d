-- ===== src/Tests/Program.antt =====
-- The simulation, the object sent and the whole program, over small libraries.
use monitor_program.Base.{◌≡◌, refl, true, false, none, some, List, [], ◌∷◌, codes}
use monitor_program.Double.Rational.{rational}
use monitor_program.Metrics.Cpu.{get_cpu_usage}
use monitor_program.Metrics.Disk.{no_disk_stats, get_disk_stats}
use monitor_program.Json.{JsonCall, send_metrics_as_json}
use monitor_program.Json.Effects.{releases, written, files_read}
use monitor_program.Json.Resources.{proc_files, send_metrics_as_json-releases}
use monitor_program.Tests.Small.{nothing, print, cpu_start}

send_metrics_as_json-releases_example :
    (cs : List JsonCall) × (send_metrics_as_json rational print true nothing cpu_start
      ≡ some (cs, (get_cpu_usage rational none cpu_start).1))
    × (releases false false false false cs ≡ true)
    × (written cs ≡ codes "{}" ∷ [])
    × (files_read cs ≡ proc_files)
unfolding get_disk_stats
send_metrics_as_json-releases_example =
    send_metrics_as_json-releases rational print true nothing cpu_start no_disk_stats refl
