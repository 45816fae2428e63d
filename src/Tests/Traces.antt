-- ===== src/Tests/Traces.antt =====
-- The calls of stdio of the readers, and failures of the client, at concrete inputs.
use mathlib.Core.Option
use monitor_program.Base.{◌≡◌, refl, true, some, List, [], ◌∷◌, Bytes, codes, Option, map}
use monitor_program.Libc.Stream.{flatten, is_line}
use monitor_program.Libc.Text.{strcmp_eq}
use monitor_program.Libc.Scan.{sscanf, convert, run}
use monitor_program.Libc.Stdio.Tidy.{uses, messages}
use monitor_program.Double.Rational.{rational}
use monitor_program.Metrics.Memory.Traced.{get_memory_usage_traced}
use monitor_program.Metrics.Cpu.Traced.{get_cpu_usage_traced}
use monitor_program.Metrics.Disk.{get_disk_stats, overflows, disk_row}
use monitor_program.Metrics.Disk.Reading.{find_disk, stats_of}
use monitor_program.Metrics.Disk.Traced.{Calls, get_disk_stats_traced}
use monitor_program.Metrics.Disk.Complaints.{
  Piece, good, bad, IsBad, text_of, reports, get_disk_stats_traced-pieces,
}
use monitor_program.Metrics.Network.Traced.{get_network_stats_traced}
use monitor_program.Metrics.Processes.Traced.{get_running_processes_traced}
use monitor_program.Metrics.ContextSwitches.Traced.{get_context_switches_traced}
use monitor_program.Metrics.Traces.{readers_close}
use monitor_program.Metrics.Reports.{MemoryReports, CpuReports, errors_reported}
use monitor_program.Expose.Update.{interface}
use monitor_program.Main.{ProgramState}
use monitor_program.Main.Gauges.{is}
use monitor_program.Expose.{memory_usage}
use monitor_program.Expose.Init.{Faults}
use monitor_program.Metrics.Disk.{get_disk_stats}
use monitor_program.Tests.Small.{bump, start, cpu_start, monitor, faults}
use monitor_program.Tests.Readings.{
  cpu_state, disk_entry, disk_entry-IsEntry, loop_entry, loop_entry-IsEntry, sda_row,
}

-- A file that each reader can make something of.
abbrev mixed : Option Bytes
mixed = some (codes "cpu  1 2 3 4 5 6 7 8\nMemTotal: 9 kB\nctxt 5\n")

readers_close_example :
    (uses "/proc/meminfo" (get_memory_usage_traced rational mixed).0 ≡ true)
    × (uses "/proc/stat" (get_cpu_usage_traced rational mixed cpu_state).0 ≡ true)
    × Calls (λ cs. uses "/proc/diskstats" cs ≡ true) (get_disk_stats_traced mixed)
    × (uses "/proc/net/dev" (get_network_stats_traced [] interface mixed).0 ≡ true)
    × (uses "/proc/loadavg" (get_running_processes_traced mixed).0 ≡ true)
    × (uses "/proc/stat" (get_context_switches_traced mixed).0 ≡ true)
readers_close_example = readers_close rational mixed cpu_state [] interface

errors_reported_example :
    (let r = get_memory_usage_traced rational mixed in MemoryReports rational (messages r.0) r.1)
    × (let r = get_cpu_usage_traced rational mixed cpu_state in
        CpuReports rational cpu_state (messages r.0) (r.1, r.2))
errors_reported_example = errors_reported rational cpu_state mixed

-- A line cut short, as a partition's line once was.
abbrev cut_line : Bytes
cut_line = codes "   8       1 sda1 1 2 3 4\n"

cut_line-IsBad : IsBad cut_line
unfolding disk_row overflows sscanf convert run is_line
cut_line-IsBad = record { short = refl; fits = refl; ends = refl }

abbrev pieces : List Piece
pieces = good loop_entry ∷ bad cut_line ∷ good disk_entry ∷ bad cut_line ∷ []

get_disk_stats_traced-pieces_example :
    let r = get_disk_stats_traced (some (flatten (map text_of pieces))) in
    (Option.map (λ x. x.1) r ≡ some (stats_of sda_row))
    × Calls (λ cs. messages cs ≡ reports pieces) r
unfolding find_disk strcmp_eq
get_disk_stats_traced-pieces_example =
    get_disk_stats_traced-pieces pieces
      (loop_entry-IsEntry, (cut_line-IsBad, (disk_entry-IsEntry, (cut_line-IsBad, tt))))

-- Only the first of the two is printed.
reports_example : reports pieces ≡ reports (bad cut_line ∷ [])
unfolding reports strcmp_eq
reports_example = refl

-- The registration of the gauge of the memory does not return.
abbrev halting : Faults
halting = record faults { halts = λ g. is g memory_usage }

abbrev at_start : ProgramState rational bump monitor
at_start = record { simulation = start; cpu = cpu_start }
