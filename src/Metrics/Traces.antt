-- ===== src/Metrics/Traces.antt =====
-- The readers of src/metrics.c with their calls of stdio, together.
use monitor_program.Base.{◌≡◌, true, Option, Bytes}
use monitor_program.Libc.Stdio.Tidy.{uses}
use monitor_program.Double.{Double}
use monitor_program.Metrics.Memory.Traced.{get_memory_usage_traced, get_memory_usage_traced-uses}
use monitor_program.Metrics.Cpu.{CpuState}
use monitor_program.Metrics.Cpu.Traced.{get_cpu_usage_traced, get_cpu_usage_traced-uses}
use monitor_program.Metrics.Disk.Traced.{Calls, get_disk_stats_traced, get_disk_stats_traced-uses}
use monitor_program.Metrics.Network.Traced.{get_network_stats_traced, get_network_stats_traced-uses}
use monitor_program.Metrics.Processes.Traced.{
  get_running_processes_traced, get_running_processes_traced-uses,
}
use monitor_program.Metrics.ContextSwitches.Traced.{
  get_context_switches_traced, get_context_switches_traced-uses,
}

module _ (F : Double) (file : Option Bytes) (s : CpuState F) (garbage interface_name : Bytes) where
  -- On every file, and if it does not open, each function opens its file once, before all else.
  -- Only if it opens does the function read from it, and then it closes it once, after the last
  -- read; that of the disk does so unless it writes past its buffer.
  pub readers_close :
      (uses "/proc/meminfo" (get_memory_usage_traced F file).0 ≡ true)
      × (uses "/proc/stat" (get_cpu_usage_traced F file s).0 ≡ true)
      × Calls (λ cs. uses "/proc/diskstats" cs ≡ true) (get_disk_stats_traced file)
      × (uses "/proc/net/dev" (get_network_stats_traced garbage interface_name file).0 ≡ true)
      × (uses "/proc/loadavg" (get_running_processes_traced file).0 ≡ true)
      × (uses "/proc/stat" (get_context_switches_traced file).0 ≡ true)
  readers_close = (
    get_memory_usage_traced-uses F file,
    get_cpu_usage_traced-uses F file s,
    get_disk_stats_traced-uses file,
    get_network_stats_traced-uses interface_name garbage file,
    get_running_processes_traced-uses file,
    get_context_switches_traced-uses file,
  )
