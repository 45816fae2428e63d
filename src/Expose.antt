-- ===== src/Expose.antt =====
-- src/expose_metrics.c: the gauges, and the calls that the module makes on the Prometheus client,
-- the mutex and the standard error. A function of the module returns the calls that it makes, in
-- order, with the new values of its `static` variables.
pub mod Update
pub mod Unread
pub mod Init
pub mod Locking
pub mod Values
pub mod Counters
pub mod CpuGauge
pub mod Bandwidth
pub mod Switches
use monitor_program.Base.{ℕ, String, List, map}
use monitor_program.Double.{Double}
use monitor_program.Libc.Stdio.{FileCall}
use monitor_program.Pipe.{JsonCall}

-- The gauges, named as their variables without the ending `_metric`.
pub data Gauge : Type 0 where
  cpu_usage memory_usage : Gauge
  disk_reads disk_writes disk_read_time disk_write_time : Gauge
  network_bandwidth_tx network_bandwidth_rx network_packet_ratio : Gauge
  count_processes context_switches : Gauge
  memory_fragmentation_first_fit memory_fragmentation_best_fit : Gauge
  memory_fragmentation_worst_fit : Gauge
  first_fit_allocations best_fit_allocations worst_fit_allocations : Gauge
  first_fit_avg_allocation_time best_fit_avg_allocation_time worst_fit_avg_allocation_time : Gauge

pub Gauge-discrete : Discrete Gauge
Gauge-discrete = hlevel

-- Calls of the libraries. The values that they return are arguments of the functions below.
pub data Call (F : Double) : Type 0 where
  mutex_init : Call F
  mutex_destroy : Call F
  mutex_lock : Call F
  mutex_unlock : Call F
  registry_init : Call F  -- prom_collector_registry_default_init
  gauge_new : Gauge → String → String → Call F  -- prom_gauge_new, with name and help
  register_metric : Gauge → Call F  -- prom_collector_registry_must_register_metric
  gauge_set : Gauge → F.Carrier → Call F  -- prom_gauge_set
  set_active_registry : Call F
  start_daemon : ℕ → Call F  -- promhttp_start_daemon, with the port
  sleep : ℕ → Call F
  report : String → Call F  -- a message on the standard error
  reads : FileCall → Call F  -- a call of stdio in a function of src/metrics.c
  sends : JsonCall → Call F  -- a call of `send_metrics_as_json`

-- The calls of a reader.
abbrev pub read_calls : (F : Double) → List FileCall → List (Call F)
read_calls F cs = map reads cs
