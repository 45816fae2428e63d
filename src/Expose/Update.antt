-- ===== src/Expose/Update.antt =====
-- The functions `update_*` of src/expose_metrics.c.
use monitor_program.Base.{
  ℕ, Bool, false, Option, none, some, List, [], ◌∷◌, ◌++◌, Bytes, codes, ltb, if◌then◌else◌,
}
use monitor_program.Base.Int.{ℤ, pos, negsuc, is_nonneg}
use monitor_program.Libc.Word.{sub64}
use monitor_program.Double.{Double, of_ull}
use monitor_program.Metrics.Memory.Traced.{get_memory_usage_traced}
use monitor_program.Metrics.Cpu.{CpuState}
use monitor_program.Metrics.Cpu.Traced.{get_cpu_usage_traced}
use monitor_program.Metrics.Disk.{DiskStats}
use monitor_program.Metrics.Disk.Traced.{get_disk_stats_traced}
use monitor_program.Metrics.Network.{NetStats}
use monitor_program.Metrics.Network.Traced.{get_network_stats_traced}
use monitor_program.Metrics.Processes.Traced.{get_running_processes_traced}
use monitor_program.Metrics.ContextSwitches.Traced.{get_context_switches_traced}
use monitor_program.Expose.{
  Gauge, Call, read_calls, mutex_lock, mutex_unlock, gauge_set, report, cpu_usage, memory_usage,
  disk_reads, disk_writes, disk_read_time, disk_write_time, network_bandwidth_tx,
  network_bandwidth_rx, network_packet_ratio, count_processes, context_switches,
  memory_fragmentation_first_fit, memory_fragmentation_best_fit, memory_fragmentation_worst_fit,
  first_fit_allocations, best_fit_allocations, worst_fit_allocations, first_fit_avg_allocation_time,
  best_fit_avg_allocation_time, worst_fit_avg_allocation_time,
}

-- FIRST_FIT, BEST_FIT and WORST_FIT of the memory library.
pub data Policy : Type 0 where
  first_fit best_fit worst_fit : Policy

-- The interface that is monitored.
abbrev pub interface : Bytes
interface = codes "wlp2s0"

-- The test `> 0` on an `int`.
abbrev pub is_positive : ℤ → Bool
is_positive (pos n) = ltb 0 n
is_positive (negsuc n) = false

module _ (F : Double) where
  abbrev pub zero_value : F.Carrier
  zero_value = F.of_int (pos 0)

  -- The global variables of the memory library that the module reads.
  pub record AllocationStats : Type 0 where
    pub count : Policy → ℤ
    pub allocation_count : Policy → ℤ
    pub allocation_time : Policy → F.Carrier

  -- One gauge, set under the mutex.
  abbrev pub guarded_set : Gauge → F.Carrier → List (Call F)
  guarded_set gauge value = mutex_lock ∷ gauge_set gauge value ∷ mutex_unlock ∷ []

  unfoldable pub cpu_calls : F.Carrier → List (Call F)
  cpu_calls usage =
      if F.le zero_value usage
      then guarded_set cpu_usage usage
      else report "Error al obtener el uso de CPU" ∷ []

  unfoldable pub update_cpu_gauge : Option Bytes → CpuState F → List (Call F) × CpuState F
  unfolding cpu_calls
  update_cpu_gauge stat s =
      let r = get_cpu_usage_traced F stat s in (read_calls F r.0 ++ cpu_calls r.1, r.2)

  unfoldable pub memory_calls : F.Carrier → List (Call F)
  memory_calls usage =
      if F.le zero_value usage
      then guarded_set memory_usage usage
      else report "Error al obtener el uso de memoria" ∷ []

  unfoldable pub update_memory_gauge : Option Bytes → List (Call F)
  unfolding memory_calls
  update_memory_gauge meminfo =
      let r = get_memory_usage_traced F meminfo in read_calls F r.0 ++ memory_calls r.1

  unfoldable pub disk_calls : DiskStats → List (Call F)
  disk_calls stats =
      let reads_in_thousands = F.div (of_ull F stats.reads) (of_ull F 1000) in
      let writes_in_thousands = F.div (of_ull F stats.writes) (of_ull F 1000) in
      mutex_lock
      ∷ gauge_set disk_reads (of_ull F stats.reads)
      ∷ gauge_set disk_writes (of_ull F stats.writes)
      ∷ gauge_set disk_read_time reads_in_thousands
      ∷ gauge_set disk_write_time writes_in_thousands
      ∷ mutex_unlock
      ∷ []

  -- `none` where `get_disk_stats` writes past a buffer.
  unfoldable pub update_disk_metrics : Option Bytes → Option (List (Call F))
  unfolding disk_calls
  update_disk_metrics diskstats = elim (get_disk_stats_traced diskstats) [
    | none ↦ none
    | some r ↦ some (read_calls F r.0 ++ disk_calls r.1)
  ]

  unfoldable pub network_calls : NetStats → NetStats → List (Call F)
  network_calls prev current =
      let bandwidth_rx = of_ull F (sub64 current.bytes_received prev.bytes_received) in
      let bandwidth_tx = of_ull F (sub64 current.bytes_transmitted prev.bytes_transmitted) in
      let packet_ratio =
        if ltb 0 current.packets_received
        then F.div (of_ull F current.packets_transmitted) (of_ull F current.packets_received)
        else zero_value in
      mutex_lock
      ∷ gauge_set network_bandwidth_rx bandwidth_rx
      ∷ gauge_set network_bandwidth_tx bandwidth_tx
      ∷ gauge_set network_packet_ratio packet_ratio
      ∷ mutex_unlock
      ∷ []

  -- The state is `prev_stats`; `garbage` is the argument of `get_network_stats`.
  unfoldable pub update_network_metrics : Bytes → Option Bytes → NetStats → List (Call F) × NetStats
  unfolding network_calls
  update_network_metrics garbage net_dev prev =
      let r = get_network_stats_traced garbage interface net_dev in
      (read_calls F r.0 ++ network_calls prev r.1, r.1)

  unfoldable pub processes_calls : ℤ → List (Call F)
  processes_calls running =
      if is_nonneg running
      then guarded_set count_processes (F.of_int running)
      else report "Error al obtener el numero de procesos en ejecucion" ∷ []

  unfoldable pub update_count_processes : Option Bytes → List (Call F)
  unfolding processes_calls
  update_count_processes loadavg =
      let r = get_running_processes_traced loadavg in read_calls F r.0 ++ processes_calls r.1

  -- What follows the reading of the counter; the state is `prev_context_switches`.
  unfoldable pub context_switches_step : ℕ → ℕ → List (Call F) × ℕ
  context_switches_step current prev =
      if ltb 0 current
      then (let diff = sub64 current prev in
          (if ltb 0 diff then guarded_set context_switches (of_ull F diff) else [], current))
      else (report "Error al obtener los cambios de contexto" ∷ [], prev)

  unfoldable pub update_context_switches_metric : Option Bytes → ℕ → List (Call F) × ℕ
  unfolding context_switches_step
  update_context_switches_metric stat prev =
      let r = get_context_switches_traced stat in
      let after = context_switches_step r.1 prev in (read_calls F r.0 ++ after.0, after.1)

  -- `calculate` is calculate_fragmentation_per_method, which fills the array that it is given.
  unfoldable pub update_memory_fragmentation_metric :
      ((Policy → F.Carrier) → Policy → F.Carrier) → List (Call F)
  update_memory_fragmentation_metric calculate =
      let fragmentation_rates = calculate (λ p. zero_value) in
      mutex_lock
      ∷ gauge_set memory_fragmentation_first_fit (fragmentation_rates first_fit)
      ∷ gauge_set memory_fragmentation_best_fit (fragmentation_rates best_fit)
      ∷ gauge_set memory_fragmentation_worst_fit (fragmentation_rates worst_fit)
      ∷ mutex_unlock
      ∷ []

  unfoldable pub average_time : AllocationStats → Policy → F.Carrier
  average_time stats p =
      if is_positive (stats.allocation_count p)
      then F.div (stats.allocation_time p) (F.of_int (stats.allocation_count p))
      else zero_value

  unfoldable pub update_allocation_policy_metrics : AllocationStats → List (Call F)
  unfolding average_time
  update_allocation_policy_metrics stats =
      mutex_lock
      ∷ gauge_set first_fit_allocations (F.of_int (stats.count first_fit))
      ∷ gauge_set best_fit_allocations (F.of_int (stats.count best_fit))
      ∷ gauge_set worst_fit_allocations (F.of_int (stats.count worst_fit))
      ∷ gauge_set first_fit_avg_allocation_time (average_time stats first_fit)
      ∷ gauge_set best_fit_avg_allocation_time (average_time stats best_fit)
      ∷ gauge_set worst_fit_avg_allocation_time (average_time stats worst_fit)
      ∷ mutex_unlock
      ∷ []
