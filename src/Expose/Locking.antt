-- ===== src/Expose/Locking.antt =====
-- The protocol of the mutex: it is not locked twice, no gauge is set without it, no file is read
-- and nothing sent while it is held, and it is free at the end.
use monitor_program.Base.{
  ℕ, Bool, true, false, not, Option, List, [], ◌∷◌, ◌++◌, Bytes, ◌≡◌, refl, ◌∙◌, arith,
}
use monitor_program.Double.{Double}
use monitor_program.Base.Int.{ℤ}
use monitor_program.Libc.Stdio.{FileCall}
use monitor_program.Metrics.Cpu.{CpuState}
use monitor_program.Metrics.Network.{NetStats}
use monitor_program.Metrics.Disk.{DiskStats}
use monitor_program.Metrics.Memory.Traced.{get_memory_usage_traced}
use monitor_program.Metrics.Cpu.Traced.{get_cpu_usage_traced}
use monitor_program.Metrics.Network.Traced.{get_network_stats_traced}
use monitor_program.Metrics.Processes.Traced.{get_running_processes_traced}
use monitor_program.Metrics.ContextSwitches.Traced.{get_context_switches_traced}
use monitor_program.Expose.{Call, mutex_lock, mutex_unlock, gauge_set, reads, sends, read_calls}
use monitor_program.Expose.Update.{
  Policy, AllocationStats, interface, cpu_calls, memory_calls, disk_calls, network_calls,
  processes_calls, update_cpu_gauge, update_memory_gauge, update_network_metrics,
  update_count_processes, context_switches_step, update_context_switches_metric,
  update_memory_fragmentation_metric, update_allocation_policy_metrics,
}

module _ (F : Double) where
  -- Whether the calls keep the protocol, from a mutex that is held or not.
  unfoldable pub keeps_lock : Bool → List (Call F) → Bool
  keeps_lock held [] = not held
  keeps_lock true (mutex_lock ∷ cs) = false
  keeps_lock false (mutex_lock ∷ cs) = keeps_lock true cs
  keeps_lock true (mutex_unlock ∷ cs) = keeps_lock false cs
  keeps_lock false (mutex_unlock ∷ cs) = false
  keeps_lock true (gauge_set g v ∷ cs) = keeps_lock true cs
  keeps_lock false (gauge_set g v ∷ cs) = false
  keeps_lock true (reads c ∷ cs) = false
  keeps_lock true (sends c ∷ cs) = false
  keeps_lock held (c ∷ cs) = keeps_lock held cs

  abbrev pub KeepsLock : List (Call F) → Type 0
  KeepsLock cs = keeps_lock false cs ≡ true

  -- Calls that keep the protocol can be followed by others.
  pub keeps_lock-append :
      (held : Bool) (a b : List (Call F))
      → keeps_lock held a ≡ true
      → keeps_lock held (a ++ b) ≡ keeps_lock false b
  unfolding keeps_lock
  keeps_lock-append true [] b h = cc
  keeps_lock-append false [] b h = refl
  keeps_lock-append true (mutex_lock ∷ cs) b h = cc
  keeps_lock-append false (mutex_lock ∷ cs) b h = keeps_lock-append true cs b h
  keeps_lock-append true (mutex_unlock ∷ cs) b h = keeps_lock-append false cs b h
  keeps_lock-append false (mutex_unlock ∷ cs) b h = cc
  keeps_lock-append true (gauge_set g v ∷ cs) b h = keeps_lock-append true cs b h
  keeps_lock-append false (gauge_set g v ∷ cs) b h = cc
  keeps_lock-append true (reads c ∷ cs) b h = cc
  keeps_lock-append true (sends c ∷ cs) b h = cc
  keeps_lock-append held (c ∷ cs) b h = keeps_lock-append held cs b h

  pub KeepsLock-append : (a b : List (Call F)) → KeepsLock a → KeepsLock b → KeepsLock (a ++ b)
  KeepsLock-append a b h k = keeps_lock-append false a b h ∙ k

  pub read_calls-KeepsLock :
      (fs : List FileCall) (rest : List (Call F))
      → KeepsLock rest
      → KeepsLock (read_calls F fs ++ rest)
  unfolding keeps_lock
  read_calls-KeepsLock [] rest h = h
  read_calls-KeepsLock (f ∷ fs) rest h = read_calls-KeepsLock fs rest h

  cpu_calls-KeepsLock : (usage : F.Carrier) → KeepsLock (cpu_calls F usage)
  unfolding cpu_calls keeps_lock
  cpu_calls-KeepsLock usage = ground arith

  pub update_cpu_gauge-KeepsLock :
      (stat : Option Bytes) (s : CpuState F) → KeepsLock (update_cpu_gauge F stat s).0
  unfolding update_cpu_gauge
  update_cpu_gauge-KeepsLock stat s =
      let r = get_cpu_usage_traced F stat s in
      read_calls-KeepsLock r.0 (cpu_calls F r.1) (cpu_calls-KeepsLock r.1)

  memory_calls-KeepsLock : (usage : F.Carrier) → KeepsLock (memory_calls F usage)
  unfolding memory_calls keeps_lock
  memory_calls-KeepsLock usage = ground arith

  pub update_memory_gauge-KeepsLock :
      (meminfo : Option Bytes) → KeepsLock (update_memory_gauge F meminfo)
  unfolding update_memory_gauge
  update_memory_gauge-KeepsLock meminfo =
      let r = get_memory_usage_traced F meminfo in
      read_calls-KeepsLock r.0 (memory_calls F r.1) (memory_calls-KeepsLock r.1)

  pub network_calls-KeepsLock : (prev current : NetStats) → KeepsLock (network_calls F prev current)
  unfolding network_calls keeps_lock
  network_calls-KeepsLock prev current = refl

  pub update_network_metrics-KeepsLock :
      (garbage : Bytes) (net_dev : Option Bytes) (prev : NetStats)
      → KeepsLock (update_network_metrics F garbage net_dev prev).0
  unfolding update_network_metrics
  update_network_metrics-KeepsLock garbage net_dev prev =
      let r = get_network_stats_traced garbage interface net_dev in
      read_calls-KeepsLock r.0 (network_calls F prev r.1) (network_calls-KeepsLock prev r.1)

  disk_calls-KeepsLock : (stats : DiskStats) → KeepsLock (disk_calls F stats)
  unfolding disk_calls keeps_lock
  disk_calls-KeepsLock stats = refl

  pub read_disk-KeepsLock :
      (fs : List FileCall) (stats : DiskStats) → KeepsLock (read_calls F fs ++ disk_calls F stats)
  read_disk-KeepsLock fs stats =
      read_calls-KeepsLock fs (disk_calls F stats) (disk_calls-KeepsLock stats)

  processes_calls-KeepsLock : (running : ℤ) → KeepsLock (processes_calls F running)
  unfolding processes_calls keeps_lock
  processes_calls-KeepsLock running = ground arith

  pub update_count_processes-KeepsLock :
      (loadavg : Option Bytes) → KeepsLock (update_count_processes F loadavg)
  unfolding update_count_processes
  update_count_processes-KeepsLock loadavg =
      let r = get_running_processes_traced loadavg in
      read_calls-KeepsLock r.0 (processes_calls F r.1) (processes_calls-KeepsLock r.1)

  context_switches_step-KeepsLock :
      (current prev : ℕ) → KeepsLock (context_switches_step F current prev).0
  unfolding context_switches_step keeps_lock
  context_switches_step-KeepsLock current prev = ground arith

  pub update_context_switches_metric-KeepsLock :
      (stat : Option Bytes) (prev : ℕ) → KeepsLock (update_context_switches_metric F stat prev).0
  unfolding update_context_switches_metric
  update_context_switches_metric-KeepsLock stat prev =
      let r = get_context_switches_traced stat in
      read_calls-KeepsLock r.0 (context_switches_step F r.1 prev).0
        (context_switches_step-KeepsLock r.1 prev)

  pub update_memory_fragmentation_metric-KeepsLock :
      (calculate : (Policy → F.Carrier) → Policy → F.Carrier)
      → KeepsLock (update_memory_fragmentation_metric F calculate)
  unfolding update_memory_fragmentation_metric keeps_lock
  update_memory_fragmentation_metric-KeepsLock calculate = refl

  pub update_allocation_policy_metrics-KeepsLock :
      (stats : AllocationStats F) → KeepsLock (update_allocation_policy_metrics F stats)
  unfolding update_allocation_policy_metrics keeps_lock
  update_allocation_policy_metrics-KeepsLock stats = refl
