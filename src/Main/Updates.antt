-- ===== src/Main/Updates.antt =====
-- The functions `init_*` followed by any sequence of calls of the functions `update_*`.
use monitor_program.Base.{
  ◌∙◌, ℕ, Bool, true, false, List, [], ◌∷◌, ◌++◌, Option, Bytes, ◌≡◌, refl, arith,
}
use monitor_program.Double.{Double}
use monitor_program.Base.Int.{ℤ}
use monitor_program.Libc.Stdio.{FileCall}
use monitor_program.Metrics.Cpu.{CpuState}
use monitor_program.Metrics.Disk.{DiskStats}
use monitor_program.Metrics.Network.{NetStats}
use monitor_program.Expose.{Gauge, Call, read_calls, gauge_new, register_metric, gauge_set}
use monitor_program.Metrics.Memory.Traced.{get_memory_usage_traced}
use monitor_program.Metrics.Cpu.Traced.{get_cpu_usage_traced}
use monitor_program.Metrics.Network.Traced.{get_network_stats_traced}
use monitor_program.Metrics.Processes.Traced.{get_running_processes_traced}
use monitor_program.Metrics.ContextSwitches.Traced.{get_context_switches_traced}
use monitor_program.Expose.Locking.{
  keeps_lock, KeepsLock, read_disk-KeepsLock, KeepsLock-append, update_cpu_gauge-KeepsLock,
  update_memory_gauge-KeepsLock, update_network_metrics-KeepsLock, update_count_processes-KeepsLock,
  update_context_switches_metric-KeepsLock, update_memory_fragmentation_metric-KeepsLock,
  update_allocation_policy_metrics-KeepsLock,
}
use monitor_program.Expose.Update.{
  Policy, AllocationStats, interface, update_cpu_gauge, update_memory_gauge, disk_calls, cpu_calls,
  memory_calls, processes_calls, network_calls, update_network_metrics, update_count_processes,
  context_switches_step, update_context_switches_metric, update_memory_fragmentation_metric,
  update_allocation_policy_metrics,
}
use monitor_program.Expose.Init.{Faults, made}
use monitor_program.Main.Order.{add, in_order, InOrder, gauges_in_order-created}
use monitor_program.Main.Registered.{all_inits, registered_after, all_inits-calls, made-returns}

module _ (F : Double) where
  -- A call of one of the functions, with what it reads and its state; `disk` has what
  -- `get_disk_stats` called and returned.
  pub data Update : Type 0 where
    cpu : Option Bytes → CpuState F → Update
    memory : Option Bytes → Update
    disk : List FileCall → DiskStats → Update
    network : Bytes → Option Bytes → NetStats → Update
    processes : Option Bytes → Update
    switches : Option Bytes → ℕ → Update
    fragmentation : ((Policy → F.Carrier) → Policy → F.Carrier) → Update
    allocation : AllocationStats F → Update

  abbrev pub calls_of : Update → List (Call F)
  calls_of (cpu stat s) = (update_cpu_gauge F stat s).0
  calls_of (memory meminfo) = update_memory_gauge F meminfo
  calls_of (disk fs stats) = read_calls F fs ++ disk_calls F stats
  calls_of (network garbage net_dev prev) = (update_network_metrics F garbage net_dev prev).0
  calls_of (processes loadavg) = update_count_processes F loadavg
  calls_of (switches stat prev) = (update_context_switches_metric F stat prev).0
  calls_of (fragmentation calculate) = update_memory_fragmentation_metric F calculate
  calls_of (allocation stats) = update_allocation_policy_metrics F stats

  abbrev pub made_by : List Update → List (Call F)
  made_by [] = []
  made_by (u ∷ us) = calls_of u ++ made_by us

  -- Whether calls create and register nothing.
  creates_none : List (Call F) → Bool
  creates_none [] = true
  creates_none (gauge_new g name help ∷ cs) = false
  creates_none (register_metric g ∷ cs) = false
  creates_none (c ∷ cs) = creates_none cs

  creates_none-append :
      (a b : List (Call F))
      → creates_none a ≡ true
      → creates_none b ≡ true
      → creates_none (a ++ b) ≡ true
  unfolding creates_none
  creates_none-append [] b h k = k
  creates_none-append (gauge_new g name help ∷ cs) b h k = cc
  creates_none-append (register_metric g ∷ cs) b h k = cc
  creates_none-append (c ∷ cs) b h k = creates_none-append cs b h k

  creates_none-switches :
      (current prev : ℕ) → creates_none (context_switches_step F current prev).0 ≡ true
  unfolding context_switches_step creates_none
  creates_none-switches current prev = ground arith

  creates_none-read_calls :
      (fs : List FileCall) (rest : List (Call F))
      → creates_none rest ≡ true
      → creates_none (read_calls F fs ++ rest) ≡ true
  unfolding creates_none
  creates_none-read_calls [] rest h = h
  creates_none-read_calls (f ∷ fs) rest h = creates_none-read_calls fs rest h

  creates_none-cpu : (usage : F.Carrier) → creates_none (cpu_calls F usage) ≡ true
  unfolding creates_none cpu_calls
  creates_none-cpu usage = ground arith

  creates_none-memory : (usage : F.Carrier) → creates_none (memory_calls F usage) ≡ true
  unfolding creates_none memory_calls
  creates_none-memory usage = ground arith

  creates_none-processes : (running : ℤ) → creates_none (processes_calls F running) ≡ true
  unfolding creates_none processes_calls
  creates_none-processes running = ground arith

  creates_none-disk : (stats : DiskStats) → creates_none (disk_calls F stats) ≡ true
  unfolding creates_none disk_calls
  creates_none-disk stats = refl

  creates_none-network :
      (prev current : NetStats) → creates_none (network_calls F prev current) ≡ true
  unfolding creates_none network_calls
  creates_none-network prev current = refl

  creates_none-calls_of : (u : Update) → creates_none (calls_of u) ≡ true
  unfolding creates_none update_cpu_gauge update_memory_gauge update_network_metrics
      update_count_processes update_context_switches_metric update_memory_fragmentation_metric
      update_allocation_policy_metrics
  creates_none-calls_of (cpu stat s) =
      let r = get_cpu_usage_traced F stat s in
      creates_none-read_calls r.0 (cpu_calls F r.1) (creates_none-cpu r.1)
  creates_none-calls_of (memory meminfo) =
      let r = get_memory_usage_traced F meminfo in
      creates_none-read_calls r.0 (memory_calls F r.1) (creates_none-memory r.1)
  creates_none-calls_of (disk fs stats) =
      creates_none-read_calls fs (disk_calls F stats) (creates_none-disk stats)
  creates_none-calls_of (network garbage net_dev prev) =
      let r = get_network_stats_traced garbage interface net_dev in
      creates_none-read_calls r.0 (network_calls F prev r.1) (creates_none-network prev r.1)
  creates_none-calls_of (processes loadavg) =
      let r = get_running_processes_traced loadavg in
      creates_none-read_calls r.0 (processes_calls F r.1) (creates_none-processes r.1)
  creates_none-calls_of (switches stat prev) =
      let r = get_context_switches_traced stat in
      creates_none-read_calls r.0 (context_switches_step F r.1 prev).0
        (creates_none-switches r.1 prev)
  creates_none-calls_of (fragmentation calculate) = refl
  creates_none-calls_of (allocation stats) = refl

  creates_none-made_by : (us : List Update) → creates_none (made_by us) ≡ true
  creates_none-made_by [] = unfold creates_none in refl
  creates_none-made_by (u ∷ us) =
      creates_none-append (calls_of u) (made_by us) (creates_none-calls_of u)
        (creates_none-made_by us)

  -- Where every gauge is registered, calls that create none are in order.
  in_order-creates_none :
      (created registered : Gauge → Bool) (cs : List (Call F))
      → ((g : Gauge) → registered g ≡ true)
      → creates_none cs ≡ true
      → in_order F created registered cs ≡ true
  unfolding creates_none in_order
  in_order-creates_none created registered [] all h = refl
  in_order-creates_none created registered (gauge_new g name help ∷ cs) all h = cc
  in_order-creates_none created registered (register_metric g ∷ cs) all h = cc
  in_order-creates_none created registered (gauge_set g v ∷ cs) all h =
      rw (all g) (in_order-creates_none created registered cs all h)
  in_order-creates_none created registered (c ∷ cs) all h =
      in_order-creates_none created registered cs all h

  -- Calls that leave every gauge registered can be followed by them.
  in_order_then :
      (created registered : Gauge → Bool) (a b : List (Call F))
      → in_order F created registered a ≡ true
      → ((g : Gauge) → registered_after F registered a g ≡ true)
      → creates_none b ≡ true
      → in_order F created registered (a ++ b) ≡ true
  unfolding in_order registered_after
  in_order_then created registered [] b h all k = in_order-creates_none created registered b all k
  in_order_then created registered (gauge_new g name help ∷ cs) b h all k =
      ground (arith, in_order_then (add g created) registered cs b)
  in_order_then created registered (register_metric g ∷ cs) b h all k =
      ground (arith, in_order_then created (add g registered) cs b)
  in_order_then created registered (gauge_set g v ∷ cs) b h all k =
      ground (arith, in_order_then created registered cs b)
  in_order_then created registered (c ∷ cs) b h all k =
      in_order_then created registered cs b h all k

  calls_of-KeepsLock : (u : Update) → KeepsLock F (calls_of u)
  calls_of-KeepsLock (cpu stat s) = update_cpu_gauge-KeepsLock F stat s
  calls_of-KeepsLock (memory meminfo) = update_memory_gauge-KeepsLock F meminfo
  calls_of-KeepsLock (disk fs stats) = read_disk-KeepsLock F fs stats
  calls_of-KeepsLock (network garbage net_dev prev) =
      update_network_metrics-KeepsLock F garbage net_dev prev
  calls_of-KeepsLock (processes loadavg) = update_count_processes-KeepsLock F loadavg
  calls_of-KeepsLock (switches stat prev) = update_context_switches_metric-KeepsLock F stat prev
  calls_of-KeepsLock (fragmentation calculate) =
      update_memory_fragmentation_metric-KeepsLock F calculate
  calls_of-KeepsLock (allocation stats) = update_allocation_policy_metrics-KeepsLock F stats

  made_by-KeepsLock : (us : List Update) → KeepsLock F (made_by us)
  made_by-KeepsLock [] = unfold keeps_lock in refl
  made_by-KeepsLock (u ∷ us) =
      KeepsLock-append F (calls_of u) (made_by us) (calls_of-KeepsLock u) (made_by-KeepsLock us)

  -- After the five functions, if each gauge is created and each registration returns, any sequence
  -- of updates, in any order and with any readings and states, sets only gauges that are created
  -- and registered, each while the mutex is held, which is not locked twice, is free while a file
  -- is read, and is free at the end.
  pub updates_after_inits :
      (faults : Faults) (us : List Update)
      → ((g : Gauge) → faults.null g ≡ false)
      → ((g : Gauge) → faults.halts g ≡ false)
      → InOrder F faults (made F faults (all_inits F faults) ++ made_by us)
        × KeepsLock F (made_by us)
  updates_after_inits faults us gauges works =
      let calls = all_inits-calls F faults in
      (
        rw (made-returns F faults (all_inits F faults) works) (
            gauges_in_order-created F faults.null _ _ (all_inits F faults ++ made_by us) gauges
            ∙ in_order_then (λ g. false) (λ g. false) (all_inits F faults) (made_by us) calls.0
                calls.1 (creates_none-made_by us)),
        made_by-KeepsLock us,
      )
