-- ===== src/Tests/Gauges.antt =====
-- The gauges on concrete readings.
use monitor_program.Base.{
  refl, ℕ, true, false, List, ◌+◌, ◌-◌, ◌≡◌, arith, Option, none, some, [], ◌∷◌, ◌++◌, Bytes, codes,
  All,
}
use monitor_program.Base.Int.{pos}
use monitor_program.Libc.Word.{modulus}
use monitor_program.Libc.Stream.{fgets, read_lines}
use monitor_program.Libc.Scan.{sscanf, convert, run}
use monitor_program.Double.{Within, of_ull}
use monitor_program.Double.Rational.{rational, rational-IsLawful}
use monitor_program.Metrics.Memory.{scan_meminfo}
use monitor_program.Metrics.Cpu.{initial_cpu_state, cpu_times}
use monitor_program.Metrics.Disk.{no_disk_stats}
use monitor_program.Metrics.Network.{NetStats, no_net_stats, get_network_stats}
use monitor_program.Expose.{Gauge, memory_usage}
use monitor_program.Expose.Init.{made, Faults}
use monitor_program.Expose.Update.{
  AllocationStats, zero_value, update_memory_gauge, update_network_metrics,
}
use monitor_program.Expose.Locking.{KeepsLock}
use monitor_program.Expose.Values.{
  AllSets, final_value, is_rx, is_tx, update_memory_gauge_range, update_network_metrics_failure,
}
use monitor_program.Main.Order.{InOrder}
use monitor_program.Main.Registered.{
  distinct, all_inits, registered_after, names, all_inits-Complete,
}
use monitor_program.Main.Updates.{
  Update, memory, disk, switches, allocation, made_by, updates_after_inits,
}
use monitor_program.Expose.CpuGauge.{SetsPercentage, cpu_gauge_calls, cpu_gauge_always_set}
use monitor_program.Expose.Bandwidth.{
  update_run, readings, received, transmitted, last_stats, bandwidth_adds_up,
}
use monitor_program.Metrics.Cpu.Reading.{sample}
use monitor_program.Libc.Text.{strcmp_eq}
use monitor_program.Metrics.ContextSwitches.{get_context_switches}
use monitor_program.Expose.Counters.{
  values_of, is_switches, switches_run, shown, increments, sum, switches_add_up,
}

abbrev zero : rational.Carrier
zero = zero_value rational

abbrev meminfo : Option Bytes
meminfo = some (codes "MemTotal: 100 kB\nMemAvailable: 25 kB\n")

update_memory_gauge_range_example :
    AllSets rational
      (λ g v. (g ≡ memory_usage) × Within rational 0 100 v)
      (update_memory_gauge rational meminfo)
unfolding scan_meminfo read_lines fgets sscanf convert run
update_memory_gauge_range_example =
    update_memory_gauge_range rational rational-IsLawful meminfo (omega arith)

abbrev net : ℕ → ℕ → NetStats
net rx tx = record {
  bytes_received = rx;
  bytes_transmitted = tx;
  packets_received = 4;
  packets_transmitted = 2;
}

update_network_metrics_failure_example :
    let r = update_network_metrics rational [] none (net 100 50) in
    (final_value rational is_rx r.0 zero ≡ of_ull rational (modulus - 100)) × (r.1 ≡ no_net_stats)
update_network_metrics_failure_example =
    update_network_metrics_failure rational [] (net 100 50) zero (omega arith) (omega arith)

-- 1000 switches before, then 1500, a failure, and 1800.
abbrev switch_files : List (Option Bytes)
switch_files = some (codes "ctxt 1500\n") ∷ none ∷ some (codes "cpu 1\nctxt 1800\n") ∷ []

switches_add_up_example :
    (values_of rational is_switches (switches_run rational switch_files 1000).0
      ≡ shown rational (increments 1000 (1500 ∷ 0 ∷ 1800 ∷ [])))
    × ((switches_run rational switch_files 1000).1 ≡ 1800)
    × (1000 + sum (increments 1000 (1500 ∷ 0 ∷ 1800 ∷ [])) ≡ 1800)
unfolding get_context_switches read_lines fgets sscanf convert run
switches_add_up_example = switches_add_up rational 1000 switch_files (omega arith)

abbrev stats : AllocationStats rational
stats = record { count = λ p. pos 3; allocation_count = λ p. pos 0; allocation_time = λ p. zero }

-- A mutex that is not initialised.
abbrev some_faults : Faults
some_faults = record {
  mutex = true;
  registry = false;
  null = λ g. false;
  returned = λ g. true;
  halts = λ g. false;
  exit_status = 1;
}

all_inits-Complete_example :
    (made rational some_faults (all_inits rational some_faults) ≡ all_inits rational some_faults)
    × InOrder rational some_faults (all_inits rational some_faults)
    × ((g : Gauge)
        → registered_after rational (λ g. false) (all_inits rational some_faults) g ≡ true)
    × (distinct (names rational (all_inits rational some_faults)) ≡ true)
all_inits-Complete_example = all_inits-Complete rational some_faults (λ g. refl) (λ g. refl)

abbrev some_updates : List (Update rational)
some_updates =
    memory meminfo ∷ disk [] no_disk_stats ∷ switches none 7 ∷ memory none ∷ allocation stats ∷ []

updates_after_inits_example :
    InOrder rational some_faults
      (made rational some_faults (all_inits rational some_faults) ++ made_by rational some_updates)
    × KeepsLock rational (made_by rational some_updates)
updates_after_inits_example =
    updates_after_inits rational some_faults some_updates (λ g. refl) (λ g. refl)

-- A file that does not open, and one that does not parse, around a reading.
cpu_gauge_always_set_example : All (SetsPercentage rational) (
    cpu_gauge_calls rational
      (none ∷ some (codes "cpu  1 2 3 4 5 6 7 8\n") ∷ some (codes "cpu x\n") ∷ [])
      (initial_cpu_state rational))
unfolding sample fgets sscanf convert run cpu_times initial_cpu_state
cpu_gauge_always_set_example =
    cpu_gauge_always_set rational rational-IsLawful
      (none ∷ some (codes "cpu  1 2 3 4 5 6 7 8\n") ∷ some (codes "cpu x\n") ∷ []) (omega arith)

-- A file without the interface, and one where it has received 100 bytes and sent 40.
abbrev net_files : List (Bytes × Option Bytes)
net_files =
    ([], some (codes "lo: 1 2\n")) ∷ ([], some (codes "wlp2s0: 100 1 0 0 0 0 0 0 40 1 0\n")) ∷ []

bandwidth_adds_up_example :
    let ns = readings net_files in
    (values_of rational is_rx (update_run rational no_net_stats net_files)
      ≡ shown rational (received no_net_stats ns))
    × (0 + sum (received no_net_stats ns) ≡ (last_stats no_net_stats ns).bytes_received)
    × (values_of rational is_tx (update_run rational no_net_stats net_files)
        ≡ shown rational (transmitted no_net_stats ns))
    × (0 + sum (transmitted no_net_stats ns) ≡ (last_stats no_net_stats ns).bytes_transmitted)
unfolding get_network_stats read_lines fgets sscanf convert run strcmp_eq
bandwidth_adds_up_example = bandwidth_adds_up rational no_net_stats net_files (omega arith)
