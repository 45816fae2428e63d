-- ===== src/Main/Distinct.antt =====
-- The gauges are told apart by their numbers.
use monitor_program.Base.{ℕ, zero, suc, List, [], ◌∷◌, true, ◌≡◌, refl, sym, ap, ◌∙◌, ◌==◌, arith}
use monitor_program.Expose.{
  Gauge, cpu_usage, memory_usage, disk_reads, disk_writes, disk_read_time, disk_write_time,
  network_bandwidth_tx, network_bandwidth_rx, network_packet_ratio, count_processes,
  context_switches, memory_fragmentation_first_fit, memory_fragmentation_best_fit,
  memory_fragmentation_worst_fit, first_fit_allocations, best_fit_allocations,
  worst_fit_allocations, first_fit_avg_allocation_time, best_fit_avg_allocation_time,
  worst_fit_avg_allocation_time,
}
use monitor_program.Main.Order.{index}
use monitor_program.Main.Gauges.{is}

-- The gauges, each at its number.
gauges : List Gauge
gauges =
    cpu_usage ∷ memory_usage ∷ disk_reads ∷ disk_writes ∷ disk_read_time ∷ disk_write_time
    ∷ network_bandwidth_tx ∷ network_bandwidth_rx ∷ network_packet_ratio ∷ count_processes
    ∷ context_switches ∷ memory_fragmentation_first_fit ∷ memory_fragmentation_best_fit
    ∷ memory_fragmentation_worst_fit ∷ first_fit_allocations ∷ best_fit_allocations
    ∷ worst_fit_allocations ∷ first_fit_avg_allocation_time ∷ best_fit_avg_allocation_time
    ∷ worst_fit_avg_allocation_time ∷ []

at : List Gauge → ℕ → Gauge
at [] n = cpu_usage
at (g ∷ gs) zero = g
at (g ∷ gs) (suc n) = at gs n

gauge_at : ℕ → Gauge
unfolding gauges at
gauge_at n = at gauges n

gauge_at-index : (g : Gauge) → gauge_at (index g) ≡ g
unfolding gauge_at gauges at
gauge_at-index cpu_usage = refl
gauge_at-index memory_usage = refl
gauge_at-index disk_reads = refl
gauge_at-index disk_writes = refl
gauge_at-index disk_read_time = refl
gauge_at-index disk_write_time = refl
gauge_at-index network_bandwidth_tx = refl
gauge_at-index network_bandwidth_rx = refl
gauge_at-index network_packet_ratio = refl
gauge_at-index count_processes = refl
gauge_at-index context_switches = refl
gauge_at-index memory_fragmentation_first_fit = refl
gauge_at-index memory_fragmentation_best_fit = refl
gauge_at-index memory_fragmentation_worst_fit = refl
gauge_at-index first_fit_allocations = refl
gauge_at-index best_fit_allocations = refl
gauge_at-index worst_fit_allocations = refl
gauge_at-index first_fit_avg_allocation_time = refl
gauge_at-index best_fit_avg_allocation_time = refl
gauge_at-index worst_fit_avg_allocation_time = refl

eq→same : (a b : ℕ) → (a == b) ≡ true → a ≡ b
eq→same a b h = ground arith

pub is→same : (g h : Gauge) → is g h ≡ true → g ≡ h
is→same g h e =
    sym (gauge_at-index g) ∙ ap gauge_at (eq→same (index g) (index h) e) ∙ gauge_at-index h
