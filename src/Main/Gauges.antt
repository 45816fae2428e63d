-- ===== src/Main/Gauges.antt =====
-- The values that a run of `main` leaves in the gauges.
use monitor_program.Base.Int.{ℤ, pos, negsuc}
use monitor_program.Base.{
  arith, zero, suc, Bool, List, [], ◌∷◌, ◌≡◌, refl, sym, ap, ◌∙◌, ◌==◌, if◌then◌else◌,
}
use monitor_program.Double.{Double}
use monitor_program.Expose.{
  Gauge, Call, gauge_set, sleep, memory_fragmentation_first_fit, memory_fragmentation_best_fit,
  memory_fragmentation_worst_fit, first_fit_allocations, best_fit_allocations,
  worst_fit_allocations, first_fit_avg_allocation_time, best_fit_avg_allocation_time,
  worst_fit_avg_allocation_time,
}
use monitor_program.Expose.Update.{
  Policy, AllocationStats, is_positive, first_fit, best_fit, worst_fit, zero_value, average_time,
  update_memory_fragmentation_metric, update_allocation_policy_metrics,
}
use monitor_program.Expose.Init.{Faults, init_metrics}
use monitor_program.Expose.Values.{final_value}
use monitor_program.Json.{JsonCall}
use monitor_program.Simulation.{Library}
use monitor_program.Main.{Monitor, round_calls, sleep_time}
use monitor_program.Main.Order.{index, silent, silent-init_metrics}
use monitor_program.Main.Sent.{final_value-sends}

abbrev pub is : Gauge → Gauge → Bool
is g h = index g == index h

module _ (F : Double) (L : Library) (M : Monitor F L) where
  -- The time of a method's allocations divided by their number, 0 if there was none.
  abbrev pub mean : ℤ → F.Carrier → F.Carrier
  mean (pos (suc n)) time = F.div time (F.of_int (pos (suc n)))
  mean n time = F.of_int (pos 0)

  guarded :
      (n : ℤ) (time : F.Carrier)
      → (if is_positive n then F.div time (F.of_int n) else zero_value F) ≡ mean n time
  guarded (pos zero) time = refl
  guarded (pos (suc n)) time = ground arith
  guarded (negsuc n) time = refl

  pub average_time-mean :
      (stats : AllocationStats F) (p : Policy)
      → average_time F stats p ≡ mean (stats.allocation_count p) (stats.allocation_time p)
  unfolding average_time
  average_time-mean stats p = guarded (stats.allocation_count p) (stats.allocation_time p)

  -- What the gauges show of a heap; the others keep their value.
  abbrev pub shown : L.Heap → Gauge → F.Carrier → F.Carrier
  shown heap memory_fragmentation_first_fit old = M.fragmentation heap (λ p. zero_value F) first_fit
  shown heap memory_fragmentation_best_fit old = M.fragmentation heap (λ p. zero_value F) best_fit
  shown heap memory_fragmentation_worst_fit old = M.fragmentation heap (λ p. zero_value F) worst_fit
  shown heap first_fit_allocations old = F.of_int ((M.stats heap).count first_fit)
  shown heap best_fit_allocations old = F.of_int ((M.stats heap).count best_fit)
  shown heap worst_fit_allocations old = F.of_int ((M.stats heap).count worst_fit)
  shown heap first_fit_avg_allocation_time old =
      mean ((M.stats heap).allocation_count first_fit) ((M.stats heap).allocation_time first_fit)
  shown heap best_fit_avg_allocation_time old =
      mean ((M.stats heap).allocation_count best_fit) ((M.stats heap).allocation_time best_fit)
  shown heap worst_fit_avg_allocation_time old =
      mean ((M.stats heap).allocation_count worst_fit) ((M.stats heap).allocation_time worst_fit)
  shown heap g old = old

  pub shown-shown :
      (a b : L.Heap) (g : Gauge) (old : F.Carrier) → shown b g (shown a g old) ≡ shown b g old
  shown-shown a b memory_fragmentation_first_fit old = refl
  shown-shown a b g old = refl

  pub final_value-round :
      (heap : L.Heap) (sent : List JsonCall) (g : Gauge) (old : F.Carrier)
      → final_value F (is g) (round_calls F L M heap sent) old ≡ shown heap g old
  unfolding update_memory_fragmentation_metric update_allocation_policy_metrics
  final_value-round heap sent memory_fragmentation_first_fit old =
      final_value-sends F (is memory_fragmentation_first_fit) sent (sleep sleep_time ∷ []) _
  final_value-round heap sent first_fit_avg_allocation_time old =
      final_value-sends F (is first_fit_avg_allocation_time) sent (sleep sleep_time ∷ []) _
      ∙ average_time-mean (M.stats heap) first_fit
  final_value-round heap sent best_fit_avg_allocation_time old =
      final_value-sends F (is best_fit_avg_allocation_time) sent (sleep sleep_time ∷ []) _
      ∙ average_time-mean (M.stats heap) best_fit
  final_value-round heap sent worst_fit_avg_allocation_time old =
      final_value-sends F (is worst_fit_avg_allocation_time) sent (sleep sleep_time ∷ []) _
      ∙ average_time-mean (M.stats heap) worst_fit
  final_value-round heap sent g old = final_value-sends F (is g) sent (sleep sleep_time ∷ []) _

  final_value-silent :
      (this : Gauge → Bool) (cs : List (Call F)) (old : F.Carrier)
      → final_value F this (silent F cs) old ≡ final_value F this cs old
  unfolding silent
  final_value-silent this [] old = refl
  final_value-silent this (gauge_set g v ∷ cs) old =
      final_value-silent this cs (if this g then v else old)
  final_value-silent this (c ∷ cs) old = final_value-silent this cs old

  pub final_value-init :
      (faults : Faults) (this : Gauge → Bool) (old : F.Carrier)
      → final_value F this (init_metrics F faults) old ≡ old
  final_value-init faults this old =
      sym (final_value-silent this (init_metrics F faults) old)
      ∙ ap (λ (cs : List (Call F)). final_value F this cs old) (silent-init_metrics F faults)
      ∙ unfold init_metrics silent in refl {a = old}
