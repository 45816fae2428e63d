-- ===== src/Expose/Values.antt =====
-- The values that the gauges get.
use monitor_program.Base.{
  Bool, true, false, ◌⊎◌, Option, none, inl, inr, List, [], ◌∷◌, ◌++◌, Bytes, ◌≡◌, refl, ap, arith,
  ◌<◌, ◌-◌, if◌then◌else◌,
}
use monitor_program.Base.Int.{negsuc}
use monitor_program.Libc.Word.{modulus, sub64, sub64_wraps}
use monitor_program.Double.{Double, IsLawful, Within, of_ull}
use monitor_program.Libc.Stdio.{FileCall}
use monitor_program.Metrics.Memory.{get_memory_usage}
use monitor_program.Metrics.Memory.Traced.{get_memory_usage_traced, get_memory_usage_traced-value}
use monitor_program.Metrics.Network.Traced.{get_network_stats_traced}
use monitor_program.Metrics.Memory.Bounds.{IsPlausible, get_memory_usage_bounds}
use monitor_program.Metrics.Network.{NetStats, no_net_stats}
use monitor_program.Expose.{
  Gauge, Call, read_calls, gauge_set, memory_usage, network_bandwidth_rx, network_bandwidth_tx,
}
use monitor_program.Expose.Update.{memory_calls, update_memory_gauge, update_network_metrics}

-- Tests for single gauges.
abbrev pub is_tx : Gauge → Bool
is_tx network_bandwidth_tx = true
is_tx g = false

abbrev pub is_rx : Gauge → Bool
is_rx network_bandwidth_rx = true
is_rx g = false

module _ (F : Double) where
  -- Every value that the calls set has a property.
  abbrev pub AllSets : (Gauge → F.Carrier → Type 0) → List (Call F) → Type 0
  AllSets P [] = Unit {0}
  AllSets P (gauge_set g v ∷ cs) = P g v × AllSets P cs
  AllSets P (c ∷ cs) = AllSets P cs

  AllSets-read_calls :
      (P : Gauge → F.Carrier → Type 0) (fs : List FileCall) (rest : List (Call F))
      → AllSets P rest
      → AllSets P (read_calls F fs ++ rest)
  AllSets-read_calls P [] rest h = h
  AllSets-read_calls P (f ∷ fs) rest h = AllSets-read_calls P fs rest h

  module _ (laws : IsLawful F) where
    memory_calls_range :
        (usage : F.Carrier)
        → (usage ≡ F.of_int (negsuc 0)) ⊎ Within F 0 100 usage
        → AllSets (λ g v. (g ≡ memory_usage) × Within F 0 100 v) (memory_calls F usage)
    unfolding memory_calls
    memory_calls_range usage (inl e) = rw (e, memory_calls, laws.of_int_neg 0) tt
    memory_calls_range usage (inr w) = rw (memory_calls, w.above) ((refl, w), tt)

    -- On every file whose available memory does not pass its total, the function sets no gauge but
    -- `memory_usage`, and that only to a value from 0 to 100: never to the -1.0 of an error.
    pub update_memory_gauge_range :
        (file : Option Bytes)
        → IsPlausible file
        → AllSets (λ g v. (g ≡ memory_usage) × Within F 0 100 v) (update_memory_gauge F file)
    unfolding update_memory_gauge
    update_memory_gauge_range file h =
        let r = get_memory_usage_traced F file in
        AllSets-read_calls (λ g v. (g ≡ memory_usage) × Within F 0 100 v) r.0 (memory_calls F r.1)
          (rw (get_memory_usage_traced-value F file)
            (memory_calls_range (get_memory_usage F file) (get_memory_usage_bounds F laws file h)))

  -- The value that the calls leave in a gauge: the last one set, or the old one.
  abbrev pub final_value : (Gauge → Bool) → List (Call F) → F.Carrier → F.Carrier
  final_value this [] old = old
  final_value this (gauge_set g v ∷ cs) old = final_value this cs (if this g then v else old)
  final_value this (c ∷ cs) old = final_value this cs old

  pub final_value-append :
      (this : Gauge → Bool) (a b : List (Call F)) (old : F.Carrier)
      → final_value this (a ++ b) old ≡ final_value this b (final_value this a old)
  final_value-append this [] b old = refl
  final_value-append this (gauge_set g v ∷ cs) b old =
      final_value-append this cs b (if this g then v else old)
  final_value-append this (c ∷ cs) b old = final_value-append this cs b old

  -- Where /proc/net/dev does not open after a call that received bytes, the gauge of reception
  -- shows 2 ^ 64 less those bytes, and the counters of the call before are forgotten.
  pub update_network_metrics_failure :
      (garbage : Bytes) (prev : NetStats) (old : F.Carrier)
      → 0 < prev.bytes_received
      → prev.bytes_received < modulus
      → let r = update_network_metrics F garbage none prev in
        (final_value is_rx r.0 old ≡ of_ull F (modulus - prev.bytes_received))
        × (r.1 ≡ no_net_stats)
  unfolding update_network_metrics get_network_stats_traced
  update_network_metrics_failure garbage prev old h fits =
      let wrapped : sub64 0 prev.bytes_received ≡ modulus - prev.bytes_received =
        omega (arith, sub64_wraps 0 prev.bytes_received h fits) in
      (ap (of_ull F) wrapped, refl)
