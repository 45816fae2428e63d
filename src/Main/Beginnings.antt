-- ===== src/Main/Beginnings.antt =====
-- The values of the gauges and the seconds slept at any time in a sequence of calls.
use mathlib.Core.List.{append_assoc}
use monitor_program.Base.{
  Bool-cases, true, ◌⊎◌, inl, inr, List, [], ◌∷◌, ◌++◌, map, ◌≡◌, refl, sym, ap, ◌∙◌, ◌≤◌, arith,
}
use monitor_program.Base.Prefixes.{Prefix, start, next}
use monitor_program.Double.{Double}
use monitor_program.Expose.{Gauge, Call, gauge_set, sends, sleep}
use monitor_program.Expose.Init.{Faults, init_metrics}
use monitor_program.Expose.Update.{
  first_fit, best_fit, worst_fit, update_memory_fragmentation_metric,
  update_allocation_policy_metrics,
}
use monitor_program.Expose.Values.{final_value, AllSets}
use monitor_program.Json.{JsonCall}
use monitor_program.Simulation.{Library}
use monitor_program.Main.{Monitor, round_calls, sleep_time}
use monitor_program.Main.Order.{silent, silent-init_metrics}
use monitor_program.Main.Distinct.{is→same}
use monitor_program.Main.Gauges.{is, shown, shown-shown, average_time-mean}
use monitor_program.Main.Pauses.{slept, slept-init_metrics}

module _ (F : Double) where
  pub slept-prefix : {p cs : List (Call F)} → Prefix p cs → slept F p ≤ slept F cs
  unfolding slept
  slept-prefix start = omega arith
  slept-prefix (next (sleep n) h) = omega (arith, slept-prefix h)
  slept-prefix (next c h) = slept-prefix h

  -- Calls that set each gauge to its value, whatever it was: any beginning of them leaves it as it
  -- was or at that value.
  module _ (to : Gauge → F.Carrier → F.Carrier)
      (again : (g : Gauge) (old : F.Carrier) → to g (to g old) ≡ to g old) where
    abbrev pub Sets : List (Call F) → Type 0
    Sets = AllSets F (λ g v. (old : F.Carrier) → v ≡ to g old)

    abbrev pub Either : Gauge → F.Carrier → F.Carrier → Type 0
    Either g old v = (v ≡ old) ⊎ (v ≡ to g old)

    value-set :
        (g h : Gauge) (old v w : F.Carrier)
        → is g h ≡ true
        → ((old : F.Carrier) → v ≡ to h old)
        → Either g v w
        → Either g old w
    value-set g h old v w same e k =
        let is_to : v ≡ to g old = e old ∙ ap (λ (i : Gauge). to i old) (sym (is→same g h same)) in
        elim k [ inl m ↦ inr (m ∙ is_to) | inr m ↦ inr (m ∙ ap (to g) is_to ∙ again g old) ]

    pub value-prefix :
        {p cs : List (Call F)}
        → Prefix p cs
        → Sets cs
        → (g : Gauge) (old : F.Carrier) → Either g old (final_value F (is g) p old)
    value-prefix start h g old = inl refl
    value-prefix (next (gauge_set i v) k) (e, h) g old = elim (Bool-cases (is g i)) [
      | inl same ↦ rw same (value-set g i old v _ same e (value-prefix k h g v))
      | inr other ↦ rw other (value-prefix k h g old)
    ]
    value-prefix (next c k) h g old = value-prefix k h g old

  AllSets-silent :
      (P : Gauge → F.Carrier → Type 0) (cs : List (Call F))
      → AllSets F P (silent F cs)
      → AllSets F P cs
  unfolding silent
  AllSets-silent P [] h = tt
  AllSets-silent P (gauge_set g v ∷ cs) (k, h) = (k, AllSets-silent P cs h)
  AllSets-silent P (c ∷ cs) h = AllSets-silent P cs h

  -- At any time in `init_metrics`, nothing is set and no second has passed.
  pub init_metrics-idle :
      (faults : Faults) (p : List (Call F))
      → Prefix p (init_metrics F faults)
      → (slept F p ≡ 0) × ((g : Gauge) (old : F.Carrier) → final_value F (is g) p old ≡ old)
  init_metrics-idle faults p k =
      let sets : AllSets F (λ g v. (old : F.Carrier) → v ≡ old) (init_metrics F faults) =
        AllSets-silent _ (init_metrics F faults)
          (rw (silent-init_metrics F faults) (unfold silent init_metrics in tt)) in
      (
        omega (arith, slept-prefix k, slept-init_metrics F faults),
        λ g old. elim (value-prefix (λ i v. v) (λ i v. refl) k sets g old) [
          | inl e ↦ e
          | inr e ↦ e
        ],
      )

module _ (F : Double) (L : Library) (M : Monitor F L) where
  -- The calls of a round before the pause.
  abbrev pub busy_calls : L.Heap → List JsonCall → List (Call F)
  busy_calls heap sent =
      update_memory_fragmentation_metric F (M.fragmentation heap)
      ++ (update_allocation_policy_metrics F (M.stats heap) ++ map sends sent)

  pub round_calls-busy :
      (heap : L.Heap) (sent : List JsonCall) (rest : List (Call F))
      → round_calls F L M heap sent ++ rest ≡ busy_calls heap sent ++ (sleep sleep_time ∷ rest)
  unfolding update_memory_fragmentation_metric update_allocation_policy_metrics
  round_calls-busy heap sent rest =
      let calls : List (Call F) = map sends sent in
      let set =
        update_memory_fragmentation_metric F (M.fragmentation heap)
        ++ update_allocation_policy_metrics F (M.stats heap) in
      ap (λ (cs : List (Call F)). set ++ cs) (append_assoc calls (sleep sleep_time ∷ []) rest)

  Sets-sends :
      (to : Gauge → F.Carrier → F.Carrier)
      (again : (g : Gauge) (old : F.Carrier) → to g (to g old) ≡ to g old) (js : List JsonCall)
      → Sets F to again (map sends js)
  Sets-sends to again [] = tt
  Sets-sends to again (j ∷ js) = Sets-sends to again js

  slept-sent : (js : List JsonCall) → slept F (map sends js) ≡ 0
  unfolding slept
  slept-sent [] = refl
  slept-sent (j ∷ js) = slept-sent js

  pub busy_calls-Sets :
      (heap : L.Heap) (js : List JsonCall)
      → Sets F (shown F L M heap) (shown-shown F L M heap heap) (busy_calls heap js)
  unfolding update_memory_fragmentation_metric update_allocation_policy_metrics
  busy_calls-Sets heap js =
      let sent = Sets-sends _ (shown-shown F L M heap heap) js in
      let stats = M.stats heap in
      ground (
        arith,
        sent,
        average_time-mean F L M stats first_fit,
        average_time-mean F L M stats best_fit,
        average_time-mean F L M stats worst_fit,
      )

  pub slept-busy_calls : (heap : L.Heap) (js : List JsonCall) → slept F (busy_calls heap js) ≡ 0
  unfolding slept update_memory_fragmentation_metric update_allocation_policy_metrics
  slept-busy_calls heap js = slept-sent js
