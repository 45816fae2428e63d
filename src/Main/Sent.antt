-- ===== src/Main/Sent.antt =====
-- The calls of `send_metrics_as_json` among those of `main`.
use monitor_program.Base.{Bool, true, false, List, [], ◌∷◌, ◌++◌, map, ◌≡◌, refl, sym, ap, ◌∙◌}
use monitor_program.Double.{Double}
use monitor_program.Pipe.{JsonCall}
use monitor_program.Expose.{Gauge, Call, sends, sleep}
use monitor_program.Expose.Locking.{keeps_lock, KeepsLock}
use monitor_program.Expose.Update.{
  update_memory_fragmentation_metric, update_allocation_policy_metrics,
}
use monitor_program.Expose.Init.{Faults, init_metrics}
use monitor_program.Expose.Values.{final_value}
use monitor_program.Simulation.{Library}
use monitor_program.Main.{Monitor, sleep_time, round_calls}
use monitor_program.Main.Order.{silent, silent-init_metrics, only_sets}
use monitor_program.Main.Pauses.{slept}

module _ (F : Double) where
  -- The calls of `send_metrics_as_json`.
  unfoldable pub sent_of : List (Call F) → List JsonCall
  sent_of [] = []
  sent_of (sends c ∷ cs) = c ∷ sent_of cs
  sent_of (c ∷ cs) = sent_of cs

  pub sent_of-append : (a b : List (Call F)) → sent_of (a ++ b) ≡ sent_of a ++ sent_of b
  unfolding sent_of
  sent_of-append [] b = refl
  sent_of-append (sends c ∷ cs) b = ap (λ (rest : List JsonCall). c ∷ rest) (sent_of-append cs b)
  sent_of-append (c ∷ cs) b = sent_of-append cs b

  sent_of-silent : (cs : List (Call F)) → sent_of (silent F cs) ≡ sent_of cs
  unfolding sent_of silent
  sent_of-silent [] = refl
  sent_of-silent (sends c ∷ cs) = ap (λ (rest : List JsonCall). c ∷ rest) (sent_of-silent cs)
  sent_of-silent (c ∷ cs) = sent_of-silent cs

  sent_of-init_metrics : (faults : Faults) → sent_of (init_metrics F faults) ≡ []
  unfolding sent_of silent init_metrics
  sent_of-init_metrics faults =
      sym (sent_of-silent (init_metrics F faults)) ∙ ap sent_of (silent-init_metrics F faults)

  pub sent_of-init_then :
      (faults : Faults) (cs : List (Call F)) → sent_of (init_metrics F faults ++ cs) ≡ sent_of cs
  sent_of-init_then faults cs =
      sent_of-append (init_metrics F faults) cs
      ∙ ap (λ (a : List JsonCall). a ++ sent_of cs) (sent_of-init_metrics faults)

  -- What they change of the rest: nothing.
  sent_of-sends : (js : List JsonCall) → sent_of (map sends js ++ (sleep sleep_time ∷ [])) ≡ js
  unfolding sent_of
  sent_of-sends [] = refl
  sent_of-sends (j ∷ js) = ap (λ (rest : List JsonCall). j ∷ rest) (sent_of-sends js)

  only_sets-sends :
      (js : List JsonCall) (rest : List (Call F))
      → only_sets F (map sends js ++ rest) ≡ only_sets F rest
  unfolding only_sets
  only_sets-sends [] rest = refl
  only_sets-sends (j ∷ js) rest = only_sets-sends js rest

  keeps_lock-sends :
      (js : List JsonCall) (rest : List (Call F))
      → keeps_lock F false (map sends js ++ rest) ≡ keeps_lock F false rest
  unfolding keeps_lock
  keeps_lock-sends [] rest = refl
  keeps_lock-sends (j ∷ js) rest = keeps_lock-sends js rest

  slept-sends :
      (js : List JsonCall) (rest : List (Call F)) → slept F (map sends js ++ rest) ≡ slept F rest
  unfolding slept
  slept-sends [] rest = refl
  slept-sends (j ∷ js) rest = slept-sends js rest

  pub final_value-sends :
      (this : Gauge → Bool) (js : List JsonCall) (rest : List (Call F)) (old : F.Carrier)
      → final_value F this (map sends js ++ rest) old ≡ final_value F this rest old
  final_value-sends this [] rest old = refl
  final_value-sends this (j ∷ js) rest old = final_value-sends this js rest old

module _ (F : Double) (L : Library) (M : Monitor F L) (heap : L.Heap) (js : List JsonCall) where
  abbrev calls : List (Call F)
  calls = round_calls F L M heap js

  sent_of-round_calls : sent_of F calls ≡ js
  unfolding sent_of update_memory_fragmentation_metric update_allocation_policy_metrics
  sent_of-round_calls = sent_of-sends F js

  pub sent_of-round_then : (rest : List (Call F)) → sent_of F (calls ++ rest) ≡ js ++ sent_of F rest
  sent_of-round_then rest =
      sent_of-append F calls rest
      ∙ ap (λ (a : List JsonCall). a ++ sent_of F rest) sent_of-round_calls

  pub only_sets-round_calls : only_sets F calls ≡ true
  unfolding only_sets update_memory_fragmentation_metric update_allocation_policy_metrics
  only_sets-round_calls = only_sets-sends F js (sleep sleep_time ∷ [])

  pub round_calls-KeepsLock : KeepsLock F calls
  unfolding keeps_lock update_memory_fragmentation_metric update_allocation_policy_metrics
  round_calls-KeepsLock = keeps_lock-sends F js (sleep sleep_time ∷ [])

  pub slept-round_calls : slept F calls ≡ sleep_time
  unfolding slept update_memory_fragmentation_metric update_allocation_policy_metrics
  slept-round_calls = slept-sends F js (sleep sleep_time ∷ [])
