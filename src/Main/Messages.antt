-- ===== src/Main/Messages.antt =====
-- What `main` prints on stderr itself, by its calls; the messages of the readers are not among
-- them.
use monitor_program.Base.{List, [], ◌∷◌, ◌++◌, map, String, ◌≡◌, refl, ap}
use monitor_program.Double.{Double}
use monitor_program.Expose.{Call, report, sends, sleep}
use monitor_program.Expose.Update.{
  update_memory_fragmentation_metric, update_allocation_policy_metrics,
}
use monitor_program.Json.{JsonCall}
use monitor_program.Simulation.{Library}
use monitor_program.Main.{Monitor, round_calls, sleep_time}

module _ (F : Double) where
  unfoldable pub reports_of : List (Call F) → List String
  reports_of [] = []
  reports_of (report message ∷ cs) = message ∷ reports_of cs
  reports_of (c ∷ cs) = reports_of cs

  pub reports_of-append : (a b : List (Call F)) → reports_of (a ++ b) ≡ reports_of a ++ reports_of b
  unfolding reports_of
  reports_of-append [] b = refl
  reports_of-append (report message ∷ cs) b =
      ap (λ (rest : List String). message ∷ rest) (reports_of-append cs b)
  reports_of-append (c ∷ cs) b = reports_of-append cs b

  reports_of-sends :
      (js : List JsonCall) → reports_of (map sends js ++ (sleep sleep_time ∷ [])) ≡ []
  unfolding reports_of
  reports_of-sends [] = refl
  reports_of-sends (j ∷ js) = reports_of-sends js

module _ (F : Double) (L : Library) (M : Monitor F L) (heap : L.Heap) (js : List JsonCall) where
  pub reports_of-round_calls : reports_of F (round_calls F L M heap js) ≡ []
  unfolding reports_of update_memory_fragmentation_metric update_allocation_policy_metrics
  reports_of-round_calls = reports_of-sends F js
