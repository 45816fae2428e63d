-- ===== src/Main/Failures.antt =====
-- What `main` does where the registration of a gauge ends the program, and what it reports where
-- nothing fails.
use monitor_program.Base.{true, List, String, [], ◌∷◌, ◌++◌, ◌≡◌}
use monitor_program.Double.{Double}
use monitor_program.Expose.{Gauge, Call, register_metric}
use monitor_program.Expose.Init.{Faults, goes_on}

module _ (F : Double) where
  -- The first registration among calls that does not return.
  pub record Halt (faults : Faults) (cs : List (Call F)) : Type 0 where
    pub before : List (Call F)
    pub gauge : Gauge
    pub after : List (Call F)
    pub split : cs ≡ before ++ (register_metric gauge ∷ after)
    pub returned : goes_on F faults before ≡ true
    pub halts : faults.halts gauge ≡ true

  abbrev pub calls_made : (faults : Faults) (cs : List (Call F)) → Halt faults cs → List (Call F)
  calls_made faults cs h = h.before ++ (register_metric h.gauge ∷ [])

  -- The two messages for a registration that `init_metrics` takes for a failure.
  abbrev pub false_alarms : List String
  false_alarms =
      "Error al registrar las métricas de CPU" ∷ "Error al registrar las métricas de memoria" ∷ []
