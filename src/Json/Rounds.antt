-- ===== src/Json/Rounds.antt =====
-- `send_metrics_as_json` once a round, with the state of `get_cpu_usage` from round to round.
use monitor_program.Base.{Bool, Option, some, List, [], ◌∷◌, ◌++◌, Bytes}
use monitor_program.Double.{Double}
use monitor_program.Metrics.Cpu.{CpuState}
use monitor_program.Json.{Proc, JsonCall, Field, send_metrics_as_json}
use monitor_program.Simulation.{◌>>=◌}

module _ (F : Double) (print : List (Field F) → Option Bytes) where
  -- The calls of all rounds; each has its files, and whether the pipe opens.
  unfoldable pub send_rounds : List (Bool × Proc) → CpuState F → Option (List JsonCall)
  send_rounds [] s = some []
  send_rounds ((opens, proc) ∷ inputs) s = do
    sent ← send_metrics_as_json F print opens proc s
    rest ← send_rounds inputs sent.1
    some (sent.0 ++ rest)
