-- ===== src/Main.antt =====
-- `main` of src/main.c.
pub mod Order
pub mod Pauses
pub mod Sent
pub mod Messages
pub mod Failures
pub mod Total
pub mod Registered
pub mod Updates
pub mod Transcript
pub mod Kernel
pub mod Gauges
pub mod Distinct
pub mod GaugeValues
pub mod SixUpdates
pub mod Display
pub mod Beginnings
pub mod Scrapes
pub mod Agreement
pub mod Conservation
use monitor_program.Base.{
  ℕ, Bool, true, false, Option, none, some, List, [], ◌∷◌, ◌++◌, map, Bytes, String, if◌then◌else◌,
}
use monitor_program.Double.{Double}
use monitor_program.Metrics.Cpu.{CpuState}
use monitor_program.Expose.{Call, report, sleep, sends}
use monitor_program.Expose.Update.{
  Policy, AllocationStats, update_memory_fragmentation_metric, update_allocation_policy_metrics,
}
use monitor_program.Expose.Init.{Faults, init_metrics, goes_on, made}
use monitor_program.Json.{Proc, JsonCall, Field, send_metrics_as_json}
use monitor_program.Simulation.{Library, SimulationState, simulate_memory_operations, ◌>>=◌}

-- SLEEP_TIME, in seconds.
abbrev pub sleep_time : ℕ
sleep_time = 1

-- What `main` and the metrics use of the memory library beside the allocation.
pub record Monitor (F : Double) (L : Library) : Type 0 where
  pub disable_unmapping : L.Heap → L.Heap  -- enable_unmapping = 0
  pub fragmentation : L.Heap → (Policy → F.Carrier) → Policy → F.Carrier
  pub stats : L.Heap → AllocationStats F
  pub print : List (Field F) → Option Bytes  -- cJSON_Print

module _ (F : Double) (L : Library) (M : Monitor F L) where
  -- The static variables of the program, with the state of the libraries.
  pub record ProgramState : Type 0 where
    pub simulation : SimulationState L
    pub cpu : CpuState F

  -- The calls made so far, and the state.
  pub record Run : Type 0 where
    pub calls : List (Call F)
    pub state : ProgramState

  -- The calls of a round, with those that `send_metrics_as_json` makes.
  abbrev pub round_calls : L.Heap → List JsonCall → List (Call F)
  round_calls heap sent =
      update_memory_fragmentation_metric F (M.fragmentation heap)
      ++ (update_allocation_policy_metrics F (M.stats heap)
          ++ (map sends sent ++ (sleep sleep_time ∷ [])))

  -- The body of the loop: `opens` is that the pipe opens. `none` is an access outside an array.
  unfoldable pub main_round : Bool × Proc → ProgramState → Option Run
  main_round (opens, proc) s = do
    simulation ← simulate_memory_operations L s.simulation
    sent ← send_metrics_as_json F M.print opens proc s.cpu
    some (record {
      calls = round_calls simulation.heap sent.0;
      state = record { simulation = simulation; cpu = sent.1 };
    })

  -- The loop: a round for each element. Nothing in the program clears `keep_running`, so the end of
  -- the list, which ends the loop, stands for a time at which it is looked at, not for one that
  -- comes.
  unfoldable pub main_loop : List (Bool × Proc) → ProgramState → Option Run
  main_loop [] s = some (record { calls = []; state = s })
  main_loop (input ∷ inputs) s = do
    r ← main_round input s
    rest ← main_loop inputs r.state
    some (record { calls = r.calls ++ rest.calls; state = rest.state })

  -- What `main` does after `init_metrics`, with the calls of that. `created` is that pthread_create
  -- returns 0.
  unfoldable pub main_after_init :
      Faults → Bool → List (Bool × Proc) → ProgramState → Option (ℕ × Run)
  main_after_init faults created inputs s =
      if created
      then (do
        let simulation = s.simulation
        let ready = record simulation { heap = M.disable_unmapping simulation.heap }
        r ← main_loop inputs (record s { simulation = ready })
        some (0, record r { calls = init_metrics F faults ++ r.calls }))
      else some (
        1,
        record {
          calls = init_metrics F faults ++ (report "Error al crear el hilo del servidor HTTP" ∷ []);
          state = s;
        },
      )

  -- The exit status, and the run; a registration that does not return ends the program in
  -- `init_metrics`.
  unfoldable pub main : Faults → Bool → List (Bool × Proc) → ProgramState → Option (ℕ × Run)
  main faults created inputs s =
      if goes_on F faults (init_metrics F faults)
      then main_after_init faults created inputs s
      else some
          (faults.exit_status, record { calls = made F faults (init_metrics F faults); state = s })
