-- ===== src/Main/Total.antt =====
-- A run of `main` from its start.
use monitor_program.Base.{
  ℕ, Bool, true, some, List, [], ◌∷◌, ◌++◌, ◌≡◌, refl, ◌∙◌, arith, length, All, if◌then◌else◌,
}
use monitor_program.Double.{Double}
use monitor_program.Metrics.Cpu.{get_cpu_usage}
use monitor_program.Metrics.Disk.{DiskStats, get_disk_stats}
use monitor_program.Expose.Locking.{keeps_lock, KeepsLock, KeepsLock-append}
use monitor_program.Json.{Proc}
use monitor_program.Json.Resources.{send_metrics_as_json-releases}
use monitor_program.Simulation.{Library}
use monitor_program.Simulation.Bounds.{AllValid, simulate_memory_operations-ReturnsValid}
use monitor_program.Main.{Monitor, ProgramState, Run, round_calls, main_round, main_loop}
use monitor_program.Main.Order.{only_sets, only_sets-append}
use monitor_program.Main.Messages.{reports_of, reports_of-append, reports_of-round_calls}
use monitor_program.Main.Pauses.{slept, slept-append}
use monitor_program.Main.Sent.{only_sets-round_calls, round_calls-KeepsLock, slept-round_calls}

-- The reading of the disk stays within its buffers.
abbrev pub Safe : Bool × Proc → Type 0
Safe input = (stats : DiskStats) × (get_disk_stats input.1.diskstats ≡ some stats)

module _ (F : Double) (L : Library) (M : Monitor F L) where
  -- The calls of a part of the loop, the time that it sleeps, and a valid state behind it.
  pub record IsFine (seconds : ℕ) (r : Run F L M) : Type 0 where
    pub sets : only_sets F r.calls ≡ true
    pub locks : KeepsLock F r.calls
    pub pauses : slept F r.calls ≡ seconds
    pub valid : AllValid L r.state.simulation
    pub quiet : reports_of F r.calls ≡ []

  main_round-returns :
      (input : Bool × Proc) (s : ProgramState F L M)
      → AllValid L s.simulation
      → Safe input
      → (r : Run F L M) × (main_round F L M input s ≡ some r) × IsFine 1 r
  unfolding main_round
  main_round-returns (opens, proc) s h (disk, e) =
      let simulated = simulate_memory_operations-ReturnsValid L s.simulation h in
      let sent = send_metrics_as_json-releases F M.print opens proc s.cpu disk e in
      let heap = simulated.0.heap in
      (
        record {
          calls = round_calls F L M heap sent.0;
          state = record { simulation = simulated.0; cpu = (get_cpu_usage F proc.stat s.cpu).1 };
        },
        rw (simulated.1, sent.1, main_round) refl,
        record {
          sets = only_sets-round_calls F L M heap sent.0;
          locks = round_calls-KeepsLock F L M heap sent.0;
          pauses = slept-round_calls F L M heap sent.0;
          valid = simulated.2;
          quiet = reports_of-round_calls F L M heap sent.0;
        },
      )

  pub main_loop-returns :
      (inputs : List (Bool × Proc)) (s : ProgramState F L M)
      → AllValid L s.simulation
      → All Safe inputs
      → (r : Run F L M) × (main_loop F L M inputs s ≡ some r) × IsFine (length inputs) r
  unfolding main_loop
  main_loop-returns [] s h safe = (
    record { calls = []; state = s },
    refl,
    record {
      sets = unfold only_sets in refl;
      locks = unfold keeps_lock in refl;
      pauses = unfold slept in refl;
      valid = h;
      quiet = unfold reports_of in refl;
    },
  )
  main_loop-returns (input ∷ inputs) s h (safe, others) =
      let first = main_round-returns input s h safe in
      let rest = main_loop-returns inputs first.0.state first.2.valid others in
      (
        record { calls = first.0.calls ++ rest.0.calls; state = rest.0.state },
        rw (first.1, rest.1, main_loop) refl,
        record {
          sets = only_sets-append F first.0.calls rest.0.calls first.2.sets rest.2.sets;
          locks = KeepsLock-append F first.0.calls rest.0.calls first.2.locks rest.2.locks;
          pauses =
              slept-append F first.0.calls rest.0.calls
              ∙ omega (arith, first.2.pauses, rest.2.pauses);
          valid = rest.2.valid;
          quiet =
              reports_of-append F first.0.calls rest.0.calls
              ∙ rw (first.2.quiet, rest.2.quiet) refl;
        },
      )

  -- The exit status.
  abbrev pub status : Bool → ℕ
  status created = if created then 0 else 1

  -- A second for each round.
  abbrev pub pause : Bool → List (Bool × Proc) → ℕ
  pause created inputs = if created then length inputs else 0
