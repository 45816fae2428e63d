-- ===== src/Tests/Rounds.antt =====
-- The simulation and the program over several rounds.
use monitor_program.Base.{
  ◌+◌, ◌%◌, ℕ, ◌≡◌, refl, arith, true, false, none, some, [], ◌∷◌, replicate, All,
}
use monitor_program.Double.Rational.{rational}
use monitor_program.Metrics.Disk.{no_disk_stats, get_disk_stats}
use monitor_program.Simulation.{Row, Library, SimulationState, Machine, simulate_method}
use monitor_program.Main.{ProgramState, Run, main}
use monitor_program.Base.Bags.{SameItems}
use native.Mathlib.Decide.{ℕ_discrete}
use monitor_program.Simulation.Watched.{watched}
use monitor_program.Simulation.Conservation.{OwnsAll, all_held}
use monitor_program.Simulation.Bounds.{AllValid, IsValid}
use monitor_program.Simulation.Rows.{ViewStep, view, simulate_method-ViewStep}
use monitor_program.Simulation.Draining.{IsOdd, Drains, calls_drain}
use monitor_program.Expose.Update.{best_fit, Policy}
use monitor_program.Simulation.Calls.{calls}
use monitor_program.Expose.{Gauge}
use monitor_program.Expose.Init.{init_metrics, goes_on}
use monitor_program.Expose.Values.{final_value}
use monitor_program.Main.Transcript.{Does, ready, main_transcript}
use monitor_program.Main.Gauges.{is}
use monitor_program.Base.Prefixes.{take}
use monitor_program.Main.Pauses.{slept}
use monitor_program.Main.Scrapes.{Shows, main_shows}
use monitor_program.Simulation.Marked.{marked, unmarked}
use monitor_program.Simulation.Provenance.{unused, calls_by_method}
use monitor_program.Simulation.Held.{held}
use monitor_program.Main.Conservation
use monitor_program.Main.Conservation.{watch, forget_state, forget_run, main_conserves}
use monitor_program.Tests.Small.{bump, start, start-AllValid, nothing, cpu_start, monitor, faults}

abbrev begin : ProgramState rational bump monitor
begin = record { simulation = start; cpu = cpu_start }

works : goes_on rational faults (init_metrics rational faults) ≡ true
unfolding goes_on init_metrics
works = refl

main_transcript_example :
    (r : Run rational bump monitor) × (main rational bump monitor faults true
        ((true, nothing) ∷ (false, nothing) ∷ [])
        begin
      ≡ some (0, r))
    × Does rational bump monitor
        ((true, nothing) ∷ (false, nothing) ∷ [])
        (ready rational bump monitor begin)
        r
unfolding get_disk_stats
main_transcript_example =
    main_transcript rational bump monitor faults ((true, nothing) ∷ (false, nothing) ∷ []) begin
      works start-AllValid ((no_disk_stats, refl), ((no_disk_stats, refl), tt))

main_conserves_example :
    (r : Run rational (watched bump ℕ_discrete) (watch rational bump ℕ_discrete monitor)) × (main
        rational
        (watched bump ℕ_discrete)
        (watch rational bump ℕ_discrete monitor)
        faults
        true
        ((true, nothing) ∷ (false, nothing) ∷ [])
        (Conservation.begin rational bump ℕ_discrete monitor 4096 2 cpu_start)
      ≡ some (0, r))
    × (main rational bump monitor faults true ((true, nothing) ∷ (false, nothing) ∷ []) (
          forget_state rational bump ℕ_discrete monitor
            (Conservation.begin rational bump ℕ_discrete monitor 4096 2 cpu_start))
        ≡ some (0, forget_run rational bump ℕ_discrete monitor r))
    × (r.state.simulation.heap.fault ≡ false)
    × SameItems ℕ_discrete r.state.simulation.heap.ledger
        (all_held bump ℕ_discrete r.state.simulation.rows)
unfolding get_disk_stats
main_conserves_example =
    main_conserves rational bump ℕ_discrete monitor 4096 2 cpu_start faults
      ((true, nothing) ∷ (false, nothing) ∷ []) works
      ((no_disk_stats, refl), ((no_disk_stats, refl), tt))

calls_by_method_example :
    let begin = unused bump ℕ_discrete best_fit 4096 2 in
    (s : SimulationState (marked bump)) × (calls (marked bump) 3 begin ≡ some s)
    × (calls bump 3 (unmarked bump begin) ≡ some (unmarked bump s))
    × (s.heap.fault ≡ false)
    × ((q : Policy) → All (λ o. o.method ≡ q) (held (s.rows q).num_allocated (s.rows q).blocks))
calls_by_method_example = calls_by_method bump ℕ_discrete 3 best_fit 4096 2

main_shows_example :
    (r : Run rational bump monitor) × (main rational bump monitor faults true
        ((true, nothing) ∷ (false, nothing) ∷ [])
        begin
      ≡ some (0, r))
    × ((i : ℕ) (g : Gauge) (old : rational.Carrier)
        → let p = take i r.calls in
          Shows rational bump monitor 2
            (slept rational p)
            (ready rational bump monitor begin).simulation
            g
            old
            (final_value rational (is g) p old))
unfolding get_disk_stats
main_shows_example =
    main_shows rational bump monitor faults ((true, nothing) ∷ (false, nothing) ∷ []) begin works
      start-AllValid ((no_disk_stats, refl), ((no_disk_stats, refl), tt))

simulate_method-ViewStep_example :
    let m : Machine bump = record { heap = 4096; seed = 2; row = start.rows best_fit } in
    (m' : Machine bump) × (simulate_method bump best_fit m ≡ some m')
    × IsValid bump m'.row
    × ViewStep bump ℕ_discrete (view bump ℕ_discrete m.row) (view bump ℕ_discrete m'.row)
simulate_method-ViewStep_example =
    simulate_method-ViewStep bump ℕ_discrete best_fit
      (record { heap = 4096; seed = 2; row = start.rows best_fit }) (start-AllValid best_fit)

-- Odd numbers in turn.
abbrev odd_draws : Library
odd_draws = record bump { rand = λ s. (s, s + 2) }

abbrev Drawn : ℕ → Type 0
Drawn s = s % 2 ≡ 1

odd_draws-IsOdd : IsOdd odd_draws Drawn
odd_draws-IsOdd = record { odd = λ seed h. h; next = λ seed h. omega (arith, h) }

abbrev two_blocks : Row (watched odd_draws ℕ_discrete)
two_blocks = record { blocks = some 4096 ∷ some 4200 ∷ replicate 98 none; num_allocated = 2 }

abbrev no_blocks : Row (watched odd_draws ℕ_discrete)
no_blocks = record { blocks = replicate 100 none; num_allocated = 0 }

-- Best fit has given out two blocks.
abbrev holding : SimulationState (watched odd_draws ℕ_discrete)
holding = record {
  heap = record { heap = 5000; ledger = 4200 ∷ 4096 ∷ []; fault = false };
  seed = 7;
  rows = λ p. elim p [ best_fit ↦ two_blocks | _ ↦ no_blocks ];
}

holding-AllValid : AllValid (watched odd_draws ℕ_discrete) holding
holding-AllValid best_fit = record { room = refl; within = omega arith; filled = tt }
holding-AllValid p = record { room = refl; within = omega arith; filled = tt }

holding-OwnsAll : OwnsAll odd_draws ℕ_discrete holding
unfolding held
holding-OwnsAll = record { sound = refl; same = λ a. omega arith }

-- One of the two blocks is freed, and the other one later.
calls_drain_example :
    (t : SimulationState (watched odd_draws ℕ_discrete)) × (u : SimulationState
      (watched odd_draws ℕ_discrete))
    × Drains odd_draws ℕ_discrete Drawn odd_draws-IsOdd 1 holding t
    × Drains odd_draws ℕ_discrete Drawn odd_draws-IsOdd 100 holding u
    × (u.heap.ledger ≡ [])
calls_drain_example =
    calls_drain odd_draws ℕ_discrete Drawn odd_draws-IsOdd 1 holding refl holding-AllValid
      holding-OwnsAll
