-- ===== src/Main/Conservation.antt =====
-- A whole run of `main` beside a ledger of the memory library.
use mathlib.Core.Option
use monitor_program.Base.{
  Bool-cases, inl, inr, same_value, ℕ, Bool, true, false, Option, none, some, List, [], ◌∷◌, All,
  length, ◌≡◌, refl, sym, ap, ◌∙◌, subst,
}
use monitor_program.Base.Bags.{SameItems}
use monitor_program.Double.{Double}
use monitor_program.Metrics.Cpu.{CpuState}
use monitor_program.Expose.Init.{Faults, goes_on, init_metrics}
use monitor_program.Json.{Proc, send_metrics_as_json}
use monitor_program.Simulation.{Library, simulate_memory_operations}
use monitor_program.Simulation.Watched.{
  watched, forget, map_then, forget-simulate_memory_operations,
}
use monitor_program.Simulation.Calls.{fresh, fresh-AllValid, calls_conserve}
use monitor_program.Simulation.Conservation.{all_held}
use monitor_program.Main.{Monitor, ProgramState, Run, main_round, main_loop, main_after_init, main}
use monitor_program.Main.Total.{Safe}
use monitor_program.Main.Transcript.{main_transcript}

map-id : {A : Type 0} (o : Option A) → Option.map (λ a. a) o ≡ o
map-id none = refl
map-id (some a) = refl

module _ (F : Double) (L : Library) (d : Discrete L.Ptr) (M : Monitor F L) where
  abbrev W : Library
  W = watched L d

  -- The rest of the library looks at the heap, not at the ledger.
  abbrev pub watch : Monitor F W
  watch = record {
    disable_unmapping = λ w. record w { heap = M.disable_unmapping w.heap };
    fragmentation = λ w. M.fragmentation w.heap;
    stats = λ w. M.stats w.heap;
    print = M.print;
  }

  abbrev pub forget_state : ProgramState F W watch → ProgramState F L M
  forget_state s = record { simulation = forget L d s.simulation; cpu = s.cpu }

  abbrev pub forget_run : Run F W watch → Run F L M
  forget_run r = record { calls = r.calls; state = forget_state r.state }

  abbrev forget_exit : ℕ × Run F W watch → ℕ × Run F L M
  forget_exit r = (r.0, forget_run r.1)

  forget-main_round :
      (input : Bool × Proc) (s : ProgramState F W watch)
      → Option.map forget_run (main_round F W watch input s)
        ≡ main_round F L M input (forget_state s)
  unfolding main_round
  forget-main_round (opens, proc) s =
      map_then (forget L d) forget_run (simulate_memory_operations W s.simulation) _ _ _
        (forget-simulate_memory_operations L d s.simulation)
        (λ simulation.
          map_then (λ sent. sent) forget_run (send_metrics_as_json F M.print opens proc s.cpu) _ _ _
            (map-id _) (λ sent. refl))

  forget-main_loop :
      (inputs : List (Bool × Proc)) (s : ProgramState F W watch)
      → Option.map forget_run (main_loop F W watch inputs s)
        ≡ main_loop F L M inputs (forget_state s)
  unfolding main_loop
  forget-main_loop [] s = refl
  forget-main_loop (input ∷ inputs) s =
      map_then forget_run forget_run (main_round F W watch input s) _ _ _
        (forget-main_round input s)
        (λ r.
          map_then forget_run forget_run (main_loop F W watch inputs r.state) _ _ _
            (forget-main_loop inputs r.state) (λ rest. refl))

  forget-main_after_init :
      (faults : Faults) (created : Bool) (inputs : List (Bool × Proc)) (s : ProgramState F W watch)
      → Option.map forget_exit (main_after_init F W watch faults created inputs s)
        ≡ main_after_init F L M faults created inputs (forget_state s)
  unfolding main_after_init
  forget-main_after_init faults false inputs s = refl
  forget-main_after_init faults true inputs s =
      map_then forget_run forget_exit (main_loop F W watch inputs _) _ _ _
        (forget-main_loop inputs _) (λ r. refl)

  forget-main :
      (faults : Faults) (created : Bool) (inputs : List (Bool × Proc)) (s : ProgramState F W watch)
      → Option.map forget_exit (main F W watch faults created inputs s)
        ≡ main F L M faults created inputs (forget_state s)
  unfolding main
  forget-main faults created inputs s =
      elim (Bool-cases (goes_on F faults (init_metrics F faults))) [
        | inl going_on ↦ rw going_on (forget-main_after_init faults created inputs s)
        | inr halted ↦ rw halted refl
      ]

  module _ (heap : L.Heap) (seed : L.Seed) (cpu : CpuState F) where
    -- The start of the program.
    abbrev pub begin : ProgramState F W watch
    begin = record { simulation = fresh L d heap seed; cpu = cpu }

    -- When each registration returns, from the start of the program, with readings of the disk that
    -- stay within their buffers, a run of `main` whose thread is created returns 0 after any number
    -- of rounds, over a memory library with a ledger and over the library itself, with the same
    -- calls and the same state but for the ledger. At its end the blocks that the library has given
    -- out and not got back are those of `allocated_blocks`, each as often; and none was freed that
    -- was not given out.
    pub main_conserves :
        (faults : Faults) (inputs : List (Bool × Proc))
        → goes_on F faults (init_metrics F faults) ≡ true
        → All Safe inputs
        → (r : Run F W watch) × (main F W watch faults true inputs begin ≡ some (0, r))
          × (main F L M faults true inputs (forget_state begin) ≡ some (0, forget_run r))
          × (r.state.simulation.heap.fault ≡ false)
          × SameItems d r.state.simulation.heap.ledger (all_held L d r.state.simulation.rows)
    main_conserves faults inputs works safe =
        let run =
          main_transcript F W watch faults inputs begin works (fresh-AllValid L d heap seed) safe in
        let end = calls_conserve L d (length inputs) (M.disable_unmapping heap) seed in
        let same = same_value end.0 run.0.state.simulation _ end.1 run.2.simulated in
        (
          run.0,
          run.1,
          sym (forget-main faults true inputs begin) ∙ ap (Option.map forget_exit) run.1,
          ap (λ s. s.heap.fault) (sym same) ∙ end.3,
          subst (λ s. SameItems d s.heap.ledger (all_held L d s.rows)) same end.4,
        )
