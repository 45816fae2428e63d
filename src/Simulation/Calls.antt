-- ===== src/Simulation/Calls.antt =====
-- `simulate_memory_operations` called any number of times, from the start of the program.
use mathlib.Core.Option
use monitor_program.Base.{
  ℕ, zero, suc, ◌≡◌, refl, sym, ap, ◌∙◌, arith, false, Option, none, some, [], replicate,
}
use monitor_program.Base.Bags.{SameItems}
use monitor_program.Simulation.{
  Library, max_blocks, SimulationState, simulate_memory_operations, ◌>>=◌,
}
use monitor_program.Simulation.Bounds.{AllValid}
use monitor_program.Simulation.Watched.{forget, map_then, forget-simulate_memory_operations}
use monitor_program.Simulation.Held.{held}
use monitor_program.Simulation.Ownership.{W}
use monitor_program.Simulation.Conservation.{
  all_held, OwnsAll, ReturnsOwner, simulate_memory_operations-ReturnsOwner,
}

-- A number of calls in turn.
unfoldable pub calls : (L : Library) → ℕ → SimulationState L → Option (SimulationState L)
calls L zero s = some s
calls L (suc n) s = simulate_memory_operations L s >>= calls L n

module _ (L : Library) (d : Discrete L.Ptr) where
  pub forget-calls :
      (n : ℕ) (s : SimulationState (W L d))
      → Option.map (forget L d) (calls (W L d) n s) ≡ calls L n (forget L d s)
  unfolding calls
  forget-calls zero s = refl
  forget-calls (suc n) s =
      map_then (forget L d) (forget L d) (simulate_memory_operations (W L d) s) _ _ _
        (forget-simulate_memory_operations L d s) (λ t. forget-calls n t)

  pub calls-ReturnsOwner :
      (n : ℕ) (s : SimulationState (W L d))
      → AllValid (W L d) s
      → OwnsAll L d s
      → ReturnsOwner L d (calls (W L d) n s)
  unfolding calls
  calls-ReturnsOwner zero s h o = (s, refl, h, o)
  calls-ReturnsOwner (suc n) s h o =
      let first = simulate_memory_operations-ReturnsOwner L d s h o in
      let rest = calls-ReturnsOwner n first.0 first.2 first.3 in
      (rest.0, rw first.1 rest.1, rest.2, rest.3)

  -- The start of the program: no row holds a block, and nothing is given out.
  abbrev pub fresh : L.Heap → L.Seed → SimulationState (W L d)
  fresh heap seed = record {
    heap = record { heap = heap; ledger = []; fault = false };
    seed = seed;
    rows = λ p. record { blocks = replicate max_blocks none; num_allocated = 0 };
  }

  pub fresh-AllValid : (heap : L.Heap) (seed : L.Seed) → AllValid (W L d) (fresh heap seed)
  fresh-AllValid heap seed p = record { room = refl; within = omega arith; filled = tt }

  fresh-OwnsAll : (heap : L.Heap) (seed : L.Seed) → OwnsAll L d (fresh heap seed)
  fresh-OwnsAll heap seed = record { sound = refl; same = λ a. unfold held in refl }

  -- Over any memory library whose pointers can be compared, and any random numbers, any number of
  -- calls from the start of the program returns. Beside a ledger of what the library gives out and
  -- takes back, the calls end in the same state; the blocks of the ledger are those of the rows,
  -- each as often; and no NULL was freed, nor a block that was not in the ledger when it was freed.
  pub calls_conserve :
      (n : ℕ) (heap : L.Heap) (seed : L.Seed)
      → (s : SimulationState (W L d)) × (calls (W L d) n (fresh heap seed) ≡ some s)
        × (calls L n (forget L d (fresh heap seed)) ≡ some (forget L d s))
        × (s.heap.fault ≡ false)
        × SameItems d s.heap.ledger (all_held L d s.rows)
  calls_conserve n heap seed =
      let r =
        calls-ReturnsOwner n (fresh heap seed) (fresh-AllValid heap seed)
          (fresh-OwnsAll heap seed) in
      (
        r.0,
        r.1,
        sym (forget-calls n (fresh heap seed)) ∙ ap (Option.map (forget L d)) r.1,
        r.3.sound,
        r.3.same,
      )
