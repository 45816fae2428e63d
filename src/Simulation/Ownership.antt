-- ===== src/Simulation/Ownership.antt =====
-- The blocks of one row beside the ledger, over one round of the loop over the methods.
use monitor_program.Base.{
  ◌+◌, ◌%◌, ◌<◌, ◌≡◌, ap, arith, false, ◌&&◌, Bool-cases, Option-cases, some, inl, inr, List, ltb,
  ltb→lt, ◌==◌,
}
use monitor_program.Base.Bags.{tally_self, count, count-remove}
use monitor_program.Expose.Update.{Policy}
use monitor_program.Simulation.{Library, max_blocks, Machine, allocate, release, simulate_method}
use monitor_program.Simulation.Bounds.{IsValid}
use monitor_program.Simulation.Watched.{Watched, watched}
use monitor_program.Simulation.Held.{count-held-next}
use monitor_program.Simulation.Rows.{row_held, release-frees}

module _ (L : Library) (d : Discrete L.Ptr) where
  abbrev pub W : Library
  W = watched L d

  -- No free was wrong, and the ledger has the blocks of the row and `others`, each as often.
  pub record Owns (others : List L.Ptr) (m : Machine W) : Type 0 where
    pub sound : m.heap.fault ≡ false
    pub same :
        (a : L.Ptr) → count d a m.heap.ledger ≡ count d a (row_held W d m.row) + count d a others

  allocate-Owns :
      (others : List L.Ptr) (m m' : Machine W)
      → IsValid W m.row
      → allocate W m ≡ some m'
      → Owns others m
      → Owns others m'
  unfolding allocate
  allocate-Owns others m m' v e o =
      let n = m.row.num_allocated in
      let drawn = L.rand m.seed in
      let given = L.my_malloc (drawn.0 % 256 + 16) m.heap.heap in
      elim (Option-cases given.0) [
        | inl no_block ↦ record {
          sound = ground (arith, o.sound);
          same = λ a. ground (arith, o.same a);
        }
        | inr (p, block) ↦ record {
          sound = ground (arith, o.sound);
          same = λ a.
              ground (arith, o.same a, count-held-next d a n m.row.blocks m'.row.blocks p v.filled);
        }
      ]

  release-Owns :
      (others : List L.Ptr) (m m' : Machine W)
      → IsValid W m.row
      → 0 < m.row.num_allocated
      → release W m ≡ some m'
      → Owns others m
      → Owns others m'
  release-Owns others m m' v lt e o =
      let (b, gains, freed) = release-frees W d m m' v lt e in
      let given_out : 0 < count d b m.heap.ledger =
        omega (arith, o.same b, gains.blocks b, tally_self d b) in
      record {
        sound = ground (arith, freed, o.sound);
        same = λ a.
            rw (ap (λ (w : Watched L d). w.ledger) freed)
              (omega (arith, o.same a, gains.blocks a, count-remove d a b m.heap.ledger given_out));
      }

  pub simulate_method-Owns :
      (others : List L.Ptr) (p : Policy) (m m' : Machine W)
      → IsValid W m.row
      → simulate_method W p m ≡ some m'
      → Owns others m
      → Owns others m'
  unfolding simulate_method
  simulate_method-Owns others p m m' v e o =
      let drawn = L.rand m.seed in
      let ready : Machine W = record m {
        heap = record m.heap { heap = L.malloc_control p m.heap.heap };
        seed = drawn.1;
      } in
      let o' : Owns others ready = record { sound = o.sound; same = o.same } in
      elim (Bool-cases ((drawn.0 % 2 == 0) && ltb m.row.num_allocated max_blocks)) [
        | inl more ↦ allocate-Owns others ready m' v (ground (arith, e, more)) o'
        | inr less ↦ elim (Bool-cases (ltb 0 m.row.num_allocated)) [
          | inl some_block ↦
              release-Owns others ready m' v (ltb→lt _ _ some_block)
                (ground (arith, e, less, some_block)) o'
          | inr no_block ↦
              let same : ready ≡ m' = ground (arith, e, less, no_block) in
              record { sound = rw (← same) o'.sound; same = rw (← same) o'.same }
        ]
      ]
