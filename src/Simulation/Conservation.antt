-- ===== src/Simulation/Conservation.antt =====
-- The blocks of the three rows beside the ledger, over one call of `simulate_memory_operations`.
use monitor_program.Base.{◌+◌, ◌≡◌, refl, arith, false, Option, some, List, ◌++◌}
use monitor_program.Base.Bags.{count, count-append, SameItems}
use monitor_program.Expose.Update.{Policy, first_fit, best_fit, worst_fit}
use monitor_program.Simulation.{
  Library, Row, Machine, SimulationState, update_row, simulate_row, simulate_memory_operations,
}
use monitor_program.Simulation.Bounds.{AllValid, simulate_method-Returns, update_row-IsValid}
use monitor_program.Simulation.Ownership.{W, simulate_method-Owns}
use monitor_program.Simulation.Rows.{row_held}

module _ (L : Library) (d : Discrete L.Ptr) where
  -- The blocks of the three rows.
  abbrev pub all_held : (Policy → Row (W L d)) → List L.Ptr
  all_held rows =
      row_held (W L d) d (rows first_fit)
      ++ (row_held (W L d) d (rows best_fit) ++ row_held (W L d) d (rows worst_fit))

  -- The blocks given out and not freed are those of the rows, each as often; and no free was wrong.
  pub record OwnsAll (s : SimulationState (W L d)) : Type 0 where
    pub sound : s.heap.fault ≡ false
    pub same : SameItems d s.heap.ledger (all_held s.rows)

  -- The blocks of the other two rows.
  abbrev others : Policy → (Policy → Row (W L d)) → List L.Ptr
  others first_fit rows = row_held (W L d) d (rows best_fit) ++ row_held (W L d) d (rows worst_fit)
  others best_fit rows = row_held (W L d) d (rows first_fit) ++ row_held (W L d) d (rows worst_fit)
  others worst_fit rows = row_held (W L d) d (rows first_fit) ++ row_held (W L d) d (rows best_fit)

  count_three :
      (a : L.Ptr) (xs ys zs : List L.Ptr)
      → count d a (xs ++ (ys ++ zs)) ≡ count d a xs + (count d a ys + count d a zs)
  count_three a xs ys zs = omega (arith, count-append d a xs (ys ++ zs), count-append d a ys zs)

  count-all_held :
      (a : L.Ptr) (p : Policy) (rows : Policy → Row (W L d)) (row : Row (W L d))
      → count d a (all_held (update_row (W L d) rows p row))
        ≡ count d a (row_held (W L d) d row) + count d a (others p rows)
  count-all_held a first_fit rows row = count-append d a (row_held (W L d) d row) _
  count-all_held a best_fit rows row = omega (
    arith,
    count_three a (row_held (W L d) d (rows first_fit)) (row_held (W L d) d row)
        (row_held (W L d) d (rows worst_fit)),
    count-append d a (row_held (W L d) d (rows first_fit)) (row_held (W L d) d (rows worst_fit)),
  )
  count-all_held a worst_fit rows row = omega (
    arith,
    count_three a (row_held (W L d) d (rows first_fit)) (row_held (W L d) d (rows best_fit))
        (row_held (W L d) d row),
    count-append d a (row_held (W L d) d (rows first_fit)) (row_held (W L d) d (rows best_fit)),
  )

  count_before :
      (a : L.Ptr) (p : Policy) (rows : Policy → Row (W L d))
      → count d a (all_held rows)
        ≡ count d a (row_held (W L d) d (rows p)) + count d a (others p rows)
  count_before a first_fit rows = count-all_held a first_fit rows (rows first_fit)
  count_before a best_fit rows = count-all_held a best_fit rows (rows best_fit)
  count_before a worst_fit rows = count-all_held a worst_fit rows (rows worst_fit)

  -- The call returns, and its rows stay valid and hold what is given out.
  abbrev pub ReturnsOwner : Option (SimulationState (W L d)) → Type 0
  ReturnsOwner o = (s : SimulationState (W L d)) × (o ≡ some s) × AllValid (W L d) s × OwnsAll s

  simulate_row-ReturnsOwner :
      (p : Policy) (s : SimulationState (W L d))
      → AllValid (W L d) s
      → OwnsAll s
      → ReturnsOwner (simulate_row (W L d) p s)
  unfolding simulate_row
  simulate_row-ReturnsOwner p s h o =
      let m : Machine (W L d) = record { heap = s.heap; seed = s.seed; row = s.rows p } in
      let r = simulate_method-Returns (W L d) p m (h p) in
      let owns = simulate_method-Owns L d (others p s.rows) p m r.0 (h p) r.1 (record {
        sound = o.sound;
        same = λ a. omega (arith, o.same a, count_before a p s.rows);
      }) in
      (
        record { heap = r.0.heap; seed = r.0.seed; rows = update_row (W L d) s.rows p r.0.row },
        rw (r.1, simulate_row) refl,
        update_row-IsValid (W L d) s.rows p r.0.row h r.2,
        record {
          sound = owns.sound;
          same = λ a. omega (arith, owns.same a, count-all_held a p s.rows r.0.row);
        },
      )

  pub simulate_memory_operations-ReturnsOwner :
      (s : SimulationState (W L d))
      → AllValid (W L d) s
      → OwnsAll s
      → ReturnsOwner (simulate_memory_operations (W L d) s)
  unfolding simulate_memory_operations
  simulate_memory_operations-ReturnsOwner s h o =
      let a = simulate_row-ReturnsOwner first_fit s h o in
      let b = simulate_row-ReturnsOwner best_fit a.0 a.2 a.3 in
      let c = simulate_row-ReturnsOwner worst_fit b.0 b.2 b.3 in
      (c.0, rw (a.1, b.1, simulate_memory_operations) c.1, c.2, c.3)
