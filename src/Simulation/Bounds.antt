-- ===== src/Simulation/Bounds.antt =====
-- The accesses of `simulate_memory_operations` to `allocated_blocks`, and the elements that it
-- frees.
use monitor_program.Base.{
  ℕ, zero, suc, ◌+◌, ◌-◌, ◌%◌, ◌≤◌, ◌<◌, ◌≡◌, refl, ap, ◌∙◌, arith, ◌&&◌, Bool-cases, Option,
  Option-cases, none, some, inl, inr, List, [], ◌∷◌, get_elem?, length, ltb, ltb→lt, ◌==◌,
}
use monitor_program.Expose.Update.{Policy, first_fit, best_fit, worst_fit}
use monitor_program.Simulation.{
  Library, set_elem?, max_blocks, Row, Machine, allocate, release, simulate_method, SimulationState,
  update_row, simulate_row, simulate_memory_operations,
}

-- The first `n` elements are there and are no NULL.
abbrev pub Filled {ℓ} : {A : Type ℓ} → ℕ → List (Option A) → Type 0
Filled zero xs = Unit {0}
Filled (suc n) [] = ⊥
Filled (suc n) (none ∷ xs) = ⊥
Filled (suc n) (some a ∷ xs) = Filled n xs

module _ {ℓ} {A : Type ℓ} where
  pub Filled-get_elem? :
      (n : ℕ) (xs : List (Option A)) (i : ℕ)
      → Filled n xs
      → i < n
      → (a : A) × (get_elem? xs i ≡ some (some a))
  Filled-get_elem? zero xs i h lt = elim lt [ ]
  Filled-get_elem? (suc n) [] i h lt = absurd h
  Filled-get_elem? (suc n) (none ∷ xs) i h lt = absurd h
  Filled-get_elem? (suc n) (some a ∷ xs) zero h lt = (a, refl)
  Filled-get_elem? (suc n) (some a ∷ xs) (suc i) h lt = Filled-get_elem? n xs i h (omega arith)

  -- A block written behind the others.
  place_next :
      (n : ℕ) (xs : List (Option A)) (a : A)
      → Filled n xs
      → n < length xs
      → (ys : List (Option A)) × (set_elem? xs n (some a) ≡ some ys)
        × (length ys ≡ length xs)
        × Filled (suc n) ys
  unfolding set_elem?
  place_next n [] a h lt = elim lt [ ]
  place_next zero (x ∷ xs) a h lt = (some a ∷ xs, refl, refl, tt)
  place_next (suc n) (none ∷ xs) a h lt = absurd h
  place_next (suc n) (some b ∷ xs) a h lt =
      let r = place_next n xs a h (omega arith) in (some b ∷ r.0, rw r.1, ap suc r.2, r.3)

  -- A block written over another one.
  place_over :
      (n : ℕ) (xs : List (Option A)) (i : ℕ) (a : A)
      → Filled n xs
      → i < n
      → (ys : List (Option A)) × (set_elem? xs i (some a) ≡ some ys)
        × (length ys ≡ length xs)
        × Filled n ys
  unfolding set_elem?
  place_over zero xs i a h lt = elim lt [ ]
  place_over (suc n) [] i a h lt = absurd h
  place_over (suc n) (none ∷ xs) i a h lt = absurd h
  place_over (suc n) (some b ∷ xs) zero a h lt = (some a ∷ xs, refl, refl, h)
  place_over (suc n) (some b ∷ xs) (suc i) a h lt =
      let r = place_over n xs i a h (omega arith) in (some b ∷ r.0, rw r.1, ap suc r.2, r.3)

  Filled-suc : (n : ℕ) (xs : List (Option A)) → Filled (suc n) xs → Filled n xs
  Filled-suc n [] h = absurd h
  Filled-suc n (none ∷ xs) h = absurd h
  Filled-suc zero (some a ∷ xs) h = tt
  Filled-suc (suc n) (some a ∷ xs) h = Filled-suc n xs h

  Filled-pred : (n : ℕ) (xs : List (Option A)) → 0 < n → Filled n xs → Filled (n - 1) xs
  Filled-pred zero xs lt h = elim lt [ ]
  Filled-pred (suc n) xs lt h = let e : suc n - 1 ≡ n = omega arith in rw e (Filled-suc n xs h)

module _ (L : Library) where
  -- The array has its size, the count stays within it, and the blocks counted are no NULL.
  pub record IsValid (row : Row L) : Type 0 where
    pub room : length row.blocks ≡ max_blocks
    pub within : row.num_allocated ≤ max_blocks
    pub filled : Filled row.num_allocated row.blocks

  -- The step does not leave the array, and keeps the row valid.
  abbrev pub Returns : Option (Machine L) → Type 0
  Returns o = (m : Machine L) × (o ≡ some m) × IsValid m.row

  pub allocate-Returns :
      (m : Machine L) → IsValid m.row → m.row.num_allocated < max_blocks → Returns (allocate L m)
  unfolding allocate
  allocate-Returns m v lt =
      let n = m.row.num_allocated in
      let drawn = L.rand m.seed in
      let given = L.my_malloc (drawn.0 % 256 + 16) m.heap in
      elim (Option-cases given.0) [
        | inl e ↦ (record m { heap = given.1; seed = drawn.1 }, rw (e, allocate) refl, v)
        | inr p ↦
            let put = place_next n m.row.blocks p.0 v.filled (omega (arith, v.room)) in
            let next : n + 1 ≡ suc n = omega arith in
            (
              record {
                heap = given.1;
                seed = drawn.1;
                row = record { blocks = put.0; num_allocated = n + 1 };
              },
              rw (p.1, put.1, allocate) refl,
              record { room = put.2 ∙ v.room; within = omega arith; filled = rw next put.3 },
            )
      ]

  pub release-Returns :
      (m : Machine L) → IsValid m.row → 0 < m.row.num_allocated → Returns (release L m)
  unfolding release
  release-Returns m v lt =
      let n = m.row.num_allocated in
      let index = (L.rand m.seed).0 % n in
      let block = Filled-get_elem? n m.row.blocks index v.filled (omega arith) in
      let last = Filled-get_elem? n m.row.blocks (n - 1) v.filled (omega arith) in
      let put = place_over n m.row.blocks index last.0 v.filled (omega arith) in
      (
        record {
          heap = L.my_free (some block.0) m.heap;
          seed = (L.rand m.seed).1;
          row = record { blocks = put.0; num_allocated = n - 1 };
        },
        rw (block.1, last.1, put.1, release) refl,
        record {
          room = put.2 ∙ v.room;
          within = omega (arith, v.within);
          filled = Filled-pred n put.0 lt put.3;
        },
      )

  pub simulate_method-Returns :
      (p : Policy) (m : Machine L) → IsValid m.row → Returns (simulate_method L p m)
  unfolding simulate_method
  simulate_method-Returns p m v =
      let drawn = L.rand m.seed in
      let ready = record m { heap = L.malloc_control p m.heap; seed = drawn.1 } in
      elim (Bool-cases ((drawn.0 % 2 == 0) && ltb m.row.num_allocated max_blocks)) [
        | inl e ↦ rw e (allocate-Returns ready v (ground arith))
        | inr e ↦ elim (Bool-cases (ltb 0 m.row.num_allocated)) [
          | inl some_block ↦ rw (e, some_block) (release-Returns ready v (ltb→lt _ _ some_block))
          | inr no_block ↦ (ready, rw (e, no_block) refl, v)
        ]
      ]

  abbrev pub AllValid : SimulationState L → Type 0
  AllValid s = (p : Policy) → IsValid (s.rows p)

  abbrev pub ReturnsValid : Option (SimulationState L) → Type 0
  ReturnsValid o = (s : SimulationState L) × (o ≡ some s) × AllValid s

  -- What holds of each row holds after one of them changed, if it holds of the new row.
  pub update_row-each :
      (P : Policy → Row L → Type 0) (rows : Policy → Row L) (p : Policy) (row : Row L)
      → ((q : Policy) → P q (rows q))
      → P p row
      → (q : Policy) → P q (update_row L rows p row q)
  update_row-each P rows first_fit row h v first_fit = v
  update_row-each P rows best_fit row h v best_fit = v
  update_row-each P rows worst_fit row h v worst_fit = v
  update_row-each P rows first_fit row h v best_fit = h best_fit
  update_row-each P rows first_fit row h v worst_fit = h worst_fit
  update_row-each P rows best_fit row h v first_fit = h first_fit
  update_row-each P rows best_fit row h v worst_fit = h worst_fit
  update_row-each P rows worst_fit row h v first_fit = h first_fit
  update_row-each P rows worst_fit row h v best_fit = h best_fit

  pub update_row-IsValid :
      (rows : Policy → Row L) (p : Policy) (row : Row L)
      → ((q : Policy) → IsValid (rows q))
      → IsValid row
      → (q : Policy) → IsValid (update_row L rows p row q)
  update_row-IsValid = update_row-each (λ q row. IsValid row)

  pub simulate_row-ReturnsValid :
      (p : Policy) (s : SimulationState L) → AllValid s → ReturnsValid (simulate_row L p s)
  unfolding simulate_row
  simulate_row-ReturnsValid p s h =
      let r =
        simulate_method-Returns p (record { heap = s.heap; seed = s.seed; row = s.rows p }) (h p) in
      (
        record { heap = r.0.heap; seed = r.0.seed; rows = update_row L s.rows p r.0.row },
        rw (r.1, simulate_row) refl,
        update_row-IsValid s.rows p r.0.row h r.2,
      )

  -- From rows of 100 elements that hold at most as many blocks, the function returns, with no
  -- access outside the arrays, whatever the libraries answer, and the rows stay so.
  pub simulate_memory_operations-ReturnsValid :
      (s : SimulationState L) → AllValid s → ReturnsValid (simulate_memory_operations L s)
  unfolding simulate_memory_operations
  simulate_memory_operations-ReturnsValid s h =
      let a = simulate_row-ReturnsValid first_fit s h in
      let b = simulate_row-ReturnsValid best_fit a.0 a.2 in
      let c = simulate_row-ReturnsValid worst_fit b.0 b.2 in
      (c.0, rw (a.1, b.1, simulate_memory_operations) c.1, c.2)

  -- In a valid row that holds a block, the element that is freed, whichever number is drawn, is a
  -- pointer that is no NULL.
  pub freed_not_null :
      (row : Row L) (drawn : ℕ)
      → IsValid row
      → 0 < row.num_allocated
      → (p : L.Ptr) × (get_elem? row.blocks (drawn % row.num_allocated) ≡ some (some p))
  freed_not_null row drawn v h =
      Filled-get_elem? row.num_allocated row.blocks (drawn % row.num_allocated) v.filled
        (omega arith)
