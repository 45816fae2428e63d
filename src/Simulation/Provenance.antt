-- ===== src/Simulation/Provenance.antt =====
-- Each block is freed under the method under which it was given out.
use monitor_program.Base.{
  ℕ, zero, suc, ◌+◌, ◌%◌, ◌<◌, ◌≡◌, refl, sym, subst, ap, ◌∙◌, arith, false, ◌&&◌, Bool-cases,
  Option, Option-cases, none, some, inl, inr, List, [], ◌∷◌, All, replicate, ltb, ltb→lt, ◌==◌,
}
use mathlib.Core.Option
use monitor_program.Base.Bags.{tally, tally_self, tally_other, count}
use monitor_program.Expose.Update.{Policy, first_fit, best_fit, worst_fit}
use monitor_program.Simulation.{
  Library, max_blocks, Row, Machine, allocate, release, simulate_method, SimulationState,
  update_row, simulate_row, simulate_memory_operations,
}
use monitor_program.Simulation.Marked.{Origin, marked, same_policy_refl, unmarked, unmarked-calls}
use monitor_program.Simulation.Bounds.{
  IsValid, AllValid, simulate_method-Returns, update_row-IsValid, update_row-each,
}
use monitor_program.Simulation.Held.{held, count-held-next}
use monitor_program.Simulation.Rows.{row_held, release-frees}
use monitor_program.Simulation.Calls.{calls}

All-count :
    {A : Type 0} {P : A → Type 0} (d : Discrete A) (xs : List A)
    → ((a : A) → 0 < count d a xs → P a)
    → All P xs
All-count d [] h = tt
All-count d (x ∷ xs) h =
    (h x (omega (arith, tally_self d x)), All-count d xs (λ a lt. h a (omega (arith, lt))))

module _ (L : Library) (pointers : Discrete L.Ptr) where
  abbrev K : Library
  K = marked L

  abbrev Block : Type 0
  Block = Origin L

  same_block : Discrete Block
  same_block = hlevel pointers

  -- Every block of the row was given out under the method.
  abbrev Own : Policy → Row K → Type 0
  Own p row = (o : Block) → 0 < count same_block o (row_held K same_block row) → o.method ≡ p

  Own-next :
      (p : Policy) (new : Block) (row row' : Row K)
      → new.method ≡ p
      → Own p row
      → ((o : Block)
          → count same_block o (row_held K same_block row')
            ≡ tally same_block new o + count same_block o (row_held K same_block row))
      → Own p row'
  Own-next p new row row' e h grow o lt = elim (tally_other same_block new o) [
    | inl same ↦ ap (λ x. x.method) (sym same) ∙ e
    | inr other ↦ h o (omega (arith, grow o, other))
  ]

  record Kept (p : Policy) (m : Machine K) : Type 0 where
    method : m.heap.method ≡ p
    sound : m.heap.fault ≡ false
    own : Own p m.row

  allocate-Kept :
      (p : Policy) (m m' : Machine K)
      → IsValid K m.row
      → allocate K m ≡ some m'
      → Kept p m
      → Kept p m'
  unfolding allocate
  allocate-Kept p m m' v e k =
      let n = m.row.num_allocated in
      let drawn = L.rand m.seed in
      let given = L.my_malloc (drawn.0 % 256 + 16) m.heap.heap in
      elim (Option-cases given.0) [
        | inl no_block ↦ record {
          method = ground (arith, no_block, k.method);
          sound = ground (arith, no_block, k.sound);
          own = let same : m.row ≡ m'.row = ground (arith, no_block) in subst (Own p) same k.own;
        }
        | inr (b, block) ↦
            let mark : Block = record { method = m.heap.method; block = b } in
            record {
              method = ground (arith, block, k.method);
              sound = ground (arith, block, k.sound);
              own = Own-next p mark m.row m'.row k.method k.own (λ o. ground (
                arith,
                block,
                count-held-next same_block o n m.row.blocks m'.row.blocks mark v.filled,
              ));
            }
      ]

  release-Kept :
      (p : Policy) (m m' : Machine K)
      → IsValid K m.row
      → 0 < m.row.num_allocated
      → release K m ≡ some m'
      → Kept p m
      → Kept p m'
  release-Kept p m m' v lt e k =
      let (b, gains, freed) = release-frees K same_block m m' v lt e in
      let mine : b.method ≡ p = k.own b (omega (arith, gains.blocks b, tally_self same_block b)) in
      record {
        method = ap (λ h. h.method) freed ∙ k.method;
        sound = ground (arith, freed, k.sound, k.method, mine, same_policy_refl p);
        own = λ o h. k.own o (omega (arith, gains.blocks o, h));
      }

  simulate_method-Kept :
      (p : Policy) (m m' : Machine K)
      → IsValid K m.row
      → simulate_method K p m ≡ some m'
      → m.heap.fault ≡ false
      → Own p m.row
      → Kept p m'
  unfolding simulate_method
  simulate_method-Kept p m m' v e sound own =
      let drawn = L.rand m.seed in
      let ready : Machine K = record m { heap = K.malloc_control p m.heap; seed = drawn.1 } in
      let k : Kept p ready = record { method = refl; sound = sound; own = own } in
      elim (Bool-cases ((drawn.0 % 2 == 0) && ltb m.row.num_allocated max_blocks)) [
        | inl more ↦ allocate-Kept p ready m' v (ground (arith, e, more)) k
        | inr less ↦ elim (Bool-cases (ltb 0 m.row.num_allocated)) [
          | inl some_block ↦
              release-Kept p ready m' v (ltb→lt _ _ some_block)
                (ground (arith, e, less, some_block)) k
          | inr no_block ↦
              let same : ready ≡ m' = ground (arith, e, less, no_block) in subst (Kept p) same k
        ]
      ]

  record Separate (s : SimulationState K) : Type 0 where
    sound : s.heap.fault ≡ false
    own : (p : Policy) → Own p (s.rows p)

  abbrev ReturnsSeparate : Option (SimulationState K) → Type 0
  ReturnsSeparate o = (s : SimulationState K) × (o ≡ some s) × AllValid K s × Separate s

  simulate_row-ReturnsSeparate :
      (p : Policy) (s : SimulationState K)
      → AllValid K s
      → Separate s
      → ReturnsSeparate (simulate_row K p s)
  unfolding simulate_row
  simulate_row-ReturnsSeparate p s h o =
      let m : Machine K = record { heap = s.heap; seed = s.seed; row = s.rows p } in
      let r = simulate_method-Returns K p m (h p) in
      let kept = simulate_method-Kept p m r.0 (h p) r.1 o.sound (o.own p) in
      (
        record { heap = r.0.heap; seed = r.0.seed; rows = update_row K s.rows p r.0.row },
        rw (r.1, simulate_row) refl,
        update_row-IsValid K s.rows p r.0.row h r.2,
        record { sound = kept.sound; own = update_row-each K Own s.rows p r.0.row o.own kept.own },
      )

  simulate_memory_operations-ReturnsSeparate :
      (s : SimulationState K)
      → AllValid K s
      → Separate s
      → ReturnsSeparate (simulate_memory_operations K s)
  unfolding simulate_memory_operations
  simulate_memory_operations-ReturnsSeparate s h o =
      let a = simulate_row-ReturnsSeparate first_fit s h o in
      let b = simulate_row-ReturnsSeparate best_fit a.0 a.2 a.3 in
      let c = simulate_row-ReturnsSeparate worst_fit b.0 b.2 b.3 in
      (c.0, rw (a.1, b.1, simulate_memory_operations) c.1, c.2, c.3)

  calls-ReturnsSeparate :
      (n : ℕ) (s : SimulationState K) → AllValid K s → Separate s → ReturnsSeparate (calls K n s)
  unfolding calls
  calls-ReturnsSeparate zero s h o = (s, refl, h, o)
  calls-ReturnsSeparate (suc n) s h o =
      let first = simulate_memory_operations-ReturnsSeparate s h o in
      let rest = calls-ReturnsSeparate n first.0 first.2 first.3 in
      (rest.0, rw first.1 rest.1, rest.2, rest.3)

  -- The start of the program: no row holds a block.
  abbrev pub unused : Policy → L.Heap → L.Seed → SimulationState K
  unused p heap seed = record {
    heap = record { heap = heap; method = p; fault = false };
    seed = seed;
    rows = λ q. record { blocks = replicate max_blocks none; num_allocated = 0 };
  }

  unused-AllValid : (p : Policy) (heap : L.Heap) (seed : L.Seed) → AllValid K (unused p heap seed)
  unused-AllValid p heap seed q = record { room = refl; within = omega arith; filled = tt }

  unused-Separate : (p : Policy) (heap : L.Heap) (seed : L.Seed) → Separate (unused p heap seed)
  unused-Separate p heap seed = record {
    sound = refl;
    own = λ q o lt. absurd (unfold held in omega (arith, lt));
  }

  -- Over any memory library and any random numbers, any number of calls from the start of the
  -- program returns, and does to the library what it does to it with marks on the blocks. Each
  -- block that is freed is freed while the method is set under which it was given out, and the
  -- blocks of each row were all given out under the row's method.
  pub calls_by_method :
      (n : ℕ) (p : Policy) (heap : L.Heap) (seed : L.Seed)
      → (s : SimulationState K) × (calls K n (unused p heap seed) ≡ some s)
        × (calls L n (unmarked L (unused p heap seed)) ≡ some (unmarked L s))
        × (s.heap.fault ≡ false)
        × ((q : Policy) → All (λ o. o.method ≡ q) (held (s.rows q).num_allocated (s.rows q).blocks))
  calls_by_method n p heap seed =
      let r =
        calls-ReturnsSeparate n (unused p heap seed) (unused-AllValid p heap seed)
          (unused-Separate p heap seed) in
      (
        r.0,
        r.1,
        sym (unmarked-calls L n (unused p heap seed)) ∙ ap (Option.map (unmarked L)) r.1,
        r.3.sound,
        λ q. All-count same_block (row_held K same_block (r.0.rows q)) (r.3.own q),
      )
