-- ===== src/Simulation/Rows.antt =====
-- The row of one method before and after a round of the loop over the methods, over any memory
-- library.
use monitor_program.Base.{
  ℕ, suc, ◌+◌, ◌-◌, ◌%◌, ◌<◌, ◌≡◌, sym, ap, arith, ◌&&◌, Bool-cases, Option-cases, some, inl, inr,
  List, ◌∷◌, ◌==◌, ltb, ltb→lt,
}
use mathlib.Core.Quot
use monitor_program.Base.Bags.{tally, count, Bag, put}
use monitor_program.Expose.Update.{Policy}
use monitor_program.Simulation.{
  Library, max_blocks, Row, Machine, allocate, release, simulate_method,
}
use monitor_program.Simulation.Bounds.{IsValid, Filled-get_elem?, simulate_method-Returns}
use monitor_program.Simulation.Held.{held, count-held-next, count-held-release}

module _ (L : Library) (d : Discrete L.Ptr) where
  abbrev pub row_held : Row L → List L.Ptr
  row_held row = held row.num_allocated row.blocks

  -- The second row holds `b` beside what the first one holds.
  pub record Gains (b : L.Ptr) (row row' : Row L) : Type 0 where
    pub number : row'.num_allocated ≡ row.num_allocated + 1
    pub blocks : (a : L.Ptr) → count d a (row_held row') ≡ tally d b a + count d a (row_held row)

  -- A block more, one less, or no change.
  pub data RowStep (row row' : Row L) : Type 0 where
    gave : (b : L.Ptr) → row.num_allocated < max_blocks → Gains b row row' → RowStep row row'
    took : (b : L.Ptr) → Gains b row' row → RowStep row row'
    stayed : row' ≡ row → RowStep row row'

  pub release-frees :
      (m m' : Machine L)
      → IsValid L m.row
      → 0 < m.row.num_allocated
      → release L m ≡ some m'
      → (b : L.Ptr) × Gains b m'.row m.row × (m'.heap ≡ L.my_free (some b) m.heap)
  unfolding release
  release-frees m m' v lt e =
      let n = m.row.num_allocated in
      let index = (L.rand m.seed).0 % n in
      let block = Filled-get_elem? n m.row.blocks index v.filled (omega arith) in
      let last = Filled-get_elem? n m.row.blocks (n - 1) v.filled (omega arith) in
      let next : n ≡ suc (n - 1) = omega arith in
      (
        block.0,
        record {
          number = ground (arith, block.1, last.1);
          blocks = λ a. ground (
            arith,
            block.1,
            last.1,
            next,
            count-held-release d a (n - 1) index m.row.blocks m'.row.blocks block.0 last.0,
          );
        },
        ground (arith, block.1, last.1),
      )

  allocate-RowStep :
      (m m' : Machine L)
      → IsValid L m.row
      → m.row.num_allocated < max_blocks
      → allocate L m ≡ some m'
      → RowStep m.row m'.row
  unfolding allocate
  allocate-RowStep m m' v lt e =
      let n = m.row.num_allocated in
      let drawn = L.rand m.seed in
      let given = L.my_malloc (drawn.0 % 256 + 16) m.heap in
      elim (Option-cases given.0) [
        | inl no_block ↦ stayed (ground (arith, no_block))
        | inr (p, block) ↦ gave p lt (record {
          number = ground (arith, block);
          blocks = λ a.
              ground (arith, block, count-held-next d a n m.row.blocks m'.row.blocks p v.filled);
        })
      ]

  pub simulate_method-RowStep :
      (p : Policy) (m m' : Machine L)
      → IsValid L m.row
      → simulate_method L p m ≡ some m'
      → RowStep m.row m'.row
  unfolding simulate_method
  simulate_method-RowStep p m m' v e =
      let drawn = L.rand m.seed in
      let ready : Machine L = record m { heap = L.malloc_control p m.heap; seed = drawn.1 } in
      elim (Bool-cases ((drawn.0 % 2 == 0) && ltb m.row.num_allocated max_blocks)) [
        | inl more ↦ allocate-RowStep ready m' v (ground arith) (ground (arith, e, more))
        | inr less ↦ elim (Bool-cases (ltb 0 m.row.num_allocated)) [
          | inl some_block ↦
              let r =
                release-frees ready m' v (ltb→lt _ _ some_block)
                  (ground (arith, e, less, some_block)) in
              took r.0 r.1
          | inr no_block ↦
              let same : ready ≡ m' = ground (arith, e, less, no_block) in
              stayed (ap (λ (k : Machine L). k.row) (sym same))
        ]
      ]

  -- A row seen from outside: how many blocks it holds, and which, in no order.
  pub record View : Type 0 where
    pub number : ℕ
    pub bag : Bag d

  abbrev pub view : Row L → View
  view row = record { number = row.num_allocated; bag = Quot.mk (row_held row) }

  abbrev pub with_block : L.Ptr → View → View
  with_block b v = record { number = v.number + 1; bag = put d b v.bag }

  -- What a step may do: a block is put into a bag that is not full, one is taken out, or nothing
  -- happens.
  pub data ViewStep (v w : View) : Type 0 where
    puts : (b : L.Ptr) → v.number < max_blocks → w ≡ with_block b v → ViewStep v w
    takes : (b : L.Ptr) → v ≡ with_block b w → ViewStep v w
    keeps : w ≡ v → ViewStep v w

  view_of_gain :
      (b : L.Ptr) (row row' : Row L) → Gains b row row' → view row' ≡ with_block b (view row)
  unfolding put
  view_of_gain b row row' g =
      let same : ◌≡◌ {A = Bag d} (Quot.mk (row_held row')) (Quot.mk (b ∷ row_held row)) =
        Quot.sound g.blocks in
      λ i. record { number = g.number i; bag = same i }

  -- A round of the loop over the methods, from a valid row, returns a valid row, whatever the
  -- libraries answer, and is a step of the bag of its blocks: one block comes, if there is room, or
  -- one goes, or the bag stays.
  pub simulate_method-ViewStep :
      (p : Policy) (m : Machine L)
      → IsValid L m.row
      → (m' : Machine L) × (simulate_method L p m ≡ some m')
        × IsValid L m'.row
        × ViewStep (view m.row) (view m'.row)
  simulate_method-ViewStep p m v =
      let (m', e, v') = simulate_method-Returns L p m v in
      (
        m',
        e,
        v',
        elim (simulate_method-RowStep p m m' v e) [
          | gave b lt g ↦ puts b lt (view_of_gain b m.row m'.row g)
          | took b g ↦ takes b (view_of_gain b m'.row m.row g)
          | stayed same ↦ keeps (ap view same)
        ],
      )
