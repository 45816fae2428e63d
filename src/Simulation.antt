-- ===== src/Simulation.antt =====
-- `simulate_memory_operations` of src/main.c, over the memory library and `rand`, which are
-- parameters.
pub mod Bounds
pub mod Watched
pub mod Held
pub mod Rows
pub mod Ownership
pub mod Conservation
pub mod Calls
pub mod Draining
pub mod Marked
pub mod Provenance
use monitor_program.Base.{
  ℕ, zero, suc, ◌+◌, ◌-◌, ◌%◌, Bool, ◌&&◌, Option, none, some, List, [], ◌∷◌, get_elem?, ltb, ◌==◌,
  if◌then◌else◌,
}
use monitor_program.Expose.Update.{Policy, first_fit, best_fit, worst_fit}

-- The memory library, and the random numbers.
pub record Library : Type 1 where
  pub Heap : Type 0
  pub Ptr : Type 0
  pub malloc_control : Policy → Heap → Heap
  pub my_malloc : ℕ → Heap → Option Ptr × Heap  -- `none` for NULL
  pub my_free : Option Ptr → Heap → Heap
  pub Seed : Type 0
  pub rand : Seed → ℕ × Seed

-- A write to an array element, `none` outside the array.
unfoldable pub set_elem? {ℓ} : {A : Type ℓ} → List A → ℕ → A → Option (List A)
set_elem? [] i v = none
set_elem? (x ∷ xs) zero v = some (v ∷ xs)
set_elem? (x ∷ xs) (suc i) v = elim (set_elem? xs i v) [ none ↦ none | some ys ↦ some (x ∷ ys) ]

infixl 5 ◌>>=◌
abbrev pub ◌>>=◌ {ℓ κ} : {A : Type ℓ} {B : Type κ} → Option A → (A → Option B) → Option B
none >>= f = none
some a >>= f = f a

abbrev pub max_blocks : ℕ
max_blocks = 100

module _ (L : Library) where
  -- allocated_blocks[m] and num_allocated[m].
  pub record Row : Type 0 where
    pub blocks : List (Option L.Ptr)
    pub num_allocated : ℕ

  -- What one round of the loop over the methods works on.
  pub record Machine : Type 0 where
    pub heap : L.Heap
    pub seed : L.Seed
    pub row : Row

  -- The branch that allocates a block.
  unfoldable pub allocate : Machine → Option Machine
  allocate m =
      let (r, seed) = L.rand m.seed in
      let size = r % 256 + 16 in
      let (ptr, heap) = L.my_malloc size m.heap in
      elim ptr [
        | none ↦ some (record m { heap = heap; seed = seed })
        | some p ↦ do
          blocks ← set_elem? m.row.blocks m.row.num_allocated (some p)
          some (record {
            heap = heap;
            seed = seed;
            row = record { blocks = blocks; num_allocated = m.row.num_allocated + 1 };
          })
      ]

  -- The branch that frees one, with `num_allocated` positive.
  unfoldable pub release : Machine → Option Machine
  release m =
      let (r, seed) = L.rand m.seed in
      let index = r % m.row.num_allocated in
      do
        block ← get_elem? m.row.blocks index
        let heap = L.my_free block m.heap
        last ← get_elem? m.row.blocks (m.row.num_allocated - 1)
        blocks ← set_elem? m.row.blocks index last
        some (record {
          heap = heap;
          seed = seed;
          row = record { blocks = blocks; num_allocated = m.row.num_allocated - 1 };
        })

  -- One round of the loop; `none` is an access outside `allocated_blocks`.
  unfoldable pub simulate_method : Policy → Machine → Option Machine
  simulate_method policy m =
      let heap = L.malloc_control policy m.heap in
      let (r, seed) = L.rand m.seed in
      let ready = record m { heap = heap; seed = seed } in
      if (r % 2 == 0) && ltb m.row.num_allocated max_blocks
      then allocate ready
      else if ltb 0 m.row.num_allocated
      then release ready
      else some ready

  -- The static variables of the function, with the state of the libraries.
  pub record SimulationState : Type 0 where
    pub heap : L.Heap
    pub seed : L.Seed
    pub rows : Policy → Row

  abbrev pub update_row : (Policy → Row) → Policy → Row → Policy → Row
  update_row rows first_fit row first_fit = row
  update_row rows best_fit row best_fit = row
  update_row rows worst_fit row worst_fit = row
  update_row rows p row q = rows q

  unfoldable pub simulate_row : Policy → SimulationState → Option SimulationState
  simulate_row p s = do
    m ← simulate_method p (record { heap = s.heap; seed = s.seed; row = s.rows p })
    some (record { heap = m.heap; seed = m.seed; rows = update_row s.rows p m.row })

  unfoldable pub simulate_memory_operations : SimulationState → Option SimulationState
  simulate_memory_operations s = do
    s₁ ← simulate_row first_fit s
    s₂ ← simulate_row best_fit s₁
    simulate_row worst_fit s₂
