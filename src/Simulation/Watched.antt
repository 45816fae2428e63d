-- ===== src/Simulation/Watched.antt =====
-- A memory library with a ledger beside its heap, which the program cannot see: the blocks given
-- out and not freed, and whether a block was freed that was not in it.
use mathlib.Core.Path.{fun_ext}
use mathlib.Core.Option
use monitor_program.Base.{
  Bool, true, ◌||◌, Option, none, some, List, ◌∷◌, ◌≡◌, refl, ap, arith, ◌==◌,
}
use monitor_program.Base.Bags.{count, remove}
use monitor_program.Expose.Update.{Policy, first_fit, best_fit, worst_fit}
use monitor_program.Simulation.{
  Library, Row, Machine, allocate, release, simulate_method, SimulationState, update_row,
  simulate_row, simulate_memory_operations, ◌>>=◌,
}

pub map_then {ℓ} :
    {A B C D : Type ℓ} (f : A → B) (g : C → D) (m : Option A) (k : A → Option C) (m' : Option B)
    (k' : B → Option D)
    → Option.map f m ≡ m'
    → ((a : A) → Option.map g (k a) ≡ k' (f a))
    → Option.map g (m >>= k) ≡ (m' >>= k')
map_then f g none k m' k' h hk = rw (← h) refl
map_then f g (some a) k m' k' h hk = rw (← h) (hk a)

pub map-update_row :
    (L L' : Library) (f : Row L → Row L') (rows : Policy → Row L) (p : Policy) (row : Row L)
    (q : Policy)
    → f (update_row L rows p row q) ≡ update_row L' (λ r. f (rows r)) p (f row) q
map-update_row L L' f rows first_fit row first_fit = refl
map-update_row L L' f rows best_fit row best_fit = refl
map-update_row L L' f rows worst_fit row worst_fit = refl
map-update_row L L' f rows first_fit row best_fit = refl
map-update_row L L' f rows first_fit row worst_fit = refl
map-update_row L L' f rows best_fit row first_fit = refl
map-update_row L L' f rows best_fit row worst_fit = refl
map-update_row L L' f rows worst_fit row first_fit = refl
map-update_row L L' f rows worst_fit row best_fit = refl

module _ (L : Library) (d : Discrete L.Ptr) where
  pub record Watched : Type 0 where
    pub heap : L.Heap
    pub ledger : List L.Ptr
    pub fault : Bool

  abbrev enter : Option L.Ptr → List L.Ptr → List L.Ptr
  enter none ps = ps
  enter (some p) ps = p ∷ ps

  abbrev leave : Option L.Ptr → List L.Ptr → List L.Ptr
  leave none ps = ps
  leave (some p) ps = remove d p ps

  -- A free of NULL is wrong too.
  abbrev wrong : Option L.Ptr → List L.Ptr → Bool
  wrong none ps = true
  wrong (some p) ps = count d p ps == 0

  abbrev pub watched : Library
  watched = record {
    Heap = Watched;
    Ptr = L.Ptr;
    malloc_control = λ p w. record w { heap = L.malloc_control p w.heap };
    my_malloc = λ n w.
        let given = L.my_malloc n w.heap in
        (given.0, record w { heap = given.1; ledger = enter given.0 w.ledger });
    my_free = λ block w. record {
      heap = L.my_free block w.heap;
      ledger = leave block w.ledger;
      fault = w.fault || wrong block w.ledger;
    };
    Seed = L.Seed;
    rand = L.rand;
  }

  abbrev forget_row : Row watched → Row L
  forget_row row = record { blocks = row.blocks; num_allocated = row.num_allocated }

  abbrev forget_machine : Machine watched → Machine L
  forget_machine m = record { heap = m.heap.heap; seed = m.seed; row = forget_row m.row }

  -- The state without the ledger.
  abbrev pub forget : SimulationState watched → SimulationState L
  forget s = record { heap = s.heap.heap; seed = s.seed; rows = λ p. forget_row (s.rows p) }

  forget-allocate :
      (m : Machine watched)
      → Option.map forget_machine (allocate watched m) ≡ allocate L (forget_machine m)
  unfolding allocate
  forget-allocate m = ground arith

  forget-release :
      (m : Machine watched)
      → Option.map forget_machine (release watched m) ≡ release L (forget_machine m)
  unfolding release
  forget-release m = ground arith

  forget-simulate_method :
      (p : Policy) (m : Machine watched)
      → Option.map forget_machine (simulate_method watched p m)
        ≡ simulate_method L p (forget_machine m)
  unfolding simulate_method
  forget-simulate_method p m =
      let drawn = L.rand m.seed in
      let ready : Machine watched = record m {
        heap = record m.heap { heap = L.malloc_control p m.heap.heap };
        seed = drawn.1;
      } in
      ground (arith, forget-allocate ready, forget-release ready)

  forget-simulate_row :
      (p : Policy) (s : SimulationState watched)
      → Option.map forget (simulate_row watched p s) ≡ simulate_row L p (forget s)
  unfolding simulate_row
  forget-simulate_row p s =
      map_then forget_machine forget
        (simulate_method watched p (record { heap = s.heap; seed = s.seed; row = s.rows p })) _ _ _
        (forget-simulate_method p _)
        (λ m.
          ap
            (λ (rows : Policy → Row L).
              some (record { heap = m.heap.heap; seed = m.seed; rows = rows }))
            (fun_ext (map-update_row watched L forget_row s.rows p m.row)))

  -- The ledger changes nothing: a call over the watched library, its ledger forgotten, is the call
  -- over the library itself.
  pub forget-simulate_memory_operations :
      (s : SimulationState watched)
      → Option.map forget (simulate_memory_operations watched s)
        ≡ simulate_memory_operations L (forget s)
  unfolding simulate_memory_operations
  forget-simulate_memory_operations s =
      map_then forget forget (simulate_row watched first_fit s) _ _ _
        (forget-simulate_row first_fit s)
        (λ s₁.
          map_then forget forget (simulate_row watched best_fit s₁) _ _ _
            (forget-simulate_row best_fit s₁) (λ s₂. forget-simulate_row worst_fit s₂))
