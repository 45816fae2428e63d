-- ===== src/Simulation/Marked.antt =====
-- A memory library that marks each block with the method under which it was given out, and notes
-- whether one is freed under another method. The program cannot see the marks.
use mathlib.Core.Option
use mathlib.Core.Path.{fun_ext}
use monitor_program.Base.{
  ℕ, zero, suc, ◌+◌, ◌-◌, ◌%◌, ◌≡◌, refl, ap, arith, Bool, true, false, not, ◌||◌, Option,
  Option-cases, none, some, inl, inr, List, [], ◌∷◌, map, get_elem?,
}
use monitor_program.Expose.Update.{Policy, first_fit, best_fit, worst_fit}
use monitor_program.Simulation.{
  Library, set_elem?, Row, Machine, allocate, release, simulate_method, SimulationState,
  simulate_row, simulate_memory_operations,
}
use monitor_program.Simulation.Calls.{calls}
use monitor_program.Simulation.Watched.{map_then, map-update_row}

abbrev pub same_policy : Policy → Policy → Bool
same_policy first_fit first_fit = true
same_policy best_fit best_fit = true
same_policy worst_fit worst_fit = true
same_policy p q = false

pub same_policy_refl : (p : Policy) → same_policy p p ≡ true
same_policy_refl first_fit = refl
same_policy_refl best_fit = refl
same_policy_refl worst_fit = refl

module _ (L : Library) where
  -- A block with the method that was set when it was given out.
  pub record Origin : Type 0 where
    pub method : Policy
    pub block : L.Ptr

  pub record Marked : Type 0 where
    pub heap : L.Heap
    pub method : Policy  -- the last argument of malloc_control
    pub fault : Bool

  abbrev foreign : Option Origin → Policy → Bool
  foreign none p = true
  foreign (some o) p = not (same_policy o.method p)

  -- The fault is a block freed under another method than its own, or NULL.
  abbrev pub marked : Library
  marked = record {
    Heap = Marked;
    Ptr = Origin;
    malloc_control = λ p w. record w { heap = L.malloc_control p w.heap; method = p };
    my_malloc = λ n w.
        let given = L.my_malloc n w.heap in
        (
          Option.map (λ b. record { method = w.method; block = b }) given.0,
          record w { heap = given.1 },
        );
    my_free = λ o w. record w {
      heap = L.my_free (Option.map (λ b. b.block) o) w.heap;
      fault = w.fault || foreign o w.method;
    };
    Seed = L.Seed;
    rand = L.rand;
  }

module _ {A B : Type 0} (f : A → B) where
  set_elem?-map :
      (xs : List A) (i : ℕ) (v : A)
      → Option.map (map f) (set_elem? xs i v) ≡ set_elem? (map f xs) i (f v)
  unfolding set_elem?
  set_elem?-map [] i v = refl
  set_elem?-map (x ∷ xs) zero v = refl
  set_elem?-map (x ∷ xs) (suc i) v = ground (arith, set_elem?-map xs i v)

  get_elem?-map : (xs : List A) (i : ℕ) → Option.map f (get_elem? xs i) ≡ get_elem? (map f xs) i
  get_elem?-map [] i = refl
  get_elem?-map (x ∷ xs) zero = refl
  get_elem?-map (x ∷ xs) (suc i) = get_elem?-map xs i

module _ (L : Library) where
  abbrev M : Library
  M = marked L

  abbrev unmark : Option (Origin L) → Option L.Ptr
  unmark o = Option.map (λ b. b.block) o

  abbrev forget_row : Row M → Row L
  forget_row row = record { blocks = map unmark row.blocks; num_allocated = row.num_allocated }

  abbrev forget_machine : Machine M → Machine L
  forget_machine m = record { heap = m.heap.heap; seed = m.seed; row = forget_row m.row }

  -- The state without the marks.
  abbrev pub unmarked : SimulationState M → SimulationState L
  unmarked s = record { heap = s.heap.heap; seed = s.seed; rows = λ p. forget_row (s.rows p) }

  unmarked-allocate :
      (m : Machine M) → Option.map forget_machine (allocate M m) ≡ allocate L (forget_machine m)
  unfolding allocate
  unmarked-allocate m =
      let drawn = L.rand m.seed in
      let given = L.my_malloc (drawn.0 % 256 + 16) m.heap.heap in
      elim (Option-cases given.0) [
        | inl e ↦ rw (e, allocate) refl
        | inr (p, e) ↦
            rw (e, allocate)
              (map_then (map unmark) forget_machine
                (set_elem? m.row.blocks m.row.num_allocated
                  (some (record { method = m.heap.method; block = p })))
                _ _ _ (set_elem?-map unmark m.row.blocks m.row.num_allocated _) (λ blocks. refl))
      ]

  unmarked-release :
      (m : Machine M) → Option.map forget_machine (release M m) ≡ release L (forget_machine m)
  unfolding release
  unmarked-release m =
      let n = m.row.num_allocated in
      let index = (L.rand m.seed).0 % n in
      map_then unmark forget_machine (get_elem? m.row.blocks index) _ _ _
        (get_elem?-map unmark m.row.blocks index)
        (λ block.
          map_then unmark forget_machine (get_elem? m.row.blocks (n - 1)) _ _ _
            (get_elem?-map unmark m.row.blocks (n - 1))
            (λ last.
              map_then (map unmark) forget_machine (set_elem? m.row.blocks index last) _ _ _
                (set_elem?-map unmark m.row.blocks index last) (λ blocks. refl)))

  unmarked-simulate_method :
      (p : Policy) (m : Machine M)
      → Option.map forget_machine (simulate_method M p m) ≡ simulate_method L p (forget_machine m)
  unfolding simulate_method
  unmarked-simulate_method p m =
      let ready : Machine M = record m {
        heap = M.malloc_control p m.heap;
        seed = (L.rand m.seed).1;
      } in
      ground (arith, unmarked-allocate ready, unmarked-release ready)

  unmarked-simulate_row :
      (p : Policy) (s : SimulationState M)
      → Option.map unmarked (simulate_row M p s) ≡ simulate_row L p (unmarked s)
  unfolding simulate_row
  unmarked-simulate_row p s =
      map_then forget_machine unmarked
        (simulate_method M p (record { heap = s.heap; seed = s.seed; row = s.rows p })) _ _ _
        (unmarked-simulate_method p _)
        (λ m.
          ap
            (λ (rows : Policy → Row L).
              some (record { heap = m.heap.heap; seed = m.seed; rows = rows }))
            (fun_ext (map-update_row M L forget_row s.rows p m.row)))

  -- A call over the library with marks, the marks forgotten, is the call over the library itself.
  unmarked-simulate_memory_operations :
      (s : SimulationState M)
      → Option.map unmarked (simulate_memory_operations M s)
        ≡ simulate_memory_operations L (unmarked s)
  unfolding simulate_memory_operations
  unmarked-simulate_memory_operations s =
      map_then unmarked unmarked (simulate_row M first_fit s) _ _ _
        (unmarked-simulate_row first_fit s)
        (λ s₁.
          map_then unmarked unmarked (simulate_row M best_fit s₁) _ _ _
            (unmarked-simulate_row best_fit s₁) (λ s₂. unmarked-simulate_row worst_fit s₂))

  pub unmarked-calls :
      (n : ℕ) (s : SimulationState M) → Option.map unmarked (calls M n s) ≡ calls L n (unmarked s)
  unfolding calls
  unmarked-calls zero s = refl
  unmarked-calls (suc n) s =
      map_then unmarked unmarked (simulate_memory_operations M s) _ _ _
        (unmarked-simulate_memory_operations s) (λ t. unmarked-calls n t)
