-- ===== src/Simulation/Draining.antt =====
-- `simulate_memory_operations` from the time on when all draws are odd.
use mathlib.Core.Option
use monitor_program.Base.Bags.{count, tally_self}
use monitor_program.Simulation.Watched.{forget}
use monitor_program.Simulation.Held.{held}
use monitor_program.Simulation.Ownership.{W}
use monitor_program.Simulation.Conservation.{OwnsAll}
use monitor_program.Base.{
  ◌∙◌, List, [], ◌∷◌, ap, same_value, ℕ, zero, suc, ◌-◌, ◌<◌, ◌%◌, ◌≡◌, refl, arith, subst, sym,
  some, inl, inr, ◌⊎◌,
}
use monitor_program.Expose.Update.{Policy, first_fit, best_fit, worst_fit}
use monitor_program.Simulation.{
  Library, Row, Machine, SimulationState, update_row, release, simulate_method, simulate_row,
  simulate_memory_operations,
}
use monitor_program.Simulation.Bounds.{IsValid, AllValid, update_row-IsValid, release-Returns}
use monitor_program.Simulation.Calls.{calls, forget-calls, calls-ReturnsOwner}

-- The seeds of a set, which drawing does not leave, give odd numbers.
pub record IsOdd (L : Library) (Drawn : L.Seed → Type 0) : Type 0 where
  pub odd : (seed : L.Seed) → Drawn seed → (L.rand seed).0 % 2 ≡ 1
  pub next : (seed : L.Seed) → Drawn seed → Drawn (L.rand seed).1

zero_or_more : (n : ℕ) → (n ≡ 0) ⊎ (0 < n)
zero_or_more zero = inl refl
zero_or_more (suc n) = inr (omega arith)

module _ (L : Library) (Drawn : L.Seed → Type 0) (draws : IsOdd L Drawn) where
  release_result :
      (m m' : Machine L)
      → release L m ≡ some m'
      → (m'.seed ≡ (L.rand m.seed).1) × (m'.row.num_allocated ≡ m.row.num_allocated - 1)
  unfolding release
  release_result m m' h = (ground arith, ground arith)

  -- What a round does to a row.
  pub record Frees (row : Row L) (m : Machine L) : Type 0 where
    pub valid : IsValid L m.row
    pub drawn : Drawn m.seed
    pub one_less : m.row.num_allocated ≡ row.num_allocated - 1

  -- With an odd draw, a round frees a block if there is one.
  simulate_method-Frees :
      (p : Policy) (m : Machine L)
      → Drawn m.seed
      → IsValid L m.row
      → (m' : Machine L) × (simulate_method L p m ≡ some m') × Frees m.row m'
  unfolding simulate_method
  simulate_method-Frees p m drawn v =
      let draw = L.rand m.seed in
      let ready : Machine L = record m { heap = L.malloc_control p m.heap; seed = draw.1 } in
      let odd = draws.odd m.seed drawn in
      let later = draws.next m.seed drawn in
      elim (zero_or_more m.row.num_allocated) [
        | inl none_left ↦
            (ready, ground arith, record { valid = v; drawn = later; one_less = omega arith })
        | inr more ↦
            let r = release-Returns L ready v more in
            let result = release_result ready r.0 r.1 in
            (
              r.0,
              ground (arith, r.1),
              record {
                valid = r.2;
                drawn = subst Drawn (sym result.0) (draws.next draw.1 later);
                one_less = result.1;
              },
            )
      ]

  abbrev with_row : SimulationState L → Policy → Machine L → SimulationState L
  with_row s p m = record { heap = m.heap; seed = m.seed; rows = update_row L s.rows p m.row }

  simulate_row-Frees :
      (p : Policy) (s : SimulationState L)
      → Drawn s.seed
      → AllValid L s
      → (m : Machine L) × (simulate_row L p s ≡ some (with_row s p m)) × Frees (s.rows p) m
  unfolding simulate_row
  simulate_row-Frees p s drawn h =
      let r =
        simulate_method-Frees p (record { heap = s.heap; seed = s.seed; row = s.rows p }) drawn
          (h p) in
      (r.0, rw (r.1, simulate_row) refl, r.2)

  one_less_each :
      (s : SimulationState L) (a b c : Machine L)
      → Frees (s.rows first_fit) a
      → Frees (s.rows best_fit) b
      → Frees (s.rows worst_fit) c
      → let t = with_row (with_row (with_row s first_fit a) best_fit b) worst_fit c in
        (q : Policy) → (t.rows q).num_allocated ≡ (s.rows q).num_allocated - 1
  one_less_each s a b c ha hb hc first_fit = ha.one_less
  one_less_each s a b c ha hb hc best_fit = hb.one_less
  one_less_each s a b c ha hb hc worst_fit = hc.one_less

  simulate_memory_operations_frees :
      (s : SimulationState L)
      → Drawn s.seed
      → AllValid L s
      → (t : SimulationState L) × (simulate_memory_operations L s ≡ some t)
        × AllValid L t
        × Drawn t.seed
        × ((q : Policy) → (t.rows q).num_allocated ≡ (s.rows q).num_allocated - 1)
  unfolding simulate_memory_operations
  simulate_memory_operations_frees s drawn h =
      let a = simulate_row-Frees first_fit s drawn h in
      let s₁ = with_row s first_fit a.0 in
      let valid₁ = update_row-IsValid L s.rows first_fit a.0.row h a.2.valid in
      let b = simulate_row-Frees best_fit s₁ a.2.drawn valid₁ in
      let s₂ = with_row s₁ best_fit b.0 in
      let valid₂ = update_row-IsValid L s₁.rows best_fit b.0.row valid₁ b.2.valid in
      let c = simulate_row-Frees worst_fit s₂ b.2.drawn valid₂ in
      (
        with_row s₂ worst_fit c.0,
        rw (a.1, b.1, simulate_memory_operations) c.1,
        update_row-IsValid L s₂.rows worst_fit c.0.row valid₂ c.2.valid,
        c.2.drawn,
        one_less_each s a.0 b.0 c.0 a.2 b.2 c.2,
      )

  calls_free :
      (n : ℕ) (s : SimulationState L)
      → Drawn s.seed
      → AllValid L s
      → (t : SimulationState L) × (calls L n s ≡ some t)
        × ((q : Policy) → (t.rows q).num_allocated ≡ (s.rows q).num_allocated - n)
  unfolding calls
  calls_free zero s drawn h = (s, refl, λ q. omega arith)
  calls_free (suc n) s drawn h =
      let first = simulate_memory_operations_frees s drawn h in
      let rest = calls_free n first.0 first.3 first.2 in
      (rest.0, rw first.1 rest.1, λ q. omega (arith, rest.2 q, first.4 q))

-- A list in which nothing occurs.
empty_ledger : {A : Type 0} (d : Discrete A) (xs : List A) → ((a : A) → count d a xs ≡ 0) → xs ≡ []
empty_ledger d [] h = refl
empty_ledger d (x ∷ xs) h = absurd (omega (arith, h x, tally_self d x))

module _ (L : Library) (d : Discrete L.Ptr) (Drawn : L.Seed → Type 0) (draws : IsOdd L Drawn) where
  watched_draws : IsOdd (W L d) Drawn
  watched_draws = record { odd = draws.odd; next = draws.next }

  -- What `n` calls from one state lead to: each method holds `n` blocks less, or none; what the
  -- library has given out and not got back is what the methods hold; and no free was wrong.
  pub record Drains (n : ℕ) (s t : SimulationState (W L d)) : Type 0 where
    pub made : calls (W L d) n s ≡ some t
    pub unwatched : calls L n (forget L d s) ≡ some (forget L d t)
    pub less : (q : Policy) → (t.rows q).num_allocated ≡ (s.rows q).num_allocated - n
    pub owns : OwnsAll L d t

  drains :
      (n : ℕ) (s : SimulationState (W L d))
      → Drawn s.seed
      → AllValid (W L d) s
      → OwnsAll L d s
      → (t : SimulationState (W L d)) × Drains n s t
  drains n s drawn h o =
      let freed = calls_free (W L d) Drawn watched_draws n s drawn h in
      let owned = calls-ReturnsOwner L d n s h o in
      let same = same_value owned.0 freed.0 _ owned.1 freed.1 in
      (
        freed.0,
        record {
          made = freed.1;
          unwatched = sym (forget-calls L d n s) ∙ ap (Option.map (forget L d)) freed.1;
          less = freed.2;
          owns = subst (OwnsAll L d) same owned.3;
        },
      )

  -- If the random numbers are odd from the seed of a state on, whose rows are valid and hold what
  -- the library has given out, any number `n` of calls from it returns, and does to the library
  -- what it does to it beside a ledger of the blocks given out. Then each method has freed `n` of
  -- its blocks, or all if they are fewer: the ledger has the blocks of the rows and no others, each
  -- as often, and no free was wrong. After 100 calls no block of the library is left.
  pub calls_drain :
      (n : ℕ) (s : SimulationState (W L d))
      → Drawn s.seed
      → AllValid (W L d) s
      → OwnsAll L d s
      → (t : SimulationState (W L d)) × (u : SimulationState (W L d)) × Drains n s t
        × Drains 100 s u
        × (u.heap.ledger ≡ [])
  calls_drain n s drawn h o =
      let some_calls = drains n s drawn h o in
      let all_calls = drains 100 s drawn h o in
      let u = all_calls.0 in
      let none_left : (q : Policy) → (u.rows q).num_allocated ≡ 0 =
        λ q. omega (arith, all_calls.1.less q, (h q).within) in
      (
        some_calls.0,
        u,
        some_calls.1,
        all_calls.1,
        empty_ledger d u.heap.ledger (λ a.
            all_calls.1.owns.same a
            ∙ rw (none_left first_fit, none_left best_fit, none_left worst_fit)
                (unfold held in refl)),
      )
