-- ===== src/Simulation/Held.antt =====
-- The blocks that a row of `allocated_blocks` holds, counted.
use monitor_program.Base.{
  ℕ, zero, suc, ◌+◌, ◌<◌, ◌≡◌, arith, Option, none, some, Option-cases, inl, inr, List, [], ◌∷◌,
  get_elem?, ◌==◌, if◌then◌else◌,
}
use monitor_program.Base.Bags.{tally, count}
use monitor_program.Simulation.{set_elem?}
use monitor_program.Simulation.Bounds.{Filled}

-- The pointers among the first `n` elements.
unfoldable pub held {ℓ} : {A : Type ℓ} → ℕ → List (Option A) → List A
held zero xs = []
held (suc n) [] = []
held (suc n) (none ∷ xs) = held n xs
held (suc n) (some a ∷ xs) = a ∷ held n xs

-- A write behind the first element.
set_suc {ℓ} :
    {A : Type ℓ} (x : A) (xs : List A) (i : ℕ) (v : A) {ys : List A}
    → set_elem? (x ∷ xs) (suc i) v ≡ some ys
    → (zs : List A) × (set_elem? xs i v ≡ some zs) × (ys ≡ x ∷ zs)
unfolding set_elem?
set_suc x xs i v {ys} h = elim (Option-cases (set_elem? xs i v)) [
  | inl e ↦ absurd (cc (h, e))
  | inr (zs, e) ↦ (zs, e, ground arith)
]

get_elem?-set {ℓ} :
    {A : Type ℓ} (xs ys : List A) (i j : ℕ) (v : A)
    → set_elem? xs i v ≡ some ys
    → get_elem? ys j ≡ (if i == j then some v else get_elem? xs j)
unfolding set_elem?
get_elem?-set [] ys i j v h = cc
get_elem?-set (x ∷ xs) ys zero zero v h = ground arith
get_elem?-set (x ∷ xs) ys zero (suc j) v h = ground arith
get_elem?-set (x ∷ xs) ys (suc i) zero v h = let r = set_suc x xs i v h in rw r.2 (ground arith)
get_elem?-set (x ∷ xs) ys (suc i) (suc j) v h =
    let r = set_suc x xs i v h in rw r.2 (ground (arith, get_elem?-set xs r.0 i j v r.1))

module _ {ℓ} {A : Type ℓ} (d : Discrete A) (a : A) where
  -- A block written behind the others is held beside them.
  pub count-held-next :
      (n : ℕ) (xs ys : List (Option A)) (p : A)
      → Filled n xs
      → set_elem? xs n (some p) ≡ some ys
      → count d a (held (suc n) ys) ≡ tally d p a + count d a (held n xs)
  unfolding set_elem? held
  count-held-next n [] ys p f h = cc
  count-held-next zero (x ∷ xs) ys p f h = ground arith
  count-held-next (suc n) (none ∷ xs) ys p f h = absurd f
  count-held-next (suc n) (some q ∷ xs) ys p f h =
      let r = set_suc (some q) xs n (some p) h in
      rw r.2 (omega (arith, count-held-next n xs r.0 p f r.1))

  count-held-last :
      (n : ℕ) (xs : List (Option A)) (l : A)
      → get_elem? xs n ≡ some (some l)
      → count d a (held (suc n) xs) ≡ tally d l a + count d a (held n xs)
  unfolding held
  count-held-last n [] l h = cc
  count-held-last zero (none ∷ xs) l h = cc
  count-held-last zero (some q ∷ xs) l h = ground arith
  count-held-last (suc n) (none ∷ xs) l h = count-held-last n xs l h
  count-held-last (suc n) (some q ∷ xs) l h = omega (arith, count-held-last n xs l h)

  count-held-set :
      (n i : ℕ) (xs ys : List (Option A)) (b l : A)
      → i < n
      → get_elem? xs i ≡ some (some b)
      → set_elem? xs i (some l) ≡ some ys
      → count d a (held n xs) + tally d l a ≡ count d a (held n ys) + tally d b a
  unfolding held set_elem?
  count-held-set zero i xs ys b l lt g h = elim lt [ ]
  count-held-set (suc n) i [] ys b l lt g h = cc
  count-held-set (suc n) zero (none ∷ xs) ys b l lt g h = cc
  count-held-set (suc n) zero (some q ∷ xs) ys b l lt g h = ground arith
  count-held-set (suc n) (suc i) (none ∷ xs) ys b l lt g h =
      let r = set_suc none xs i (some l) h in
      rw r.2 (count-held-set n i xs r.0 b l (omega arith) g r.1)
  count-held-set (suc n) (suc i) (some q ∷ xs) ys b l lt g h =
      let r = set_suc (some q) xs i (some l) h in
      rw r.2 (omega (arith, count-held-set n i xs r.0 b l (omega arith) g r.1))

  -- The last block written over another one: the row holds that one no longer.
  pub count-held-release :
      (m i : ℕ) (xs ys : List (Option A)) (b l : A)
      → i < suc m
      → get_elem? xs i ≡ some (some b)
      → get_elem? xs m ≡ some (some l)
      → set_elem? xs i (some l) ≡ some ys
      → count d a (held (suc m) xs) ≡ tally d b a + count d a (held m ys)
  count-held-release m i xs ys b l lt g last h = omega (
    arith,
    count-held-set (suc m) i xs ys b l lt g h,
    count-held-last m ys l (ground (arith, get_elem?-set xs ys i m (some l) h)),
  )
