-- ===== src/Base/Bags.antt =====
-- Lists as bags: how often an element occurs, and the removal of one occurrence.
use Prim.Native.Nat.{ℕ, ◌+◌, ◌<◌}
use mathlib.Core.Path.{◌≡◌}
use mathlib.Core.Logic.{◌⊎◌}
use mathlib.Core.List.{List, [], ◌∷◌, ◌++◌}
use mathlib.Core.Quot
use mathlib.Core.Quot.{Quot, Quot-set}
use native.Mathlib.Omega.{arith}

module _ {ℓ} {A : Type ℓ} (d : Discrete A) where
  -- 1 if the two are one, else 0.
  unfoldable pub tally : A → A → ℕ
  tally x a = elim (d x a) [ yes e ↦ 1 | no ne ↦ 0 ]

  pub tally_self : (x : A) → tally x x ≡ 1
  unfolding tally
  tally_self x = ground arith

  pub tally_other : (x a : A) → (x ≡ a) ⊎ (tally x a ≡ 0)
  unfolding tally
  tally_other x a = ground arith

  abbrev pub count : A → List A → ℕ
  count a [] = 0
  count a (x ∷ xs) = tally x a + count a xs

  pub count-append : (a : A) (xs ys : List A) → count a (xs ++ ys) ≡ count a xs + count a ys
  count-append a [] ys = omega arith
  count-append a (x ∷ xs) ys = omega (arith, count-append a xs ys)

  unfoldable pub remove : A → List A → List A
  remove a [] = []
  remove a (x ∷ xs) = let rest = remove a xs in elim (d x a) [ yes e ↦ xs | no ne ↦ x ∷ rest ]

  -- One occurrence of `p` less, if there is one.
  pub count-remove :
      (a p : A) (xs : List A) → 0 < count p xs → count a (remove p xs) + tally p a ≡ count a xs
  unfolding tally remove
  count-remove a p [] h = absurd (omega arith)
  count-remove a p (x ∷ xs) h = ground (arith, count-remove a p xs)

  -- Each element occurs as often in the one as in the other.
  abbrev pub SameItems : List A → List A → Type ℓ
  SameItems xs ys = (a : A) → count a xs ≡ count a ys

  -- A list of which the order is forgotten.
  abbrev pub Bag : Type ℓ
  Bag = Quot SameItems

  SameItems-cons : (x : A) (xs ys : List A) → SameItems xs ys → SameItems (x ∷ xs) (x ∷ ys)
  SameItems-cons x xs ys h a = omega (arith, h a)

  unfoldable pub put : A → Bag → Bag
  unfolding SameItems-cons
  put x =
      Quot.lift Quot-set (λ xs. Quot.mk (x ∷ xs)) (λ xs ys h. Quot.sound (SameItems-cons x xs ys h))
