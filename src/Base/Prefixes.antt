-- ===== src/Base/Prefixes.antt =====
-- The beginnings of a list, as a family by the steps that lead to them.
use Prim.Native.Nat.{ℕ, zero, suc}
use mathlib.Core.Path.{◌≡◌, refl, ap}
use mathlib.Core.Logic.{◌⊎◌, inl, inr}
use mathlib.Core.List.{List, [], ◌∷◌, ◌++◌}

-- The first list begins the second one.
pub data Prefix {ℓ} {A : Type ℓ} : List A → List A → Type ℓ where
  start : {ys : List A} → Prefix [] ys
  next : {xs ys : List A} (x : A) → Prefix xs ys → Prefix (x ∷ xs) (x ∷ ys)

-- A beginning of `a ++ b` is one of `a`, or all of `a` and a beginning of `b`.
pub Prefix-split {ℓ} :
    {A : Type ℓ} (a b p : List A)
    → Prefix p (a ++ b)
    → Prefix p a ⊎ ((q : List A) × (p ≡ a ++ q) × Prefix q b)
Prefix-split [] b p h = inr (p, refl, h)
Prefix-split (y ∷ a) b [] h = inl start
Prefix-split (_ ∷ a) b (_ ∷ p) (next y h) = elim (Prefix-split a b p h) [
  | inl k ↦ inl (next y k)
  | inr (q, e, k) ↦ inr (q, ap (λ (zs : List _). y ∷ zs) e, k)
]

-- The same where `b` has an element, which a beginning that is not one of `a` has passed.
pub Prefix-cut {ℓ} :
    {A : Type ℓ} (a : List A) (x : A) (b p : List A)
    → Prefix p (a ++ (x ∷ b))
    → Prefix p a ⊎ ((q : List A) × (p ≡ a ++ (x ∷ q)) × Prefix q b)
Prefix-cut [] x b [] h = inl start
Prefix-cut [] _ b (_ ∷ q) (next x h) = inr (q, refl, h)
Prefix-cut (y ∷ a) x b [] h = inl start
Prefix-cut (_ ∷ a) x b (_ ∷ p) (next y h) = elim (Prefix-cut a x b p h) [
  | inl k ↦ inl (next y k)
  | inr (q, e, k) ↦ inr (q, ap (λ (zs : List _). y ∷ zs) e, k)
]

pub Prefix-nil {ℓ} : {A : Type ℓ} (p : List A) → Prefix p [] → p ≡ []
Prefix-nil [] h = refl
Prefix-nil (x ∷ p) h = elim h [ ]

-- The first elements of a list.
unfoldable pub take {ℓ} : {A : Type ℓ} → ℕ → List A → List A
take zero xs = []
take (suc n) [] = []
take (suc n) (x ∷ xs) = x ∷ take n xs

pub take-Prefix {ℓ} : {A : Type ℓ} (n : ℕ) (xs : List A) → Prefix (take n xs) xs
unfolding take
take-Prefix zero xs = start
take-Prefix (suc n) [] = start
take-Prefix (suc n) (x ∷ xs) = next x (take-Prefix n xs)
