-- ===== src/Base/Sorts.antt =====
-- A stable sort by a strict order, as `sort.SliceStable`.
use mathlib.Core.Path.{◌≡◌, refl, ap, sym, ◌∙◌}
use mathlib.Core.Logic.{inl, inr}
use mathlib.Core.Bool.{Bool, true, false}
use mathlib.Core.List.{List, [], ◌∷◌}
use native.Mathlib.Omega.{arith}
use nodecore.Base.Lists.{All}
use nodecore.Base.Tests.{if◌then◌else◌, Bool-cases}

-- The elements with a property, in their order.
abbrev pub those : {A : Type 0} → (A → Bool) → List A → List A
those p [] = []
those p (x ∷ xs) = let rest = those p xs in if p x then x ∷ rest else rest

-- Each element stands in the relation to every later one.
abbrev pub Pairwise : {A : Type 0} → (A → A → Type 0) → List A → Type 0
Pairwise R [] = Unit
Pairwise R (x ∷ xs) = All (R x) xs × Pairwise R xs

module _ {A : Type 0} (less : A → A → Bool) where
  -- Before the first element that does not come before it.
  unfoldable pub insert : A → List A → List A
  insert x [] = x ∷ []
  insert x (y ∷ ys) = let rest = insert x ys in if less y x then y ∷ rest else x ∷ y ∷ ys

  unfoldable pub stable_sort : List A → List A
  unfolding insert
  stable_sort [] = []
  stable_sort (x ∷ xs) = insert x (stable_sort xs)

  -- Nothing comes before an earlier element.
  abbrev pub IsSorted : List A → Type 0
  IsSorted [] = Unit
  IsSorted (x ∷ xs) = All (λ y. less y x ≡ false) xs × IsSorted xs

  pub IsSorted-Pairwise :
      (R : A → A → Type 0)
      → ((x y : A) → less y x ≡ false → R x y)
      → (xs : List A) → IsSorted xs
      → Pairwise R xs
  IsSorted-Pairwise R f [] h = tt
  IsSorted-Pairwise R f (x ∷ xs) h = (later xs h.0, IsSorted-Pairwise R f xs h.1)
    where
      later : (ys : List A) → All (λ y. less y x ≡ false) ys → All (R x) ys
      later [] h = tt
      later (y ∷ ys) h = (f x y h.0, later ys h.1)

  insert-All : (P : A → Type 0) (x : A) (ys : List A) → P x → All P ys → All P (insert x ys)
  unfolding insert
  insert-All P x [] p h = (p, tt)
  insert-All P x (y ∷ ys) p h = elim (Bool-cases (less y x)) [
    | inl e ↦ rw e (h.0, insert-All P x ys p h.1)
    | inr e ↦ rw e (p, h)
  ]

  module _ (asym : (x y : A) → less y x ≡ true → less x y ≡ false)
      (trans : (x y z : A) → less y x ≡ false → less z y ≡ false → less z x ≡ false) where
    weaker :
        (x y : A) (zs : List A)
        → less y x ≡ false
        → All (λ z. less z y ≡ false) zs
        → All (λ z. less z x ≡ false) zs
    weaker x y [] e h = tt
    weaker x y (z ∷ zs) e h = (trans x y z e h.0, weaker x y zs e h.1)

    insert-IsSorted : (x : A) (ys : List A) → IsSorted ys → IsSorted (insert x ys)
    unfolding insert
    insert-IsSorted x [] s = (tt, tt)
    insert-IsSorted x (y ∷ ys) s = elim (Bool-cases (less y x)) [
      | inl e ↦
          rw e (insert-All (λ z. less z y ≡ false) x ys (asym x y e) s.0, insert-IsSorted x ys s.1)
      | inr e ↦ rw e ((e, weaker x y ys e s.0), s)
    ]

    pub stable_sort-IsSorted : (xs : List A) → IsSorted (stable_sort xs)
    unfolding stable_sort
    stable_sort-IsSorted [] = tt
    stable_sort-IsSorted (x ∷ xs) = insert-IsSorted x (stable_sort xs) (stable_sort-IsSorted xs)

  -- Elements of a class, none of which comes before another, keep their order.
  module _ (p : A → Bool) (apart : (x y : A) → p x ≡ true → p y ≡ true → less y x ≡ false) where
    those-insert : (x : A) (ys : List A) → those p (insert x ys) ≡ those p (x ∷ ys)
    unfolding insert
    those-insert x [] = refl
    those-insert x (y ∷ ys) = elim (Bool-cases (less y x)) [
      | inr e ↦ rw e refl
      | inl e ↦ elim (Bool-cases (p x)) [
        | inr q ↦ ground (arith, those-insert x ys)
        | inl q ↦ elim (Bool-cases (p y)) [
          | inl r ↦ let z : true ≡ false = sym e ∙ apart x y q r in cc
          | inr r ↦ ground (arith, those-insert x ys)
        ]
      ]
    ]

    pub those-stable_sort : (xs : List A) → those p (stable_sort xs) ≡ those p xs
    unfolding stable_sort
    those-stable_sort [] = refl
    those-stable_sort (x ∷ xs) =
        those-insert x (stable_sort xs)
        ∙ ap (λ rest. if p x then x ∷ rest else rest) (those-stable_sort xs)
