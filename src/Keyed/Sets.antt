-- ===== src/Keyed/Sets.antt =====
-- mapset sets, as lists of their members.
use nodecore.Base.{
  ◌≡◌, refl, ite, Bool, true, false, List, [], ◌∷◌, arith, ◌||◌, ◌&&◌, if◌then◌else◌,
}

module _ {ℓ} {A : Type ℓ} (dec : Discrete A) where
  unfoldable pub contains : A → List A → Bool
  contains a [] = false
  contains a (x ∷ xs) = ite (dec x a) true (contains a xs)

  unfoldable pub add : A → List A → List A
  add a xs = if contains a xs then xs else a ∷ xs

  unfoldable pub remove : A → List A → List A
  remove a [] = []
  remove a (x ∷ xs) = ite (dec x a) (remove a xs) (x ∷ remove a xs)

  unfoldable pub union : List A → List A → List A
  union [] ys = ys
  union (x ∷ xs) ys = add x (union xs ys)

  unfoldable pub subset : List A → List A → Bool
  subset [] ys = true
  subset (x ∷ xs) ys = contains x ys && subset xs ys

  -- `Equal` of mapset.
  unfoldable pub set_eq : List A → List A → Bool
  unfolding subset
  set_eq xs ys = subset xs ys && subset ys xs

module _ {A : Type 0} (dec : Discrete A) where
  contains_eq : (a b : A) (xs : List A) → a ≡ b → contains dec a xs ≡ contains dec b xs
  contains_eq a b xs e = rw e

  pub contains-add :
      (a b : A) (xs : List A)
      → contains dec b (add dec a xs) ≡ ite (dec a b) true (contains dec b xs)
  unfolding contains add
  contains-add a b xs = ground (arith, contains_eq a b xs)

  pub contains-remove :
      (a b : A) (xs : List A)
      → contains dec b (remove dec a xs) ≡ ite (dec a b) false (contains dec b xs)
  unfolding contains remove
  contains-remove a b [] = ground arith
  contains-remove a b (x ∷ xs) = ground (arith, contains-remove a b xs)

  pub contains-union :
      (b : A) (xs ys : List A)
      → contains dec b (union dec xs ys) ≡ (contains dec b xs || contains dec b ys)
  unfolding contains union
  contains-union b [] ys = refl
  contains-union b (x ∷ xs) ys =
      ground (arith, contains-union b xs ys, contains-add x b (union dec xs ys))

-- The members that satisfy a test, in their order.
module _ {A : Type 0} (p : A → Bool) where
  unfoldable pub keep_if : List A → List A
  keep_if [] = []
  keep_if (x ∷ xs) = if p x then x ∷ keep_if xs else keep_if xs

module _ {A : Type 0} (dec : Discrete A) (p : A → Bool) where
  pub contains-keep_if :
      (a : A) (xs : List A) → contains dec a (keep_if p xs) ≡ (contains dec a xs && p a)
  unfolding contains keep_if
  contains-keep_if a [] = refl
  contains-keep_if a (x ∷ xs) = elim (dec x a) [
    | yes e ↦ rw e (ground (arith, contains-keep_if a xs))
    | no n ↦ ground (arith, contains-keep_if a xs)
  ]
