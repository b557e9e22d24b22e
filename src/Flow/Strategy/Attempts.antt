-- ===== src/Flow/Strategy/Attempts.antt =====
-- A request that selects an upstream again and again, over any strategies that never answer with what
-- is selected already.
use nodecore.Base.{Bool, true, false, String, List, [], ◌∷◌, ◌≡◌, ◌≢◌, refl, ◌⊎◌, inl, inr, All}
use nodecore.Flow.Strategy.{Selected, selected, refused, SelectionError}

pub Selected-cases :
    (o : Selected) → ((x : String) × (o ≡ selected x)) ⊎ ((e : SelectionError) × (o ≡ refused e))
Selected-cases (selected x) = inl (x, refl)
Selected-cases (refused e) = inr (e, refl)

abbrev pub Distinct : List String → Type 0
Distinct [] = Unit
Distinct (x ∷ xs) = All (λ y. x ≢ y) xs × Distinct xs

module _ {P : Type 0} where
  -- The upstreams that the attempts select, each attempt with its strategy.
  unfoldable pub attempts_of : List (P → Selected × P) → P → List String
  attempts_of [] p = []
  attempts_of (strategy ∷ rest) p =
      let o = strategy p in
      let later = attempts_of rest o.1 in elim o.0 [ selected x ↦ x ∷ later | refused _ ↦ later ]

  attempt_selects :
      (s : P → Selected × P) (rest : List (P → Selected × P)) (p : P) (x : String)
      → (s p).0 ≡ selected x
      → attempts_of (s ∷ rest) p ≡ x ∷ attempts_of rest (s p).1
  unfolding attempts_of
  attempt_selects s rest p x e = rw (attempts_of, e)

  attempt_refused :
      (s : P → Selected × P) (rest : List (P → Selected × P)) (p : P) (f : SelectionError)
      → (s p).0 ≡ refused f
      → attempts_of (s ∷ rest) p ≡ attempts_of rest (s p).1
  unfolding attempts_of
  attempt_refused s rest p f e = rw (attempts_of, e)

-- A strategy acts on a state, in which an upstream is selected or not.
module _ {P : Type 0} (has : String → P → Bool) where
  -- The answer was not selected and is from then on, and what was selected stays so.
  pub record IsFresh (strategy : P → Selected × P) : Type 0 where
    pub fresh :
        (x : String) (p : P)
        → (strategy p).0 ≡ selected x
        → (has x p ≡ false) × (has x (strategy p).1 ≡ true)
    pub grows : (x : String) (p : P) → has x p ≡ true → has x (strategy p).1 ≡ true

  differ : (x y : String) (p : P) → has x p ≡ true → has y p ≡ false → x ≢ y
  differ x y p h new same = cc

  attempts_of-others :
      (strategies : List (P → Selected × P)) (x : String) (p : P)
      → All IsFresh strategies
      → has x p ≡ true
      → All (λ y. x ≢ y) (attempts_of strategies p)
  unfolding attempts_of
  attempts_of-others [] x p k h = tt
  attempts_of-others (s ∷ rest) x p (f, k) h =
      let later = attempts_of-others rest x (s p).1 k (f.grows x p h) in
      elim (Selected-cases (s p).0) [
        | inl (y, e) ↦ rw (attempt_selects s rest p y e) (differ x y p h (f.fresh y p e).0, later)
        | inr (g, e) ↦ rw (attempt_refused s rest p g e) later
      ]

  pub attempts_of-Distinct :
      (strategies : List (P → Selected × P)) (p : P)
      → All IsFresh strategies
      → Distinct (attempts_of strategies p)
  unfolding attempts_of
  attempts_of-Distinct [] p k = tt
  attempts_of-Distinct (s ∷ rest) p (f, k) = elim (Selected-cases (s p).0) [
    | inl (y, e) ↦
        rw (attempt_selects s rest p y e) (
          attempts_of-others rest y (s p).1 k (f.fresh y p e).1,
          attempts_of-Distinct rest (s p).1 k,
        )
    | inr (g, e) ↦ rw (attempt_refused s rest p g e) (attempts_of-Distinct rest (s p).1 k)
  ]
