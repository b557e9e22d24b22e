-- ===== src/Quorum/Headers/Sorted.antt =====
-- internal/quorum/quorum.go: the sort of the signatures keeps them.
use nodecore.Base.{
  suc, Bool, List, [], ◌∷◌, length, ◌≡◌, refl, ◌∙◌, ap, All, stable_sort, insert, Bool-cases, inl,
  inr, arith, if_true, if_false,
}

-- A sort keeps the elements and their number.
module _ {A : Type 0} (P : A → Type 0) (less : A → A → Bool) where
  insert-All : (x : A) (ys : List A) → P x → All P ys → All P (insert less x ys)
  unfolding insert
  insert-All x [] p h = (p, tt)
  insert-All x (y ∷ ys) p h = elim (Bool-cases (less y x)) [
    | inl e ↦ rw (if_true _ _ e) (h.0, insert-All x ys p h.1)
    | inr e ↦ rw (if_false _ _ e) (p, h)
  ]

  All-insert : (x : A) (ys : List A) → All P (insert less x ys) → P x × All P ys
  unfolding insert
  All-insert x [] h = h
  All-insert x (y ∷ ys) h = elim (Bool-cases (less y x)) [
    | inl e ↦
        let i : P y × All P (insert less x ys) = rw (if_true _ _ e) at h in
        let j = All-insert x ys i.1 in (j.0, (i.0, j.1))
    | inr e ↦ rw (if_false _ _ e) at h
  ]

  pub stable_sort-All : (xs : List A) → All P xs → All P (stable_sort less xs)
  unfolding stable_sort
  stable_sort-All [] h = tt
  stable_sort-All (x ∷ xs) h = insert-All x (stable_sort less xs) h.0 (stable_sort-All xs h.1)

  pub All-stable_sort : (xs : List A) → All P (stable_sort less xs) → All P xs
  unfolding stable_sort
  All-stable_sort [] h = tt
  All-stable_sort (x ∷ xs) h =
      let i = All-insert x (stable_sort less xs) h in (i.0, All-stable_sort xs i.1)

module _ {A : Type 0} (less : A → A → Bool) where
  length-insert : (x : A) (ys : List A) → length (insert less x ys) ≡ suc (length ys)
  unfolding insert
  length-insert x [] = refl
  length-insert x (y ∷ ys) = ground (arith, length-insert x ys)

  pub length-stable_sort : (xs : List A) → length (stable_sort less xs) ≡ length xs
  unfolding stable_sort
  length-stable_sort [] = refl
  length-stable_sort (x ∷ xs) =
      length-insert x (stable_sort less xs) ∙ ap suc (length-stable_sort xs)
