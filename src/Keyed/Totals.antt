-- ===== src/Keyed/Totals.antt =====
-- Sums over the values of a map.
use nodecore.Base.{ℕ, ◌+◌, ◌≡◌, refl, none, some, List, [], ◌∷◌, arith, if_pos, if_neg, ap}
use nodecore.Keyed.Maps.{load, store, delete, Absent, IsMap}

module _ {K V : Type 0} (f : V → ℕ) where
  abbrev pub total : List (K × V) → ℕ
  total [] = 0
  total ((k, v) ∷ m) = f v + total m

module _ {K V : Type 0} (dec : Discrete K) (f : V → ℕ) where
  pub total-store_new :
      (k : K) (v : V) (m : List (K × V))
      → load dec k m ≡ none
      → total f (store dec k v m) ≡ f v + total f m
  unfolding load store
  total-store_new k v [] e = refl
  total-store_new k v ((j, w) ∷ m) e = ground (arith, total-store_new k v m)

  pub total-store_old :
      (k : K) (v w : V) (m : List (K × V))
      → load dec k m ≡ some w
      → total f (store dec k v m) + f w ≡ f v + total f m
  unfolding load store
  total-store_old k v w [] e = cc
  total-store_old k v w ((j, u) ∷ m) e = ground (arith, total-store_old k v w m)

  total-delete-Absent :
      (k : K) (m : List (K × V)) → Absent k m → total f (delete dec k m) ≡ total f m
  unfolding delete
  total-delete-Absent k [] a = refl
  total-delete-Absent k ((j, u) ∷ m) a =
      rw (if_neg (dec j k) a.0) (ap (λ n. f u + n) (total-delete-Absent k m a.1))

  pub total-delete :
      (k : K) (w : V) (m : List (K × V))
      → IsMap m
      → load dec k m ≡ some w
      → total f (delete dec k m) + f w ≡ total f m
  unfolding load delete
  total-delete k w [] i e = cc
  total-delete k w ((j, u) ∷ m) i e = elim (dec j k) [
    | yes q ↦
        let a : Absent k m = rw (← q) i.0 in
        let s : some u ≡ some w = rw (if_pos _ q) at e in
        let t : u ≡ w = cc in rw (if_pos _ q, ← t) (omega (arith, total-delete-Absent k m a))
    | no q ↦ rw (if_neg _ q) (omega (arith, total-delete k w m i.1 (rw (if_neg _ q) at e)))
  ]
