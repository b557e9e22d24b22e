-- ===== src/Keyed/Maps.antt =====
-- Go maps: `Load`, `Store`, `Delete` and what an iteration visits.
use mathlib.Core.Path.{subst₂}
use nodecore.Base.{
  Bool, true, false, ◌&&◌, ◌==◌, length, ◌≡◌, ◌≢◌, refl, ite, Option, none, some, List, [], ◌∷◌,
  arith, if_pos, if_neg,
}

module _ {ℓ} {K V : Type ℓ} (dec : Discrete K) where
  unfoldable pub load : K → List (K × V) → Option V
  load k [] = none
  load k ((j, v) ∷ m) = ite (dec j k) (some v) (load k m)

  unfoldable pub store : K → V → List (K × V) → List (K × V)
  store k v [] = (k, v) ∷ []
  store k v ((j, w) ∷ m) = ite (dec j k) ((k, v) ∷ m) ((j, w) ∷ store k v m)

  unfoldable pub delete : K → List (K × V) → List (K × V)
  delete k [] = []
  delete k ((j, w) ∷ m) = ite (dec j k) (delete k m) ((j, w) ∷ delete k m)

  pub load-store :
      (k j : K) (v : V) (m : List (K × V))
      → load j (store k v m) ≡ ite (dec k j) (some v) (load j m)
  unfolding load store
  load-store k j v [] = refl
  load-store k j v ((i, w) ∷ m) = ground (arith, load-store k j v m)

  pub load-delete :
      (k j : K) (m : List (K × V)) → load j (delete k m) ≡ ite (dec k j) none (load j m)
  unfolding load delete
  load-delete k j [] = ground arith
  load-delete k j ((i, w) ∷ m) = ground (arith, load-delete k j m)

-- Every entry satisfies `P`.
module _ {ℓ κ} {K V : Type ℓ} (P : K → V → Type κ) where
  abbrev pub Entries : List (K × V) → Type κ
  Entries [] = Unit
  Entries ((k, v) ∷ m) = P k v × Entries m

  pub store-Entries :
      (dec : Discrete K) (k : K) (v : V) (m : List (K × V))
      → P k v
      → Entries m
      → Entries (store dec k v m)
  unfolding store
  store-Entries dec k v [] p h = (p, tt)
  store-Entries dec k v ((j, w) ∷ m) p h = elim (dec j k) [
    | yes e ↦ rw (if_pos _ e) (p, h.1)
    | no e ↦ rw (if_neg _ e) (h.0, store-Entries dec k v m p h.1)
  ]

  pub delete-Entries :
      (dec : Discrete K) (k : K) (m : List (K × V)) → Entries m → Entries (delete dec k m)
  unfolding delete
  delete-Entries dec k [] h = tt
  delete-Entries dec k ((j, w) ∷ m) h = elim (dec j k) [
    | yes e ↦ rw (if_pos _ e) (delete-Entries dec k m h.1)
    | no e ↦ rw (if_neg _ e) (h.0, delete-Entries dec k m h.1)
  ]

  pub load-Entries :
      (dec : Discrete K) (k : K) (v : V) (m : List (K × V))
      → Entries m
      → load dec k m ≡ some v
      → P k v
  unfolding load
  load-Entries dec k v [] h e = cc
  load-Entries dec k v ((j, w) ∷ m) h e = elim (dec j k) [
    | yes q ↦
        let s : some w ≡ some v = rw (if_pos _ q) at e in let t : w ≡ v = cc in subst₂ P q t h.0
    | no q ↦ load-Entries dec k v m h.1 (rw (if_neg _ q) at e)
  ]

-- No key stands twice, as in every Go map.
module _ {ℓ} {K V : Type ℓ} where
  abbrev pub Absent : K → List (K × V) → Type ℓ
  Absent k = Entries (λ j _. j ≢ k)

  abbrev pub IsMap : List (K × V) → Type ℓ
  IsMap [] = Unit
  IsMap ((k, v) ∷ m) = Absent k m × IsMap m

module _ {ℓ} {K V : Type ℓ} (dec : Discrete K) where
  pub store-IsMap : (k : K) (v : V) (m : List (K × V)) → IsMap m → IsMap (store dec k v m)
  unfolding store
  store-IsMap k v [] h = (tt, tt)
  store-IsMap k v ((j, w) ∷ m) h = elim (dec j k) [
    | yes e ↦ rw (if_pos _ e, ← e) h
    | no e ↦
        rw (if_neg _ e)
          (store-Entries (λ i _. i ≢ j) dec k v m (λ q. e (cc)) h.0, store-IsMap k v m h.1)
  ]

  pub delete-IsMap : (k : K) (m : List (K × V)) → IsMap m → IsMap (delete dec k m)
  unfolding delete
  delete-IsMap k [] h = tt
  delete-IsMap k ((j, w) ∷ m) h = elim (dec j k) [
    | yes e ↦ rw (if_pos _ e) (delete-IsMap k m h.1)
    | no e ↦ rw (if_neg _ e) (delete-Entries (λ i _. i ≢ j) dec k m h.0, delete-IsMap k m h.1)
  ]

  -- What is absent is not found, and what is not found is absent.
  pub load-of_Absent : (k : K) (m : List (K × V)) → Absent k m → load dec k m ≡ none
  unfolding load
  load-of_Absent k [] h = refl
  load-of_Absent k ((j, w) ∷ m) h = rw (if_neg _ h.0) (load-of_Absent k m h.1)

  pub Absent-of_load : (k : K) (m : List (K × V)) → load dec k m ≡ none → Absent k m
  unfolding load
  Absent-of_load k [] e = tt
  Absent-of_load k ((j, w) ∷ m) e = elim (dec j k) [
    | yes p ↦ let s : some w ≡ none = rw (if_pos _ p) at e in cc
    | no p ↦ (p, Absent-of_load k m (rw (if_neg _ p) at e))
  ]

  pub load_self : (k : K) (v : V) (m : List (K × V)) → load dec k ((k, v) ∷ m) ≡ some v
  unfolding load
  load_self k v m = if_pos (dec k k) refl (some v) (load dec k m)

  pub load_later :
      (k j : K) (v : V) (m : List (K × V)) → j ≢ k → load dec k ((j, v) ∷ m) ≡ load dec k m
  unfolding load
  load_later k j v m h = if_neg (dec j k) h (some v) (load dec k m)

-- `maps.EqualFunc`: as many entries, and each key of the one has an equal value in the other.
module _ {ℓ} {K V : Type ℓ} (dec : Discrete K) (eq : V → V → Bool) where
  covers : List (K × V) → List (K × V) → Bool
  covers [] n = true
  covers ((k, v) ∷ m) n = elim (load dec k n) [ none ↦ false | some w ↦ eq v w ] && covers m n

  unfoldable pub map_eq : List (K × V) → List (K × V) → Bool
  unfolding covers
  map_eq m n = length m == length n && covers m n
