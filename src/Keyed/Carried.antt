-- ===== src/Keyed/Carried.antt =====
-- What holds of every entry of a map, carried over stores and deletes.
use nodecore.Base.{◌≢◌, List, [], ◌∷◌, if_pos, if_neg, sym, ◌∙◌}
use nodecore.Keyed.Maps.{store, delete, Entries, Absent, IsMap}

module _ {ℓ κ κ'} {K V : Type ℓ} (P : K → V → Type κ) (Q : K → V → Type κ') where
  pub map-Entries :
      (m : List (K × V)) → ((k : K) (v : V) → P k v → Q k v) → Entries P m → Entries Q m
  map-Entries [] f h = tt
  map-Entries ((k, v) ∷ m) f h = (f k v h.0, map-Entries m f h.1)

  pub both-Entries :
      (m : List (K × V)) → Entries P m → Entries Q m → Entries (λ k v. P k v × Q k v) m
  both-Entries [] h i = tt
  both-Entries ((k, v) ∷ m) h i = ((h.0, i.0), both-Entries m h.1 i.1)

module _ {ℓ} {K V : Type ℓ} (dec : Discrete K) where
  pub delete-Absent : (k : K) (m : List (K × V)) → Absent k (delete dec k m)
  unfolding delete
  delete-Absent k [] = tt
  delete-Absent k ((j, w) ∷ m) = elim (dec j k) [
    | yes e ↦ rw (if_pos _ e) (delete-Absent k m)
    | no e ↦ rw (if_neg _ e) (e, delete-Absent k m)
  ]

module _ {ℓ κ} {K V : Type ℓ} (P : K → V → Type κ) (dec : Discrete K) where
  -- After a store the entry of the key need not have satisfied `P` before.
  pub store_over-Entries :
      (k : K) (v : V) (m : List (K × V))
      → IsMap m
      → P k v
      → Entries (λ j w. j ≢ k → P j w) m
      → Entries P (store dec k v m)
  unfolding store
  store_over-Entries k v [] i p h = (p, tt)
  store_over-Entries k v ((j, w) ∷ m) i p h = elim (dec j k) [
    | yes e ↦ rw (if_pos _ e) (
      p,
      map-Entries (λ l u. (l ≢ j) × (l ≢ k → P l u)) P m (λ l u b. b.1 (λ q. b.0 (q ∙ sym e)))
          (both-Entries (λ l _. l ≢ j) (λ l u. l ≢ k → P l u) m i.0 h.1),
    )
    | no e ↦ rw (if_neg _ e) (h.0 e, store_over-Entries k v m i.1 p h.1)
  ]
