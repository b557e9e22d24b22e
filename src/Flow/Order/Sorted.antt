-- ===== src/Flow/Order/Sorted.antt =====
-- internal/upstreams/flow/selectors.go: the order of a hint sorts by the keys and is stable.
use nodecore.Base.{
  Bool, true, false, String, List, [], ◌∷◌, Option, some, ◌≡◌, refl, arith, All, Pairwise,
  IsSorted-Pairwise, those, stable_sort, stable_sort-IsSorted, those-stable_sort,
}
use nodecore.Int.{ℤ, eqb_ℤ, ◌≤ℤ◌}
use nodecore.Protocol.State.{UpstreamState, LowerBoundType}
use nodecore.Flow.Selectors.{
  SortKind, SortSpec, sort_default, sort_head_desc, sort_safe_desc, sort_finalized_desc,
  sort_predicted_lower_bound_asc,
}
use nodecore.Flow.Strategy.Retries.{arranged}
use nodecore.Flow.Order.{selector_sort_key, key_before, build_selector_order}

key_before_asym : (k : SortKind) (a b : ℤ) → key_before k b a ≡ true → key_before k a b ≡ false
key_before_asym sort_default a b h = refl
key_before_asym sort_head_desc a b h = ground arith
key_before_asym sort_safe_desc a b h = ground arith
key_before_asym sort_finalized_desc a b h = ground arith
key_before_asym sort_predicted_lower_bound_asc a b h = ground arith

key_before_trans :
    (k : SortKind) (a b c : ℤ)
    → key_before k b a ≡ false
    → key_before k c b ≡ false
    → key_before k c a ≡ false
key_before_trans sort_default a b c h i = refl
key_before_trans sort_head_desc a b c h i = ground arith
key_before_trans sort_safe_desc a b c h i = ground arith
key_before_trans sort_finalized_desc a b c h i = ground arith
key_before_trans sort_predicted_lower_bound_asc a b c h i = ground arith

key_before_equal :
    (k : SortKind) (a b v : ℤ) → eqb_ℤ a v ≡ true → eqb_ℤ b v ≡ true → key_before k b a ≡ false
key_before_equal sort_default a b v h i = refl
key_before_equal sort_head_desc a b v h i = ground arith
key_before_equal sort_safe_desc a b v h i = ground arith
key_before_equal sort_finalized_desc a b v h i = ground arith
key_before_equal sort_predicted_lower_bound_asc a b v h i = ground arith

-- How the key of an upstream stands to that of a later one.
abbrev pub Precedes : SortKind → ℤ → ℤ → Type 0
Precedes sort_default a b = Unit
Precedes sort_predicted_lower_bound_asc a b = a ≤ℤ b
Precedes _ a b = b ≤ℤ a

key_before-Precedes : (k : SortKind) (a b : ℤ) → key_before k b a ≡ false → Precedes k a b
key_before-Precedes sort_default a b h = tt
key_before-Precedes sort_head_desc a b h = ground arith
key_before-Precedes sort_safe_desc a b h = ground arith
key_before-Precedes sort_finalized_desc a b h = ground arith
key_before-Precedes sort_predicted_lower_bound_asc a b h = ground arith

unordered-Pairwise : (xs : List String) → Pairwise (λ _ _. Unit) xs
unordered-Pairwise [] = tt
unordered-Pairwise (x ∷ xs) = (nothing xs, unordered-Pairwise xs)
  where
    nothing : (ys : List String) → All {0, 0} (λ _. Unit) ys
    nothing [] = tt
    nothing (y ∷ ys) = (tt, nothing ys)

module _ (aggregator : String → LowerBoundType → ℤ → ℤ)
    (get_upstream get_upstream_state : String → Option UpstreamState) where
  abbrev pub key : SortSpec → String → ℤ
  key = selector_sort_key aggregator get_upstream get_upstream_state

  abbrev pub ordered : SortSpec → List String → List String
  ordered spec =
      arranged (build_selector_order aggregator get_upstream get_upstream_state (some spec))

  abbrev before : SortKind → (String → ℤ) → String → String → Bool
  before k f a b = key_before k (f a) (f b)

  sorts :
      (k : SortKind) (f : String → ℤ) (ids : List String)
      → Pairwise (λ a b. Precedes k (f a) (f b)) (stable_sort (before k f) ids)
  sorts k f ids =
      IsSorted-Pairwise (before k f) (λ a b. Precedes k (f a) (f b))
        (λ a b. key_before-Precedes k (f a) (f b)) (stable_sort (before k f) ids)
        (stable_sort-IsSorted (before k f) (λ a b. key_before_asym k (f a) (f b))
          (λ a b c. key_before_trans k (f a) (f b) (f c)) ids)

  keeps :
      (k : SortKind) (f : String → ℤ) (v : ℤ) (ids : List String)
      → those (λ id. eqb_ℤ (f id) v) (stable_sort (before k f) ids)
        ≡ those (λ id. eqb_ℤ (f id) v) ids
  keeps k f v ids =
      those-stable_sort (before k f) (λ id. eqb_ℤ (f id) v)
        (λ a b. key_before_equal k (f a) (f b) v) ids

  -- The order of a hint sorts the upstreams by their keys, upwards for a predicted lower bound and
  -- downwards for a height, and upstreams with one key keep their order; without a kind it changes
  -- nothing.
  pub build_selector_order-sorts :
      (spec : SortSpec) (ids : List String) (v : ℤ)
      → Pairwise (λ a b. Precedes spec.kind (key spec a) (key spec b)) (ordered spec ids)
        × (those (λ id. eqb_ℤ (key spec id) v) (ordered spec ids)
            ≡ those (λ id. eqb_ℤ (key spec id) v) ids)
  unfolding build_selector_order
  build_selector_order-sorts spec ids v = by_kind spec.kind spec.lower_bound_type spec.time_offset
    where
      by_kind :
          (k : SortKind) (t : LowerBoundType) (o : ℤ)
          → let s : SortSpec = record { kind = k; lower_bound_type = t; time_offset = o } in
            Pairwise (λ a b. Precedes k (key s a) (key s b)) (ordered s ids)
            × (those (λ id. eqb_ℤ (key s id) v) (ordered s ids)
                ≡ those (λ id. eqb_ℤ (key s id) v) ids)
      by_kind sort_default t o = (unordered-Pairwise ids, refl)
      by_kind sort_head_desc t o =
          let f = key (record { kind = sort_head_desc; lower_bound_type = t; time_offset = o }) in
          (sorts sort_head_desc f ids, keeps sort_head_desc f v ids)
      by_kind sort_safe_desc t o =
          let f = key (record { kind = sort_safe_desc; lower_bound_type = t; time_offset = o }) in
          (sorts sort_safe_desc f ids, keeps sort_safe_desc f v ids)
      by_kind sort_finalized_desc t o =
          let f =
            key (record { kind = sort_finalized_desc; lower_bound_type = t; time_offset = o }) in
          (sorts sort_finalized_desc f ids, keeps sort_finalized_desc f v ids)
      by_kind sort_predicted_lower_bound_asc t o =
          let k = sort_predicted_lower_bound_asc in
          let f = key (record { kind = k; lower_bound_type = t; time_offset = o }) in
          (sorts k f ids, keeps k f v ids)
