-- ===== src/Chain/Merge/Lowest.antt =====
-- A merged lower bound is the lowest one that an available upstream reports.
use nodecore.Base.{
  ◌≡◌, ◌⊎◌, inl, inr, ap, List, [], ◌∷◌, Option, none, some, arith, All, Any, ℕ_discrete,
}
use nodecore.Int.{ℤ, ◌≤ℤ◌}
use nodecore.Keyed.{Entries, load, load-store}
use nodecore.Protocol.State.{LowerBoundType, LowerBoundData, UpstreamState}
use nodecore.Chain.Merge.{Bounds, merge_bound, merge_bounds, bounds_loop, process_lower_bounds}

-- There is a bound, and it is at most `n`.
abbrev pub AtMost : ℤ → Option LowerBoundData → Type 0
AtMost n none = ⊥
AtMost n (some d) = d.bound ≤ℤ n

-- Whatever `m` has below a limit, `m'` has below it too.
abbrev Improves : Bounds → Bounds → Type 0
Improves m m' =
    (t : LowerBoundType) (n : ℤ) → AtMost n (load ℕ_discrete t m) → AtMost n (load ℕ_discrete t m')

merge_bound-Improves : (d : LowerBoundData) (m : Bounds) → Improves m (merge_bound d m)
unfolding merge_bound
merge_bound-Improves d m t n h =
    ground (arith, load-store ℕ_discrete d.bound_type t d m, ap (λ k. load ℕ_discrete k m))

merge_bound-AtMost :
    (d : LowerBoundData) (m : Bounds)
    → AtMost d.bound (load ℕ_discrete d.bound_type (merge_bound d m))
unfolding merge_bound
merge_bound-AtMost d m = ground (arith, load-store ℕ_discrete d.bound_type d.bound_type d m)

pub merge_bounds-Improves : (m ups : Bounds) → Improves m (merge_bounds m ups)
unfolding merge_bounds
merge_bounds-Improves m [] t n h = h
merge_bounds-Improves m ((_, d) ∷ ups) t n h =
    merge_bounds-Improves (merge_bound d m) ups t n (merge_bound-Improves d m t n h)

bounds_loop-Improves : (m : Bounds) (us : List UpstreamState) → Improves m (bounds_loop m us)
unfolding bounds_loop
bounds_loop-Improves m [] t n h = h
bounds_loop-Improves m (u ∷ us) t n h =
    bounds_loop-Improves (merge_bounds m u.lower_bounds_info) us t n
      (merge_bounds-Improves m u.lower_bounds_info t n h)

-- In `m` each of the bounds is met or bettered.
abbrev pub Meets : Bounds → Bounds → Type 0
Meets m = Entries (λ _ d. AtMost d.bound (load ℕ_discrete d.bound_type m))

Meets-Improves : (m m' ups : Bounds) → Improves m m' → Meets m ups → Meets m' ups
Meets-Improves m m' [] i h = tt
Meets-Improves m m' ((_, d) ∷ ups) i h = (i d.bound_type d.bound h.0, Meets-Improves m m' ups i h.1)

merge_bounds-Meets : (m ups : Bounds) → Meets (merge_bounds m ups) ups
unfolding merge_bounds
merge_bounds-Meets m [] = tt
merge_bounds-Meets m ((_, d) ∷ ups) = (
  merge_bounds-Improves (merge_bound d m) ups d.bound_type d.bound (merge_bound-AtMost d m),
  merge_bounds-Meets (merge_bound d m) ups,
)

bounds_loop-Meets :
    (m : Bounds) (us : List UpstreamState)
    → All (λ u. Meets (bounds_loop m us) u.lower_bounds_info) us
unfolding bounds_loop
bounds_loop-Meets m [] = tt
bounds_loop-Meets m (u ∷ us) = (
  Meets-Improves _ _ u.lower_bounds_info (bounds_loop-Improves _ us)
      (merge_bounds-Meets m u.lower_bounds_info),
  bounds_loop-Meets (merge_bounds m u.lower_bounds_info) us,
)

-- A bound stands among the bounds of one of the upstreams.
abbrev pub Reported : LowerBoundData → List UpstreamState → Type 0
Reported d = Any (λ u. Any (λ e. e.1 ≡ d) u.lower_bounds_info)

merge_bound-load :
    (x d : LowerBoundData) (m : Bounds) (t : LowerBoundType)
    → load ℕ_discrete t (merge_bound x m) ≡ some d
    → (load ℕ_discrete t m ≡ some d) ⊎ (x ≡ d)
unfolding merge_bound
merge_bound-load x d m t e = ground (arith, load-store ℕ_discrete x.bound_type t x m)

merge_bounds-load :
    (m ups : Bounds) (d : LowerBoundData) (t : LowerBoundType)
    → load ℕ_discrete t (merge_bounds m ups) ≡ some d
    → (load ℕ_discrete t m ≡ some d) ⊎ Any (λ e. e.1 ≡ d) ups
unfolding merge_bounds
merge_bounds-load m [] d t e = inl e
merge_bounds-load m ((_, x) ∷ ups) d t e = elim (merge_bounds-load (merge_bound x m) ups d t e) [
  | inl old ↦ elim (merge_bound-load x d m t old) [ inl o ↦ inl o | inr q ↦ inr (inl q) ]
  | inr later ↦ inr (inr later)
]

bounds_loop-load :
    (m : Bounds) (us : List UpstreamState) (d : LowerBoundData) (t : LowerBoundType)
    → load ℕ_discrete t (bounds_loop m us) ≡ some d
    → (load ℕ_discrete t m ≡ some d) ⊎ Reported d us
unfolding bounds_loop
bounds_loop-load m [] d t e = inl e
bounds_loop-load m (u ∷ us) d t e =
    elim (bounds_loop-load (merge_bounds m u.lower_bounds_info) us d t e) [
      | inl old ↦ elim (merge_bounds-load m u.lower_bounds_info d t old) [
        | inl o ↦ inl o
        | inr q ↦ inr (inl q)
      ]
      | inr later ↦ inr (inr later)
    ]

-- The merged bounds meet or better every bound that an upstream reports, and a merged bound is one
-- that an upstream reports.
pub process_lower_bounds-lowest :
    (us : List UpstreamState) (t : LowerBoundType) (d : LowerBoundData)
    → load ℕ_discrete t (process_lower_bounds us) ≡ some d
    → All (λ u. Meets (process_lower_bounds us) u.lower_bounds_info) us × Reported d us
unfolding process_lower_bounds load
process_lower_bounds-lowest us t d e =
    (bounds_loop-Meets [] us, elim (bounds_loop-load [] us d t e) [ inl z ↦ cc | inr r ↦ r ])
