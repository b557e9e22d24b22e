-- ===== src/LowerBounds/Search/Bound.antt =====
-- internal/upstreams/lower_bounds/lower_bound_search.go: the search ends, and what it finds.
use nodecore.Base.{
  ℕ, zero, suc, ◌-◌, ◌≤◌, ◌<◌, ◌≡◌, ◌⊎◌, inl, inr, refl, Bool, true, false, ◌&&◌, Option, none,
  some, ltb, leb, arith, max, subst, sym, Bool-cases, ap,
}
use nodecore.LowerBounds.Search.Edge.{AtEdge, detect_plain-AtEdge}
use nodecore.LowerBounds.Search.{
  BoundRange, initial_range, converge, candidate, middle, narrow, search, detect_plain,
}

module _ (has_data : ℕ → Bool) where
  -- The heights that are left to search.
  abbrev pub width : BoundRange → ℕ
  width state = state.right_end - state.left

  pub middle-inside :
      (state : BoundRange)
      → state.left < state.right_end
      → (state.left ≤ middle has_data state) × (middle has_data state < state.right_end)
  middle-inside state h = (omega arith, omega arith)

  narrow-shrinks :
      (state : BoundRange)
      → state.left < state.right_end
      → width (narrow has_data state) < width state
  unfolding narrow
  narrow-shrinks state h = ground (arith, middle-inside state h)

  narrow-below :
      (latest : ℕ) (state : BoundRange)
      → state.left < state.right_end
      → state.right_end ≤ suc latest
      → (narrow has_data state).right_end ≤ suc latest
  unfolding narrow
  narrow-below latest state l h = ground (arith, middle-inside state l)

  -- What the probe has said of the candidate: nothing yet, or that it has data.
  unfoldable pub Probed : ℕ → BoundRange → Type 0
  Probed latest state =
      ((state.right_end ≡ suc latest) × (state.current ≡ 0)) ⊎ (has_data state.current ≡ true)

  narrow-Probed :
      (latest : ℕ) (state : BoundRange)
      → Probed latest state
      → Probed latest (narrow has_data state)
  unfolding narrow Probed
  narrow-Probed latest state h = elim (Bool-cases (has_data (middle has_data state))) [
    | inl e ↦ inr (rw (narrow, e, e) refl)
    | inr e ↦ rw (narrow, e) h
  ]

  -- A bound has data, or it is the 1 of a chain that has no data for block 1 and that is at most 10
  -- blocks high or has data for block 0.
  abbrev pub Sound : ℕ → Option ℕ → Type 0
  Sound latest none = 10 < latest
  Sound latest (some b) =
      (has_data b ≡ true) ⊎ ((b ≡ 1) × (has_data 1 ≡ false) × ((latest ≤ 10) ⊎ (has_data 0 ≡ true)))

  -- The candidate 1, which stands for block 0 and for no candidate.
  one-Sound :
      (latest : ℕ) (state : BoundRange)
      → state.right_end ≤ suc latest
      → candidate state.current ≡ 1
      → (state.right_end ≤ 11 → (latest ≤ 10) ⊎ (has_data 0 ≡ true))
      → Sound latest (converge has_data state)
  unfolding converge
  one-Sound latest state b e low = elim (Bool-cases (has_data 1)) [
    | inl q ↦ rw (e, q) (inl q)
    | inr q ↦ elim (Bool-cases (ltb 11 state.right_end)) [
      | inl r ↦ rw (e, q, r) (ground arith)
      | inr r ↦ rw (e, q, r) (inr (refl, q, low (ground arith)))
    ]
  ]

  Cases : (n : ℕ) → (n ≡ 0) ⊎ (candidate n ≡ n)
  Cases zero = inl refl
  Cases (suc n) = inr (ground arith)

  pub converge-Sound :
      (latest : ℕ) (state : BoundRange)
      → state.right_end ≤ suc latest
      → Probed latest state
      → Sound latest (converge has_data state)
  unfolding converge Probed
  converge-Sound latest state b (inl (r, c)) =
      one-Sound latest state b (rw c refl) (λ small. inl (omega arith))
  converge-Sound latest state b (inr e) = elim (Cases state.current) [
    | inl c ↦ one-Sound latest state b (rw c refl) (λ _. inr (subst (λ n. has_data n ≡ true) c e))
    | inr c ↦
        let f : has_data (candidate state.current) ≡ true =
          subst (λ n. has_data n ≡ true) (sym c) e in
        rw f (inl f)
  ]

  search-Sound :
      (fuel latest : ℕ) (state : BoundRange)
      → width state < fuel
      → state.right_end ≤ suc latest
      → Probed latest state
      → (answer : Option ℕ) × (search has_data fuel state ≡ some answer) × Sound latest answer
  unfolding search
  search-Sound zero latest state h b p = elim h [ ]
  search-Sound (suc fuel) latest state h b p = elim (Bool-cases (leb state.right_end state.left)) [
    | inl e ↦ (converge has_data state, rw e refl, converge-Sound latest state b p)
    | inr e ↦
        let l : state.left < state.right_end = ground arith in
        let (answer, found, sound) =
          search-Sound fuel latest (narrow has_data state) (omega (arith, narrow-shrinks state l))
            (narrow-below latest state l b) (narrow-Probed latest state p) in
        (answer, rw e found, sound)
  ]

-- The upstream has data for exactly the heights from `bound` on.
module _ (bound : ℕ) where
  abbrev pub holds_from : ℕ → Bool
  holds_from height = leb bound height

  -- Below the range nothing is held; above it everything is, and the lowest of that is the candidate.
  Encloses : ℕ → BoundRange → Type 0
  Encloses latest state =
      (state.left ≤ bound)
      × (state.left ≤ state.right_end)
      × (((state.right_end ≡ suc latest) × (state.current ≡ 0))
          ⊎ ((state.right_end ≡ state.current) × (bound ≤ state.current)))

  narrow-Encloses :
      (latest : ℕ) (state : BoundRange)
      → bound ≤ latest
      → state.left < state.right_end
      → Encloses latest state
      → Encloses latest (narrow holds_from state)
  unfolding narrow Encloses
  narrow-Encloses latest state h l (a, b, c) =
      let (m0, m1) = middle-inside holds_from state l in
      elim (Bool-cases (holds_from (middle holds_from state))) [
        | inl e ↦ rw (narrow, e) (a, m0, inr (refl, ground arith))
        | inr e ↦ rw (narrow, e) (ground arith, m1, c)
      ]

  converge-Bound :
      (latest : ℕ) (state : BoundRange)
      → bound ≤ latest
      → state.right_end ≤ state.left
      → Encloses latest state
      → converge holds_from state ≡ some (max bound 1)
  unfolding converge Encloses
  converge-Bound latest state h l (a, b, inl (c, d)) = absurd (omega arith)
  converge-Bound latest state h l (a, b, inr (c, d)) = ground arith

  search-Bound :
      (fuel latest : ℕ) (state : BoundRange)
      → bound ≤ latest
      → width holds_from state < fuel
      → Encloses latest state
      → search holds_from fuel state ≡ some (some (max bound 1))
  unfolding search
  search-Bound zero latest state h w e = elim w [ ]
  search-Bound (suc fuel) latest state h w e = elim (Bool-cases (leb state.right_end state.left)) [
    | inl q ↦ rw (q, converge-Bound latest state h (ground arith) e) refl
    | inr q ↦
        let l : state.left < state.right_end = ground arith in
        rw q (
          search-Bound fuel latest (narrow holds_from state) h
            (omega (arith, narrow-shrinks holds_from state l)) (narrow-Encloses latest state h l e))
  ]

-- When the upstream has data exactly from block `bound` on, `bound` is not above the latest block and
-- the cached bound, if any, not above `bound`, the search finds `bound`, as 1 if it is 0.
pub detect_plain-bound :
    (bound cached latest : ℕ)
    → bound ≤ latest
    → cached ≤ bound
    → detect_plain (holds_from bound) cached latest ≡ some (some (max bound 1))
unfolding detect_plain initial_range Encloses
detect_plain-bound bound cached latest h c =
    let full =
      search-Bound bound (suc (suc latest)) latest (initial_range cached latest) h (omega arith)
        (c, omega arith, inl (refl, refl)) in
    elim (Bool-cases (ltb 0 cached && holds_from bound cached)) [
      | inl e ↦ let q : cached ≡ max bound 1 = ground arith in rw e (ap (λ n. some (some n)) q)
      | inr e ↦ rw e full
    ]

-- Whatever the probe answers, the search ends. A bound that it finds has data; or it is 1, the
-- probe says that block 1 has no data, and the latest block is 10 at most or the probe says that
-- block 0 has data, whatever it says of the blocks above 1. The search finds no bound only if the
-- latest block is above 10. A bound that is not 1 is the cached bound, or the probe says that the
-- block right below it has no data.
pub detect_plain-Sound :
    (has_data : ℕ → Bool) (cached latest : ℕ)
    → (answer : Option ℕ) × (detect_plain has_data cached latest ≡ some answer)
      × Sound has_data latest answer
      × AtEdge has_data cached answer
unfolding detect_plain initial_range Probed
detect_plain-Sound has_data cached latest =
    let full =
      search-Sound has_data (suc (suc latest)) latest (initial_range cached latest) (omega arith)
        (omega arith) (inl (refl, refl)) in
    elim (Bool-cases (ltb 0 cached && has_data cached)) [
      | inl e ↦ (some cached, rw e refl, inl (ground arith), inr (inl refl))
      | inr e ↦
          let found : detect_plain has_data cached latest ≡ some full.0 = rw e full.1 in
          (full.0, found, full.2, detect_plain-AtEdge has_data cached latest full.0 found)
    ]
