-- ===== src/LowerBounds/Search/Edge.antt =====
-- internal/upstreams/lower_bounds/lower_bound_search.go: a bound is at an edge of the data.
use nodecore.Base.{
  ℕ, zero, suc, ◌≤◌, ◌<◌, ◌≡◌, ◌⊎◌, inl, inr, refl, Bool, false, Option, none, some, leb, ltb, ◌&&◌,
  arith, subst, Bool-cases,
}
use nodecore.LowerBounds.Search.{
  BoundRange, initial_range, converge, candidate, middle, narrow, search, detect_plain,
}

module _ (has_data : ℕ → Bool) (cached : ℕ) where
  -- The height is the cached bound, or the probe says that the block right below it has no data.
  abbrev pub IsEdge : ℕ → Type 0
  IsEdge height = (height ≡ cached) ⊎ ((n : ℕ) × (height ≡ suc n) × (has_data n ≡ false))

  -- What is found is 1 or at an edge.
  abbrev pub AtEdge : Option ℕ → Type 0
  AtEdge none = Unit
  AtEdge (some b) = (b ≡ 1) ⊎ IsEdge b

  Edged : BoundRange → Type 0
  Edged state =
      ((state.current ≡ 0) ⊎ ((state.right_end ≡ state.current) × (state.left ≤ state.right_end)))
      × IsEdge state.left

  narrow-Edged :
      (state : BoundRange)
      → state.left < state.right_end
      → Edged state
      → Edged (narrow has_data state)
  unfolding narrow Edged
  narrow-Edged state l (c, e) = elim (Bool-cases (has_data (middle has_data state))) [
    | inl q ↦ rw (narrow, q) (inr (refl, omega arith), e)
    | inr q ↦
        rw (narrow, q)
          (
            elim c [ inl z ↦ inl z | inr (r, h) ↦ inr (r, omega (arith, l)) ],
            inr (middle has_data state, refl, q),
          )
  ]

  candidate-AtEdge :
      (state : BoundRange)
      → state.right_end ≤ state.left
      → Edged state
      → AtEdge (some (candidate state.current))
  unfolding Edged
  candidate-AtEdge state h (inl z, e) = inl (rw z refl)
  candidate-AtEdge state h (inr (r, l), e) = elim (Bool-cases (leb 1 state.current)) [
    | inl p ↦
        let same : state.left ≡ candidate state.current = ground arith in inr (subst IsEdge same e)
    | inr p ↦ inl (ground arith)
  ]

  converge-AtEdge :
      (state : BoundRange)
      → state.right_end ≤ state.left
      → Edged state
      → AtEdge (converge has_data state)
  unfolding converge
  converge-AtEdge state h e =
      let at = candidate-AtEdge state h e in
      elim (Bool-cases (has_data (candidate state.current))) [
        | inl q ↦ rw (converge, q) at
        | inr q ↦ rw (converge, q) (ground (arith, at))
      ]

  search-AtEdge :
      (fuel : ℕ) (state : BoundRange) (answer : Option ℕ)
      → Edged state
      → search has_data fuel state ≡ some answer
      → AtEdge answer
  unfolding search
  search-AtEdge zero state answer h e = cc
  search-AtEdge (suc fuel) state answer h e = elim (Bool-cases (leb state.right_end state.left)) [
    | inl q ↦
        let s : converge has_data state ≡ answer = ground (arith, e, q) in
        subst AtEdge s (converge-AtEdge state (ground (arith, q)) h)
    | inr q ↦
        search-AtEdge fuel (narrow has_data state) answer (narrow-Edged state (ground (arith, q)) h)
          (ground (arith, e, q))
  ]

  pub detect_plain-AtEdge :
      (latest : ℕ) (answer : Option ℕ)
      → detect_plain has_data cached latest ≡ some answer
      → AtEdge answer
  unfolding detect_plain initial_range Edged
  detect_plain-AtEdge latest answer h = elim (Bool-cases (ltb 0 cached && has_data cached)) [
    | inl e ↦ let s : some cached ≡ answer = ground (arith, e, h) in subst AtEdge s (inr (inl refl))
    | inr e ↦
        search-AtEdge (suc (suc latest)) (initial_range cached latest) answer (inl refl, inl refl)
          (ground (arith, e, h))
  ]
