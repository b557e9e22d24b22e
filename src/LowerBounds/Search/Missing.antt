-- ===== src/LowerBounds/Search/Missing.antt =====
-- internal/upstreams/lower_bounds/lower_bound_search.go: the bound that the search with an offset finds
-- when blocks are missing above it.
use nodecore.Base.{
  ℕ, zero, suc, ◌≤◌, ◌<◌, ◌≡◌, ◌⊎◌, inl, inr, refl, Bool, true, false, ◌&&◌, Option, none, some,
  ltb, leb, arith, max, sym, Bool-cases, ap, List, [], ℕ_discrete, if_true, if_false, ◌∙◌,
}
use nodecore.Keyed.{contains}
use nodecore.LowerBounds.Search.{
  BoundRange, initial_range, converge, middle, shift_left, shifted, narrow_with_offset,
  search_with_offset, detect_with_offset,
}
use nodecore.LowerBounds.Search.Bound.{width, middle-inside}
use nodecore.LowerBounds.Search.Offset.{
  shift_left-data, narrow_found, narrow_shifted, shifted-shrinks,
}
use nodecore.LowerBounds.Search.Gaps.{HasGaps, Above, Around, scan-finds, scan-visited}

held : (has_data : ℕ → Bool) (h : ℕ) → has_data h ≡ true → has_data h ≡ false → ⊥
held has_data h e f = let x : true ≡ false = sym e ∙ f in cc

module _ (has_data : ℕ → Bool) (max_offset bound latest : ℕ)
    (gaps : HasGaps has_data max_offset bound latest) where
  not_below : (h : ℕ) → has_data h ≡ true → bound ≤ h
  not_below h e = elim (Bool-cases (ltb h bound)) [
    | inl q ↦ absurd (held has_data h e (gaps.0 h (ground arith)))
    | inr q ↦ ground arith
  ]

  -- From the middle without data the scan finds a block when the bound is below the middle.
  shift_left_above :
      (state : BoundRange) (visited : List ℕ) (m : ℕ)
      → Around has_data max_offset bound latest state visited
      → m < state.right_end
      → bound < m
      → has_data m ≡ false
      → (block : ℕ) × ((shift_left has_data max_offset m 0 visited).0 ≡ some block)
  shift_left_above state visited m (a, b, c, out) h l e =
      let (d, below, near, holds) = gaps.2 m l (omega arith) e in
      let low = not_below d holds in
      scan-finds has_data max_offset m 0 visited d below (omega arith) holds (λ v from to.
        elim (Bool-cases (contains ℕ_discrete v visited)) [
          | inl q ↦ elim (out v q) [ inl x ↦ absurd (omega arith) | inr x ↦ absurd (omega arith) ]
          | inr q ↦ q
        ])

  shifted-Around :
      (state : BoundRange) (visited after : List ℕ) (found : Option ℕ)
      → Around has_data max_offset bound latest state visited
      → state.left < state.right_end
      → ((block : ℕ)
          → found ≡ some block
          → (block < middle has_data state) × (has_data block ≡ true))
      → (found ≡ none → middle has_data state < bound)
      → ((v : ℕ)
          → contains ℕ_discrete v after ≡ true
          → (contains ℕ_discrete v visited ≡ true) ⊎ ((v < middle has_data state) × Above found v))
      → Around has_data max_offset bound latest (shifted has_data max_offset state found) after
  shifted-Around state visited after none (a, b, c, out) l holds low seen =
      let m = low refl in
      let (m0, m1) = middle-inside has_data state l in
      (
        omega arith,
        b,
        c,
        λ v h. elim (seen v h) [
          | inr (x, _) ↦ inl (omega arith)
          | inl x ↦ elim (out v x) [ inl y ↦ inl (omega arith) | inr y ↦ inr y ]
        ],
      )
  shifted-Around state visited after (some block) (a, b, c, out) l holds low seen =
      let (less, e) = holds block refl in
      let (m0, m1) = middle-inside has_data state l in
      (
        a,
        omega arith,
        inr (refl, not_below block e),
        λ v h. elim (seen v h) [
          | inr (x, y) ↦ inr (omega arith)
          | inl x ↦ elim (out v x) [ inl y ↦ inl y | inr y ↦ inr (omega arith) ]
        ],
      )

  narrow_with_offset-Around :
      (state : BoundRange) (visited : List ℕ)
      → Around has_data max_offset bound latest state visited
      → state.left < state.right_end
      → let next = narrow_with_offset has_data max_offset state visited in
        (width has_data next.0 < width has_data state)
        × Around has_data max_offset bound latest next.0 next.1
  narrow_with_offset-Around state visited (a, b, c, out) l =
      let m = middle has_data state in
      let (m0, m1) = middle-inside has_data state l in
      let r = shift_left has_data max_offset m 0 visited in
      elim (Bool-cases (has_data m)) [
        | inl e ↦ rw (narrow_found has_data max_offset state visited e) (
          omega arith,
          (
            a,
            omega arith,
            inr (refl, not_below m e),
            λ v h. elim (out v h) [ inl x ↦ inl x | inr x ↦ inr (omega arith) ],
          ),
        )
        | inr e ↦
            let holds = shift_left-data has_data max_offset m 0 visited in
            rw (narrow_shifted has_data max_offset state visited e) (
              shifted-shrinks has_data max_offset state r.0 l (λ x f. (holds x f).0),
              shifted-Around state visited r.1 r.0 (a, b, c, out) l holds
                  (λ n. elim (Bool-cases (ltb m bound)) [
                    | inl q ↦ ground arith
                    | inr q ↦ elim (ℕ_discrete m bound) [
                      | yes z ↦ absurd (held has_data bound gaps.1 (ap has_data (sym z) ∙ e))
                      | no z ↦
                          let (block, f) =
                            shift_left_above state visited m (a, b, c, out) m1 (ground arith) e in
                          let x : none ≡ some block = sym n ∙ f in cc
                    ]
                  ])
                  (scan-visited has_data max_offset m 0 visited),
            )
      ]

  converge-Missing :
      (state : BoundRange) (visited : List ℕ)
      → bound ≤ latest
      → state.right_end ≤ state.left
      → Around has_data max_offset bound latest state visited
      → converge has_data state ≡ some (max bound 1)
  unfolding converge
  converge-Missing state visited h l (a, b, inl (c, d), out) = absurd (omega arith)
  converge-Missing state visited h l (a, b, inr (c, d), out) =
      let e : state.current ≡ bound = omega arith in
      let f : state.right_end ≡ bound = omega arith in rw (e, f) (at bound gaps.1)
    where
      at :
          (n : ℕ)
          → has_data n ≡ true
          → converge has_data (record { left = state.left; right_end = n; current = n })
            ≡ some (max n 1)
      at n e = ground arith

  search_with_offset-Missing :
      (fuel : ℕ) (state : BoundRange) (visited : List ℕ)
      → bound ≤ latest
      → width has_data state < fuel
      → Around has_data max_offset bound latest state visited
      → search_with_offset has_data max_offset fuel state visited ≡ some (some (max bound 1))
  unfolding search_with_offset
  search_with_offset-Missing zero state visited h w i = elim w [ ]
  search_with_offset-Missing (suc fuel) state visited h w i =
      elim (Bool-cases (leb state.right_end state.left)) [
        | inl e ↦
            if_true _ _ e ∙ ap (λ o. some o) (converge-Missing state visited h (ground arith) i)
        | inr e ↦
            let l : state.left < state.right_end = ground arith in
            let next = narrow_with_offset has_data max_offset state visited in
            let (less, i') = narrow_with_offset-Around state visited i l in
            if_false _ _ e ∙ search_with_offset-Missing fuel next.0 next.1 h (omega arith) i'
      ]

-- When an upstream has no data below `bound`, which is not above the latest block and not below the
-- cached bound, has data for `bound`, and, for each later block that is missing, has one of the
-- `max_offset` + 1 blocks before it, the search with an offset finds `bound`, as 1 if it is 0.
pub detect_with_offset-missing :
    (has_data : ℕ → Bool) (max_offset bound cached latest : ℕ)
    → HasGaps has_data max_offset bound latest
    → bound ≤ latest
    → cached ≤ bound
    → detect_with_offset has_data max_offset cached latest ≡ some (some (max bound 1))
unfolding detect_with_offset initial_range contains
detect_with_offset-missing has_data max_offset bound cached latest gaps h c =
    let full =
      search_with_offset-Missing has_data max_offset bound latest gaps (suc (suc latest))
        (initial_range cached latest) [] h (omega arith)
        (c, omega arith, inl (refl, refl), λ v q. let x : false ≡ true = q in cc) in
    elim (Bool-cases (ltb 0 cached && has_data cached)) [
      | inl e ↦
          let low = not_below has_data max_offset bound latest gaps cached (ground arith) in
          let q : cached ≡ max bound 1 = ground arith in if_true _ _ e ∙ ap (λ n. some (some n)) q
      | inr e ↦ if_false _ _ e ∙ full
    ]
