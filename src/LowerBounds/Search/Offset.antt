-- ===== src/LowerBounds/Search/Offset.antt =====
-- internal/upstreams/lower_bounds/lower_bound_search.go: the search with an offset ends, and what its
-- bound is.
use nodecore.Base.{
  ℕ, zero, suc, ◌≤◌, ◌<◌, ◌≡◌, inl, inr, refl, Bool, true, false, ◌&&◌, Option, none, some, ltb,
  leb, arith, Bool-cases, List, [], ℕ_discrete, if_true, if_false, ◌∙◌,
}
use nodecore.Keyed.{add}
use nodecore.LowerBounds.Search.{
  BoundRange, initial_range, converge, middle, shift_left, shifted, narrow_with_offset,
  search_with_offset, detect_with_offset,
}
use nodecore.LowerBounds.Search.Bound.{width, middle-inside, Probed, Sound, converge-Sound}

module _ (has_data : ℕ → Bool) (max_offset : ℕ) where
  -- A block that is found is below the end and has data.
  pub shift_left-data :
      (end count : ℕ) (visited : List ℕ) (block : ℕ)
      → (shift_left has_data max_offset end count visited).0 ≡ some block
      → (block < end) × (has_data block ≡ true)
  unfolding shift_left
  shift_left-data zero count visited block e = cc
  shift_left-data (suc b) count visited block e =
      ground (arith, shift_left-data b (suc count) (add ℕ_discrete b visited) block)

  pub shifted-shrinks :
      (state : BoundRange) (found : Option ℕ)
      → state.left < state.right_end
      → ((block : ℕ) → found ≡ some block → block < middle has_data state)
      → width has_data (shifted has_data max_offset state found) < width has_data state
  shifted-shrinks state none l h = omega (arith, middle-inside has_data state l)
  shifted-shrinks state (some block) l h =
      omega (arith, middle-inside has_data state l, h block refl)

  pub narrow_found :
      (state : BoundRange) (visited : List ℕ)
      → has_data (middle has_data state) ≡ true
      → narrow_with_offset has_data max_offset state visited ≡ (
        record state { right_end = middle has_data state; current = middle has_data state },
        visited,
      )
  unfolding narrow_with_offset
  narrow_found state visited e = if_true _ _ e

  pub narrow_shifted :
      (state : BoundRange) (visited : List ℕ)
      → has_data (middle has_data state) ≡ false
      → narrow_with_offset has_data max_offset state visited ≡ (
        shifted has_data max_offset state
            (shift_left has_data max_offset (middle has_data state) 0 visited).0,
        (shift_left has_data max_offset (middle has_data state) 0 visited).1,
      )
  unfolding narrow_with_offset
  narrow_shifted state visited e = if_false _ _ e

  -- What a turn of the search keeps.
  abbrev pub Narrows : ℕ → BoundRange → BoundRange → Type 0
  Narrows latest state next =
      (width has_data next < width has_data state)
      × (next.right_end ≤ suc latest)
      × Probed has_data latest next

  shifted-Narrows :
      (latest : ℕ) (state : BoundRange) (found : Option ℕ)
      → state.left < state.right_end
      → state.right_end ≤ suc latest
      → Probed has_data latest state
      → ((block : ℕ)
          → found ≡ some block
          → (block < middle has_data state) × (has_data block ≡ true))
      → Narrows latest state (shifted has_data max_offset state found)
  unfolding Probed
  shifted-Narrows latest state none l b p h =
      (shifted-shrinks state none l (λ x e. (h x e).0), b, p)
  shifted-Narrows latest state (some block) l b p h = (
    shifted-shrinks state (some block) l (λ x e. (h x e).0),
    omega (arith, (h block refl).0, middle-inside has_data state l),
    inr ((h block refl).1),
  )

  pub narrow_with_offset-Narrows :
      (latest : ℕ) (state : BoundRange) (visited : List ℕ)
      → state.left < state.right_end
      → state.right_end ≤ suc latest
      → Probed has_data latest state
      → Narrows latest state (narrow_with_offset has_data max_offset state visited).0
  unfolding Probed
  narrow_with_offset-Narrows latest state visited l b p =
      let (m0, m1) = middle-inside has_data state l in
      elim (Bool-cases (has_data (middle has_data state))) [
        | inl e ↦ rw (narrow_found state visited e) (omega arith, omega arith, inr e)
        | inr e ↦
            let found = (shift_left has_data max_offset (middle has_data state) 0 visited).0 in
            rw (narrow_shifted state visited e) (
              shifted-Narrows latest state found l b p
                (shift_left-data (middle has_data state) 0 visited))
      ]

  search_with_offset-Sound :
      (fuel latest : ℕ) (state : BoundRange) (visited : List ℕ)
      → width has_data state < fuel
      → state.right_end ≤ suc latest
      → Probed has_data latest state
      → (answer : Option ℕ) × (search_with_offset has_data max_offset fuel state visited
          ≡ some answer)
        × Sound has_data latest answer
  unfolding search_with_offset
  search_with_offset-Sound zero latest state visited h b p = elim h [ ]
  search_with_offset-Sound (suc fuel) latest state visited h b p =
      elim (Bool-cases (leb state.right_end state.left)) [
        | inl e ↦ (converge has_data state, if_true _ _ e, converge-Sound has_data latest state b p)
        | inr e ↦
            let l : state.left < state.right_end = ground arith in
            let next = narrow_with_offset has_data max_offset state visited in
            let (w, b', p') = narrow_with_offset-Narrows latest state visited l b p in
            let (answer, found, sound) =
              search_with_offset-Sound fuel latest next.0 next.1 (omega arith) b' p' in
            (answer, if_false _ _ e ∙ found, sound)
      ]

-- Whatever the probe answers, the search with an offset ends. A bound that it finds has data, or it is
-- 1, and then the chain is at most 10 blocks high or the probe says that there is data for block 0. It
-- finds none only on a chain of more than 10 blocks.
pub detect_with_offset-Sound :
    (has_data : ℕ → Bool) (max_offset cached latest : ℕ)
    → (answer : Option ℕ) × (detect_with_offset has_data max_offset cached latest ≡ some answer)
      × Sound has_data latest answer
unfolding detect_with_offset initial_range Probed
detect_with_offset-Sound has_data max_offset cached latest =
    let full =
      search_with_offset-Sound has_data max_offset (suc (suc latest)) latest
        (initial_range cached latest) [] (omega arith) (omega arith) (inl (refl, refl)) in
    elim (Bool-cases (ltb 0 cached && has_data cached)) [
      | inl e ↦ (some cached, if_true _ _ e, inl (ground arith))
      | inr e ↦ (full.0, if_false _ _ e ∙ full.1, full.2)
    ]
