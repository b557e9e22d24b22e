-- ===== src/LowerBounds/Search/Gaps.antt =====
-- internal/upstreams/lower_bounds/lower_bound_search.go: the search with an offset over missing blocks.
use nodecore.Base.{
  ℕ, zero, suc, ◌+◌, ◌≤◌, ◌<◌, ◌≡◌, ◌≢◌, ◌⊎◌, inl, inr, refl, Bool, true, false, Option, none, some,
  ltb, arith, subst, sym, Bool-cases, ap, List, ℕ_discrete, if_true, if_false, ◌∙◌, if_neg,
}
use nodecore.Keyed.{contains, add, contains-add}
use nodecore.LowerBounds.Search.{BoundRange, shift_left}
use nodecore.LowerBounds.Search.Offset.{shift_left-data}

-- From `bound` to `latest` no more than `max_offset` blocks are missing in a row before each missing
-- block, and nothing is held below `bound`.
abbrev pub HasGaps : (ℕ → Bool) → ℕ → ℕ → ℕ → Type 0
HasGaps has_data max_offset bound latest =
    ((h : ℕ) → h < bound → has_data h ≡ false)
    × (has_data bound ≡ true)
    × ((h : ℕ)
        → bound < h
        → h ≤ latest
        → has_data h ≡ false
        → (d : ℕ) × (d < h) × (h ≤ d + suc max_offset) × (has_data d ≡ true))

-- The block that was found, if one was, is below.
abbrev pub Above : Option ℕ → ℕ → Type 0
Above none v = Unit
Above (some block) v = block < v

module _ (has_data : ℕ → Bool) (max_offset : ℕ) where
  abbrev scan : ℕ → ℕ → List ℕ → Option ℕ × List ℕ
  scan = shift_left has_data max_offset

  abbrev pub Clear : ℕ → ℕ → List ℕ → Type 0
  Clear d end visited = (v : ℕ) → d ≤ v → v < end → contains ℕ_discrete v visited ≡ false

  Clear-add :
      (d block : ℕ) (visited : List ℕ)
      → Clear d (suc block) visited
      → Clear d block (add ℕ_discrete block visited)
  Clear-add d block visited c v l h =
      let n : block ≢ v = omega arith in
      contains-add ℕ_discrete block v visited
      ∙ if_neg (ℕ_discrete block v) n true (contains ℕ_discrete v visited)
      ∙ c v l (omega arith)

  -- A block with data near enough is found, or one above it.
  pub scan-finds :
      (end count : ℕ) (visited : List ℕ) (d : ℕ)
      → d < end
      → end + count ≤ d + suc max_offset
      → has_data d ≡ true
      → Clear d end visited
      → (block : ℕ) × ((scan end count visited).0 ≡ some block)
  unfolding shift_left
  scan-finds zero count visited d l near e c = elim l [ ]
  scan-finds (suc b) count visited d l near e c =
      let new : contains ℕ_discrete b visited ≡ false = c b (omega arith) (omega arith) in
      elim (Bool-cases (has_data b)) [
        | inl q ↦ (b, rw (new, q) refl)
        | inr q ↦
            let n : d ≢ b = λ o. let x : true ≡ false = sym e ∙ ap has_data o ∙ q in cc in
            let more : ltb max_offset (suc count) ≡ false = ground arith in
            let (block, found) =
              scan-finds b (suc count) (add ℕ_discrete b visited) d (omega arith) (omega arith) e
                (Clear-add d b visited c) in
            (block, rw (new, q, more) found)
      ]

  above : (o : Option ℕ) (b : ℕ) → ((block : ℕ) → o ≡ some block → block < b) → Above o b
  above none b h = tt
  above (some block) b h = h block refl

  -- A step of the scan stops with what was visited, or goes on.
  scan-step :
      (b count : ℕ) (visited : List ℕ)
      → ((o : Option ℕ) × (scan (suc b) count visited ≡ (o, visited)))
        ⊎ (scan (suc b) count visited ≡ scan b (suc count) (add ℕ_discrete b visited))
  unfolding shift_left
  scan-step b count visited = elim (Bool-cases (contains ℕ_discrete b visited)) [
    | inl e ↦ inl (none, if_true _ _ e)
    | inr e ↦ elim (Bool-cases (has_data b)) [
      | inl q ↦ inl (some b, if_false _ _ e ∙ if_true _ _ q)
      | inr q ↦ elim (Bool-cases (ltb max_offset (suc count))) [
        | inl r ↦ inl (none, if_false _ _ e ∙ if_false _ _ q ∙ if_true _ _ r)
        | inr r ↦ inr (if_false _ _ e ∙ if_false _ _ q ∙ if_false _ _ r)
      ]
    ]
  ]

  -- What is visited afterwards was before, or stands below the end and above what was found.
  pub scan-visited :
      (end count : ℕ) (visited : List ℕ) (v : ℕ)
      → contains ℕ_discrete v (scan end count visited).1 ≡ true
      → (contains ℕ_discrete v visited ≡ true) ⊎ ((v < end) × Above (scan end count visited).0 v)
  unfolding shift_left
  scan-visited zero count visited v h = inl h
  scan-visited (suc b) count visited v h = elim (scan-step b count visited) [
    | inl (o, e) ↦ inl (ap (λ r. contains ℕ_discrete v r.1) (sym e) ∙ h)
    | inr e ↦
        let next = add ℕ_discrete b visited in
        let on = ap (λ r. contains ℕ_discrete v r.1) (sym e) ∙ h in
        elim (scan-visited b (suc count) next v on) [
          | inr (l, a) ↦ inr (omega arith, subst (λ r. Above r.0 v) (sym e) a)
          | inl old ↦ elim (ℕ_discrete b v) [
            | yes q ↦ inr (
              omega arith,
              subst (λ r. Above r.0 v) (sym e)
                  (above (scan b (suc count) next).0 v (λ x f.
                    subst (λ n. x < n) q
                      ((shift_left-data has_data max_offset b (suc count) next x f).0))),
            )
            | no q ↦ inl (
                sym (if_neg (ℕ_discrete b v) q true (contains ℕ_discrete v visited))
                ∙ sym (contains-add ℕ_discrete b v visited)
                ∙ old)
          ]
        ]
  ]

  -- The bound is in the range or is the candidate, and what is visited is out of the range.
  abbrev pub Around : ℕ → ℕ → BoundRange → List ℕ → Type 0
  Around bound latest state visited =
      (state.left ≤ bound)
      × (state.right_end ≤ suc latest)
      × (((state.right_end ≡ suc latest) × (state.current ≡ 0))
          ⊎ ((state.right_end ≡ state.current) × (bound ≤ state.current)))
      × ((v : ℕ) → contains ℕ_discrete v visited ≡ true → (v < state.left) ⊎ (state.right_end ≤ v))
