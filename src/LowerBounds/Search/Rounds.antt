-- ===== src/LowerBounds/Search/Rounds.antt =====
-- internal/upstreams/lower_bounds/lower_bound_search.go: detections one after the other.
use nodecore.Base.{
  ℕ, suc, ◌≤◌, ◌<◌, ◌≡◌, ◌⊎◌, inl, inr, refl, Bool, false, Option, none, some, ltb, leb, arith, max,
  Bool-cases, List, [], ◌∷◌,
}
use nodecore.Int.{ℤ, pos}
use nodecore.LowerBounds.Search.{detect_plain, detect_with_offset, detect_lower_bound}
use nodecore.LowerBounds.Search.Bound.{holds_from, detect_plain-bound}
use nodecore.LowerBounds.Search.Gaps.{HasGaps}
use nodecore.LowerBounds.Search.Missing.{detect_with_offset-missing}

holds_from-HasGaps :
    (max_offset bound latest : ℕ) → HasGaps (holds_from bound) max_offset bound latest
holds_from-HasGaps max_offset bound latest =
    (λ h l. ground arith, ground arith, λ h l m e. absurd (contra h l e))
  where
    contra : (h : ℕ) → bound < h → holds_from bound h ≡ false → ⊥
    contra h l e = ground arith

detect_plain_one : (latest : ℕ) → detect_plain (holds_from 0) 1 latest ≡ some (some 1)
unfolding detect_plain
detect_plain_one latest = ground arith

detect_with_offset_one :
    (max_offset latest : ℕ) → detect_with_offset (holds_from 0) max_offset 1 latest ≡ some (some 1)
unfolding detect_with_offset
detect_with_offset_one max_offset latest = ground arith

-- The cached bound that detections leave is not above the bound, or it is the 1 of the bound 0.
last-cases : (last bound : ℕ) → last ≤ max bound 1 → (last ≤ bound) ⊎ ((last ≡ 1) × (bound ≡ 0))
last-cases last bound h = elim (Bool-cases (leb last bound)) [
  | inl e ↦ inl (ground arith)
  | inr e ↦ inr (ground arith, ground arith)
]

module _ (max_offset bound last n : ℕ) (h : bound ≤ suc n) (l : last ≤ max bound 1) where
  detect_plain-follows : detect_plain (holds_from bound) last (suc n) ≡ some (some (max bound 1))
  detect_plain-follows = elim (last-cases last bound l) [
    | inl c ↦ detect_plain-bound bound last (suc n) h c
    | inr (e, f) ↦ rw (e, f) (detect_plain_one (suc n))
  ]

  detect_with_offset-follows :
      detect_with_offset (holds_from bound) max_offset last (suc n) ≡ some (some (max bound 1))
  detect_with_offset-follows = elim (last-cases last bound l) [
    | inl c ↦
        detect_with_offset-missing (holds_from bound) max_offset bound last (suc n)
          (holds_from-HasGaps max_offset bound (suc n)) h c
    | inr (e, f) ↦ rw (e, f) (detect_with_offset_one max_offset (suc n))
  ]

  detect_lower_bound-follows :
      detect_lower_bound (holds_from bound) max_offset last (pos (suc n))
      ≡ some (some (max bound 1), max bound 1)
  unfolding detect_lower_bound
  detect_lower_bound-follows = elim (Bool-cases (ltb 0 max_offset)) [
    | inl e ↦ rw (detect_lower_bound, e, detect_with_offset-follows) refl
    | inr e ↦ rw (detect_lower_bound, e, detect_plain-follows) refl
  ]

-- The bounds that one detection after the other finds, from the last bound on.
unfoldable pub detect_rounds : ℕ → List ((ℕ → Bool) × ℤ) → ℕ → Option (List (Option ℕ))
unfolding detect_lower_bound
detect_rounds max_offset [] last = some []
detect_rounds max_offset ((has_data, latest) ∷ rounds) last =
    elim (detect_lower_bound has_data max_offset last latest) [
      | none ↦ none
      | some (found, next) ↦ elim (detect_rounds max_offset rounds next) [
        | none ↦ none
        | some answers ↦ some (found ∷ answers)
      ]
    ]

-- An upstream over time: the block from which on it has data, and its latest height less one.
abbrev pub rounds_of : List (ℕ × ℕ) → List ((ℕ → Bool) × ℤ)
rounds_of [] = []
rounds_of ((bound, n) ∷ times) = (holds_from bound, pos (suc n)) ∷ rounds_of times

abbrev pub bounds_of : List (ℕ × ℕ) → List (Option ℕ)
bounds_of [] = []
bounds_of ((bound, n) ∷ times) = some (max bound 1) ∷ bounds_of times

-- The bound never falls and is not above the latest height.
abbrev pub Rises : ℕ → List (ℕ × ℕ) → Type 0
Rises least [] = Unit
Rises least ((bound, n) ∷ times) = (least ≤ bound) × (bound ≤ suc n) × Rises bound times

detect_rounds-follow :
    (max_offset least last : ℕ) (times : List (ℕ × ℕ))
    → last ≤ max least 1
    → Rises least times
    → detect_rounds max_offset (rounds_of times) last ≡ some (bounds_of times)
unfolding detect_rounds
detect_rounds-follow max_offset least last [] l r = refl
detect_rounds-follow max_offset least last ((bound, n) ∷ times) l (a, b, r) =
    let now = detect_lower_bound-follows max_offset bound last n b (omega arith) in
    let later = detect_rounds-follow max_offset bound (max bound 1) times (omega arith) r in
    rw (detect_rounds, now, later) refl

-- Whatever the offset, when the block from which on an upstream has data never falls and is not above
-- its latest height, a new calculator finds that block in each detection, as 1 if it is 0.
pub detect_rounds-bounds :
    (max_offset : ℕ) (times : List (ℕ × ℕ))
    → Rises 0 times
    → detect_rounds max_offset (rounds_of times) 0 ≡ some (bounds_of times)
detect_rounds-bounds max_offset times r = detect_rounds-follow max_offset 0 0 times (omega arith) r
