-- ===== src/LowerBounds/Tests.antt =====
-- The search of a lower bound on a chain of 100 blocks.
use nodecore.Base.{
  ℕ, ◌==◌, ◌&&◌, not, Bool, List, ℕ_discrete, ◌≡◌, refl, arith, some, none, Option, ◌∷◌, leb, [],
}
use nodecore.LowerBounds.Search.{
  detect_plain, search, narrow, converge, initial_range, lower_bound_results, shift_left,
  narrow_with_offset, search_with_offset, detect_with_offset, detect_lower_bound,
}
use nodecore.LowerBounds.Search.Edge.{AtEdge}
use nodecore.LowerBounds.Search.Bound.{holds_from, Sound, detect_plain-bound, detect_plain-Sound}
use nodecore.LowerBounds.Search.Gaps.{HasGaps}
use nodecore.LowerBounds.Search.Missing.{detect_with_offset-missing}
use nodecore.LowerBounds.Search.Rounds.{detect_rounds, rounds_of, bounds_of, detect_rounds-bounds}
use nodecore.Keyed.{contains, add}

program : Unit {0}
unfolding detect_plain search narrow converge initial_range lower_bound_results shift_left
    narrow_with_offset search_with_offset detect_with_offset detect_lower_bound detect_rounds
    contains add ℕ_discrete
program = tt

finds_forty : detect_plain (leb 40) 0 100 ≡ some (some 40)
unfolding program
finds_forty = refl

gives_up : detect_plain (leb 400) 0 100 ≡ some none
unfolding program
gives_up = refl

main_type_only : lower_bound_results [] 3 40 ≡ (40, 3) ∷ []
unfolding program
main_type_only = refl

detect_plain-bound_example : detect_plain (holds_from 40) 7 100 ≡ some (some 40)
detect_plain-bound_example = detect_plain-bound 40 7 100 (omega arith) (omega arith)

detect_plain-Sound_example :
    (answer : Option ℕ) × (detect_plain (leb 40) 7 100 ≡ some answer)
    × Sound (leb 40) 100 answer
    × AtEdge (leb 40) 7 answer
detect_plain-Sound_example = detect_plain-Sound (leb 40) 7 100

-- Data from block 4 on, of which block 6 is missing.
abbrev six_missing : ℕ → Bool
six_missing h = leb 4 h && not (h == 6)

plain_stops_above : detect_plain six_missing 0 13 ≡ some (some 7)
unfolding program
plain_stops_above = refl

offset_goes_on : detect_with_offset six_missing 1 0 13 ≡ some (some 4)
unfolding program
offset_goes_on = refl

six_missing-HasGaps : HasGaps six_missing 1 4 13
six_missing-HasGaps = (
  λ h l. ground arith,
  ground arith,
  λ h l m e. let q : h ≡ 6 = ground arith in (5, omega arith, omega arith, refl),
)

detect_with_offset-missing_example : detect_with_offset six_missing 1 0 13 ≡ some (some 4)
detect_with_offset-missing_example =
    detect_with_offset-missing six_missing 1 4 0 13 six_missing-HasGaps (omega arith) (omega arith)

abbrev pruning : List (ℕ × ℕ)
pruning = (0, 90) ∷ (40, 99) ∷ (45, 120) ∷ []

detect_rounds-bounds_example : detect_rounds 2 (rounds_of pruning) 0 ≡ some (bounds_of pruning)
detect_rounds-bounds_example =
    detect_rounds-bounds 2 pruning
      (omega arith, omega arith, (omega arith, omega arith, (omega arith, omega arith, tt)))
