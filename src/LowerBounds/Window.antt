-- ===== src/LowerBounds/Window.antt =====
-- internal/upstreams/lower_bounds/lower_bounds.go: the last bounds of each type and the line through
-- them, from which the next bound is predicted. Floating point numbers and the regression library are
-- arguments.
pub mod Lines
mod Tests
use nodecore.Base.{
  ℕ, Bool, not, ◌||◌, ◌==◌, List, [], ◌∷◌, ◌++◌, Option, none, some, if◌then◌else◌, ltb, length,
  ℕ_discrete,
}
use nodecore.Int.{ℤ, pos, eqb_ℤ, ltb_ℤ, wrap64, ◌-ℤ◌}
use nodecore.Keyed.{load, store}
use nodecore.Protocol.State.{LowerBoundType, LowerBoundData}

-- `round_to_int` is `int64(math.Round(x))`; `slope` is the slope that the regression finds for the bounds, or none when it fails.
pub record Floats (F : Type 0) : Type 0 where
  pub of_int : ℤ → F
  pub minus : F → F → F
  pub times : F → F → F
  pub plus : F → F → F
  pub round_to_int : F → ℤ
  pub zero_float : F
  pub one_float : F
  pub average_speed : F
  pub slope : List LowerBoundData → Option F

pub record LowerBoundCoeffs (F : Type 0) : Type 0 where
  pub lower_bounds : List LowerBoundData
  pub k : F
  pub b : F

abbrev pub max_bounds : ℕ
max_bounds = 3

abbrev pub last_bound : List LowerBoundData → Option LowerBoundData
last_bound [] = none
last_bound (d ∷ []) = some d
last_bound (d ∷ e ∷ ds) = last_bound (e ∷ ds)

abbrev pub remove_first : List LowerBoundData → List LowerBoundData
remove_first [] = []
remove_first (d ∷ ds) = ds

abbrev pub append_bound : List LowerBoundData → LowerBoundData → List LowerBoundData
append_bound ds d = if length ds == max_bounds then remove_first ds ++ d ∷ [] else ds ++ d ∷ []

module _ {F : Type 0} (floats : Floats F) where
  -- The line with a slope through a bound.
  abbrev pub through : F → LowerBoundData → F
  through k d = floats.minus (floats.of_int d.bound) (floats.times k (floats.of_int d.timestamp))

  abbrev pub calculate_b : LowerBoundData → F
  calculate_b = through floats.average_speed

  abbrev pub reset_bound : LowerBoundData → F → F → LowerBoundCoeffs F
  reset_bound d k b = record { lower_bounds = d ∷ []; k = k; b = b }

  abbrev pub init_bound : LowerBoundData → LowerBoundCoeffs F
  init_bound d =
      if eqb_ℤ d.bound (pos 1)
      then reset_bound d floats.zero_float floats.one_float
      else reset_bound d floats.average_speed (calculate_b d)

  -- The bounds end with `d`, which was appended just before.
  abbrev pub train : List LowerBoundData → LowerBoundData → LowerBoundCoeffs F
  train ds d = elim (floats.slope ds) [
    | none ↦ record { lower_bounds = ds; k = floats.average_speed; b = calculate_b d }
    | some k ↦ record { lower_bounds = ds; k = k; b = through k d }
  ]

  unfoldable pub appended : LowerBoundData → List LowerBoundData → LowerBoundCoeffs F
  appended d ds =
      let bounds = append_bound ds d in
      if ltb (length bounds) max_bounds
      then record { lower_bounds = bounds; k = floats.average_speed; b = calculate_b d }
      else train bounds d

  abbrev pub starts_over : LowerBoundData → LowerBoundData → Bool
  starts_over d last =
      ltb_ℤ d.bound last.bound || not (ltb_ℤ (wrap64 (d.bound -ℤ last.bound)) (pos 100_000))

  unfoldable pub updated : LowerBoundData → LowerBoundData → LowerBoundCoeffs F → LowerBoundCoeffs F
  unfolding appended
  updated d last c =
      if eqb_ℤ d.timestamp last.timestamp
      then c
      else if eqb_ℤ d.bound (pos 1)
      then reset_bound d floats.zero_float floats.one_float
      else if starts_over d last
      then reset_bound d floats.average_speed (calculate_b d)
      else appended d c.lower_bounds

  -- None where the source panics, on a type with no bounds left.
  unfoldable pub update_bound :
      LowerBoundData
      → List (LowerBoundType × LowerBoundCoeffs F)
      → Option (List (LowerBoundType × LowerBoundCoeffs F))
  unfolding updated
  update_bound d m = elim (load ℕ_discrete d.bound_type m) [
    | none ↦ some (store ℕ_discrete d.bound_type (init_bound d) m)
    | some c ↦ elim (last_bound c.lower_bounds) [
      | none ↦ none
      | some last ↦ some (store ℕ_discrete d.bound_type (updated d last c) m)
    ]
  ]

  unfoldable pub update_bounds :
      List LowerBoundData
      → List (LowerBoundType × LowerBoundCoeffs F)
      → Option (List (LowerBoundType × LowerBoundCoeffs F))
  unfolding update_bound
  update_bounds [] m = some m
  update_bounds (d ∷ ds) m = elim (update_bound d m) [ none ↦ none | some n ↦ update_bounds ds n ]

  -- The prediction for a time, in seconds; 0 without bounds of the type.
  unfoldable pub predict_next_bound_at :
      LowerBoundType → ℤ → List (LowerBoundType × LowerBoundCoeffs F) → ℤ
  predict_next_bound_at t time m = elim (load ℕ_discrete t m) [
    | none ↦ pos 0
    | some c ↦ floats.round_to_int (floats.plus (floats.times c.k (floats.of_int time)) c.b)
  ]
