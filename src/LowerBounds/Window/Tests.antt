-- ===== src/LowerBounds/Window/Tests.antt =====
-- Bounds of one type, with integers as the numbers and no slope found.
use nodecore.Base.{◌≡◌, refl, List, [], ◌∷◌, Option, none, some, ◌+◌, ◌*◌, ℕ_discrete, ℕ}
use nodecore.Int.{ℤ, pos, ◌-ℤ◌, wrap64, to_int64, pos_part}
use nodecore.Keyed.{load, store}
use nodecore.Protocol.State.{LowerBoundType, LowerBoundData}
use nodecore.LowerBounds.Window.{
  Floats, LowerBoundCoeffs, appended, updated, update_bound, update_bounds, predict_next_bound_at,
}
use nodecore.LowerBounds.Window.Lines.{AreWindows, update_bounds-AreWindows}

program : Unit {0}
unfolding load store ℕ_discrete ◌-ℤ◌ wrap64 to_int64 appended updated update_bound update_bounds
    predict_next_bound_at
program = tt

abbrev integers : Floats ℤ
integers = record {
  of_int = λ n. n;
  minus = λ a b. a -ℤ b;
  times = λ a b. pos (pos_part a * pos_part b);
  plus = λ a b. pos (pos_part a + pos_part b);
  round_to_int = λ n. n;
  zero_float = pos 0;
  one_float = pos 1;
  average_speed = pos 2;
  slope = λ _. none;
}

abbrev at : ℕ → ℕ → LowerBoundData
at time bound = record { bound = pos bound; timestamp = pos time; bound_type = 3 }

abbrev four : List LowerBoundData
four = at 1 50 ∷ at 2 50 ∷ at 3 60 ∷ at 4 70 ∷ []

abbrev after : Option (List (LowerBoundType × LowerBoundCoeffs ℤ)) → ℤ → ℤ
after none time = pos 0
after (some m) time = predict_next_bound_at integers 3 time m

-- The oldest bound is dropped, and the line goes through the last.
keeps_three :
    update_bounds integers four []
    ≡ some (
        (3, record { lower_bounds = at 2 50 ∷ at 3 60 ∷ at 4 70 ∷ []; k = pos 2; b = pos 62 }) ∷ [])
unfolding program
keeps_three = refl

predicts : after (update_bounds integers four []) (pos 6) ≡ pos 74
unfolding program
predicts = refl

falls_back : after (update_bounds integers (at 1 50 ∷ at 2 1 ∷ []) []) (pos 6) ≡ pos 1
unfolding program
falls_back = refl

update_bounds-AreWindows_example :
    (n : List (LowerBoundType × LowerBoundCoeffs ℤ)) × (update_bounds integers four [] ≡ some n)
    × AreWindows integers n
update_bounds-AreWindows_example = update_bounds-AreWindows integers four [] tt
