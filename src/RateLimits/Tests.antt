-- ===== src/RateLimits/Tests.antt =====
-- A limit of one request in each second, and one request in each of three seconds.
use nodecore.Base.{
  List, bytes_dec, ℕ, suc, zero, ◌+◌, ◌≤◌, Bool, true, false, [], ◌∷◌, ◌≡◌, refl, arith, ℕ_discrete,
  if◌then◌else◌, ltb,
}
use nodecore.Int.{◌-ℤ◌, ℤ, pos, negsuc, ltb_ℤ, eqb_ℤ, ◌≤ℤ◌}
use nodecore.Keyed.{load, store}
use nodecore.RateLimits.AutoTune.{
  Direction, direction_stable, direction_increase, direction_decrease, Buckets, Rates, AutoTune,
  new_auto_tune, inc_errors, count_attempt, allow, allow_all, apply_adaptive_step, choose_limit,
  recalculate_rate_limit, peak_requests, to_int32,
}
use nodecore.RateLimits.Budget.{
  RateLimitBudget, check_method, check_pattern, match_rule, command_name_of, commands_from,
  bucket_of, execute, allow_request,
}
use nodecore.RateLimits.Budget.Charged.{rules_available}
use nodecore.RateLimits.Budget.Named.{allow_request-rules_available}
use nodecore.Quorum.Bytes.{print_number, format_uint}
use nodecore.RateLimits.AutoTune.Tuned.{IsTuned, max_int32, recalculate_rate_limit-IsTuned}
use nodecore.RateLimits.AutoTune.Peaks.{allow_all-peak}

program : Unit {0}
unfolding bytes_dec print_number format_uint match_rule command_name_of commands_from bucket_of
    execute allow_request ◌-ℤ◌ load store ℕ_discrete count_attempt allow allow_all
    apply_adaptive_step choose_limit recalculate_rate_limit
program = tt

-- A bucket of tokens that is not filled again.
abbrev take : ℕ → Bool × ℕ
take zero = (false, 0)
take (suc n) = (true, n)

abbrev tokens_of : ℤ → ℕ
tokens_of (pos n) = n
tokens_of (negsuc n) = 0

abbrev tokens : Buckets ℕ
tokens = record { new_bucket = λ period n. tokens_of n; take_available = take }

-- One more or one less; any error is too much, and a peak above the limit or at it is high.
abbrev move : Direction → ℕ → ℤ → ℤ
move direction_decrease step (pos (suc n)) = pos n
move direction_increase step (pos n) = if ltb n 100 then pos (n + 1) else pos 100
move _ step limit = pos 0

abbrev rates : Rates
rates = record {
  error_high = λ errors allowed. true;
  peak_high = λ peak limit. ltb_ℤ limit peak;
  limited_high = λ limited total. false;
  moved = move;
}

abbrev one_second : ℕ
one_second = 1000000000

moves_fit : (d : Direction) (s : ℕ) → s ≤ 400 → move d s (pos 5) ≤ℤ max_int32
moves_fit direction_stable s h = omega arith
moves_fit direction_increase s h = omega arith
moves_fit direction_decrease s h = omega arith

-- Two requests in three seconds and an error.
abbrev failing : AutoTune ℕ
failing = inc_errors (allow_all tokens (0 ∷ 2000 ∷ []) (new_auto_tune tokens one_second (pos 5)))

lowered : (recalculate_rate_limit rates tokens failing).ratelimit ≡ pos 4
unfolding program
lowered = refl

allow_all-peak_example :
    peak_requests
      (allow_all tokens
        (0 ∷ 1000 ∷ 2000 ∷ [])
        (new_auto_tune tokens one_second (pos 1))).attempt_counts
    ≡ pos 3
allow_all-peak_example =
    allow_all-peak tokens 0 (0 ∷ 1000 ∷ 2000 ∷ []) (new_auto_tune tokens one_second (pos 1)) refl
      (refl, (refl, (refl, tt))) (omega arith)

recalculate_rate_limit-IsTuned_example :
    IsTuned (recalculate_rate_limit rates tokens failing)
    × ((recalculate_rate_limit rates tokens failing).accum_errors ≡ 0)
    × ((recalculate_rate_limit rates tokens failing).accum_rate_limited ≡ 0)
    × ((recalculate_rate_limit rates tokens failing).attempt_counts ≡ [])
    × (eqb_ℤ (to_int32 failing.accum_errors) (pos 0) ≡ false
        → (recalculate_rate_limit rates tokens failing).ratelimit ≤ℤ failing.ratelimit)
unfolding program
recalculate_rate_limit-IsTuned_example =
    recalculate_rate_limit-IsTuned rates failing
      (record {
        some_limit = omega arith;
        fits = omega arith;
        step_least = omega arith;
        step_most = omega arith;
      })
      (record { down = λ s a b. omega arith; fits = moves_fit }) tokens

-- A budget with a rule for one method and a rule for all.
abbrev budget : RateLimitBudget
budget = record {
  name = b'b' ∷ [];
  rules =
      record { check = check_method (b'm' ∷ []); requests = 1; period = one_second }
      ∷ record { check = check_pattern (b'*' ∷ []); requests = 5; period = one_second }
      ∷ [];
}

abbrev all_match : List ℕ → List ℕ → Bool
all_match pattern method = true

abbrev once : List (List ℕ × ℕ)
once = (allow_request all_match tokens budget (b'm' ∷ []) []).1

allow_request-rules_available_example :
    (allow_request all_match tokens budget (b'm' ∷ []) once).0
    ≡ rules_available tokens all_match (b'b' ∷ []) (b'm' ∷ []) 0 budget.rules once
allow_request-rules_available_example =
    allow_request-rules_available all_match tokens budget (b'm' ∷ []) once

-- The rule for the method has no token left.
refused_twice : (allow_request all_match tokens budget (b'm' ∷ []) once).0 ≡ false
unfolding program
refused_twice = refl
