-- ===== src/RateLimits/AutoTune.antt =====
-- internal/ratelimiter/upstream_autotune.go: the limit of an upstream that follows its errors. The token
-- buckets are those of a library, and the comparisons and the scaling of float64 are parameters. A
-- step is counted in eighths of a percent: the steps that are reached are whole numbers of them.
pub mod Tuned
pub mod Peaks
use nodecore.Base.{
  ℕ, ◌+◌, ◌-◌, ◌*◌, ◌/◌, ◌%◌, ◌^◌, min, max, Bool, true, false, ◌&&◌, ◌||◌, ltb, List, [], ◌∷◌,
  Option, none, some, if◌then◌else◌, ℕ_discrete,
}
use nodecore.Int.{ℤ, pos, negsuc, pos_part, neg_part, sub_ℕ, ◌-ℤ◌, ltb_ℤ, eqb_ℤ}
use nodecore.Keyed.{load, store}

-- An int32 as the number of its bits.
abbrev pub to_int32 : ℕ → ℤ
to_int32 n = if ltb n (2 ^ 31) then pos n else negsuc (2 ^ 32 - 1 - n)

abbrev pub inc32 : ℕ → ℕ
inc32 n = (n + 1) % 2 ^ 32

pub data Direction : Type 0 where
  direction_stable direction_increase direction_decrease : Direction

-- `NewBucketWithQuantum(period, n, n)`, and whether `TakeAvailable(1)` takes a token.
pub record Buckets (B : Type 0) : Type 0 where
  pub new_bucket : ℕ → ℤ → B
  pub take_available : B → Bool × B

-- What is computed in float64: `errors/allowed >= threshold`, `peak/limit > 0.95`,
-- `limited/total > threshold`, and the limit moved by a step, rounded up.
pub record Rates : Type 0 where
  pub error_high : ℤ → ℤ → Bool
  pub peak_high : ℤ → ℤ → Bool
  pub limited_high : ℤ → ℤ → Bool
  pub moved : Direction → ℕ → ℤ → ℤ

-- UpstreamAutoTune, with the periods in nanoseconds.
pub record AutoTune (B : Type 0) : Type 0 where
  pub rate_limit_period : ℕ
  pub ratelimit : ℤ
  pub bucket : B
  pub accum_errors : ℕ
  pub accum_rate_limited : ℕ
  pub attempt_counts : List (ℕ × ℕ)
  pub last_direction : Direction
  pub step_percent : ℕ

abbrev pub new_auto_tune : {B : Type 0} → Buckets B → ℕ → ℤ → AutoTune B
new_auto_tune buckets period limit = record {
  rate_limit_period = period;
  ratelimit = limit;
  bucket = buckets.new_bucket period limit;
  accum_errors = 0;
  accum_rate_limited = 0;
  attempt_counts = [];
  last_direction = direction_stable;
  step_percent = 80;
}

abbrev count_of : Option ℕ → ℕ
count_of none = 0
count_of (some n) = n

unfoldable pub count_attempt : ℕ → List (ℕ × ℕ) → List (ℕ × ℕ)
count_attempt key counts =
    store ℕ_discrete key (inc32 (count_of (load ℕ_discrete key counts))) counts

-- Allow, at a time in milliseconds.
unfoldable pub allow : {B : Type 0} → Buckets B → ℕ → AutoTune B → Bool × AutoTune B
unfolding count_attempt
allow buckets now t =
    let taken = buckets.take_available t.bucket in
    (
      taken.0,
      record t {
        attempt_counts = count_attempt (now / t.rate_limit_period) t.attempt_counts;
        bucket = taken.1;
        accum_rate_limited = if taken.0 then t.accum_rate_limited else inc32 t.accum_rate_limited;
      },
    )

abbrev pub inc_errors : {B : Type 0} → AutoTune B → AutoTune B
inc_errors t = record t { accum_errors = inc32 t.accum_errors }

infixl 65 ◌+ℤ◌
abbrev pub ◌+ℤ◌ : ℤ → ℤ → ℤ
a +ℤ b = sub_ℕ (pos_part a + pos_part b) (neg_part a + neg_part b)

-- The sum and the peak of the counts.
abbrev pub total_attempts : List (ℕ × ℕ) → ℤ
total_attempts [] = pos 0
total_attempts ((key, n) ∷ counts) = to_int32 n +ℤ total_attempts counts

abbrev pub peak_from : ℤ → List (ℕ × ℕ) → ℤ
peak_from peak [] = peak
peak_from peak ((key, n) ∷ counts) =
    peak_from (if ltb_ℤ peak (to_int32 n) then to_int32 n else peak) counts

abbrev pub peak_requests : List (ℕ × ℕ) → ℤ
peak_requests counts = peak_from (pos 0) counts

abbrev pub same_direction : Direction → Direction → Bool
same_direction direction_stable direction_stable = true
same_direction direction_increase direction_increase = true
same_direction direction_decrease direction_decrease = true
same_direction direction_stable direction_increase = false
same_direction direction_stable direction_decrease = false
same_direction direction_increase direction_stable = false
same_direction direction_increase direction_decrease = false
same_direction direction_decrease direction_stable = false
same_direction direction_decrease direction_increase = false

-- A step that is repeated doubles up to 50 percent, a turn halves it down to 2.5; else it is 10.
abbrev pub next_step : Direction → Direction → ℕ → ℕ
next_step direction_stable new_direction step = 80
next_step last_direction new_direction step =
    if same_direction new_direction last_direction then min (step * 2) 400 else max (step / 2) 20

-- A moved limit with the direction and the step that are kept.
unfoldable pub apply_adaptive_step : {B : Type 0} → Rates → Direction → AutoTune B → ℤ × AutoTune B
apply_adaptive_step rates new_direction t =
    let step = next_step t.last_direction new_direction t.step_percent in
    (
      rates.moved new_direction step t.ratelimit,
      record t { last_direction = new_direction; step_percent = step },
    )

-- The limit that the counters ask for.
unfoldable pub choose_limit : {B : Type 0} → Rates → AutoTune B → ℤ × AutoTune B
unfolding apply_adaptive_step
choose_limit rates t =
    let errors = to_int32 t.accum_errors in
    let rate_limited = to_int32 t.accum_rate_limited in
    let total = total_attempts t.attempt_counts in
    let allowed = total -ℤ rate_limited in
    if ltb_ℤ (pos 0) allowed && rates.error_high errors allowed
    then apply_adaptive_step rates direction_decrease t
    else if eqb_ℤ errors (pos 0)
        && (rates.peak_high (peak_requests t.attempt_counts) t.ratelimit
            || rates.limited_high rate_limited total)
    then apply_adaptive_step rates direction_increase t
    else (t.ratelimit, t)

abbrev pub at_least_one : ℤ → ℤ
at_least_one n = if ltb_ℤ n (pos 1) then pos 1 else n

-- An int32 that an int is converted to.
abbrev pub int32_of : ℤ → ℤ
int32_of (pos n) = to_int32 (n % 2 ^ 32)
int32_of (negsuc n) = to_int32 (2 ^ 32 - 1 - n % 2 ^ 32)

-- A limit that has changed gets a full bucket.
abbrev pub set_limit : {B : Type 0} → Buckets B → ℤ → AutoTune B → AutoTune B
set_limit buckets new_limit t = if eqb_ℤ new_limit t.ratelimit then t else record t {
  ratelimit = int32_of new_limit;
  bucket = buckets.new_bucket t.rate_limit_period new_limit;
}

-- RecalculateRateLimit.
unfoldable pub recalculate_rate_limit : {B : Type 0} → Rates → Buckets B → AutoTune B → AutoTune B
unfolding choose_limit
recalculate_rate_limit rates buckets t =
    let chosen = choose_limit rates t in
    set_limit buckets (at_least_one chosen.0)
      (record (chosen.1) { accum_errors = 0; accum_rate_limited = 0; attempt_counts = [] })

-- Requests at some times.
unfoldable pub allow_all : {B : Type 0} → Buckets B → List ℕ → AutoTune B → AutoTune B
unfolding allow
allow_all buckets [] t = t
allow_all buckets (now ∷ times) t = allow_all buckets times (allow buckets now t).1
