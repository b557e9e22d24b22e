-- ===== src/RateLimits/AutoTune/Tuned.antt =====
-- internal/ratelimiter/upstream_autotune.go: the limit and the step after a period.
use nodecore.Base.{
  ℕ, zero, suc, ◌-◌, ◌^◌, ◌≤◌, ◌<◌, Bool, true, false, ◌&&◌, [], if◌then◌else◌, ◌≡◌, ap, refl, sym,
  ◌∙◌, subst, arith, Bool-cases, inl, inr, if_true, if_false,
}
use nodecore.Int.{ℤ, pos, negsuc, eqb_ℤ, ◌≤ℤ◌}
use nodecore.RateLimits.AutoTune.{
  Direction, direction_stable, direction_increase, direction_decrease, Buckets, Rates, AutoTune,
  to_int32, int32_of, next_step, apply_adaptive_step, choose_limit, at_least_one, set_limit,
  recalculate_rate_limit,
}

abbrev pub max_int32 : ℤ
max_int32 = pos (2 ^ 31 - 1)

-- A limit that lets something through and fits an int32, and a step between 2.5 and 50 percent.
pub record IsTuned {B : Type 0} (t : AutoTune B) : Type 0 where
  pub some_limit : pos 1 ≤ℤ t.ratelimit
  pub fits : t.ratelimit ≤ℤ max_int32
  pub step_least : 20 ≤ t.step_percent
  pub step_most : t.step_percent ≤ 400

-- A float64 of the limit times a factor of at most 1 is at most the limit, and the products fit an int32.
pub record MovesWithin (rates : Rates) (limit : ℤ) : Type 0 where
  pub down :
      (step : ℕ) → 20 ≤ step → step ≤ 400 → rates.moved direction_decrease step limit ≤ℤ limit
  pub fits : (d : Direction) (step : ℕ) → step ≤ 400 → rates.moved d step limit ≤ℤ max_int32

next_step-least : (l d : Direction) (s : ℕ) → 20 ≤ s → s ≤ 400 → 20 ≤ next_step l d s
next_step-least direction_stable d s h m = omega arith
next_step-least direction_increase d s h m = ground (arith, h, m)
next_step-least direction_decrease d s h m = ground (arith, h, m)

next_step-most : (l d : Direction) (s : ℕ) → 20 ≤ s → s ≤ 400 → next_step l d s ≤ 400
next_step-most direction_stable d s h m = omega arith
next_step-most direction_increase d s h m = ground (arith, h, m)
next_step-most direction_decrease d s h m = ground (arith, h, m)

-- A chosen limit fits, the old limit and the bounds of the step stay, and with errors it does not grow.
abbrev IsChosen : {B : Type 0} → AutoTune B → ℤ × AutoTune B → Type 0
IsChosen t (n, u) =
    (n ≤ℤ max_int32)
    × (u.ratelimit ≡ t.ratelimit)
    × (20 ≤ u.step_percent)
    × (u.step_percent ≤ 400)
    × (eqb_ℤ (to_int32 t.accum_errors) (pos 0) ≡ false → n ≤ℤ t.ratelimit)

guarded :
    {B : Type 0} (t : AutoTune B) (b : Bool) (x y : ℤ × AutoTune B)
    → (b ≡ true → IsChosen t x)
    → IsChosen t y
    → IsChosen t (if b then x else y)
guarded t true x y h i = h refl
guarded t false x y h i = i

both : (a b : Bool) → (a && b) ≡ true → a ≡ true
both a b e = ground (arith, e)

-- At least one, and not above what both bound.
at_least_one-bounds :
    (x y : ℤ)
    → x ≤ℤ max_int32
    → (n : ℕ) × (at_least_one x ≡ pos n)
      × (1 ≤ n)
      × (n < 2 ^ 31)
      × (x ≤ℤ y → pos 1 ≤ℤ y → pos n ≤ℤ y)
at_least_one-bounds (pos zero) y h = (1, refl, omega arith, omega arith, λ a b. b)
at_least_one-bounds (pos (suc n)) y h =
    (suc n, ground arith, omega arith, omega (arith, h), λ a b. a)
at_least_one-bounds (negsuc n) y h = (1, ground arith, omega arith, omega arith, λ a b. b)

int32_of-small : (n : ℕ) → n < 2 ^ 31 → int32_of (pos n) ≡ pos n
int32_of-small n h = ground (arith, h)

set_limit-resets :
    {B : Type 0} (buckets : Buckets B) (u : AutoTune B) (x : ℤ)
    → u.accum_errors ≡ 0
    → u.accum_rate_limited ≡ 0
    → u.attempt_counts ≡ []
    → ((set_limit buckets x u).accum_errors ≡ 0)
      × ((set_limit buckets x u).accum_rate_limited ≡ 0)
      × ((set_limit buckets x u).attempt_counts ≡ [])
set_limit-resets buckets u x a b c = elim (Bool-cases (eqb_ℤ x u.ratelimit)) [
  | inl q ↦ rw (if_true _ _ q) (a, b, c)
  | inr q ↦ rw (if_false _ _ q) (a, b, c)
]

module _ {B : Type 0} (rates : Rates) (t : AutoTune B) (h : IsTuned t)
    (m : MovesWithin rates t.ratelimit) where
  decreased-IsChosen : IsChosen t (apply_adaptive_step rates direction_decrease t)
  unfolding apply_adaptive_step
  decreased-IsChosen =
      let least =
        next_step-least t.last_direction direction_decrease t.step_percent h.step_least
          h.step_most in
      let most =
        next_step-most t.last_direction direction_decrease t.step_percent h.step_least
          h.step_most in
      (m.fits direction_decrease _ most, refl, least, most, λ e. m.down _ least most)

  increased-IsChosen :
      eqb_ℤ (to_int32 t.accum_errors) (pos 0) ≡ true
      → IsChosen t (apply_adaptive_step rates direction_increase t)
  unfolding apply_adaptive_step
  increased-IsChosen z = (
    m.fits direction_increase _ (
        next_step-most t.last_direction direction_increase t.step_percent h.step_least h.step_most),
    refl,
    next_step-least t.last_direction direction_increase t.step_percent h.step_least h.step_most,
    next_step-most t.last_direction direction_increase t.step_percent h.step_least h.step_most,
    λ e. let f = sym z ∙ e in cc,
  )

  choose_limit-IsChosen : IsChosen t (choose_limit rates t)
  unfolding choose_limit
  choose_limit-IsChosen =
      guarded t _ _ _ (λ e. decreased-IsChosen)
        (guarded t _ _ (t.ratelimit, t) (λ e. increased-IsChosen (both _ _ e))
          (h.fits, refl, h.step_least, h.step_most, λ e. omega arith))

  -- The limit that is set is the chosen one, or was before.
  set_limit-IsTuned :
      (buckets : Buckets B) (u : AutoTune B) (x : ℤ) (n : ℕ)
      → x ≡ pos n
      → 1 ≤ n
      → n < 2 ^ 31
      → u.ratelimit ≡ t.ratelimit
      → 20 ≤ u.step_percent
      → u.step_percent ≤ 400
      → IsTuned (set_limit buckets x u)
        × (pos n ≤ℤ t.ratelimit → (set_limit buckets x u).ratelimit ≤ℤ t.ratelimit)
  set_limit-IsTuned buckets u x n e l k r a b = elim (Bool-cases (eqb_ℤ x u.ratelimit)) [
    | inl q ↦ rw (if_true _ _ q) (
      record {
        some_limit = subst (λ y. pos 1 ≤ℤ y) (sym r) h.some_limit;
        fits = subst (λ y. y ≤ℤ max_int32) (sym r) h.fits;
        step_least = a;
        step_most = b;
      },
      λ c. subst (λ y. y ≤ℤ t.ratelimit) (sym r) (omega arith),
    )
    | inr q ↦
        let s : int32_of x ≡ pos n = ap int32_of e ∙ int32_of-small n k in
        rw (if_false _ _ q) (
          record {
            some_limit = subst (λ y. pos 1 ≤ℤ y) (sym s) (omega (arith, l));
            fits = subst (λ y. y ≤ℤ max_int32) (sym s) (omega (arith, k));
            step_least = a;
            step_most = b;
          },
          λ c. subst (λ y. y ≤ℤ t.ratelimit) (sym s) c,
        )
  ]

  -- After a period the limit is at least 1 and fits an int32, the step is between 2.5 and 50 percent,
  -- the counters start anew, and with errors the limit has not grown. From such a state, where float64
  -- scaling down does not grow a number and scaling up stays within an int32.
  pub recalculate_rate_limit-IsTuned :
      (buckets : Buckets B)
      → IsTuned (recalculate_rate_limit rates buckets t)
        × ((recalculate_rate_limit rates buckets t).accum_errors ≡ 0)
        × ((recalculate_rate_limit rates buckets t).accum_rate_limited ≡ 0)
        × ((recalculate_rate_limit rates buckets t).attempt_counts ≡ [])
        × (eqb_ℤ (to_int32 t.accum_errors) (pos 0) ≡ false
            → (recalculate_rate_limit rates buckets t).ratelimit ≤ℤ t.ratelimit)
  unfolding recalculate_rate_limit
  recalculate_rate_limit-IsTuned buckets =
      let c = choose_limit rates t in
      let k = choose_limit-IsChosen in
      let a = at_least_one-bounds c.0 t.ratelimit k.0 in
      let u = record (c.1) { accum_errors = 0; accum_rate_limited = 0; attempt_counts = [] } in
      let s = set_limit-IsTuned buckets u (at_least_one c.0) a.0 a.1 a.2 a.3 k.1 k.2 k.3 in
      let r = set_limit-resets buckets u (at_least_one c.0) refl refl refl in
      (s.0, r.0, r.1, r.2, λ e. s.1 (a.4 (k.4 e) h.some_limit))
