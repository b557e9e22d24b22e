-- ===== src/RateLimits/AutoTune/Peaks.antt =====
-- internal/ratelimiter/upstream_autotune.go: which requests count as one peak.
use nodecore.Base.{
  ℕ, suc, ◌+◌, ◌/◌, ◌^◌, ◌<◌, List, [], ◌∷◌, length, ℕ_discrete, ◌≡◌, refl, ◌∙◌, ap, All, arith,
  if_pos,
}
use nodecore.Int.{pos}
use nodecore.Keyed.{load, store, load_self}
use nodecore.RateLimits.AutoTune.{
  Buckets, AutoTune, inc32, count_of, count_attempt, allow, allow_all, peak_requests,
}

count_first : (key : ℕ) → count_attempt key [] ≡ (key, 1) ∷ []
unfolding count_attempt load store
count_first key = refl

store_self : (key n m : ℕ) → store ℕ_discrete key m ((key, n) ∷ []) ≡ (key, m) ∷ []
unfolding store
store_self key n m =
    if_pos (ℕ_discrete key key) refl ((key, m) ∷ []) ((key, n) ∷ store ℕ_discrete key m [])

count_next : (key n : ℕ) → suc n < 2 ^ 31 → count_attempt key ((key, n) ∷ []) ≡ (key, suc n) ∷ []
unfolding count_attempt
count_next key n h =
    ap (λ o. store ℕ_discrete key (inc32 (count_of o)) ((key, n) ∷ []))
      (load_self ℕ_discrete key n [])
    ∙ store_self key n (inc32 n)
    ∙ ap (λ m. (key, m) ∷ []) (omega (arith, h))

allow-counts :
    {B : Type 0} (buckets : Buckets B) (now : ℕ) (t : AutoTune B)
    → (allow buckets now t).1.attempt_counts
      ≡ count_attempt (now / t.rate_limit_period) t.attempt_counts
unfolding allow
allow-counts buckets now t = refl

one_peak : (key n : ℕ) → n < 2 ^ 31 → peak_requests ((key, n) ∷ []) ≡ pos n
one_peak key n h = ground (arith, h)

module _ {B : Type 0} (buckets : Buckets B) (key : ℕ) where
  more :
      (times : List ℕ) (n : ℕ) (t : AutoTune B)
      → t.attempt_counts ≡ (key, n) ∷ []
      → All (λ now. now / t.rate_limit_period ≡ key) times
      → n + length times < 2 ^ 31
      → peak_requests (allow_all buckets times t).attempt_counts ≡ pos (n + length times)
  unfolding allow_all allow
  more [] n t e h l = ap peak_requests e ∙ one_peak key n (omega (arith, l)) ∙ ap pos (omega arith)
  more (now ∷ times) n t e h l =
      more times (suc n) (allow buckets now t).1
        (ap (λ k. count_attempt k t.attempt_counts) h.0
          ∙ ap (count_attempt key) e
          ∙ count_next key n (omega (arith, l)))
        h.1 (omega (arith, l))
      ∙ ap pos (omega arith)

  -- Requests whose times in milliseconds have the same quotient by the period in nanoseconds count as
  -- one peak, whatever the seconds between them: the peak is their number.
  pub allow_all-peak :
      (times : List ℕ) (t : AutoTune B)
      → t.attempt_counts ≡ []
      → All (λ now. now / t.rate_limit_period ≡ key) times
      → length times < 2 ^ 31
      → peak_requests (allow_all buckets times t).attempt_counts ≡ pos (length times)
  unfolding allow_all allow
  allow_all-peak [] t e h l = ap peak_requests e
  allow_all-peak (now ∷ times) t e h l =
      more times 1 (allow buckets now t).1
        (ap (λ k. count_attempt k t.attempt_counts) h.0
          ∙ ap (count_attempt key) e
          ∙ count_first key)
        h.1 (omega (arith, l))
      ∙ ap pos (omega arith)
