-- ===== src/Flow/Limits.antt =====
-- What the strategies ask of rate limiters: the budget that an upstream belongs to, and its
-- auto-tuned limiter. Both count requests, so each answer comes with the counters after it.
use nodecore.Base.{ℕ, Bool, String}

-- The answer of a budget to a request, an error among them.
pub data Allowance : Type 0 where
  allowed denied failed : Allowance

pub record Limits (S : Type 0) : Type 0 where
  pub budget_allow : ℕ → String → S → Allowance × S
  pub auto_tune_allow : ℕ → S → Bool × S
