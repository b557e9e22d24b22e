-- ===== src/RateLimits/Budget.antt =====
-- internal/ratelimiter/budget.go, types.go and memory_engine.go: the budgets of requests over buckets in
-- memory. Names are bytes, and regular expressions are a parameter.
pub mod Charged
pub mod Named
use nodecore.Base.{
  ℕ, suc, Bool, true, false, List, [], ◌∷◌, ◌++◌, Option, none, some, if◌then◌else◌, bytes_dec, ite,
}
use nodecore.Int.{pos}
use nodecore.Keyed.{load, store}
use nodecore.Quorum.Bytes.{format_uint}
use nodecore.RateLimits.AutoTune.{Buckets}

-- A rule is for one method, or for those that a pattern matches.
pub data RuleCheck : Type 0 where
  check_method check_pattern : List ℕ → RuleCheck

abbrev pub check_name : RuleCheck → List ℕ
check_name (check_method method) = method
check_name (check_pattern pattern) = pattern

unfoldable pub match_rule : (List ℕ → List ℕ → Bool) → List ℕ → RuleCheck → Bool
match_rule matches method (check_method m) = ite (bytes_dec m method) true false
match_rule matches method (check_pattern pattern) = matches pattern method

pub record Rule : Type 0 where
  pub check : RuleCheck
  pub requests : ℕ
  pub period : ℕ

pub record RateLimitBudget : Type 0 where
  pub name : List ℕ
  pub rules : List Rule

pub record RateLimitCommand : Type 0 where
  pub command_name : List ℕ
  pub requests : ℕ
  pub period : ℕ

unfoldable pub command_name_of : List ℕ → ℕ → RuleCheck → List ℕ
command_name_of budget i check = budget ++ (b'-' ∷ (format_uint i ++ (b'-' ∷ check_name check)))

-- The commands of the rules that match, from an index on.
unfoldable pub commands_from :
    (List ℕ → List ℕ → Bool) → List ℕ → List ℕ → ℕ → List Rule → List RateLimitCommand
unfolding match_rule command_name_of
commands_from matches budget method i [] = []
commands_from matches budget method i (rule ∷ rules) =
    let rest = commands_from matches budget method (suc i) rules in
    if match_rule matches method rule.check
    then record {
      command_name = command_name_of budget i rule.check;
      requests = rule.requests;
      period = rule.period;
    }
      ∷ rest
    else rest

-- The bucket of a command, which is made full if there is none.
unfoldable pub bucket_of : {B : Type 0} → Buckets B → RateLimitCommand → List (List ℕ × B) → B
bucket_of buckets c limiters = elim (load bytes_dec c.command_name limiters) [
  | none ↦ buckets.new_bucket c.period (pos c.requests)
  | some b ↦ b
]

-- Execute, with the result so far: after a refusal no more tokens are taken.
unfoldable pub execute :
    {B : Type 0}
    → Buckets B
    → List RateLimitCommand
    → Bool
    → List (List ℕ × B)
    → Bool × List (List ℕ × B)
unfolding bucket_of
execute buckets [] result limiters = (result, limiters)
execute buckets (c ∷ cs) result limiters =
    let b = bucket_of buckets c limiters in
    let taken = buckets.take_available b in
    let more = execute buckets cs taken.0 (store bytes_dec c.command_name taken.1 limiters) in
    let none_more = execute buckets cs false (store bytes_dec c.command_name b limiters) in
    if result then more else none_more

unfoldable pub allow_request :
    {B : Type 0}
    → (List ℕ → List ℕ → Bool)
    → Buckets B
    → RateLimitBudget
    → List ℕ
    → List (List ℕ × B)
    → Bool × List (List ℕ × B)
unfolding commands_from execute
allow_request matches buckets budget method limiters =
    execute buckets (commands_from matches budget.name method 0 budget.rules) true limiters
