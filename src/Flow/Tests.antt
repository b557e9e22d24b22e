-- ===== src/Flow/Tests.antt =====
-- Three upstreams, one of which lacks the method and one of which has a spent budget.
use nodecore.Base.{
  ℕ, ◌≡◌, refl, true, false, List, [], ◌∷◌, String, Option, none, some, string_dec, ℕ_discrete, ite,
  suc, length,
}
use nodecore.Int.{pos}
use nodecore.Keyed.{load, contains, add}
use nodecore.Protocol.Block.{zero_block}
use nodecore.Protocol.State.{UpstreamState, available, ws_cap, get_label, status_dec, cap_dec}
use nodecore.Flow.Responses.{is_success}
use nodecore.Flow.Matchers.{
  Matchers, no_matchers, and_matcher, method_matcher, status_matcher, multi_matcher, match_upstream,
}
use nodecore.Flow.Selectors.{
  RequestSelector, and_selector, or_selector, not_selector, label_selector, exists_selector,
  any_selector, no_selectors, and_then, compile_selector,
}
use nodecore.Flow.Satisfied.{Filters, satisfies, passes, lets, lets_all, compile_selector-satisfies}
use nodecore.Flow.Limits.{Limits, allowed, denied}
use nodecore.Flow.Severity.{graveness, least, multi_matcher-least}
use nodecore.Flow.Strategy.{
  Asked, Picks, refused, filter_loop, consider, filter_upstreams, matcher_of,
  process_matched_response, select_specific, select_generic, selection_error, rotate,
  rate_limit_error, not_supported_method,
}
use nodecore.Flow.Strategy.Fresh.{IsPick}
use nodecore.Flow.Strategy.Attempts.{Distinct}
use nodecore.Flow.Dispatch.Collect.{select, Ends, collect-Ends}
use nodecore.Flow.Strategy.Retries.{arranged, attempts, attempts-Distinct, select_specific-IsPick}

program : Unit {0}
unfolding load contains add string_dec get_label status_dec cap_dec match_upstream compile_selector
    Filters satisfies lets lets_all least filter_loop consider filter_upstreams matcher_of
    process_matched_response ℕ_discrete select_specific select_generic selection_error rotate
    attempts
program = tt

abbrev with_methods : List String → Option ℕ → UpstreamState
with_methods methods budget = record {
  status = available;
  head_data = zero_block;
  upstream_methods = methods;
  caps = ws_cap ∷ [];
  upstream_index = "00001";
  rate_limiter_budget = budget;
  auto_tune_rate_limiter = none;
  block_info = [];
  lower_bounds_info = [];
  labels = ("archive", "true") ∷ [];
}

abbrev call : Asked
call = record { method = "eth_call"; is_subscribe = false }

-- Budget 1 is spent; the other budgets have as many requests left as their counter says.
abbrev limits : Limits ℕ
limits = record {
  budget_allow = λ budget _ s. ite (ℕ_discrete budget 1) (denied, s) (allowed, s);
  auto_tune_allow = λ _ s. (true, s);
}

abbrev states : String → Option UpstreamState
states id = load string_dec id (
    ("a", with_methods [] none)
    ∷ ("b", with_methods ("eth_call" ∷ []) none)
    ∷ ("c", with_methods ("eth_call" ∷ []) (some 1))
    ∷ [])

abbrev nobody : Picks ℕ
nobody = record { selected_upstreams = []; counters = 0 }

abbrev picked_b : Picks ℕ
picked_b = record { selected_upstreams = "b" ∷ []; counters = 0 }

abbrev ids : List String
ids = "a" ∷ "b" ∷ "c" ∷ []

-- The first attempt answers with b; the second is rate limited, although a lacks the method.
two_attempts : attempts limits call states no_matchers none (ids ∷ ids ∷ []) nobody ≡ "b" ∷ []
unfolding program
two_attempts = refl

second_attempt :
    (select_generic limits call states no_matchers none 3 ids picked_b).0 ≡ refused rate_limit_error
unfolding program
second_attempt = refl

-- From another start the same upstreams give the reason of a.
second_attempt_from_b :
    (select_generic limits call states no_matchers none 4 ids picked_b).0
    ≡ refused (not_supported_method "eth_call")
unfolding program
second_attempt_from_b = refl

-- OR drops a child that asks for nothing, and so asks for more than its children do.
or_any_refuses :
    passes
      (compile_selector (λ _ _ _. pos 0) (or_selector (and_then any_selector no_selectors))).0
      "a"
      (with_methods [] none)
    ≡ false
unfolding program
or_any_refuses = refl

abbrev archive_not_pruned : RequestSelector
archive_not_pruned = and_selector (
    and_then (label_selector "archive" ("true" ∷ []))
      (and_then (not_selector (exists_selector "pruned")) no_selectors))

compile_selector-satisfies_example :
    (passes (compile_selector (λ _ _ _. pos 0) archive_not_pruned).0 "b" (with_methods [] none)
      ≡ satisfies (λ _ _ _. pos 0) "b" (with_methods [] none) archive_not_pruned)
    × ((compile_selector (λ _ _ _. pos 0) archive_not_pruned).1 ≡ none)
unfolding program
compile_selector-satisfies_example =
    compile_selector-satisfies (λ _ _ _. pos 0) archive_not_pruned (tt, (tt, tt)) "b"
      (with_methods [] none)

abbrev both : Matchers
both = and_matcher status_matcher (and_matcher (method_matcher "eth_call") no_matchers)

multi_matcher-least_example :
    (graveness (match_upstream (multi_matcher both) "a" (with_methods [] none)) ≡ 0)
    × (is_success (match_upstream (multi_matcher both) "a" (with_methods [] none)) ≡ false)
unfolding program
multi_matcher-least_example = multi_matcher-least "a" (with_methods [] none) both

attempts-Distinct_example :
    Distinct (attempts limits call states no_matchers none (ids ∷ ids ∷ []) nobody)
attempts-Distinct_example =
    attempts-Distinct limits call states no_matchers none (ids ∷ ids ∷ []) nobody

select_specific-IsPick_example :
    IsPick limits call
      (matcher_of call no_matchers)
      states
      (arranged none ids)
      "b"
      nobody
      (select_specific limits call states no_matchers none ids nobody).1
unfolding program
select_specific-IsPick_example =
    select_specific-IsPick limits call states no_matchers none ids "b" nobody refl

collect-Ends_example :
    Ends
      (select limits call states no_matchers none ids)
      (suc (length (arranged none ids)))
      []
      nobody
collect-Ends_example = collect-Ends limits call states no_matchers none ids nobody
