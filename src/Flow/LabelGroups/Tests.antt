-- ===== src/Flow/LabelGroups/Tests.antt =====
-- Three upstreams in two label groups and the default group; the first has a spent budget.
use nodecore.Base.{
  ℕ, ◌≡◌, refl, true, false, List, [], ◌∷◌, String, Option, none, some, string_dec, ℕ_discrete, ite,
}
use nodecore.Keyed.{load, contains, add, keep_if}
use nodecore.Protocol.Block.{zero_block}
use nodecore.Protocol.State.{UpstreamState, available, status_dec, cap_dec}
use nodecore.Flow.Matchers.{no_matchers, match_upstream}
use nodecore.Flow.Limits.{Limits, allowed, denied}
use nodecore.Flow.Strategy.{
  Asked, filter_loop, consider, filter_upstreams, matcher_of, process_matched_response,
  selection_error,
}
use nodecore.Flow.Strategy.Attempts.{Distinct, attempts_of}
use nodecore.Flow.LabelGroups.{
  Cursor, new_cursor, group_loop, select_group, group_of, has_some, default_group, label_groups,
  partition_label_groups,
}
use nodecore.Flow.LabelGroups.Groups.{
  GoesOn, InFresh, group_attempts, select_group-InGroup, group_attempts-Distinct,
}

program : Unit {0}
unfolding load contains add keep_if string_dec ℕ_discrete status_dec cap_dec match_upstream
    filter_loop consider filter_upstreams matcher_of process_matched_response selection_error
    group_loop select_group group_of has_some default_group label_groups partition_label_groups
    group_attempts attempts_of
program = tt

abbrev with_budget : Option ℕ → UpstreamState
with_budget budget = record {
  status = available;
  head_data = zero_block;
  upstream_methods = "eth_call" ∷ [];
  caps = [];
  upstream_index = "00001";
  rate_limiter_budget = budget;
  auto_tune_rate_limiter = none;
  block_info = [];
  lower_bounds_info = [];
  labels = [];
}

abbrev call : Asked
call = record { method = "eth_call"; is_subscribe = false }

abbrev limits : Limits ℕ
limits = record {
  budget_allow = λ budget _ s. ite (ℕ_discrete budget 1) (denied, s) (allowed, s);
  auto_tune_allow = λ _ s. (true, s);
}

abbrev states : String → Option UpstreamState
states id =
    load string_dec id
      (("a", with_budget (some 1)) ∷ ("b", with_budget none) ∷ ("c", with_budget none) ∷ [])

abbrev ids : List String
ids = "a" ∷ "b" ∷ "c" ∷ []

-- a is fast, b is fast and cheap, c has no label.
abbrev labels_of : String → List String
labels_of id = elim (load string_dec id (("a", "fast" ∷ []) ∷ ("b", "fast" ∷ "cheap" ∷ []) ∷ [])) [
  | none ↦ []
  | some labels ↦ labels
]

abbrev labels : List String
labels = "fast" ∷ "cheap" ∷ []

abbrev groups : List (List String)
groups = ("a" ∷ "b" ∷ []) ∷ ("b" ∷ []) ∷ ("c" ∷ []) ∷ []

partitioned : partition_label_groups labels_of ids labels true ≡ groups
unfolding program
partitioned = refl

no_default : partition_label_groups labels_of ids labels false ≡ ("a" ∷ "b" ∷ []) ∷ ("b" ∷ []) ∷ []
unfolding program
no_default = refl

abbrev start : Cursor ℕ
start = new_cursor 0

-- The overlap of the groups brings no second attempt at b.
three_attempts :
    group_attempts limits call states no_matchers none false groups 3 start ≡ "b" ∷ "c" ∷ []
unfolding program
three_attempts = refl

abbrev next : Cursor ℕ
next = (select_group limits call states no_matchers none true groups start).1

select_group-InGroup_example :
    let after = (select_group limits call states no_matchers none true groups next).1 in
    GoesOn limits call states no_matchers none true next after
    × InFresh limits call states no_matchers none groups "c" next after
unfolding program
select_group-InGroup_example =
    select_group-InGroup limits call states no_matchers none true groups next "c" refl

group_attempts-Distinct_example :
    Distinct (group_attempts limits call states no_matchers none false groups 3 start)
group_attempts-Distinct_example =
    group_attempts-Distinct limits call states no_matchers none false groups 3 start
