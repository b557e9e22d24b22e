-- ===== src/Flow/Strategy.antt =====
-- internal/upstreams/flow/strategy.go and match_trace.go: how a request selects an upstream.
pub mod Steps
pub mod Fresh
pub mod Attempts
pub mod Retries
use nodecore.Base.{
  zero, suc, ◌==◌, ℕ, ◌%◌, Bool, true, false, String, List, [], ◌∷◌, ◌++◌, Option, none, some,
  if◌then◌else◌, length, string_dec,
}
use nodecore.Keyed.{contains, add}
use nodecore.Protocol.State.{UpstreamState}
use nodecore.Flow.Responses.{
  MatchResponse, rate_limiter_response, method_response, is_success, more_severe, response_type,
  selector_type, severity,
}
use nodecore.Flow.Matchers.{
  Matcher, Matchers, no_matchers, and_matcher, multi_matcher, status_matcher, method_matcher,
  ws_cap_matcher, match_upstream,
}
use nodecore.Flow.Limits.{Limits, Allowance, allowed, denied, failed}

-- A selection in progress: the upstreams that the request has selected already, and the counters of
-- the rate limiters.
pub record Picks (S : Type 0) : Type 0 where
  pub selected_upstreams : List String
  pub counters : S

-- What the strategy reads of a request.
pub record Asked : Type 0 where
  pub method : String
  pub is_subscribe : Bool

abbrev pub Trace : Type 0
Trace = List (String × MatchResponse)

-- `Add` of the trace.
abbrev trace_add : String → MatchResponse → Trace → Trace
trace_add id r trace = if is_success r then trace else trace ++ (id, r) ∷ []

abbrev append_matcher : Matchers → Matchers → Matchers
append_matcher no_matchers ys = ys
append_matcher (and_matcher m ms) ys = and_matcher m (append_matcher ms ys)

abbrev own_matchers : Asked → Matchers
own_matchers request = and_matcher status_matcher (
    and_matcher (method_matcher request.method) (
      if request.is_subscribe
      then and_matcher (ws_cap_matcher request.method) no_matchers
      else no_matchers))

unfoldable pub matcher_of : Asked → Matchers → Matcher
matcher_of request additional = multi_matcher (append_matcher additional (own_matchers request))

-- `currentReason == nil || r.Type() < currentReason.Type()`.
abbrev pub outranks : MatchResponse → Option MatchResponse → Bool
outranks r none = true
outranks r (some current) = more_severe r current

module _ {S : Type 0} (limits : Limits S) where
  abbrev pub admit : String → Allowance × S → Picks S → Bool × Option MatchResponse × Picks S
  admit id (allowed, s) picks = (
    true,
    none,
    record { selected_upstreams = add string_dec id picks.selected_upstreams; counters = s },
  )
  admit id (denied, s) picks = (false, some rate_limiter_response, record picks { counters = s })
  admit id (failed, s) picks = (false, some rate_limiter_response, record picks { counters = s })

  -- The budget of the upstream, which is asked if there is one.
  abbrev ask_budget : Option ℕ → String → S → Allowance × S
  ask_budget none method s = (allowed, s)
  ask_budget (some budget) method s = limits.budget_allow budget method s

  -- Whether the upstream is taken, and the reason that replaces the current one.
  unfoldable pub process_matched_response :
      MatchResponse
      → Option MatchResponse
      → String
      → UpstreamState
      → Asked
      → Picks S
      → Bool × Option MatchResponse × Picks S
  process_matched_response matched reason id state request picks =
      if contains string_dec id picks.selected_upstreams
      then (false, none, picks)
      else if is_success matched
      then admit id (ask_budget state.rate_limiter_budget request.method picks.counters) picks
      else (false, if outranks matched reason then some matched else none, picks)

  abbrev ask_auto_tune : Option ℕ → S → Bool × S
  ask_auto_tune none s = (true, s)
  ask_auto_tune (some limiter) s = limits.auto_tune_allow limiter s

  -- The selection, the reason of a failure, the trace and the picks.
  abbrev pub Selection : Type 0
  Selection = Option String × Option MatchResponse × Trace × Picks S

  abbrev rate_limited : Option MatchResponse → Option MatchResponse
  rate_limited reason =
      if outranks rate_limiter_response reason then some rate_limiter_response else reason

  abbrev keep : Option MatchResponse → Option MatchResponse → Option MatchResponse
  keep none reason = reason
  keep (some r) reason = some r

  module _ (request : Asked) (m : Matcher) where
    -- One upstream of the loop, with its variables `currentReason` and `trace`: the upstream if it is
    -- returned, and what the loop goes on with if not.
    unfoldable pub consider :
        String → UpstreamState → Option MatchResponse → Trace → Picks S → Selection
    unfolding process_matched_response match_upstream
    consider id state reason trace picks =
        let matched = match_upstream m id state in
        let seen = trace_add id matched trace in
        let done = process_matched_response matched reason id state request picks in
        let tuned = ask_auto_tune state.auto_tune_rate_limiter done.2.counters in
        let tuned_picks = record done.2 { counters = tuned.1 } in
        if done.0
        then (if tuned.0
            then (some id, none, seen, tuned_picks)
            else (none, rate_limited reason, seen, tuned_picks))
        else (none, keep done.1 reason, seen, done.2)

    module _ (get_upstream_state : String → Option UpstreamState) where
      unfoldable pub filter_loop : List String → Option MatchResponse → Trace → Picks S → Selection
      unfolding consider
      filter_loop [] reason trace picks = (none, reason, trace, picks)
      filter_loop (id ∷ ids) reason trace picks = elim (get_upstream_state id) [
        | none ↦ filter_loop ids reason trace picks
        | some state ↦
            let considered = consider id state reason trace picks in
            elim considered.0 [
              | some _ ↦ considered
              | none ↦ filter_loop ids considered.1 considered.2 considered.3
            ]
      ]

  unfoldable pub filter_upstreams :
      Asked
      → List String
      → (String → Option UpstreamState)
      → Matchers
      → Option (List String → List String)
      → Picks S
      → Selection
  unfolding filter_loop matcher_of
  filter_upstreams request ids get_upstream_state additional none picks =
      filter_loop request (matcher_of request additional) get_upstream_state ids none [] picks
  filter_upstreams request ids get_upstream_state additional (some order) picks =
      filter_loop request (matcher_of request additional) get_upstream_state (order ids) none []
        picks

-- The errors of package protocol that a failed selection ends in; the cause is the trace.
pub data SelectionError : Type 0 where
  no_available_upstreams : SelectionError
  no_available_upstreams_with_cause : Trace → SelectionError
  not_supported_method : String → SelectionError
  rate_limit_error : SelectionError

unfoldable pub selection_error : Option MatchResponse → Trace → SelectionError
selection_error none trace = no_available_upstreams
selection_error (some (method_response method)) trace = not_supported_method method
selection_error (some rate_limiter_response) trace = rate_limit_error
selection_error (some r) trace =
    if severity (response_type r) == severity selector_type
    then no_available_upstreams_with_cause trace
    else no_available_upstreams

pub data Selected : Type 0 where
  selected : String → Selected
  refused : SelectionError → Selected

-- `ids[pos:]` followed by `ids[:pos]`.
unfoldable pub rotate : ℕ → List String → List String → List String
rotate zero seen ids = ids ++ seen
rotate (suc pos) seen [] = seen
rotate (suc pos) seen (id ∷ ids) = rotate pos (seen ++ id ∷ []) ids

module _ {S : Type 0} (limits : Limits S) where
  abbrev outcome : Selection limits → Selected × Picks S
  outcome (some id, _, _, picks) = (selected id, picks)
  outcome (none, reason, trace, picks) = (refused (selection_error reason trace), picks)

  -- What a strategy holds besides the picks, and `SelectUpstream` of the strategies that are given
  -- the upstreams in their order.
  module _ (request : Asked) (get_upstream_state : String → Option UpstreamState)
      (additional : Matchers) (order : Option (List String → List String)) where
    unfoldable pub select_specific : List String → Picks S → Selected × Picks S
    unfolding filter_upstreams
    select_specific [] picks = (refused no_available_upstreams, picks)
    select_specific (id ∷ ids) picks =
        outcome
          (filter_upstreams limits request (id ∷ ids) get_upstream_state additional order picks)

    -- The generic strategy starts from the next upstream in turn.
    unfoldable pub select_generic : ℕ → List String → Picks S → Selected × Picks S
    unfolding select_specific rotate
    select_generic next_index [] picks = (refused no_available_upstreams, picks)
    select_generic next_index (id ∷ ids) picks =
        select_specific (rotate (next_index % length (id ∷ ids)) [] (id ∷ ids)) picks
