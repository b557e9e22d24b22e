-- ===== src/Flow/Matchers.antt =====
-- internal/upstreams/flow/matchers.go: the matchers. The state they read is never nil: the
-- strategies skip an upstream that has none, and an upstream's labels are never nil.
use nodecore.Base.{
  Bool, true, false, not, ◌&&◌, String, List, [], ◌∷◌, Option, none, some, ite, if◌then◌else◌,
  string_dec,
}
use nodecore.Int.{ℤ, pos, leb_ℤ, eqb_ℤ, ◌-ℤ◌, to_int64, wrap64}
use nodecore.Keyed.{contains}
use nodecore.Protocol.State.{
  UpstreamState, LowerBoundType, available, ws_cap, cap_dec, status_dec, get_label,
}
use nodecore.Flow.Responses.{
  MatchResponse, MatchResponses, upstream_index_response, success_response, method_response,
  availability_response, label_response, exists_response, height_response, slot_height_response,
  lower_height_response, selector_unsupported_response, not_matched_response, multi_response,
  no_responses, also, is_success, more_severe,
}

-- The lower bound of an upstream as its service predicts it; 0 when it cannot.
abbrev pub LowerHeightPredictor : Type 0
LowerHeightPredictor = String → LowerBoundType → ℤ → ℤ

mutual
  pub data Matcher : Type 0 where
    status_matcher : Matcher
    method_matcher : String → Matcher
    ws_cap_matcher : String → Matcher
    upstream_index_matcher : String → Matcher
    multi_matcher : Matchers → Matcher
    label_matcher : String → List String → Matcher
    label_exists_matcher : String → Matcher
    height_matcher : ℤ → Matcher
    slot_height_matcher : ℤ → Matcher
    lower_height_matcher : ℤ → LowerBoundType → ℤ → ℤ → Option LowerHeightPredictor → Matcher
    selector_and_matcher : Matchers → Matcher
    selector_or_matcher : Matchers → Matcher
    selector_not_matcher : Matcher → Matcher
    unsupported_selector_matcher : String → Matcher

  pub data Matchers : Type 0 where
    no_matchers : Matchers
    and_matcher : Matcher → Matchers → Matchers

abbrev pub when : Bool → MatchResponse → MatchResponse
when ok refusal = if ok then success_response else refusal

-- A value is asked for among those listed; an empty list asks for any value.
unfoldable pub label_accepts : List String → Option String → Bool
unfolding contains string_dec
label_accepts values none = false
label_accepts [] (some value) = true
label_accepts (v ∷ vs) (some value) = contains string_dec value (v ∷ vs)

unfoldable pub has_label : Option String → Bool
has_label none = false
has_label (some _) = true

unfoldable pub predicted : Option LowerHeightPredictor → String → LowerBoundType → ℤ → ℤ
predicted none up_id t offset = pos 0
predicted (some predict) up_id t offset = predict up_id t offset

-- `predicted != 0 && height >= predicted - delta`, in int64.
unfoldable pub reaches : ℤ → ℤ → ℤ → Bool
reaches height delta bound = not (eqb_ℤ bound (pos 0)) && leb_ℤ (wrap64 (bound -ℤ delta)) height

-- What one step of the loop of `SelectorAndMatcher` collects.
abbrev pub collect : MatchResponse → MatchResponses → MatchResponses
collect r rest = if is_success r then rest else also r rest

abbrev pub all_of : MatchResponses → MatchResponse
all_of no_responses = success_response
all_of (also r rs) = multi_response (also r rs)

abbrev pub worse : MatchResponse → MatchResponse → MatchResponse
worse matched response = if more_severe matched response then matched else response

-- The loop of `SelectorOrMatcher` over the answers.
abbrev pub append_response : MatchResponses → MatchResponse → MatchResponses
append_response no_responses r = also r no_responses
append_response (also x xs) r = also x (append_response xs r)

unfoldable mutual
  unfolding label_accepts has_label predicted reaches get_label

  pub match_upstream : Matcher → String → UpstreamState → MatchResponse
  match_upstream status_matcher up_id state =
      ite (status_dec state.status available) success_response availability_response
  match_upstream (method_matcher method) up_id state =
      when (contains string_dec method state.upstream_methods) (method_response method)
  match_upstream (ws_cap_matcher method) up_id state =
      when (contains cap_dec ws_cap state.caps) (method_response method)
  match_upstream (upstream_index_matcher index) up_id state =
      ite (string_dec state.upstream_index index) success_response (upstream_index_response index)
  match_upstream (multi_matcher ms) up_id state = match_multi success_response ms up_id state
  match_upstream (label_matcher name values) up_id state =
      when (label_accepts values (get_label name state.labels)) (label_response name values)
  match_upstream (label_exists_matcher name) up_id state =
      when (has_label (get_label name state.labels)) (exists_response name)
  match_upstream (height_matcher height) up_id state =
      let cur = to_int64 state.head_data.height in
      when (leb_ℤ height cur) (height_response height cur)
  match_upstream (slot_height_matcher slot) up_id state =
      let cur = to_int64 state.head_data.slot in
      when (leb_ℤ slot cur) (slot_height_response slot cur)
  match_upstream (lower_height_matcher height t offset delta predict) up_id state =
      let bound = predicted predict up_id t offset in
      when (reaches height delta bound) (lower_height_response height bound t)
  match_upstream (selector_and_matcher ms) up_id state = all_of (refusals ms up_id state)
  match_upstream (selector_or_matcher ms) up_id state = match_or no_responses ms up_id state
  match_upstream (selector_not_matcher m) up_id state =
      let r = match_upstream m up_id state in
      if is_success r then not_matched_response r else success_response
  match_upstream (unsupported_selector_matcher reason) up_id state =
      selector_unsupported_response reason

  -- The loop of `MultiMatcher` with its variable `response`.
  pub match_multi : MatchResponse → Matchers → String → UpstreamState → MatchResponse
  match_multi response no_matchers up_id state = response
  match_multi response (and_matcher m ms) up_id state =
      match_multi (worse (match_upstream m up_id state) response) ms up_id state

  pub refusals : Matchers → String → UpstreamState → MatchResponses
  refusals no_matchers up_id state = no_responses
  refusals (and_matcher m ms) up_id state =
      collect (match_upstream m up_id state) (refusals ms up_id state)

  pub match_or : MatchResponses → Matchers → String → UpstreamState → MatchResponse
  match_or responses no_matchers up_id state = multi_response responses
  match_or responses (and_matcher m ms) up_id state =
      let r = match_upstream m up_id state in
      let rest = match_or (append_response responses r) ms up_id state in
      if is_success r then success_response else rest
