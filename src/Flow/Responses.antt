-- ===== src/Flow/Responses.antt =====
-- internal/upstreams/flow/matchers.go: the answers of a matcher and their types. The texts that
-- `Cause` formats for people are left out.
use nodecore.Base.{ℕ, Bool, String, List, ◌==◌, ltb}
use nodecore.Int.{ℤ}
use nodecore.Protocol.State.{LowerBoundType}

-- In the order of the constants, of which the least wins.
pub data MatchResponseType : Type 0 where
  method_type availability_type rate_limiter_type upstream_index_type selector_type success_type :
      MatchResponseType

abbrev pub severity : MatchResponseType → ℕ
severity method_type = 0
severity availability_type = 1
severity rate_limiter_type = 2
severity upstream_index_type = 3
severity selector_type = 4
severity success_type = 5

mutual
  pub data MatchResponse : Type 0 where
    rate_limiter_response : MatchResponse
    upstream_index_response : String → MatchResponse
    success_response : MatchResponse
    method_response : String → MatchResponse
    availability_response : MatchResponse
    label_response : String → List String → MatchResponse
    exists_response : String → MatchResponse
    height_response : ℤ → ℤ → MatchResponse
    slot_height_response : ℤ → ℤ → MatchResponse
    lower_height_response : ℤ → ℤ → LowerBoundType → MatchResponse
    selector_unsupported_response : String → MatchResponse
    not_matched_response : MatchResponse → MatchResponse
    multi_response : MatchResponses → MatchResponse

  pub data MatchResponses : Type 0 where
    no_responses : MatchResponses
    also : MatchResponse → MatchResponses → MatchResponses

abbrev pub response_type : MatchResponse → MatchResponseType
response_type rate_limiter_response = rate_limiter_type
response_type (upstream_index_response _) = upstream_index_type
response_type success_response = success_type
response_type (method_response _) = method_type
response_type availability_response = availability_type
response_type _ = selector_type

-- `matchedResponse.Type() == SuccessType`.
abbrev pub is_success : MatchResponse → Bool
is_success r = severity (response_type r) == 5

-- `a.Type() < b.Type()`.
abbrev pub more_severe : MatchResponse → MatchResponse → Bool
more_severe a b = ltb (severity (response_type a)) (severity (response_type b))
