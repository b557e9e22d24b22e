-- ===== src/Flow/Severity.antt =====
-- internal/upstreams/flow/matchers.go and strategy.go: which of several reasons is reported.
use nodecore.Base.{ℕ, ◌≤◌, String, ◌≡◌, refl, arith, ap, ◌∙◌, ◌==◌, min}
use nodecore.Protocol.State.{UpstreamState}
use nodecore.Flow.Responses.{
  MatchResponseType, method_type, availability_type, rate_limiter_type, upstream_index_type,
  selector_type, success_type, MatchResponse, severity, response_type, is_success, success_response,
}
use nodecore.Flow.Matchers.{
  Matchers, no_matchers, and_matcher, multi_matcher, match_upstream, match_multi, worse,
}
use nodecore.Flow.Satisfied.{lets, lets_all}

abbrev pub graveness : MatchResponse → ℕ
graveness r = severity (response_type r)

severity-bound : (t : MatchResponseType) → severity t ≤ 5
severity-bound method_type = omega arith
severity-bound availability_type = omega arith
severity-bound rate_limiter_type = omega arith
severity-bound upstream_index_type = omega arith
severity-bound selector_type = omega arith
severity-bound success_type = omega arith

module _ (up_id : String) (state : UpstreamState) where
  -- The least type among the answers of the matchers, and of the success that stands at the start.
  unfoldable pub least : Matchers → ℕ
  unfolding match_upstream
  least no_matchers = severity (response_type success_response)
  least (and_matcher m ms) = min (graveness (match_upstream m up_id state)) (least ms)

  least-bound : (ms : Matchers) → least ms ≤ 5
  unfolding least
  least-bound no_matchers = omega arith
  least-bound (and_matcher m ms) = omega (arith, least-bound ms)

  worse-min : (a b : MatchResponse) → graveness (worse a b) ≡ min (graveness a) (graveness b)
  worse-min a b = ground arith

  match_multi-min :
      (ms : Matchers) (r : MatchResponse)
      → graveness (match_multi r ms up_id state) ≡ min (graveness r) (least ms)
  unfolding match_upstream least
  match_multi-min no_matchers r = omega (arith, severity-bound (response_type r))
  match_multi-min (and_matcher m ms) r =
      let a = match_upstream m up_id state in
      omega (arith, match_multi-min ms (worse a r), worse-min a r)

  least-all : (ms : Matchers) → (least ms == 5) ≡ lets_all up_id state ms
  unfolding least lets_all lets match_upstream
  least-all no_matchers = refl
  least-all (and_matcher m ms) = ground (
    arith,
    least-all ms,
    least-bound ms,
    severity-bound (response_type (match_upstream m up_id state)),
  )

  -- The matchers of a request together answer with the least of the types of their answers, and let
  -- an upstream through exactly when each of them does.
  pub multi_matcher-least :
      (ms : Matchers)
      → (graveness (match_upstream (multi_matcher ms) up_id state) ≡ least ms)
        × (is_success (match_upstream (multi_matcher ms) up_id state) ≡ lets_all up_id state ms)
  unfolding match_upstream least
  multi_matcher-least ms =
      let e : graveness (match_multi success_response ms up_id state) ≡ least ms =
        omega (arith, match_multi-min ms success_response, least-bound ms) in
      (e, ap (λ n. n == 5) e ∙ least-all ms)
