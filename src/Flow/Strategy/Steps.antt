-- ===== src/Flow/Strategy/Steps.antt =====
-- internal/upstreams/flow/strategy.go: the loop of filterUpstreams, one upstream at a time.
use nodecore.Base.{String, List, ◌∷◌, Option, none, some, ◌≡◌}
use nodecore.Protocol.State.{UpstreamState}
use nodecore.Flow.Responses.{MatchResponse}
use nodecore.Flow.Matchers.{Matcher}
use nodecore.Flow.Limits.{Limits}
use nodecore.Flow.Strategy.{Picks, Asked, Trace, filter_loop, consider}

module _ {S : Type 0} (limits : Limits S) (request : Asked) (m : Matcher)
    (get_upstream_state : String → Option UpstreamState) (id : String) (ids : List String)
    (reason : Option MatchResponse) (trace : Trace) (picks : Picks S) where
  pub loop_skips :
      get_upstream_state id ≡ none
      → filter_loop limits request m get_upstream_state (id ∷ ids) reason trace picks
        ≡ filter_loop limits request m get_upstream_state ids reason trace picks
  unfolding filter_loop
  loop_skips q = rw (filter_loop, q)

  pub loop_goes_on :
      (state : UpstreamState)
      → get_upstream_state id ≡ some state
      → (let c = consider limits request m id state reason trace picks in
          c.0 ≡ none
          → filter_loop limits request m get_upstream_state (id ∷ ids) reason trace picks
            ≡ filter_loop limits request m get_upstream_state ids c.1 c.2 c.3)
  unfolding filter_loop
  loop_goes_on state q r = rw (filter_loop, q, r)

  pub loop_returns :
      (state : UpstreamState) (x : String)
      → get_upstream_state id ≡ some state
      → (let c = consider limits request m id state reason trace picks in
          c.0 ≡ some x
          → filter_loop limits request m get_upstream_state (id ∷ ids) reason trace picks ≡ c)
  unfolding filter_loop
  loop_returns state x q r = rw (filter_loop, q, r)
