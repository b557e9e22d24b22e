-- ===== src/Flow/Strategy/Fresh.antt =====
-- internal/upstreams/flow/strategy.go: the upstream that a selection answers with, and what a
-- request may select over its retries.
use nodecore.Base.{
  true, false, String, List, [], ◌∷◌, Option, some, ◌≡◌, refl, ap, sym, ◌∙◌, inl, inr, arith,
  string_dec, Any, Option-cases,
}
use nodecore.Keyed.{contains, contains-add}
use nodecore.Protocol.State.{UpstreamState}
use nodecore.Flow.Responses.{MatchResponse, is_success}
use nodecore.Flow.Matchers.{Matcher, match_upstream}
use nodecore.Flow.Limits.{Limits, Allowance, allowed, denied, failed}
use nodecore.Flow.Strategy.Steps.{loop_skips, loop_goes_on, loop_returns}
use nodecore.Flow.Strategy.{
  admit, ask_budget, Picks, Asked, Trace, filter_loop, consider, process_matched_response,
}

module _ {S : Type 0} (limits : Limits S) (request : Asked) (m : Matcher)
    (get_upstream_state : String → Option UpstreamState) where
  admit-adds :
      (id : String) (a : Allowance × S) (picks : Picks S)
      → (admit limits id a picks).0 ≡ true
      → contains string_dec id (admit limits id a picks).2.selected_upstreams ≡ true
  admit-adds id (allowed, s) picks e =
      ground (arith, contains-add string_dec id id picks.selected_upstreams)
  admit-adds id (_, s) picks e = cc

  admit-grows :
      (x id : String) (a : Allowance × S) (picks : Picks S)
      → contains string_dec x picks.selected_upstreams ≡ true
      → contains string_dec x (admit limits id a picks).2.selected_upstreams ≡ true
  admit-grows x id (allowed, s) picks e =
      ground (arith, contains-add string_dec id x picks.selected_upstreams)
  admit-grows x id (denied, s) picks e = e
  admit-grows x id (failed, s) picks e = e

  -- An upstream that the request had not selected, that has a state and that the matchers let through.
  abbrev pub Fits : String → Picks S → Type 0
  Fits id picks =
      (state : UpstreamState) × (get_upstream_state id ≡ some state)
      × (is_success (match_upstream m id state) ≡ true)
      × (contains string_dec id picks.selected_upstreams ≡ false)

  process_matched_response-taken :
      (id : String) (state : UpstreamState) (r : MatchResponse) (reason : Option MatchResponse)
      (picks : Picks S)
      → (process_matched_response limits r reason id state request picks).0 ≡ true
      → (is_success r ≡ true)
        × (contains string_dec id picks.selected_upstreams ≡ false)
        × (contains string_dec id
              (process_matched_response limits r reason id state request picks).2.selected_upstreams
            ≡ true)
  unfolding process_matched_response
  process_matched_response-taken id state r reason picks e = ground (
    arith,
    admit-adds id (ask_budget limits state.rate_limiter_budget request.method picks.counters) picks,
  )

  process_matched_response-grows :
      (x id : String) (state : UpstreamState) (r : MatchResponse) (reason : Option MatchResponse)
      (picks : Picks S)
      → contains string_dec x picks.selected_upstreams ≡ true
      → contains string_dec x
          (process_matched_response limits r reason id state request picks).2.selected_upstreams
        ≡ true
  unfolding process_matched_response
  process_matched_response-grows x id state r reason picks e = ground (
    arith,
    admit-grows x id (ask_budget limits state.rate_limiter_budget request.method picks.counters)
        picks e,
  )

  consider-taken :
      (x id : String) (state : UpstreamState) (reason : Option MatchResponse) (trace : Trace)
      (picks : Picks S)
      → (consider limits request m id state reason trace picks).0 ≡ some x
      → (x ≡ id)
        × (is_success (match_upstream m id state) ≡ true)
        × (contains string_dec id picks.selected_upstreams ≡ false)
        × (contains string_dec id
              (consider limits request m id state reason trace picks).3.selected_upstreams
            ≡ true)
  unfolding consider
  consider-taken x id state reason trace picks e =
      ground
        (arith, process_matched_response-taken id state (match_upstream m id state) reason picks)

  consider-grows :
      (x id : String) (state : UpstreamState) (reason : Option MatchResponse) (trace : Trace)
      (picks : Picks S)
      → contains string_dec x picks.selected_upstreams ≡ true
      → contains string_dec x
          (consider limits request m id state reason trace picks).3.selected_upstreams
        ≡ true
  unfolding consider
  consider-grows x id state reason trace picks e =
      ground (
        arith,
        process_matched_response-grows x id state (match_upstream m id state) reason picks e,
      )

  pub filter_loop-grows :
      (ids : List String) (x : String) (reason : Option MatchResponse) (trace : Trace)
      (picks : Picks S)
      → contains string_dec x picks.selected_upstreams ≡ true
      → contains string_dec x
          (filter_loop limits request m get_upstream_state ids reason trace
            picks).3.selected_upstreams
        ≡ true
  unfolding filter_loop
  filter_loop-grows [] x reason trace picks e = e
  filter_loop-grows (id ∷ ids) x reason trace picks e =
      elim (Option-cases (get_upstream_state id)) [
        | inl q ↦
            rw (loop_skips limits request m get_upstream_state id ids reason trace picks q)
              (filter_loop-grows ids x reason trace picks e)
        | inr (state, q) ↦
            let c = consider limits request m id state reason trace picks in
            let grown = consider-grows x id state reason trace picks e in
            elim (Option-cases c.0) [
              | inl r ↦
                  rw
                    (loop_goes_on limits request m get_upstream_state id ids reason trace picks
                      state q r)
                    (filter_loop-grows ids x c.1 c.2 c.3 grown)
              | inr (y, r) ↦
                  rw
                    (loop_returns limits request m get_upstream_state id ids reason trace picks
                      state y q r)
                    grown
            ]
      ]

  -- What fits after a step did so before.
  Fits-earlier :
      (x id : String) (state : UpstreamState) (reason : Option MatchResponse) (trace : Trace)
      (picks : Picks S)
      → Fits x (consider limits request m id state reason trace picks).3
      → Fits x picks
  Fits-earlier x id state reason trace picks (found, e, ok, new) =
      (found, e, ok, ground (arith, consider-grows x id state reason trace picks))

  -- The answer of the loop is one of the upstreams, it fits, and it is selected from then on.
  abbrev pub IsPick : List String → String → Picks S → Picks S → Type 0
  IsPick ids x picks after =
      Any (λ id. id ≡ x) ids
      × Fits x picks
      × (contains string_dec x after.selected_upstreams ≡ true)

  taken-IsPick :
      (ids : List String) (x id : String) (state : UpstreamState) (reason : Option MatchResponse)
      (trace : Trace) (picks : Picks S)
      → get_upstream_state id ≡ some state
      → (consider limits request m id state reason trace picks).0 ≡ some x
      → IsPick (id ∷ ids) x picks (consider limits request m id state reason trace picks).3
  taken-IsPick ids x id state reason trace picks q e =
      let (same, ok, new, now) = consider-taken x id state reason trace picks e in
      rw same (inl refl, (state, q, ok, new), now)

  pub filter_loop-IsPick :
      (ids : List String) (x : String) (reason : Option MatchResponse) (trace : Trace)
      (picks : Picks S)
      → (filter_loop limits request m get_upstream_state ids reason trace picks).0 ≡ some x
      → IsPick ids x picks
          (filter_loop limits request m get_upstream_state ids reason trace picks).3
  unfolding filter_loop
  filter_loop-IsPick [] x reason trace picks e = cc
  filter_loop-IsPick (id ∷ ids) x reason trace picks e =
      elim (Option-cases (get_upstream_state id)) [
        | inl q ↦
            let step = loop_skips limits request m get_upstream_state id ids reason trace picks q in
            let (among, fits, now) =
              filter_loop-IsPick ids x reason trace picks (ap (λ r. r.0) (sym step) ∙ e) in
            rw step (inr among, fits, now)
        | inr (state, q) ↦
            let c = consider limits request m id state reason trace picks in
            elim (Option-cases c.0) [
              | inl r ↦
                  let step =
                    loop_goes_on limits request m get_upstream_state id ids reason trace picks state
                      q r in
                  let (among, fits, now) =
                    filter_loop-IsPick ids x c.1 c.2 c.3 (ap (λ r. r.0) (sym step) ∙ e) in
                  rw step (inr among, Fits-earlier x id state reason trace picks fits, now)
              | inr (y, r) ↦
                  let step =
                    loop_returns limits request m get_upstream_state id ids reason trace picks state
                      y q r in
                  rw step (
                    taken-IsPick ids x id state reason trace picks q (ap (λ r. r.0) (sym step) ∙ e))
            ]
      ]
