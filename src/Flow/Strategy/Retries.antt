-- ===== src/Flow/Strategy/Retries.antt =====
-- internal/upstreams/flow/strategy.go: SelectUpstream, and the selections of one request that is
-- retried with the same strategy.
use nodecore.Base.{
  true, String, List, [], ◌∷◌, Option, none, some, ◌≡◌, refl, ap, sym, ◌∙◌, string_dec, All, map,
  Bool,
}
use nodecore.Keyed.{contains}
use nodecore.Protocol.State.{UpstreamState}
use nodecore.Flow.Matchers.{Matchers}
use nodecore.Flow.Limits.{Limits}
use nodecore.Flow.Strategy.{
  Picks, Asked, Selection, selected, outcome, filter_loop, filter_upstreams, matcher_of,
  select_specific,
}
use nodecore.Flow.Strategy.Attempts.{Distinct, IsFresh, attempts_of, attempts_of-Distinct}
use nodecore.Flow.Strategy.Fresh.{IsPick, filter_loop-IsPick, filter_loop-grows}

-- The upstreams in the order in which the loop goes through them.
abbrev pub arranged : Option (List String → List String) → List String → List String
arranged none ids = ids
arranged (some order) ids = order ids

abbrev pub is_picked : {S : Type 0} → String → Picks S → Bool
is_picked x picks = contains string_dec x picks.selected_upstreams

module _ {S : Type 0} (limits : Limits S) (request : Asked)
    (get_upstream_state : String → Option UpstreamState) (additional : Matchers)
    (order : Option (List String → List String)) where
  outcome-selected :
      (r : Selection limits) (x : String) → (outcome limits r).0 ≡ selected x → r.0 ≡ some x
  outcome-selected (some y, reason, trace, picks) x e = cc
  outcome-selected (none, reason, trace, picks) x e = cc

  outcome-picks : (r : Selection limits) → (outcome limits r).1 ≡ r.3
  outcome-picks (some y, reason, trace, picks) = refl
  outcome-picks (none, reason, trace, picks) = refl

  abbrev looped : List String → Picks S → Selection limits
  looped ids picks =
      filter_loop limits request (matcher_of request additional) get_upstream_state ids none []
        picks

  filter_upstreams-looped :
      (ids : List String) (picks : Picks S) (o : Option (List String → List String))
      → filter_upstreams limits request ids get_upstream_state additional o picks
        ≡ looped (arranged o ids) picks
  unfolding filter_upstreams
  filter_upstreams-looped ids picks none = refl
  filter_upstreams-looped ids picks (some f) = refl

  pub filter_upstreams-IsPick :
      (ids : List String) (x : String) (picks : Picks S)
      → (filter_upstreams limits request ids get_upstream_state additional order picks).0 ≡ some x
      → IsPick limits request
          (matcher_of request additional)
          get_upstream_state
          (arranged order ids)
          x
          picks
          (filter_upstreams limits request ids get_upstream_state additional order picks).3
  filter_upstreams-IsPick ids x picks e =
      let step = filter_upstreams-looped ids picks order in
      rw step (
        filter_loop-IsPick limits request (matcher_of request additional) get_upstream_state
          (arranged order ids) x none [] picks (ap (λ q. q.0) (sym step) ∙ e))

  pub filter_upstreams-grows :
      (ids : List String) (x : String) (picks : Picks S)
      → is_picked x picks ≡ true
      → is_picked x
          (filter_upstreams limits request ids get_upstream_state additional order picks).3
        ≡ true
  filter_upstreams-grows ids x picks e = rw (filter_upstreams-looped ids picks order) (
      filter_loop-grows limits request (matcher_of request additional) get_upstream_state
        (arranged order ids) x none [] picks e)

  -- An upstream that SelectUpstream answers with is one of the upstreams it was given, in the order
  -- of the request's selectors; it has a state, the request's matchers let it through, the request
  -- had not selected it before, and it counts as selected afterwards.
  pub select_specific-IsPick :
      (ids : List String) (x : String) (picks : Picks S)
      → (select_specific limits request get_upstream_state additional order ids picks).0
        ≡ selected x
      → IsPick limits request
          (matcher_of request additional)
          get_upstream_state
          (arranged order ids)
          x
          picks
          (select_specific limits request get_upstream_state additional order ids picks).1
  unfolding select_specific
  select_specific-IsPick [] x picks e = cc
  select_specific-IsPick (id ∷ ids) x picks e =
      let r =
        filter_upstreams limits request (id ∷ ids) get_upstream_state additional order picks in
      rw (outcome-picks r) (filter_upstreams-IsPick (id ∷ ids) x picks (outcome-selected r x e))

  pub select_specific-grows :
      (ids : List String) (x : String) (picks : Picks S)
      → contains string_dec x picks.selected_upstreams ≡ true
      → contains string_dec x
          (select_specific limits request get_upstream_state additional order ids
            picks).1.selected_upstreams
        ≡ true
  unfolding select_specific
  select_specific-grows [] x picks e = e
  select_specific-grows (id ∷ ids) x picks e =
      rw
        (outcome-picks
          (filter_upstreams limits request (id ∷ ids) get_upstream_state additional order picks))
        (filter_upstreams-grows (id ∷ ids) x picks e)

  select_specific-IsFresh :
      (ids : List String)
      → IsFresh is_picked (select_specific limits request get_upstream_state additional order ids)
  select_specific-IsFresh ids = record {
    fresh = λ x p e.
        let (among, (state, found, ok, new), now) = select_specific-IsPick ids x p e in (new, now);
    grows = select_specific-grows ids;
  }

  -- The upstreams that a request selects, one attempt after the other, each with the upstreams that
  -- the strategy has then.
  unfoldable pub attempts : List (List String) → Picks S → List String
  unfolding select_specific attempts_of
  attempts rounds =
      attempts_of (map (select_specific limits request get_upstream_state additional order) rounds)

  All-IsFresh :
      (rounds : List (List String))
      → All
          (IsFresh is_picked)
          (map (select_specific limits request get_upstream_state additional order) rounds)
  All-IsFresh [] = tt
  All-IsFresh (ids ∷ rounds) = (select_specific-IsFresh ids, All-IsFresh rounds)

  -- Whatever upstreams the attempts of a request are offered, whatever the rate limiters answer and
  -- however the selectors order them, no upstream is selected twice.
  pub attempts-Distinct :
      (rounds : List (List String)) (picks : Picks S) → Distinct (attempts rounds picks)
  unfolding attempts
  attempts-Distinct rounds picks = attempts_of-Distinct is_picked _ picks (All-IsFresh rounds)
