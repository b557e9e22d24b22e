-- ===== src/Flow/Satisfied.antt =====
-- What the selectors of internal/protocol/data.go ask of an upstream, read off the selector itself,
-- against the matchers that internal/upstreams/flow/selectors.go compiles them to.
use nodecore.Base.{
  Bool, true, false, ◌&&◌, ◌||◌, not, String, Option, none, some, ◌≡◌, refl, arith, ap, ◌∙◌,
}
use nodecore.Int.{pos, eqb_ℤ, leb_ℤ, to_int64}
use nodecore.Protocol.State.{UpstreamState, get_label}
use nodecore.Flow.Responses.{MatchResponses, no_responses, is_success}
use nodecore.Flow.Matchers.{
  label_matcher, label_exists_matcher, height_matcher, slot_height_matcher, lower_height_matcher,
  selector_and_matcher, selector_or_matcher, selector_not_matcher, unsupported_selector_matcher,
  Matcher, Matchers, LowerHeightPredictor, no_matchers, and_matcher, match_upstream, match_or,
  refusals, all_of, append_response, label_accepts, has_label, reaches, predicted,
}
use nodecore.Flow.Selectors.{
  RequestSelector, RequestSelectors, any_selector, label_selector, exists_selector, and_selector,
  or_selector, not_selector, height_selector, block_tag_selector, slot_height_selector,
  lower_height_selector, unsupported_selector, no_selectors, and_then, compile_selector,
  compile_and, compile_or,
}

-- A selector that tests the upstream: it gives no ordering hint, and under OR and NOT, where a
-- selector without a matcher is dropped, every child tests too.
unfoldable mutual
  pub Filters : RequestSelector → Type 0
  Filters any_selector = ⊥
  Filters (label_selector name values) = Unit
  Filters (exists_selector name) = Unit
  Filters (and_selector ss) = Conjuncts ss
  Filters (or_selector ss) = Disjuncts ss
  Filters (not_selector s) = Filters s
  Filters (height_selector h) = Unit
  Filters (block_tag_selector tag) = ⊥
  Filters (slot_height_selector h) = Unit
  Filters (lower_height_selector h t offset delta) = eqb_ℤ h (pos 0) ≡ false
  Filters (unsupported_selector reason) = Unit

  pub Conjuncts : RequestSelectors → Type 0
  Conjuncts no_selectors = Unit
  Conjuncts (and_then any_selector ss) = Conjuncts ss
  Conjuncts (and_then s ss) = Filters s × Conjuncts ss

  pub Disjuncts : RequestSelectors → Type 0
  Disjuncts no_selectors = Unit
  Disjuncts (and_then s ss) = Filters s × Disjuncts ss

module _ (predict : LowerHeightPredictor) (up_id : String) (state : UpstreamState) where
  -- Whether an upstream has what a selector asks for.
  unfoldable mutual
    unfolding get_label label_accepts has_label reaches

    pub satisfies : RequestSelector → Bool
    satisfies any_selector = true
    satisfies (label_selector name values) = label_accepts values (get_label name state.labels)
    satisfies (exists_selector name) = has_label (get_label name state.labels)
    satisfies (and_selector ss) = satisfies_all ss
    satisfies (or_selector ss) = satisfies_any ss
    satisfies (not_selector s) = not (satisfies s)
    satisfies (height_selector h) = leb_ℤ h (to_int64 state.head_data.height)
    satisfies (block_tag_selector tag) = true
    satisfies (slot_height_selector h) = leb_ℤ h (to_int64 state.head_data.slot)
    satisfies (lower_height_selector h t offset delta) = reaches h delta (predict up_id t offset)
    satisfies (unsupported_selector reason) = false

    pub satisfies_all : RequestSelectors → Bool
    satisfies_all no_selectors = true
    satisfies_all (and_then s ss) = satisfies s && satisfies_all ss

    pub satisfies_any : RequestSelectors → Bool
    satisfies_any no_selectors = false
    satisfies_any (and_then s ss) = satisfies s || satisfies_any ss

-- Whether a matcher lets an upstream through, and a list of matchers all or some of them.
module _ (up_id : String) (state : UpstreamState) where
  unfoldable pub lets : Matcher → Bool
  unfolding match_upstream
  lets m = is_success (match_upstream m up_id state)

  unfoldable pub lets_all : Matchers → Bool
  unfolding lets
  lets_all no_matchers = true
  lets_all (and_matcher m ms) = lets m && lets_all ms

  unfoldable pub lets_some : Matchers → Bool
  unfolding lets
  lets_some no_matchers = false
  lets_some (and_matcher m ms) = lets m || lets_some ms

  refusals-all : (ms : Matchers) → is_success (all_of (refusals ms up_id state)) ≡ lets_all ms
  unfolding match_upstream lets_all
  refusals-all no_matchers = refl
  refusals-all (and_matcher m ms) = ground (arith, refusals-all ms)

  match_or-some :
      (ms : Matchers) (rs : MatchResponses) → is_success (match_or rs ms up_id state) ≡ lets_some ms
  unfolding match_upstream lets_some
  match_or-some no_matchers rs = refl
  match_or-some (and_matcher m ms) rs =
      ground (arith, match_or-some ms (append_response rs (match_upstream m up_id state)))

module _ (predict : LowerHeightPredictor) (up_id : String) (state : UpstreamState) where
  -- The matcher of a selector, with no ordering hint, lets an upstream through as the selector asks.
  Tests : RequestSelector → Type 0
  Tests s =
      (m : Matcher) × (compile_selector predict s ≡ (some m, none))
      × (lets up_id state m ≡ satisfies predict up_id state s)

  TestsAll : RequestSelectors → Type 0
  TestsAll ss =
      (ms : Matchers) × (compile_and predict none ss ≡ (ms, none))
      × (lets_all up_id state ms ≡ satisfies_all predict up_id state ss)

  TestsAny : RequestSelectors → Type 0
  TestsAny ss =
      (ms : Matchers) × (compile_or predict ss ≡ some ms)
      × (lets_some up_id state ms ≡ satisfies_any predict up_id state ss)

  and_next :
      (s : RequestSelector) (ss : RequestSelectors)
      → Tests s
      → TestsAll ss
      → TestsAll (and_then s ss)
  unfolding Tests TestsAll compile_selector satisfies lets_all
  and_next s ss (m, e, q) (ms, f, r) = (and_matcher m ms, rw (e, f), rw (q, r))

  or_next :
      (s : RequestSelector) (ss : RequestSelectors)
      → Tests s
      → TestsAny ss
      → TestsAny (and_then s ss)
  unfolding Tests TestsAny compile_selector satisfies lets_some
  or_next s ss (m, e, q) (ms, f, r) = (and_matcher m ms, rw (e, f), rw (q, r))

  and_selector-Tests : (ss : RequestSelectors) → TestsAll ss → Tests (and_selector ss)
  unfolding Tests TestsAll compile_selector satisfies lets match_upstream
  and_selector-Tests ss (ms, f, r) =
      (selector_and_matcher ms, rw f, refusals-all up_id state ms ∙ r)

  or_selector-Tests : (ss : RequestSelectors) → TestsAny ss → Tests (or_selector ss)
  unfolding Tests TestsAny compile_selector satisfies lets match_upstream
  or_selector-Tests ss (ms, f, r) =
      (selector_or_matcher ms, rw f, match_or-some up_id state ms no_responses ∙ r)

  not_selector-Tests : (s : RequestSelector) → Tests s → Tests (not_selector s)
  unfolding Tests compile_selector satisfies lets match_upstream
  not_selector-Tests s (m, e, q) = (selector_not_matcher m, rw e, ground arith)

  mutual
    unfolding Filters Tests TestsAll TestsAny compile_selector satisfies lets lets_all lets_some
        match_upstream predicted

    selector-Tests : (s : RequestSelector) → Filters s → Tests s
    selector-Tests any_selector h = elim h [ ]
    selector-Tests (label_selector name values) h = (label_matcher name values, refl, ground arith)
    selector-Tests (exists_selector name) h = (label_exists_matcher name, refl, ground arith)
    selector-Tests (and_selector ss) h = and_selector-Tests ss (Conjuncts-TestsAll ss h)
    selector-Tests (or_selector ss) h = or_selector-Tests ss (Disjuncts-TestsAny ss h)
    selector-Tests (not_selector s) h = not_selector-Tests s (selector-Tests s h)
    selector-Tests (height_selector v) h = (height_matcher v, refl, ground arith)
    selector-Tests (block_tag_selector tag) h = elim h [ ]
    selector-Tests (slot_height_selector v) h = (slot_height_matcher v, refl, ground arith)
    selector-Tests (lower_height_selector v t offset delta) h =
        (lower_height_matcher v t offset delta (some predict), rw h, ground arith)
    selector-Tests (unsupported_selector reason) h =
        (unsupported_selector_matcher reason, refl, refl)

    Conjuncts-TestsAll : (ss : RequestSelectors) → Conjuncts ss → TestsAll ss
    Conjuncts-TestsAll no_selectors h = (no_matchers, refl, refl)
    Conjuncts-TestsAll (and_then any_selector ss) h = Conjuncts-TestsAll ss h
    Conjuncts-TestsAll (and_then s ss) h =
        and_next s ss (selector-Tests s h.0) (Conjuncts-TestsAll ss h.1)

    Disjuncts-TestsAny : (ss : RequestSelectors) → Disjuncts ss → TestsAny ss
    Disjuncts-TestsAny no_selectors h = (no_matchers, refl, refl)
    Disjuncts-TestsAny (and_then s ss) h =
        or_next s ss (selector-Tests s h.0) (Disjuncts-TestsAny ss h.1)

-- An optional matcher lets through what it matches; with none, everything.
abbrev pub passes : Option Matcher → String → UpstreamState → Bool
passes none up_id state = true
passes (some m) up_id state = lets up_id state m

-- A selector that only tests compiles to a matcher, with no ordering hint, that lets through exactly
-- the upstreams that have what the selector asks for.
pub compile_selector-satisfies :
    (predict : LowerHeightPredictor) (s : RequestSelector)
    → Filters s
    → (up_id : String) (state : UpstreamState)
    → (passes (compile_selector predict s).0 up_id state ≡ satisfies predict up_id state s)
      × ((compile_selector predict s).1 ≡ none)
unfolding Tests
compile_selector-satisfies predict s h up_id state =
    let (m, e, q) = selector-Tests predict up_id state s h in (rw (e, q), ap (λ c. c.1) e)
