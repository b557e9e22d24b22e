-- ===== src/Flow/Dispatch/FirstNotNull.antt =====
-- internal/upstreams/flow/not_null_request_processor.go: the answer of the search for a result that is
-- not null, read off the outcomes themselves.
use nodecore.Base.{
  Bool, true, false, List, [], ◌∷◌, Option, none, some, ◌≡◌, refl, ◌⊎◌, inl, inr, arith,
  if◌then◌else◌, Option-cases, ap, ◌∙◌,
}
use nodecore.Flow.Dispatch.Answers.{
  Response, Wrapper, DispatchError, empty_response, cancelled, Outcome, failed, answered, Final,
  returned, total_failure, Texts,
}
use nodecore.Flow.Dispatch.Chosen.{first, last, or_first, or_first-none, or_first_assoc, answer}
use nodecore.Flow.Dispatch.NotNull.{
  Turn, Seen, nothing_seen, settle_for, is_null_response, ask, not_null_loop,
}

-- What an outcome is for the search: a stream or a result that is not null, a null, an error that the
-- upstream answered, or no answer.
pub data Found : Type 0 where
  final_answer null_answer error_answer : Wrapper → Found
  no_answer : DispatchError → Found

abbrev decisive : Found → Option Wrapper
decisive (final_answer w) = some w
decisive _ = none

abbrev null_found : Found → Option Wrapper
null_found (null_answer w) = some w
null_found _ = none

abbrev error_found : Found → Option Wrapper
error_found (error_answer w) = some w
error_found _ = none

abbrev nothing_found : Found → Option DispatchError
nothing_found (no_answer e) = some e
nothing_found _ = none

-- The outcomes up to the turn at which the context is done, and whether there is such a turn.
abbrev pub live : List Turn → List Outcome
live [] = []
live ((true, o) ∷ turns) = []
live ((false, o) ∷ turns) = o ∷ live turns

abbrev pub is_cut : List Turn → Bool
is_cut [] = false
is_cut ((true, o) ∷ turns) = true
is_cut ((false, o) ∷ turns) = is_cut turns

abbrev verdict : Option Wrapper → Bool → Final → Final
verdict (some w) cut rest = returned w
verdict none true rest = total_failure cancelled
verdict none false rest = rest

module _ (texts : Texts) where
  abbrev pub found_in : Wrapper → Option Response → Found
  found_in w none = no_answer empty_response
  found_in w (some r) =
      if r.has_stream
      then final_answer w
      else if r.has_error
      then error_answer w
      else if is_null_response texts r
      then null_answer w
      else final_answer w

  abbrev pub found : Outcome → Found
  found (failed e) = no_answer e
  found (answered none) = no_answer empty_response
  found (answered (some w)) = found_in w w.response

  abbrev noted : Found → Seen → Seen
  noted k s = record {
    null_result = or_first s.null_result (null_found k);
    fallback = or_first s.fallback (error_found k);
    last_err = or_first (nothing_found k) s.last_err;
  }

  abbrev turned : Found → Seen → Wrapper ⊎ Seen
  turned k s = elim (decisive k) [ some w ↦ inl w | none ↦ inr (noted k s) ]

  ask-turned : (o : Outcome) (s : Seen) → ask texts o s ≡ turned (found o) s
  unfolding ask
  ask-turned (failed e) s = ground arith
  ask-turned (answered none) s = ground arith
  ask-turned (answered (some w)) s = ground arith

  -- The first decisive answer of a live turn; without one the failure of a cancelled request; else the
  -- first null, or else the first error, or else the last loss.
  abbrev seen_answer : List Turn → Seen → Final
  seen_answer turns s = verdict (first (λ o. decisive (found o)) (live turns)) (is_cut turns) (
      answer (or_first s.null_result (first (λ o. null_found (found o)) (live turns)))
        (or_first s.fallback (first (λ o. error_found (found o)) (live turns)))
        (or_first (last (λ o. nothing_found (found o)) (live turns)) s.last_err))

  settle_for-answer : (s : Seen) → settle_for s ≡ answer s.null_result s.fallback s.last_err
  unfolding settle_for
  settle_for-answer s = ground arith

  seen_step :
      (o : Outcome) (turns : List Turn) (s : Seen)
      → decisive (found o) ≡ none
      → seen_answer turns (noted (found o) s) ≡ seen_answer ((false, o) ∷ turns) s
  seen_step o turns s e =
      rw
        (
          e,
          or_first_assoc s.null_result (null_found (found o))
              (first (λ o. null_found (found o)) (live turns)),
          or_first_assoc s.fallback (error_found (found o))
              (first (λ o. error_found (found o)) (live turns)),
          or_first_assoc (last (λ o. nothing_found (found o)) (live turns))
              (nothing_found (found o)) s.last_err,
        )
        refl

  loop-seen : (turns : List Turn) (s : Seen) → not_null_loop texts turns s ≡ seen_answer turns s
  unfolding not_null_loop
  loop-seen [] s =
      settle_for-answer s ∙ rw (or_first-none s.null_result, or_first-none s.fallback) refl
  loop-seen ((true, o) ∷ turns) s = refl
  loop-seen ((false, o) ∷ turns) s = elim (Option-cases (decisive (found o))) [
    | inl e ↦
        let q : ask texts o s ≡ inr (noted (found o) s) = ask-turned o s ∙ rw (turned, e) refl in
        rw (not_null_loop, q) (loop-seen turns (noted (found o) s) ∙ seen_step o turns s e)
    | inr (w, e) ↦
        let q : ask texts o s ≡ inl w = ask-turned o s ∙ rw (turned, e) refl in
        rw (not_null_loop, q, e) refl
  ]

abbrev pub not_null_answer : Texts → List Turn → Final
not_null_answer texts turns =
    let os = live turns in
    verdict (first (λ o. decisive (found texts o)) os) (is_cut turns) (
      answer (first (λ o. null_found (found texts o)) os)
        (first (λ o. error_found (found texts o)) os)
        (last (λ o. nothing_found (found texts o)) os))

-- The answer of the search for a result that is not null: the first stream or result that is not null
-- among the upstreams asked before the context is done; without one, the failure of a request that
-- was cancelled; or else the first null, the first error, the last failure, in this order: a null is
-- preferred to an error also when not every upstream has answered with null.
pub not_null-first :
    (texts : Texts) (turns : List Turn)
    → not_null_loop texts turns nothing_seen ≡ not_null_answer texts turns
not_null-first texts turns =
    loop-seen texts turns nothing_seen
    ∙ ap
        (λ l. verdict (first (λ o. decisive (found texts o)) (live turns)) (is_cut turns) (
          answer (first (λ o. null_found (found texts o)) (live turns))
            (first (λ o. error_found (found texts o)) (live turns)) l))
        (or_first-none (last (λ o. nothing_found (found texts o)) (live turns)))
