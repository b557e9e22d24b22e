-- ===== src/Flow/Dispatch/Chosen.antt =====
-- internal/upstreams/flow/fanout_request_processor.go: the answer that a fan-out returns, read off the
-- list of outcomes itself.
use nodecore.Base.{List, [], ◌∷◌, Option, none, some, ◌≡◌, refl, arith, if◌then◌else◌, ap, ◌∙◌}
use nodecore.Flow.Dispatch.Answers.{
  Response, Wrapper, DispatchError, no_upstream, empty_response, streaming_response, Outcome,
  failed, answered, Final, returned, total_failure, Texts, Aggregator, new_aggregator,
  record_checked, record_broadcast, final, record_all, dispatch_broadcast, fan_out,
}

-- What an outcome is: a result, an error that the upstream answered, or no answer that counts.
pub data Kind : Type 0 where
  success : Wrapper → Response → Kind
  rejected : Wrapper → Kind
  lost : DispatchError → Kind

abbrev pub kind_of : Wrapper → Option Response → Kind
kind_of w none = lost empty_response
kind_of w (some r) =
    if r.has_stream
    then lost streaming_response
    else if r.has_error
    then rejected w
    else success w r

abbrev pub kind : Outcome → Kind
kind (failed e) = lost e
kind (answered none) = lost empty_response
kind (answered (some w)) = kind_of w w.response

abbrev pub successful : Kind → Option Wrapper
successful (success w r) = some w
successful _ = none

abbrev pub refusing : Kind → Option Wrapper
refusing (rejected w) = some w
refusing _ = none

abbrev pub losing : Kind → Option DispatchError
losing (lost e) = some e
losing _ = none

-- The first, and the last, of the outcomes that a partial function takes.
abbrev pub or_first : {A : Type 0} → Option A → Option A → Option A
or_first none b = b
or_first (some a) b = some a

module _ {A : Type 0} (f : Outcome → Option A) where
  abbrev pub first : List Outcome → Option A
  first [] = none
  first (o ∷ os) = or_first (f o) (first os)

  abbrev pub last : List Outcome → Option A
  last [] = none
  last (o ∷ os) = or_first (last os) (f o)

abbrev pub answer : Option Wrapper → Option Wrapper → Option DispatchError → Final
answer (some w) rejection loss = returned w
answer none (some w) loss = returned w
answer none none (some e) = total_failure e
answer none none none = total_failure no_upstream

-- Among the outcomes the first result, or else the first error of an upstream, or else the last loss.
abbrev pub broadcast_answer : List Outcome → Final
broadcast_answer os =
    answer (first (λ o. successful (kind o)) os) (first (λ o. refusing (kind o)) os)
      (last (λ o. losing (kind o)) os)

abbrev recorded : List Outcome → Aggregator → Aggregator
recorded os a = record {
  selected_wrapper = or_first a.selected_wrapper (first (λ o. successful (kind o)) os);
  max = a.max;
  fallback = or_first a.fallback (first (λ o. refusing (kind o)) os);
  last_err = or_first (last (λ o. losing (kind o)) os) a.last_err;
}

recorded_step :
    (o : Outcome) (os : List Outcome) (a : Aggregator)
    → recorded os (record_broadcast o a) ≡ recorded (o ∷ os) a
unfolding record_broadcast record_checked
recorded_step (failed e) os a = ground arith
recorded_step (answered none) os a = ground arith
recorded_step (answered (some w)) os a = ground arith

record_all-recorded :
    (os : List Outcome) (a : Aggregator) → record_all record_broadcast os a ≡ recorded os a
unfolding record_all record_broadcast
record_all-recorded [] a = ground arith
record_all-recorded (o ∷ os) a =
    record_all-recorded os (record_broadcast o a) ∙ recorded_step o os a

pub or_first_assoc :
    {A : Type 0} (a b c : Option A) → or_first (or_first a b) c ≡ or_first a (or_first b c)
or_first_assoc none b c = refl
or_first_assoc (some a) b c = refl

pub or_first-none : {A : Type 0} (o : Option A) → or_first o none ≡ o
or_first-none none = refl
or_first-none (some a) = refl

pub final-answer : (a : Aggregator) → final a ≡ answer a.selected_wrapper a.fallback a.last_err
unfolding final
final-answer a = ground arith

-- A broadcast returns the first result, in the order in which the upstreams were selected; without one
-- the first error that an upstream answered; without that the last failure.
pub broadcast-first :
    (texts : Texts) (os : List Outcome) → fan_out texts dispatch_broadcast os ≡ broadcast_answer os
unfolding fan_out
broadcast-first texts os =
    ap final (record_all-recorded os new_aggregator)
    ∙ final-answer (recorded os new_aggregator)
    ∙ ap (answer (first (λ o. successful (kind o)) os) (first (λ o. refusing (kind o)) os))
        (or_first-none (last (λ o. losing (kind o)) os))
