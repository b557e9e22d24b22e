-- ===== src/Flow/Dispatch/Greatest.antt =====
-- internal/upstreams/flow/fanout_request_processor.go: the answer of the maximum-value fan-out.
use nodecore.Base.{
  List, [], ◌∷◌, Option, none, some, ◌≡◌, refl, ◌⊎◌, inl, inr, arith, All, Any, if◌then◌else◌,
  Bool-cases, ap, sym, ◌∙◌,
}
use nodecore.Int.{ℤ, ltb_ℤ, ◌≤ℤ◌}
use nodecore.Flow.Dispatch.Answers.{
  Wrapper, DispatchError, bad_quantity, Outcome, failed, answered, returned, Texts, Aggregator,
  record_checked, record_maximum, parse_hex_quantity, final, record_all, dispatch_maximum_value,
  fan_out,
}
use nodecore.Flow.Dispatch.Chosen.{
  Kind, success, rejected, lost, kind, refusing, first, last, or_first, or_first_assoc, answer,
  final-answer,
}

le_refl_ℤ : (v : ℤ) → v ≤ℤ v
le_refl_ℤ v = omega arith

module _ (texts : Texts) where
  -- A result with the quantity that it stands for.
  abbrev pub counted : Kind → Option (Wrapper × ℤ)
  counted (success w r) = elim (parse_hex_quantity texts r) [ none ↦ none | some v ↦ some (w, v) ]
  counted _ = none

  abbrev pub quantity : Outcome → Option (Wrapper × ℤ)
  quantity o = counted (kind o)

  abbrev losing_count : Kind → Option DispatchError
  losing_count (success w r) = elim (parse_hex_quantity texts r) [
    | none ↦ some bad_quantity
    | some v ↦ none
  ]
  losing_count (rejected w) = none
  losing_count (lost e) = some e

  abbrev better : Option (Wrapper × ℤ) → Option (Wrapper × ℤ) → Option (Wrapper × ℤ)
  better none q = q
  better (some p) none = some p
  better (some (w, u)) (some (x, v)) = if ltb_ℤ u v then some (x, v) else some (w, u)

  abbrev running : Option (Wrapper × ℤ) → List Outcome → Option (Wrapper × ℤ)
  running best [] = best
  running best (o ∷ os) = running (better best (quantity o)) os

  abbrev wrapper_of : Option (Wrapper × ℤ) → Option Wrapper
  wrapper_of none = none
  wrapper_of (some (w, v)) = some w

  abbrev value_of : Option (Wrapper × ℤ) → Option ℤ
  value_of none = none
  value_of (some (w, v)) = some v

  abbrev holding : Option (Wrapper × ℤ) → Option Wrapper → Option DispatchError → Aggregator
  holding best f e = record {
    selected_wrapper = wrapper_of best;
    max = value_of best;
    fallback = f;
    last_err = e;
  }

  record_step :
      (o : Outcome) (best : Option (Wrapper × ℤ)) (f : Option Wrapper) (e : Option DispatchError)
      → record_maximum texts o (holding best f e)
        ≡ holding
            (better best (quantity o))
            (or_first f (refusing (kind o)))
            (or_first (losing_count (kind o)) e)
  unfolding record_maximum record_checked
  record_step (failed x) none f e = ground arith
  record_step (failed x) (some p) f e = ground arith
  record_step (answered none) none f e = ground arith
  record_step (answered none) (some p) f e = ground arith
  record_step (answered (some w)) none f e = ground arith
  record_step (answered (some w)) (some p) f e = ground arith

  record_all-running :
      (os : List Outcome) (best : Option (Wrapper × ℤ)) (f : Option Wrapper)
      (e : Option DispatchError)
      → record_all (record_maximum texts) os (holding best f e)
        ≡ holding
            (running best os)
            (or_first f (first (λ o. refusing (kind o)) os))
            (or_first (last (λ o. losing_count (kind o)) os) e)
  unfolding record_all
  record_all-running [] best f e = ground arith
  record_all-running (o ∷ os) best f e =
      ap (record_all (record_maximum texts) os) (record_step o best f e)
      ∙ record_all-running os (better best (quantity o)) (or_first f (refusing (kind o)))
          (or_first (losing_count (kind o)) e)
      ∙ rw (
        or_first_assoc f (refusing (kind o)) (first (λ o. refusing (kind o)) os),
        or_first_assoc (last (λ o. losing_count (kind o)) os) (losing_count (kind o)) e,
      )

  abbrev pub AtMost : ℤ → Option (Wrapper × ℤ) → Type 0
  AtMost v none = Unit
  AtMost v (some (w, u)) = u ≤ℤ v

  better-AtMost :
      (v : ℤ) (p q : Option (Wrapper × ℤ)) → AtMost v (better p q) → AtMost v p × AtMost v q
  better-AtMost v none q h = (tt, h)
  better-AtMost v (some p) none h = (h, tt)
  better-AtMost v (some (w, u)) (some (x, t)) h = elim (Bool-cases (ltb_ℤ u t)) [
    | inl e ↦ let k : t ≤ℤ v = rw e at h in (ground arith, k)
    | inr e ↦ let k : u ≤ℤ v = rw e at h in (k, ground arith)
  ]

  better_from :
      (p q : Option (Wrapper × ℤ)) (r : Wrapper × ℤ)
      → better p q ≡ some r
      → (p ≡ some r) ⊎ (q ≡ some r)
  better_from none q r h = inr h
  better_from (some p) none r h = inl h
  better_from (some (w, u)) (some (x, t)) r h = elim (Bool-cases (ltb_ℤ u t)) [
    | inl e ↦ inr (rw e at h)
    | inr e ↦ inl (rw e at h)
  ]

  abbrev Greatest : Option (Wrapper × ℤ) → List Outcome → Wrapper → ℤ → Type 0
  Greatest best os w v =
      ((best ≡ some (w, v)) ⊎ Any (λ o. quantity o ≡ some (w, v)) os)
      × AtMost v best
      × All (λ o. AtMost v (quantity o)) os

  running-Greatest :
      (os : List Outcome) (best : Option (Wrapper × ℤ)) (w : Wrapper) (v : ℤ)
      → running best os ≡ some (w, v)
      → Greatest best os w v
  running-Greatest [] best w v h = (inl h, rw h (le_refl_ℤ v), tt)
  running-Greatest (o ∷ os) best w v h =
      let (from, most, rest) = running-Greatest os (better best (quantity o)) w v h in
      let (old, new) = better-AtMost v best (quantity o) most in
      (
        elim from [
          | inl now ↦ elim (better_from best (quantity o) (w, v) now) [
            | inl b ↦ inl b
            | inr q ↦ inr (inl q)
          ]
          | inr later ↦ inr (inr later)
        ],
        old,
        (new, rest),
      )

  running-none :
      (os : List Outcome) (best : Option (Wrapper × ℤ))
      → running best os ≡ none
      → (best ≡ none) × All (λ o. quantity o ≡ none) os
  running-none [] best h = (h, tt)
  running-none (o ∷ os) best h =
      let (now, rest) = running-none os (better best (quantity o)) h in
      let (b, q) = better_none best (quantity o) now in (b, (q, rest))
    where
      better_none : (p q : Option (Wrapper × ℤ)) → better p q ≡ none → (p ≡ none) × (q ≡ none)
      better_none none q e = (refl, e)
      better_none (some p) none e = cc
      better_none (some (w, u)) (some (x, t)) e = ground arith

-- An answer is that of the best result, or of the first error if there is none.
answered_by :
    (texts : Texts) (best : Option (Wrapper × ℤ)) (f : Option Wrapper) (l : Option DispatchError)
    (w : Wrapper)
    → answer (wrapper_of texts best) f l ≡ returned w
    → ((v : ℤ) × (best ≡ some (w, v))) ⊎ ((best ≡ none) × (f ≡ some w))
answered_by texts (some (x, v)) f l w h = inl (v, ap (λ y. some (y, v)) (cc))
answered_by texts none (some x) l w h = inr (refl, cc)
answered_by texts none none (some e) w h = cc
answered_by texts none none none w h = cc

-- The wrapper that a fan-out with the dispatch policy "maximum value" returns has the greatest
-- quantity among the results that can be read as one; without such a result it is the first error
-- that an upstream answered.
pub maximum-greatest :
    (texts : Texts) (os : List Outcome) (w : Wrapper)
    → fan_out texts dispatch_maximum_value os ≡ returned w
    → ((v : ℤ) × Any (λ o. quantity texts o ≡ some (w, v)) os
        × All (λ o. AtMost texts v (quantity texts o)) os)
      ⊎ (All (λ o. quantity texts o ≡ none) os × (first (λ o. refusing (kind o)) os ≡ some w))
unfolding fan_out
maximum-greatest texts os w h =
    let best = running texts none os in
    let rejection = first (λ o. refusing (kind o)) os in
    let loss = last (λ o. losing_count texts (kind o)) os in
    let e : answer (wrapper_of texts best) rejection (or_first loss none) ≡ returned w =
      sym (final-answer (holding texts best rejection (or_first loss none)))
      ∙ ap final (sym (record_all-running texts os none none none))
      ∙ h in
    elim (answered_by texts best rejection (or_first loss none) w e) [
      | inl (v, q) ↦
          let (from, most, all) = running-Greatest texts os none w v q in
          inl (v, elim from [ inl n ↦ cc | inr some_result ↦ some_result ], all)
      | inr (n, q) ↦ inr ((running-none texts os none n).1, q)
    ]
