-- ===== src/EventProcessors/Settings/Follows.antt =====
-- internal/upstreams/event_processors/validation_event_processor.go with the loop of
-- internal/upstreams/upstream_events.go: the rounds of validation and what the loop makes of them.
use nodecore.Base.{
  Bool, true, false, List, [], ◌∷◌, Option, none, some, ◌⊎◌, inl, inr, ◌≡◌, refl, arith, ap, ◌∙◌,
  All,
}
use nodecore.Protocol.StateEvent.{StateEvent}
use nodecore.Upstream.Loop.{Config, Loop, step}
use nodecore.EventProcessors.Settings.{
  ValidationSettingResult, zero_result, valid_result, settings_error, fatal_setting_error,
  unknown_result, validate_round, emitted, reduce,
}

-- The loop takes what a round emits.
abbrev deliver : Config → Option StateEvent → Loop → Loop
deliver c none l = l
deliver c (some e) l = (step c e l).0

-- The rounds, each with the results of its validators.
unfoldable pub validated :
    Config → ValidationSettingResult → List (List ValidationSettingResult) → Loop → Loop
unfolding validate_round step
validated c current [] l = l
validated c current (results ∷ rounds) l =
    let round = validate_round current results in validated c round.0 rounds (deliver c round.1 l)

-- A fatal error makes settings invalid, a valid result makes them valid, and an error that is not
-- fatal leaves them.
abbrev pub verdict : Bool → ValidationSettingResult → Bool
verdict was valid_result = true
verdict was fatal_setting_error = false
verdict was _ = was

abbrev pub last_verdict : Bool → List (List ValidationSettingResult) → Bool
last_verdict was [] = was
last_verdict was (results ∷ rounds) = last_verdict (verdict was (reduce results)) rounds

abbrev pub IsConclusive : ValidationSettingResult → Type 0
IsConclusive zero_result = ⊥
IsConclusive unknown_result = ⊥
IsConclusive _ = Unit

-- The loop stands as the last result left it.
abbrev pub Agrees : ValidationSettingResult → Bool → Type 0
Agrees valid_result v = v ≡ true
Agrees fatal_setting_error v = v ≡ false
Agrees settings_error v = Unit
Agrees _ v = ⊥

round-verdict :
    (c : Config) (current result : ValidationSettingResult) (l : Loop)
    → Agrees current l.valid_upstream
    → IsConclusive result
    → ((deliver c (emitted current result) l).valid_upstream ≡ verdict l.valid_upstream result)
      × Agrees result (deliver c (emitted current result) l).valid_upstream
unfolding emitted step
round-verdict c zero_result result l a k = elim a [ ]
round-verdict c valid_result valid_result l a k = ground arith
round-verdict c valid_result settings_error l a k = ground arith
round-verdict c valid_result fatal_setting_error l a k = ground arith
round-verdict c valid_result _ l a k = elim k [ ]
round-verdict c settings_error valid_result l a k = ground arith
round-verdict c settings_error settings_error l a k = ground arith
round-verdict c settings_error fatal_setting_error l a k = ground arith
round-verdict c settings_error _ l a k = elim k [ ]
round-verdict c fatal_setting_error valid_result l a k = ground arith
round-verdict c fatal_setting_error settings_error l a k = ground arith
round-verdict c fatal_setting_error fatal_setting_error l a k = ground arith
round-verdict c fatal_setting_error _ l a k = elim k [ ]
round-verdict c unknown_result result l a k = elim a [ ]

abbrev pub Conclusive : List (List ValidationSettingResult) → Type 0
Conclusive = All (λ results. IsConclusive (reduce results))

-- From a loop that stands as the last result left it, after any rounds whose results are valid, an
-- error or a fatal error, the loop takes the upstream to be valid exactly if the last of the results
-- that are valid or fatal is valid, or, without such a result, if it did before.
pub validated-verdict :
    (c : Config) (current : ValidationSettingResult) (rounds : List (List ValidationSettingResult))
    (l : Loop)
    → Agrees current l.valid_upstream
    → Conclusive rounds
    → (validated c current rounds l).valid_upstream ≡ last_verdict l.valid_upstream rounds
unfolding validated
validated-verdict c current [] l a k = refl
validated-verdict c current (results ∷ rounds) l a k =
    let (flag, agrees) = round-verdict c current (reduce results) l a k.0 in
    validated-verdict c (reduce results) rounds (deliver c (emitted current (reduce results)) l)
      agrees k.1
    ∙ ap (λ v. last_verdict v rounds) flag

-- A result that is not conclusive hides a fatal error from the loop: the round after it emits
-- nothing, and the loop takes the upstream to be valid still.
pub unknown-hides_fatal :
    (c : Config) (result : ValidationSettingResult) (l : Loop)
    → (result ≡ zero_result) ⊎ (result ≡ unknown_result)
    → (validated c valid_result ((result ∷ []) ∷ (fatal_setting_error ∷ []) ∷ []) l).valid_upstream
      ≡ l.valid_upstream
unfolding validated validate_round
unknown-hides_fatal c result l (inl e) = rw e refl
unknown-hides_fatal c result l (inr e) = rw e refl
