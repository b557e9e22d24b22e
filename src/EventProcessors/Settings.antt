-- ===== src/EventProcessors/Settings.antt =====
-- internal/upstreams/event_processors/validation_event_processor.go and
-- internal/upstreams/validations/validator.go: the settings of an upstream are validated over and
-- over, and a change is reported to the loop of the upstream.
pub mod Follows
use nodecore.Base.{ℕ, ltb, if◌then◌else◌, List, [], ◌∷◌, Option, none, some}
use nodecore.Protocol.StateEvent.{StateEvent, fatal_error, valid}

-- The constants of the type, and its zero value, which is the maximum of no results.
pub data ValidationSettingResult : Type 0 where
  zero_result valid_result settings_error fatal_setting_error unknown_result :
      ValidationSettingResult

abbrev pub result_rank : ValidationSettingResult → ℕ
result_rank zero_result = 0
result_rank valid_result = 1
result_rank settings_error = 2
result_rank fatal_setting_error = 3
result_rank unknown_result = 4

abbrev worse_result : ValidationSettingResult → ValidationSettingResult → ValidationSettingResult
worse_result r most = if ltb (result_rank most) (result_rank r) then r else most

unfoldable pub max_from :
    ValidationSettingResult → List ValidationSettingResult → ValidationSettingResult
max_from most [] = most
max_from most (r ∷ rs) = max_from (worse_result r most) rs

-- `lo.Max` over the results of the validators, which run side by side and share nothing.
unfoldable pub reduce : List ValidationSettingResult → ValidationSettingResult
unfolding max_from
reduce [] = zero_result
reduce (r ∷ rs) = max_from r rs

-- What a round of validation emits, by the result of the round before.
unfoldable pub emitted : ValidationSettingResult → ValidationSettingResult → Option StateEvent
emitted settings_error fatal_setting_error = some fatal_error
emitted valid_result fatal_setting_error = some fatal_error
emitted settings_error valid_result = some valid
emitted fatal_setting_error valid_result = some valid
emitted _ _ = none

-- A round stores its result and emits.
unfoldable pub validate_round :
    ValidationSettingResult
    → List ValidationSettingResult
    → ValidationSettingResult × Option StateEvent
unfolding reduce emitted
validate_round current results = let result = reduce results in (result, emitted current result)
