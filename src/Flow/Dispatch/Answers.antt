-- ===== src/Flow/Dispatch/Answers.antt =====
-- internal/upstreams/flow/fanout_request_processor.go: what the aggregators make of the answers of the
-- upstreams. The upstreams answer side by side; their answers are recorded in the order in which the
-- strategy selected them. A pointer that may be nil is an option.
use nodecore.Base.{
  ℕ, Bool, true, List, [], ◌∷◌, String, Option, none, some, if◌then◌else◌, ◌||◌, ◌==◌,
}
use nodecore.Int.{ℤ, ltb_ℤ}
use nodecore.Flow.Strategy.{SelectionError}

-- What the processors read of a response. `result` is its body and `result_string` the text in it,
-- if it is one.
pub record Response : Type 0 where
  pub has_stream : Bool
  pub has_error : Bool
  pub result : List ℕ
  pub result_string : Option (List ℕ)

pub record Wrapper : Type 0 where
  pub upstream_id : String
  pub response : Option Response

pub data DispatchError : Type 0 where
  selection_failed : SelectionError → DispatchError
  no_upstream : DispatchError
  sending_failed : String → DispatchError
  empty_response : DispatchError
  streaming_response : DispatchError
  bad_quantity : DispatchError
  cancelled : DispatchError

pub data Outcome : Type 0 where
  failed : DispatchError → Outcome
  answered : Option Wrapper → Outcome

-- The response that is returned: that of an upstream, or a total failure.
pub data Final : Type 0 where
  returned : Wrapper → Final
  total_failure : DispatchError → Final

-- `strings.TrimSpace` and `big.Int.SetString` in base 16.
pub record Texts : Type 0 where
  pub trim_space : List ℕ → List ℕ
  pub set_string_16 : List ℕ → Option ℤ

-- The state of the aggregators; `max` is that of the maximum-value one alone.
pub record Aggregator : Type 0 where
  pub selected_wrapper : Option Wrapper
  pub max : Option ℤ
  pub fallback : Option Wrapper
  pub last_err : Option DispatchError

abbrev pub new_aggregator : Aggregator
new_aggregator = record { selected_wrapper = none; max = none; fallback = none; last_err = none }

abbrev pub or_else : Option Wrapper → Wrapper → Option Wrapper
or_else none w = some w
or_else (some v) w = some v

-- What both aggregators do before they look at a result, which the last argument does.
unfoldable pub record_checked :
    (Response → Wrapper → Aggregator) → Outcome → Aggregator → Aggregator
record_checked accept (failed e) a = record a { last_err = some e }
record_checked accept (answered none) a = record a { last_err = some empty_response }
record_checked accept (answered (some w)) a = elim w.response [
  | none ↦ record a { last_err = some empty_response }
  | some r ↦
      if r.has_stream
      then record a { last_err = some streaming_response }
      else if r.has_error
      then record a { fallback = or_else a.fallback w }
      else accept r w
]

unfoldable pub record_broadcast : Outcome → Aggregator → Aggregator
unfolding record_checked
record_broadcast o a =
    record_checked (λ r w. record a { selected_wrapper = or_else a.selected_wrapper w }) o a

-- `parseHexQuantityResult`: the text after the prefix 0x or 0X, and the value it stands for.
abbrev after_prefix : List ℕ → Option (List ℕ)
after_prefix (c ∷ x ∷ digits) =
    if c == b'0' then (if x == b'x' || x == b'X' then some digits else none) else none
after_prefix _ = none

abbrev digits_value : Texts → Option (List ℕ) → Option ℤ
digits_value texts none = none
digits_value texts (some []) = none
digits_value texts (some (d ∷ ds)) = texts.set_string_16 (d ∷ ds)

unfoldable pub parse_hex_quantity : Texts → Response → Option ℤ
parse_hex_quantity texts r = elim r.result_string [
  | none ↦ none
  | some s ↦ digits_value texts (after_prefix (texts.trim_space s))
]

abbrev greater : ℤ → Option ℤ → Bool
greater v none = true
greater v (some max) = ltb_ℤ max v

abbrev pub take_value : Option ℤ → Wrapper → Aggregator → Aggregator
take_value none w a = record a { last_err = some bad_quantity }
take_value (some v) w a =
    if greater v a.max then record a { max = some v; selected_wrapper = some w } else a

unfoldable pub record_maximum : Texts → Outcome → Aggregator → Aggregator
unfolding record_checked parse_hex_quantity
record_maximum texts o a = record_checked (λ r w. take_value (parse_hex_quantity texts r) w a) o a

unfoldable pub final : Aggregator → Final
final a = elim a.selected_wrapper [
  | some w ↦ returned w
  | none ↦ elim a.fallback [
    | some w ↦ returned w
    | none ↦ elim a.last_err [ some e ↦ total_failure e | none ↦ total_failure no_upstream ]
  ]
]

unfoldable pub record_all :
    (Outcome → Aggregator → Aggregator) → List Outcome → Aggregator → Aggregator
record_all f [] a = a
record_all f (o ∷ os) a = record_all f os (f o a)

pub data DispatchPolicy : Type 0 where
  dispatch_broadcast dispatch_maximum_value other_dispatch : DispatchPolicy

abbrev recorder : Texts → DispatchPolicy → Outcome → Aggregator → Aggregator
recorder texts dispatch_maximum_value = record_maximum texts
recorder texts _ = record_broadcast

-- `ProcessRequest` once the upstreams are collected and have answered, and the context lives.
unfoldable pub fan_out : Texts → DispatchPolicy → List Outcome → Final
unfolding record_broadcast record_maximum record_all final
fan_out texts policy outcomes = final (record_all (recorder texts policy) outcomes new_aggregator)
