-- ===== src/Flow/Dispatch/NotNull.antt =====
-- internal/upstreams/flow/not_null_request_processor.go: the upstreams are asked one after the other
-- until one has a result that is not null.
use nodecore.Base.{
  Bool, true, false, List, [], ◌∷◌, Option, none, some, ◌⊎◌, inl, inr, if◌then◌else◌, ite,
  bytes_dec,
}
use nodecore.Flow.Dispatch.Answers.{
  Response, Wrapper, DispatchError, no_upstream, empty_response, cancelled, Outcome, failed,
  answered, Final, returned, total_failure, Texts, or_else,
}

-- `isNullResponse`.
unfoldable pub is_null_response : Texts → Response → Bool
unfolding bytes_dec
is_null_response texts r =
    ite (bytes_dec (texts.trim_space r.result) (b'n' ∷ b'u' ∷ b'l' ∷ b'l' ∷ [])) true false

-- A turn of the loop: whether the context is done before it, and what the upstream answers.
abbrev pub Turn : Type 0
Turn = Bool × Outcome

-- The variables of the loop.
pub record Seen : Type 0 where
  pub null_result : Option Wrapper
  pub fallback : Option Wrapper
  pub last_err : Option DispatchError

abbrev pub nothing_seen : Seen
nothing_seen = record { null_result = none; fallback = none; last_err = none }

-- What is returned at the end of the loop.
unfoldable pub settle_for : Seen → Final
settle_for s = elim s.null_result [
  | some w ↦ returned w
  | none ↦ elim s.fallback [
    | some w ↦ returned w
    | none ↦ elim s.last_err [ some e ↦ total_failure e | none ↦ total_failure no_upstream ]
  ]
]

module _ (texts : Texts) where
  -- What becomes of a response: it is returned, or the loop goes on with its variables.
  unfoldable pub weigh : Wrapper → Option Response → Seen → Wrapper ⊎ Seen
  unfolding is_null_response
  weigh w none s = inr (record s { last_err = some empty_response })
  weigh w (some r) s =
      if r.has_stream
      then inl w
      else if r.has_error
      then inr (record s { fallback = or_else s.fallback w })
      else if is_null_response texts r
      then inr (record s { null_result = or_else s.null_result w })
      else inl w

  unfoldable pub ask : Outcome → Seen → Wrapper ⊎ Seen
  unfolding weigh
  ask (failed e) s = inr (record s { last_err = some e })
  ask (answered none) s = inr (record s { last_err = some empty_response })
  ask (answered (some w)) s = weigh w w.response s

  unfoldable pub not_null_loop : List Turn → Seen → Final
  unfolding ask settle_for
  not_null_loop [] s = settle_for s
  not_null_loop ((true, o) ∷ turns) s = total_failure cancelled
  not_null_loop ((false, o) ∷ turns) s = elim (ask o s) [
    | inl w ↦ returned w
    | inr s' ↦ not_null_loop turns s'
  ]
