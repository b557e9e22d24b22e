-- ===== src/Flow/Dispatch/Tests.antt =====
-- Three upstreams, of which one fails, one answers 0x2 and one answers 0xa.
use nodecore.Base.{
  ◌-◌, ℕ, false, ◌==◌, if◌then◌else◌, List, [], ◌∷◌, String, Option, none, some, ◌≡◌, refl,
  bytes_dec, ℕ_discrete,
}
use nodecore.Int.{ℤ, pos}
use nodecore.Flow.Dispatch.Answers.{
  Wrapper, sending_failed, Outcome, failed, answered, returned, Texts, final, record_all,
  record_checked, record_broadcast, record_maximum, parse_hex_quantity, dispatch_broadcast, fan_out,
}
use nodecore.Flow.Dispatch.NotNull.{
  Turn, nothing_seen, settle_for, is_null_response, weigh, ask, not_null_loop,
}
use nodecore.Flow.Dispatch.FirstNotNull.{not_null_answer, not_null-first}

program : Unit {0}
unfolding bytes_dec ℕ_discrete final record_all record_checked record_broadcast record_maximum
    parse_hex_quantity fan_out settle_for is_null_response weigh ask not_null_loop
program = tt

-- Texts with no space round them, and one hexadecimal digit.
abbrev digit : List ℕ → Option ℤ
digit (d ∷ []) = some (pos (if d == b'a' then 10 else d - 48))
digit _ = none

abbrev texts : Texts
texts = record { trim_space = λ s. s; set_string_16 = digit }

abbrev text : String → List ℕ → Outcome
text id s = answered (
    some (record {
      upstream_id = id;
      response =
          some
            (record { has_stream = false; has_error = false; result = s; result_string = some s });
    }))

abbrev hex : ℕ → List ℕ
hex d = b'0' ∷ b'x' ∷ d ∷ []

abbrev null : List ℕ
null = b'n' ∷ b'u' ∷ b'l' ∷ b'l' ∷ []

abbrev outcomes : List Outcome
outcomes = failed (sending_failed "timeout") ∷ text "b" (hex b'2') ∷ text "c" (hex b'a') ∷ []

abbrev wrapper : String → List ℕ → Wrapper
wrapper id s = record {
  upstream_id = id;
  response =
      some (record { has_stream = false; has_error = false; result = s; result_string = some s });
}

broadcast_first : fan_out texts dispatch_broadcast outcomes ≡ returned (wrapper "b" (hex b'2'))
unfolding program
broadcast_first = refl

abbrev turns : List Turn
turns =
    (false, failed (sending_failed "timeout"))
    ∷ (false, text "b" null)
    ∷ (false, text "c" (hex b'a'))
    ∷ []

skips_null : not_null_loop texts turns nothing_seen ≡ returned (wrapper "c" (hex b'a'))
unfolding program
skips_null = refl

not_null-first_example : not_null_loop texts turns nothing_seen ≡ not_null_answer texts turns
not_null-first_example = not_null-first texts turns
