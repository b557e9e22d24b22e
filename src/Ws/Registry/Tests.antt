-- ===== src/Ws/Registry/Tests.antt =====
-- Two operations that share a subscription, and one that waits.
use nodecore.Base.{
  ◌+◌, Bool, true, false, List, [], ◌∷◌, String, ◌≡◌, refl, All, string_dec, bytes_dec, ℕ_discrete,
  ite, arith,
}
use nodecore.Keyed.{load, store, delete}
use nodecore.Ws.Registry.{
  WsResponse, Registry, new_registry, written, disconnected, should_close, abort_request, join,
  join_if_open, subscription_message, leave, leave_if_held, finish_request, Event, register_command,
  rpc_command, subscription_command, finish_command, cancel_all_command, rpc_answered, rpc_taken,
  rpc_message, handle_event, run_events,
}
use nodecore.Ws.Registry.Held.{IsRegistry}
use nodecore.Ws.Registry.Reached.{run_events-IsRegistry}
use nodecore.Ws.Registry.Silent.{NotTo}
use nodecore.Ws.Registry.Quiet.{finish_request-silent}
use nodecore.Ws.Registry.Gauge.{ups, downs, open_subs}
use nodecore.Ws.Registry.Balance.{run_events-gauge}

program : Unit {0}
unfolding load store delete string_dec bytes_dec ℕ_discrete abort_request join join_if_open
    subscription_message leave leave_if_held rpc_answered rpc_taken rpc_message handle_event
    run_events
program = tt

abbrev is_subscribe : String → Bool
is_subscribe method = ite (string_dec method "eth_subscribe") true false

-- An answer with the subscription "7", and a message of it.
abbrev answer : String → WsResponse
answer id = record { id = id; sub_id = []; message = b'"' ∷ b'7' ∷ b'"' ∷ []; has_error = false }

abbrev head : WsResponse
head = record { id = ""; sub_id = b'7' ∷ []; message = b'1' ∷ []; has_error = false }

abbrev shared : List Event
shared =
    register_command "1" "eth_subscribe" "newHeads"
    ∷ register_command "2" "eth_subscribe" "newHeads"
    ∷ register_command "3" "eth_call" ""
    ∷ rpc_command (answer "1")
    ∷ rpc_command (answer "2")
    ∷ []

abbrev holding : Registry
holding = (run_events is_subscribe shared new_registry).0

both_written :
    (run_events is_subscribe (subscription_command head ∷ []) holding).1
    ≡ written 0 head ∷ written 1 head ∷ []
unfolding program
both_written = refl

-- Only the last operation closes the subscription.
last_closes :
    (run_events is_subscribe (finish_command 0 ∷ finish_command 1 ∷ []) holding).1
    ≡ should_close 0 false ∷ disconnected "newHeads" ∷ should_close 1 true ∷ []
unfolding program
last_closes = refl

-- After a lost connection it is not closed.
none_closes :
    (run_events is_subscribe (cancel_all_command ∷ finish_command 0 ∷ []) holding).1
    ≡ disconnected "newHeads" ∷ should_close 0 false ∷ []
unfolding program
none_closes = refl

run_events-IsRegistry_example : IsRegistry (run_events is_subscribe shared new_registry).0
run_events-IsRegistry_example = run_events-IsRegistry is_subscribe shared new_registry (tt, tt, tt)

finish_request-silent_example :
    All
      (NotTo 0)
      (run_events is_subscribe (subscription_command head ∷ []) (finish_request 0 holding).0).1
unfolding program
finish_request-silent_example =
    finish_request-silent is_subscribe 0 holding (subscription_command head ∷ []) (omega arith)
      (run_events-IsRegistry is_subscribe shared new_registry (tt, tt, tt))

run_events-gauge_example :
    ups "newHeads" (run_events is_subscribe shared new_registry).1
    ≡ downs "newHeads" (run_events is_subscribe shared new_registry).1
      + open_subs "newHeads" (run_events is_subscribe shared new_registry).0
run_events-gauge_example = run_events-gauge is_subscribe "newHeads" shared
