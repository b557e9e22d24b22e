-- ===== src/Ws/Registry/Reached.antt =====
-- internal/upstreams/ws/registry_commands.go: the registries that commands lead to.
use nodecore.Base.{
  ℕ, Bool, true, false, not, ◌&&◌, String, List, [], ◌∷◌, ◌++◌, none, some, ◌≡◌, refl, inl, inr,
  if_true, if_false, string_dec, Option-cases, Bool-cases,
}
use nodecore.Keyed.{load, load-Entries}
use nodecore.Ws.Registry.{
  WsResponse, Registry, written, set_sub_id, give_up, cancel, change, drop_request, cancel_all,
  refs, sub_refs, Event, register_command, abort_command, rpc_command, subscription_command,
  finish_command, cancelled, cancel_all_command, rpc_answered, rpc_taken, rpc_message, handle_event,
  run_events,
}
use nodecore.Ws.Registry.Held.{
  Member, IsRegistry, change-IsRegistry, change_all-IsRegistry, drop_request-IsRegistry,
  register_operation-IsRegistry, abort_request-IsRegistry,
}
use nodecore.Ws.Registry.Kept.{
  join_if_open-IsRegistry, set_sub_id-IsRegistry, leave_if_held-IsRegistry,
}

abbrev pub pending_member :
    (g : Registry) (id : String) (r : ℕ)
    → IsRegistry g
    → load string_dec id g.requests ≡ some r
    → Member g.operations g.registered [] id r
pending_member g id r h e =
    load-Entries (Member g.operations g.registered []) string_dec id r g.requests h.0 e

pub cancel_all-IsRegistry : (g : Registry) → IsRegistry (cancel_all g).0
cancel_all-IsRegistry g =
    change_all-IsRegistry (refs g.requests ++ sub_refs g.subs) give_up
      (record g { requests = []; subs = [] }) (λ _. (refl, refl)) (tt, tt, tt)

module _ (is_subscribe : String → Bool) where
  rpc_answered-IsRegistry :
      (response : WsResponse) (r : ℕ) (g : Registry)
      → Member g.operations g.registered [] response.id r
      → IsRegistry g
      → IsRegistry (rpc_answered is_subscribe response r (drop_request response.id g)).0
  unfolding rpc_answered
  rpc_answered-IsRegistry response r g m h =
      let g' = drop_request response.id g in
      elim (Bool-cases (not response.has_error && is_subscribe (g.operations r).method)) [
        | inl e ↦
            rw (rpc_answered, e)
              (join_if_open-IsRegistry r (change r (set_sub_id response.message) g') m.0
                (set_sub_id-IsRegistry response.message response.id r g m h))
        | inr e ↦ rw (rpc_answered, e) (drop_request-IsRegistry response.id g h)
      ]

  pub rpc_taken_completed :
      (response : WsResponse) (r : ℕ) (g : Registry)
      → (g.operations r).completed ≡ true
      → rpc_taken is_subscribe response r g ≡ (g, [])
  unfolding rpc_taken
  rpc_taken_completed response r g e = if_true _ _ e

  pub rpc_taken_open :
      (response : WsResponse) (r : ℕ) (g : Registry)
      → (g.operations r).completed ≡ false
      → rpc_taken is_subscribe response r g ≡ (
        (rpc_answered is_subscribe response r g).0,
        (rpc_answered is_subscribe response r g).1 ++ written r response ∷ [],
      )
  unfolding rpc_taken
  rpc_taken_open response r g e = if_false _ _ e

  pub rpc_message_found :
      (response : WsResponse) (r : ℕ) (g : Registry)
      → load string_dec response.id g.requests ≡ some r
      → rpc_message is_subscribe response g
        ≡ rpc_taken is_subscribe response r (drop_request response.id g)
  unfolding rpc_message
  rpc_message_found response r g e = rw (rpc_message, e) refl

  pub rpc_message_unknown :
      (response : WsResponse) (g : Registry)
      → load string_dec response.id g.requests ≡ none
      → rpc_message is_subscribe response g ≡ (g, [])
  unfolding rpc_message
  rpc_message_unknown response g e = rw (rpc_message, e) refl

  rpc_message-IsRegistry :
      (response : WsResponse) (g : Registry)
      → IsRegistry g
      → IsRegistry (rpc_message is_subscribe response g).0
  rpc_message-IsRegistry response g h =
      let g' = drop_request response.id g in
      elim (Option-cases (load string_dec response.id g.requests)) [
        | inl e ↦ rw (rpc_message_unknown response g e) h
        | inr (r, e) ↦
            rw (rpc_message_found response r g e) (elim (Bool-cases (g.operations r).completed) [
              | inl q ↦
                  rw (rpc_taken_completed response r g' q) (drop_request-IsRegistry response.id g h)
              | inr q ↦
                  rw (rpc_taken_open response r g' q)
                    (rpc_answered-IsRegistry response r g (pending_member g response.id r h e) h)
            ])
      ]

  pub handle_event-IsRegistry :
      (e : Event) (g : Registry) → IsRegistry g → IsRegistry (handle_event is_subscribe e g).0
  unfolding handle_event
  handle_event-IsRegistry (register_command id method sub_type) g h =
      register_operation-IsRegistry id method sub_type g h
  handle_event-IsRegistry (abort_command id) g h = abort_request-IsRegistry id g h
  handle_event-IsRegistry (rpc_command response) g h = rpc_message-IsRegistry response g h
  handle_event-IsRegistry (subscription_command response) g h = h
  handle_event-IsRegistry (finish_command r) g h =
      leave_if_held-IsRegistry r (change r cancel g)
        (change-IsRegistry r cancel g (λ _. (refl, refl)) h)
  handle_event-IsRegistry (cancelled r) g h = change-IsRegistry r cancel g (λ _. (refl, refl)) h
  handle_event-IsRegistry cancel_all_command g h = cancel_all-IsRegistry g

  -- Whatever commands a registry takes for which this holds, it holds afterwards: a request waits for
  -- a registered operation with its own id and no subscription; a subscription has an operation, all
  -- its operations are registered, its own and stand under their own ids, and no id stands twice among
  -- them.
  pub run_events-IsRegistry :
      (es : List Event) (g : Registry) → IsRegistry g → IsRegistry (run_events is_subscribe es g).0
  unfolding run_events
  run_events-IsRegistry [] g h = h
  run_events-IsRegistry (e ∷ es) g h =
      run_events-IsRegistry es (handle_event is_subscribe e g).0 (handle_event-IsRegistry e g h)
