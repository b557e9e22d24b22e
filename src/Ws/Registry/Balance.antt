-- ===== src/Ws/Registry/Balance.antt =====
-- internal/upstreams/ws/registry_commands.go: the gauge of subscriptions over the commands.
use nodecore.Base.{
  ℕ, ◌+◌, Bool, not, ◌&&◌, String, List, [], ◌∷◌, ◌++◌, ◌≡◌, refl, inl, inr, arith, string_dec,
  Option-cases, Bool-cases,
}
use nodecore.Keyed.{load}
use nodecore.Ws.Registry.{
  WsResponse, Subscription, Registry, new_registry, written, set_sub_id, give_up, cancel, change,
  drop_request, cancel_all, refs, sub_refs, disconnections, Event, register_command, abort_command,
  rpc_command, subscription_command, finish_command, cancelled, cancel_all_command, rpc_answered,
  rpc_message, handle_event, run_events,
}
use nodecore.Ws.Registry.Held.{IsRegistry, change-IsRegistry}
use nodecore.Ws.Registry.Reached.{
  rpc_taken_completed, rpc_taken_open, rpc_message_found, rpc_message_unknown,
  handle_event-IsRegistry,
}
use nodecore.Ws.Registry.Gauge.{
  open_subs, ups, downs, ups-append, downs-append, IsBalanced, change_all-open_subs,
  abort_request-open_subs, join_if_open-IsBalanced, subscription_message-IsBalanced,
  leave_if_held-IsBalanced,
}

disconnections_up :
    (t : String) (subs : List (List ℕ × Subscription)) → ups t (disconnections subs) ≡ 0
disconnections_up t [] = refl
disconnections_up t ((sub_id, sub) ∷ subs) = disconnections_up t subs

disconnections_down : (t : String) (g : Registry) → downs t (disconnections g.subs) ≡ open_subs t g
disconnections_down t g = counted g.subs
  where
    counted :
        (subs : List (List ℕ × Subscription))
        → downs t (disconnections subs) ≡ open_subs t (record g { subs = subs })
    counted [] = refl
    counted ((sub_id, sub) ∷ subs) = omega (arith, counted subs)

cancel_all-IsBalanced : (t : String) (g : Registry) → IsBalanced t g (cancel_all g)
cancel_all-IsBalanced t g = omega (
  arith,
  disconnections_up t g.subs,
  disconnections_down t g,
  change_all-open_subs t (refs g.requests ++ sub_refs g.subs) give_up
      (record g { requests = []; subs = [] }),
)

module _ (is_subscribe : String → Bool) where
  rpc_answered-IsBalanced :
      (t : String) (response : WsResponse) (r : ℕ) (g : Registry)
      → IsBalanced t g (rpc_answered is_subscribe response r g)
  unfolding rpc_answered
  rpc_answered-IsBalanced t response r g =
      elim (Bool-cases (not response.has_error && is_subscribe (g.operations r).method)) [
        | inl e ↦
            rw (rpc_answered, e)
              (join_if_open-IsBalanced t r (change r (set_sub_id response.message) g))
        | inr e ↦ rw (rpc_answered, e) refl
      ]

  rpc_message-IsBalanced :
      (t : String) (response : WsResponse) (g : Registry)
      → IsBalanced t g (rpc_message is_subscribe response g)
  rpc_message-IsBalanced t response g =
      elim (Option-cases (load string_dec response.id g.requests)) [
        | inl e ↦ rw (rpc_message_unknown is_subscribe response g e) refl
        | inr (r, e) ↦ rw (rpc_message_found is_subscribe response r g e) (
            let g' = drop_request response.id g in
            elim (Bool-cases (g.operations r).completed) [
              | inl q ↦ rw (rpc_taken_completed is_subscribe response r g' q) refl
              | inr q ↦
                  let shown = (rpc_answered is_subscribe response r g').1 in
                  rw (rpc_taken_open is_subscribe response r g' q) (
                    omega (
                      arith,
                      rpc_answered-IsBalanced t response r g',
                      ups-append t shown (written r response ∷ []),
                      downs-append t shown (written r response ∷ []),
                    ))
            ])
      ]

  handle_event-IsBalanced :
      (t : String) (e : Event) (g : Registry)
      → IsRegistry g
      → IsBalanced t g (handle_event is_subscribe e g)
  unfolding handle_event
  handle_event-IsBalanced t (register_command id method sub_type) g h = refl
  handle_event-IsBalanced t (abort_command id) g h = omega (arith, abort_request-open_subs t id g)
  handle_event-IsBalanced t (rpc_command response) g h = rpc_message-IsBalanced t response g
  handle_event-IsBalanced t (subscription_command response) g h =
      subscription_message-IsBalanced t response g
  handle_event-IsBalanced t (finish_command r) g h =
      leave_if_held-IsBalanced t r (change r cancel g)
        (change-IsRegistry r cancel g (λ _. (refl, refl)) h)
  handle_event-IsBalanced t (cancelled r) g h = refl
  handle_event-IsBalanced t cancel_all_command g h = cancel_all-IsBalanced t g

  run_events-IsBalanced :
      (t : String) (es : List Event) (g : Registry)
      → IsRegistry g
      → IsBalanced t g (run_events is_subscribe es g)
  unfolding run_events
  run_events-IsBalanced t [] g h = refl
  run_events-IsBalanced t (e ∷ es) g h =
      let o = handle_event is_subscribe e g in
      let rest = run_events is_subscribe es o.0 in
      omega (
        arith,
        handle_event-IsBalanced t e g h,
        run_events-IsBalanced t es o.0 (handle_event-IsRegistry is_subscribe e g h),
        ups-append t o.1 rest.1,
        downs-append t o.1 rest.1,
      )

  -- Whatever commands a new registry takes, the gauge of a subscription type has moved up as often as
  -- it has moved down and as there are subscriptions of the type: it shows their number.
  pub run_events-gauge :
      (t : String) (es : List Event)
      → ups t (run_events is_subscribe es new_registry).1
        ≡ downs t (run_events is_subscribe es new_registry).1
          + open_subs t (run_events is_subscribe es new_registry).0
  run_events-gauge t es = omega (arith, run_events-IsBalanced t es new_registry (tt, tt, tt))
