-- ===== src/Ws/Registry/Finished.antt =====
-- internal/upstreams/ws/registry_commands.go: a finished operation, and those that a lost connection
-- cancels, are written to no more.
use nodecore.Base.{
  ℕ, Bool, true, false, not, ◌&&◌, String, List, [], ◌∷◌, ◌++◌, ◌≡◌, ◌≢◌, refl, inl, inr, ap, sym,
  ◌∙◌, string_dec, bytes_dec, Option-cases, Bool-cases, All, All-append,
}
use nodecore.Keyed.{load, delete, Entries, delete-Entries, load-Entries}
use nodecore.Ws.Registry.{
  WsResponse, Subscription, Registry, written, set_sub_id, give_up, cancel, change, drop_request,
  is_empty, leave, leave_if_held, cancel_all, refs, sub_refs, disconnections, Event,
  register_command, abort_command, rpc_command, subscription_command, finish_command, cancelled,
  cancel_all_command, rpc_answered, rpc_taken, rpc_message, handle_event, run_events,
}
use nodecore.Ws.Registry.Reached.{
  rpc_taken_completed, rpc_taken_open, rpc_message_found, rpc_message_unknown,
}
use nodecore.Ws.Registry.Silent.{
  IsWithout, IsSilent, NotTo, StaysSilent, change-IsSilent, change_all-IsSilent,
  register_operation-IsSilent, abort_request-IsSilent, store_sub-IsSilent, join_if_open-StaysSilent,
  subscription_message-NotTo,
}

leave-StaysSilent :
    (r q : ℕ) (sub : Subscription) (g : Registry)
    → Entries (λ _ p. p ≢ r) sub.ops
    → IsSilent r g
    → StaysSilent r (leave q sub g)
unfolding leave
leave-StaysSilent r q sub g h s =
    let op = g.operations q in
    let ops = delete string_dec op.id sub.ops in
    elim (Bool-cases (is_empty ops)) [
      | inl e ↦
          rw (leave, e)
            (
              (s.0, s.1, delete-Entries (IsWithout r) bytes_dec op.sub_id g.subs s.2),
              (tt, (tt, tt)),
            )
      | inr e ↦
          rw (leave, e)
            (
              store_sub-IsSilent r op.sub_id (record sub { ops = ops }) g
                  (delete-Entries (λ _ p. p ≢ r) string_dec op.id sub.ops h) s,
              (tt, tt),
            )
    ]

leave_if_held-StaysSilent :
    (r q : ℕ) (g : Registry) → IsSilent r g → StaysSilent r (leave_if_held q g)
unfolding leave_if_held
leave_if_held-StaysSilent r q g s =
    let op = g.operations q in
    elim (Bool-cases (is_empty op.sub_id)) [
      | inl e ↦ rw (leave_if_held, e) (s, (tt, tt))
      | inr e ↦ elim (Option-cases (load bytes_dec op.sub_id g.subs)) [
        | inl o ↦ rw (leave_if_held, e, o) (s, (tt, tt))
        | inr (sub, o) ↦
            rw (leave_if_held, e, o)
              (leave-StaysSilent r q sub g
                (load-Entries (IsWithout r) bytes_dec op.sub_id sub g.subs s.2 o) s)
      ]
    ]

disconnections-NotTo :
    (r : ℕ) (subs : List (List ℕ × Subscription)) → All (NotTo r) (disconnections subs)
disconnections-NotTo r [] = tt
disconnections-NotTo r ((sub_id, sub) ∷ subs) = (tt, disconnections-NotTo r subs)

cancel_all-StaysSilent : (r : ℕ) (g : Registry) → IsSilent r g → StaysSilent r (cancel_all g)
cancel_all-StaysSilent r g s = (
  change_all-IsSilent r (refs g.requests ++ sub_refs g.subs) give_up
      (record g { requests = []; subs = [] }) (λ _ _. refl) (s.0, s.1, tt),
  disconnections-NotTo r g.subs,
)

module _ (is_subscribe : String → Bool) where
  rpc_answered-StaysSilent :
      (response : WsResponse) (r q : ℕ) (g : Registry)
      → q ≢ r
      → IsSilent r g
      → StaysSilent r (rpc_answered is_subscribe response q g)
  unfolding rpc_answered
  rpc_answered-StaysSilent response r q g d s =
      elim (Bool-cases (not response.has_error && is_subscribe (g.operations q).method)) [
        | inl e ↦
            rw (rpc_answered, e)
              (join_if_open-StaysSilent r q (change q (set_sub_id response.message) g) d
                (change-IsSilent r q (set_sub_id response.message) g (λ _ e. e) s))
        | inr e ↦ rw (rpc_answered, e) (s, tt)
      ]

  rpc_taken-StaysSilent :
      (response : WsResponse) (r q : ℕ) (g : Registry)
      → IsSilent r g
      → StaysSilent r (rpc_taken is_subscribe response q g)
  rpc_taken-StaysSilent response r q g s = elim (Bool-cases (g.operations q).completed) [
    | inl e ↦ rw (rpc_taken_completed is_subscribe response q g e) (s, tt)
    | inr e ↦
        let d : q ≢ r = λ o.
          let b : true ≡ false = sym s.0 ∙ ap (λ p. (g.operations p).completed) (sym o) ∙ e in cc in
        let (after, shown) = rpc_answered-StaysSilent response r q g d s in
        rw (rpc_taken_open is_subscribe response q g e) (
          after,
          All-append (NotTo r) (rpc_answered is_subscribe response q g).1 (written q response ∷ [])
              shown (d, tt),
        )
  ]

  rpc_message-StaysSilent :
      (response : WsResponse) (r : ℕ) (g : Registry)
      → IsSilent r g
      → StaysSilent r (rpc_message is_subscribe response g)
  rpc_message-StaysSilent response r g s =
      elim (Option-cases (load string_dec response.id g.requests)) [
        | inl e ↦ rw (rpc_message_unknown is_subscribe response g e) (s, tt)
        | inr (q, e) ↦
            rw (rpc_message_found is_subscribe response q g e)
              (rpc_taken-StaysSilent response r q (drop_request response.id g) s)
      ]

  handle_event-StaysSilent :
      (r : ℕ) (e : Event) (g : Registry)
      → IsSilent r g
      → StaysSilent r (handle_event is_subscribe e g)
  unfolding handle_event
  handle_event-StaysSilent r (register_command id method sub_type) g s =
      (register_operation-IsSilent r id method sub_type g s, tt)
  handle_event-StaysSilent r (abort_command id) g s = (abort_request-IsSilent r id g s, tt)
  handle_event-StaysSilent r (rpc_command response) g s = rpc_message-StaysSilent response r g s
  handle_event-StaysSilent r (subscription_command response) g s =
      (s, subscription_message-NotTo r response g s)
  handle_event-StaysSilent r (finish_command q) g s =
      leave_if_held-StaysSilent r q (change q cancel g)
        (change-IsSilent r q cancel g (λ _ _. refl) s)
  handle_event-StaysSilent r (cancelled q) g s = (change-IsSilent r q cancel g (λ _ _. refl) s, tt)
  handle_event-StaysSilent r cancel_all_command g s = cancel_all-StaysSilent r g s

  pub run_events-StaysSilent :
      (r : ℕ) (es : List Event) (g : Registry)
      → IsSilent r g
      → StaysSilent r (run_events is_subscribe es g)
  unfolding run_events
  run_events-StaysSilent r [] g s = (s, tt)
  run_events-StaysSilent r (e ∷ es) g s =
      let (now, shown) = handle_event-StaysSilent r e g s in
      let (then_on, later) = run_events-StaysSilent r es (handle_event is_subscribe e g).0 now in
      (
        then_on,
        All-append (NotTo r) (handle_event is_subscribe e g).1
            (run_events is_subscribe es (handle_event is_subscribe e g).0).1 shown later,
      )
