-- ===== src/Ws/Registry/Silent.antt =====
-- internal/upstreams/ws/registry_commands.go: operations that are completed and in no subscription,
-- to which nothing is written any more.
use nodecore.Base.{
  ℕ, ◌<◌, true, not, ◌&&◌, String, List, [], ◌∷◌, ◌≡◌, ◌≢◌, refl, inl, inr, arith, ap, sym, ◌∙◌,
  string_dec, bytes_dec, ℕ_discrete, Option-cases, Bool-cases, All,
}
use nodecore.Keyed.{load, store, Entries, store-Entries, load-Entries}
use nodecore.Ws.Registry.{
  Operation, new_operation, WsResponse, Subscription, Registry, Effect, written, give_up, change,
  change_all, register_operation, drop_request, abort_request, store_sub, join, is_empty,
  join_if_open, writes, subscription_message,
}
use nodecore.Ws.Registry.Held.{put_operation_other, put_operation_same}

-- No operation of a subscription is this one.
abbrev pub IsWithout : ℕ → List ℕ → Subscription → Type 0
IsWithout r sub_id sub = Entries (λ _ q. q ≢ r) sub.ops

abbrev pub IsSilent : ℕ → Registry → Type 0
IsSilent r g =
    ((g.operations r).completed ≡ true) × (r < g.registered) × Entries (IsWithout r) g.subs

-- An effect that writes nothing to the operation.
abbrev pub NotTo : ℕ → Effect → Type 0
NotTo r (written q response) = q ≢ r
NotTo r _ = Unit

-- What a step must leave and show.
abbrev pub StaysSilent : ℕ → Registry × List Effect → Type 0
StaysSilent r o = IsSilent r o.0 × All (NotTo r) o.1

abbrev pub Completes : (Operation → Operation) → Type 0
Completes f = (op : Operation) → op.completed ≡ true → (f op).completed ≡ true

pub change-IsSilent :
    (r q : ℕ) (f : Operation → Operation) (g : Registry)
    → Completes f
    → IsSilent r g
    → IsSilent r (change q f g)
change-IsSilent r q f g h (done, lt, free) = (
  elim (ℕ_discrete r q) [
    | yes e ↦
        ap (λ op. op.completed) (put_operation_same q r (f (g.operations q)) g.operations e)
        ∙ h (g.operations q) (ap (λ p. (g.operations p).completed) (sym e) ∙ done)
    | no d ↦
        ap (λ op. op.completed) (put_operation_other q r (f (g.operations q)) g.operations d) ∙ done
  ],
  lt,
  free,
)

pub change_all-IsSilent :
    (r : ℕ) (qs : List ℕ) (f : Operation → Operation) (g : Registry)
    → Completes f
    → IsSilent r g
    → IsSilent r (change_all qs f g)
change_all-IsSilent r [] f g h s = s
change_all-IsSilent r (q ∷ qs) f g h s =
    change_all-IsSilent r qs f (change q f g) h (change-IsSilent r q f g h s)

pub register_operation-IsSilent :
    (r : ℕ) (id method sub_type : String) (g : Registry)
    → IsSilent r g
    → IsSilent r (register_operation id method sub_type g)
register_operation-IsSilent r id method sub_type g (done, lt, free) =
    let d : r ≢ g.registered = omega arith in
    (
      ap (λ op. op.completed)
            (put_operation_other g.registered r (new_operation id method sub_type) g.operations d)
          ∙ done,
      omega arith,
      free,
    )

pub abort_request-IsSilent :
    (r : ℕ) (id : String) (g : Registry) → IsSilent r g → IsSilent r (abort_request id g)
unfolding abort_request
abort_request-IsSilent r id g s = elim (Option-cases (load string_dec id g.requests)) [
  | inl e ↦ rw (abort_request, e) s
  | inr (q, e) ↦
      rw (abort_request, e)
        (change-IsSilent r q give_up (drop_request id g) (λ _ _. refl) (s.0, s.1, s.2))
]

pub store_sub-IsSilent :
    (r : ℕ) (sub_id : List ℕ) (sub : Subscription) (g : Registry)
    → Entries (λ _ q. q ≢ r) sub.ops
    → IsSilent r g
    → IsSilent r (store_sub sub_id sub g)
store_sub-IsSilent r sub_id sub g h (done, lt, free) =
    (done, lt, store-Entries (IsWithout r) bytes_dec sub_id sub g.subs h free)

join-StaysSilent : (r q : ℕ) (g : Registry) → q ≢ r → IsSilent r g → StaysSilent r (join q g)
unfolding join
join-StaysSilent r q g d s =
    let op = g.operations q in
    elim (Option-cases (load bytes_dec op.sub_id g.subs)) [
      | inl e ↦
          rw (join, e)
            (
              store_sub-IsSilent r op.sub_id
                  (record { sub_type = op.sub_type; ops = (op.id, q) ∷ [] }) g (d, tt) s,
              (tt, tt),
            )
      | inr (sub, e) ↦
          rw (join, e)
            (
              store_sub-IsSilent r op.sub_id (record sub { ops = store string_dec op.id q sub.ops })
                  g
                  (store-Entries (λ _ p. p ≢ r) string_dec op.id q sub.ops d
                    (load-Entries (IsWithout r) bytes_dec op.sub_id sub g.subs s.2 e))
                  s,
              tt,
            )
    ]

pub join_if_open-StaysSilent :
    (r q : ℕ) (g : Registry) → q ≢ r → IsSilent r g → StaysSilent r (join_if_open q g)
unfolding join_if_open
join_if_open-StaysSilent r q g d s =
    let op = g.operations q in
    elim (Bool-cases (not (is_empty op.sub_id) && not op.completed)) [
      | inl e ↦ rw (join_if_open, e) (join-StaysSilent r q g d s)
      | inr e ↦ rw (join_if_open, e) (s, tt)
    ]

writes-NotTo :
    (r : ℕ) (ops : List (String × ℕ)) (response : WsResponse)
    → Entries (λ _ q. q ≢ r) ops
    → All (NotTo r) (writes ops response)
writes-NotTo r [] response h = tt
writes-NotTo r ((id, q) ∷ ops) response h = (h.0, writes-NotTo r ops response h.1)

pub subscription_message-NotTo :
    (r : ℕ) (response : WsResponse) (g : Registry)
    → IsSilent r g
    → All (NotTo r) (subscription_message response g)
unfolding subscription_message
subscription_message-NotTo r response g s =
    elim (Option-cases (load bytes_dec response.sub_id g.subs)) [
      | inl e ↦ rw (subscription_message, e) tt
      | inr (sub, e) ↦
          rw (subscription_message, e)
            (writes-NotTo r sub.ops response
              (load-Entries (IsWithout r) bytes_dec response.sub_id sub g.subs s.2 e))
    ]
