-- ===== src/Ws/Registry/Quiet.antt =====
-- internal/upstreams/ws/registry_commands.go: what is not written after a finish and after a lost
-- connection.
use nodecore.Base.{
  ℕ, ◌<◌, Bool, true, String, List, [], ◌∷◌, ◌++◌, some, ◌≡◌, ◌≢◌, refl, inl, inr, ap, sym, ◌∙◌,
  string_dec, bytes_dec, Option-cases, Bool-cases, All, Any,
}
use nodecore.Keyed.{
  load, delete, Entries, delete-Entries, load-Entries, map-Entries, both-Entries, delete-Absent,
  store_over-Entries, Absent-of_load,
}
use nodecore.Ws.Registry.{
  Subscription, Registry, give_up, cancel, change, change_all, is_empty, leave, leave_if_held,
  finish_request, cancel_all, refs, sub_refs, Event, run_events,
}
use nodecore.Ws.Registry.Held.{
  Member, HasMembers, IsRegistry, put_operation_same, change-IsRegistry,
}
use nodecore.Ws.Registry.Silent.{IsWithout, IsSilent, NotTo, change_all-IsSilent}
use nodecore.Ws.Registry.Finished.{run_events-StaysSilent}

-- Only the operation's own subscription may hold it.
abbrev Elsewhere : ℕ → Registry → Type 0
Elsewhere r g = Entries (λ s sub. s ≢ (g.operations r).sub_id → IsWithout r s sub) g.subs

elsewhere : (r : ℕ) (g : Registry) → IsRegistry g → Elsewhere r g
elsewhere r g (pending, subs, once) =
    map-Entries (HasMembers g.operations g.registered)
      (λ s sub. s ≢ (g.operations r).sub_id → IsWithout r s sub) g.subs
      (λ s sub (ne, full, map, all) d.
        map-Entries (Member g.operations g.registered s) (λ _ q. q ≢ r) sub.ops
          (λ k q m e. d (sym m.2 ∙ ap (λ p. (g.operations p).sub_id) e)) all)
      subs

away :
    (r : ℕ) (g : Registry) (subs : List (List ℕ × Subscription))
    → Entries (λ s _. s ≢ (g.operations r).sub_id) subs
    → Entries (λ s sub. s ≢ (g.operations r).sub_id → IsWithout r s sub) subs
    → Entries (IsWithout r) subs
away r g subs a h =
    map-Entries
      (λ s sub. (s ≢ (g.operations r).sub_id) × (s ≢ (g.operations r).sub_id → IsWithout r s sub))
      (IsWithout r) subs (λ s sub b. b.1 b.0)
      (both-Entries (λ s _. s ≢ (g.operations r).sub_id)
        (λ s sub. s ≢ (g.operations r).sub_id → IsWithout r s sub) subs a h)

leave-IsSilent :
    (r : ℕ) (sub : Subscription) (g : Registry)
    → load bytes_dec (g.operations r).sub_id g.subs ≡ some sub
    → (g.operations r).completed ≡ true
    → r < g.registered
    → IsRegistry g
    → IsSilent r (leave r sub g).0
unfolding leave
leave-IsSilent r sub g e done lt h =
    let op = g.operations r in
    let P = HasMembers g.operations g.registered in
    let (ne, full, map, all) = load-Entries P bytes_dec op.sub_id sub g.subs h.1 e in
    let ops = delete string_dec op.id sub.ops in
    let gone : Entries (λ _ q. q ≢ r) ops =
      map-Entries (λ k q. (k ≢ op.id) × Member g.operations g.registered op.sub_id k q)
        (λ _ q. q ≢ r) ops (λ k q b same. b.0 (sym b.1.1 ∙ ap (λ p. (g.operations p).id) same))
        (both-Entries (λ k _. k ≢ op.id) (Member g.operations g.registered op.sub_id) ops
          (delete-Absent string_dec op.id sub.ops)
          (delete-Entries (Member g.operations g.registered op.sub_id) string_dec op.id sub.ops
            all)) in
    elim (Bool-cases (is_empty ops)) [
      | inl q ↦
          rw (leave, q)
            (
              done,
              lt,
              away r g (delete bytes_dec op.sub_id g.subs)
                  (delete-Absent bytes_dec op.sub_id g.subs)
                  (delete-Entries (λ s sub. s ≢ op.sub_id → IsWithout r s sub) bytes_dec op.sub_id
                    g.subs (elsewhere r g h)),
            )
      | inr q ↦
          rw (leave, q)
            (
              done,
              lt,
              store_over-Entries (IsWithout r) bytes_dec op.sub_id (record sub { ops = ops }) g.subs
                  h.2 gone (elsewhere r g h),
            )
    ]

leave_if_held-IsSilent :
    (r : ℕ) (g : Registry)
    → (g.operations r).completed ≡ true
    → r < g.registered
    → IsRegistry g
    → IsSilent r (leave_if_held r g).0
unfolding leave_if_held
leave_if_held-IsSilent r g done lt h =
    let op = g.operations r in
    elim (Bool-cases (is_empty op.sub_id)) [
      | inl e ↦
          rw (leave_if_held, e)
            (
              done,
              lt,
              away r g g.subs
                  (map-Entries (HasMembers g.operations g.registered) (λ s _. s ≢ op.sub_id) g.subs
                    (λ s sub m q. m.0 (q ∙ empty_nil op.sub_id e)) h.1)
                  (elsewhere r g h),
            )
      | inr e ↦ elim (Option-cases (load bytes_dec op.sub_id g.subs)) [
        | inl o ↦
            rw (leave_if_held, e, o)
              (
                done,
                lt,
                away r g g.subs (Absent-of_load bytes_dec op.sub_id g.subs o) (elsewhere r g h),
              )
        | inr (sub, o) ↦ rw (leave_if_held, e, o) (leave-IsSilent r sub g o done lt h)
      ]
    ]
  where
    empty_nil : (xs : List ℕ) → is_empty xs ≡ true → xs ≡ []
    empty_nil [] e = refl
    empty_nil (x ∷ xs) e = cc

finish_request-IsSilent :
    (r : ℕ) (g : Registry) → r < g.registered → IsRegistry g → IsSilent r (finish_request r g).0
finish_request-IsSilent r g lt h =
    leave_if_held-IsSilent r (change r cancel g)
      (ap (λ op. op.completed) (put_operation_same r r (cancel (g.operations r)) g.operations refl))
      lt (change-IsRegistry r cancel g (λ _. (refl, refl)) h)

change_all_among :
    (r : ℕ) (qs : List ℕ) (g : Registry)
    → Any (λ q. q ≡ r) qs
    → r < g.registered
    → Entries (IsWithout r) g.subs
    → IsSilent r (change_all qs give_up g)
change_all_among r [] g a lt free = elim a [ ]
change_all_among r (q ∷ qs) g (inl e) lt free =
    change_all-IsSilent r qs give_up (change q give_up g) (λ _ _. refl)
      (
        ap (λ op. op.completed)
            (put_operation_same q r (give_up (g.operations q)) g.operations (sym e)),
        lt,
        free,
      )
change_all_among r (q ∷ qs) g (inr a) lt free = change_all_among r qs (change q give_up g) a lt free

module _ (is_subscribe : String → Bool) where
  -- Once a registry has handled the finish of an operation that it has registered, no later command
  -- writes a message to the operation.
  pub finish_request-silent :
      (r : ℕ) (g : Registry) (es : List Event)
      → r < g.registered
      → IsRegistry g
      → All (NotTo r) (run_events is_subscribe es (finish_request r g).0).1
  finish_request-silent r g es lt h =
      (run_events-StaysSilent is_subscribe r es (finish_request r g).0
        (finish_request-IsSilent r g lt h)).1

  -- Once a registry has cancelled everything, no later command writes a message to a registered
  -- operation that it held then, as a request or in a subscription.
  pub cancel_all-silent :
      (r : ℕ) (g : Registry) (es : List Event)
      → r < g.registered
      → Any (λ q. q ≡ r) (refs g.requests ++ sub_refs g.subs)
      → All (NotTo r) (run_events is_subscribe es (cancel_all g).0).1
  cancel_all-silent r g es lt a =
      (run_events-StaysSilent is_subscribe r es (cancel_all g).0 (
        change_all_among r (refs g.requests ++ sub_refs g.subs)
          (record g { requests = []; subs = [] }) a lt tt)).1
