-- ===== src/Ws/Registry/Kept.antt =====
-- internal/upstreams/ws/registry_commands.go: every command leaves a registry.
use nodecore.Base.{
  ℕ, ◌<◌, false, not, ◌&&◌, String, List, [], ◌∷◌, some, ◌≡◌, ◌≢◌, refl, inl, inr, arith, ap, sym,
  ◌∙◌, string_dec, bytes_dec, Option-cases, Bool-cases,
}
use nodecore.Keyed.{
  load, store, delete, store-Entries, delete-Entries, load-Entries, store-IsMap, delete-IsMap,
  map-Entries, both-Entries, delete-Absent,
}
use nodecore.Ws.Registry.{
  Subscription, Registry, set_sub_id, put_operation, change, drop_request, join, is_empty,
  join_if_open, leave, leave_if_held,
}
use nodecore.Ws.Registry.Held.{Member, HasMembers, IsRegistry, Carries-HasMembers, put_other-Member}

pub not_empty : {A : Type 0} (xs : List A) → is_empty xs ≡ false → xs ≢ []
not_empty [] h e = cc
not_empty (x ∷ xs) h e = cc

is_empty-store :
    (id : String) (r : ℕ) (ops : List (String × ℕ)) → is_empty (store string_dec id r ops) ≡ false
unfolding store
is_empty-store id r [] = refl
is_empty-store id r ((j, q) ∷ ops) = ground arith

join-IsRegistry :
    (r : ℕ) (g : Registry)
    → r < g.registered
    → (g.operations r).sub_id ≢ []
    → IsRegistry g
    → IsRegistry (join r g).0
unfolding join
join-IsRegistry r g lt ne (pending, subs, once) =
    let op = g.operations r in
    let P = HasMembers g.operations g.registered in
    elim (Option-cases (load bytes_dec op.sub_id g.subs)) [
      | inl e ↦
          let sub : Subscription = record { sub_type = op.sub_type; ops = (op.id, r) ∷ [] } in
          rw (join, e)
            (
              pending,
              store-Entries P bytes_dec op.sub_id sub g.subs
                  (ne, refl, (tt, tt), ((lt, refl, refl), tt)) subs,
              store-IsMap bytes_dec op.sub_id sub g.subs once,
            )
      | inr (sub, e) ↦
          let (h, full, map, all) = load-Entries P bytes_dec op.sub_id sub g.subs subs e in
          let more : Subscription = record sub { ops = store string_dec op.id r sub.ops } in
          rw (join, e)
            (
              pending,
              store-Entries P bytes_dec op.sub_id more g.subs
                  (
                    ne,
                    is_empty-store op.id r sub.ops,
                    store-IsMap string_dec op.id r sub.ops map,
                    store-Entries (Member g.operations g.registered op.sub_id) string_dec op.id r
                        sub.ops (lt, refl, refl) all,
                  )
                  subs,
              store-IsMap bytes_dec op.sub_id more g.subs once,
            )
    ]

pub join_if_open-IsRegistry :
    (r : ℕ) (g : Registry) → r < g.registered → IsRegistry g → IsRegistry (join_if_open r g).0
unfolding join_if_open
join_if_open-IsRegistry r g lt h =
    let op = g.operations r in
    elim (Bool-cases (not (is_empty op.sub_id) && not op.completed)) [
      | inl e ↦ rw (join_if_open, e) (join-IsRegistry r g lt (not_empty op.sub_id (ground arith)) h)
      | inr e ↦ rw (join_if_open, e) h
    ]

-- An operation that a request waits for may be given a subscription once the request is gone.
pub set_sub_id-IsRegistry :
    (message : List ℕ) (id : String) (r : ℕ) (g : Registry)
    → Member g.operations g.registered [] id r
    → IsRegistry g
    → IsRegistry (change r (set_sub_id message) (drop_request id g))
set_sub_id-IsRegistry message id r g (lt, at, free) (pending, subs, once) =
    let ops = g.operations in
    let n = g.registered in
    let op = set_sub_id message (ops r) in
    let rest = delete string_dec id g.requests in
    (
      map-Entries (λ k q. (k ≢ id) × Member ops n [] k q) (Member (put_operation r op ops) n [])
          rest
          (λ k q b.
            put_other-Member ops n [] k q r op (λ e. b.0 (sym b.1.1 ∙ ap (λ p. (ops p).id) e ∙ at))
              b.1)
          (both-Entries (λ k _. k ≢ id) (Member ops n []) rest
            (delete-Absent string_dec id g.requests)
            (delete-Entries (Member ops n []) string_dec id g.requests pending)),
      map-Entries (HasMembers ops n) (HasMembers (put_operation r op ops) n) g.subs
          (λ s sub. Carries-HasMembers ops (put_operation r op ops) n n s sub (λ ne k q b.
            put_other-Member ops n s k q r op
              (λ e. ne (sym b.2 ∙ ap (λ p. (ops p).sub_id) e ∙ free)) b))
          subs,
      once,
    )

leave-IsRegistry :
    (r : ℕ) (sub : Subscription) (g : Registry)
    → load bytes_dec (g.operations r).sub_id g.subs ≡ some sub
    → IsRegistry g
    → IsRegistry (leave r sub g).0
unfolding leave
leave-IsRegistry r sub g e (pending, subs, once) =
    let op = g.operations r in
    let P = HasMembers g.operations g.registered in
    let (h, full, map, all) = load-Entries P bytes_dec op.sub_id sub g.subs subs e in
    let ops = delete string_dec op.id sub.ops in
    let less : Subscription = record sub { ops = ops } in
    elim (Bool-cases (is_empty ops)) [
      | inl q ↦
          rw (leave, q)
            (
              pending,
              delete-Entries P bytes_dec op.sub_id g.subs subs,
              delete-IsMap bytes_dec op.sub_id g.subs once,
            )
      | inr q ↦
          rw (leave, q)
            (
              pending,
              store-Entries P bytes_dec op.sub_id less g.subs
                  (
                    h,
                    q,
                    delete-IsMap string_dec op.id sub.ops map,
                    delete-Entries (Member g.operations g.registered op.sub_id) string_dec op.id
                        sub.ops all,
                  )
                  subs,
              store-IsMap bytes_dec op.sub_id less g.subs once,
            )
    ]

pub leave_if_held-IsRegistry :
    (r : ℕ) (g : Registry) → IsRegistry g → IsRegistry (leave_if_held r g).0
unfolding leave_if_held
leave_if_held-IsRegistry r g h =
    let op = g.operations r in
    elim (Bool-cases (is_empty op.sub_id)) [
      | inl e ↦ rw (leave_if_held, e) h
      | inr e ↦ elim (Option-cases (load bytes_dec op.sub_id g.subs)) [
        | inl q ↦ rw (leave_if_held, e, q) h
        | inr (sub, q) ↦ rw (leave_if_held, e, q) (leave-IsRegistry r sub g q h)
      ]
    ]
