-- ===== src/Ws/Registry/Held.antt =====
-- internal/upstreams/ws/registry_commands.go: which operations the maps of the registry hold.
use nodecore.Base.{
  ℕ, suc, ◌<◌, false, String, List, [], ◌∷◌, ◌≡◌, ◌≢◌, refl, inl, inr, arith, ap, sym, subst, ◌∙◌,
  if_pos, if_neg, string_dec, ℕ_discrete, Option-cases,
}
use nodecore.Keyed.{load, Entries, IsMap, store-Entries, delete-Entries, map-Entries}
use nodecore.Ws.Registry.{
  Operation, new_operation, Subscription, Registry, give_up, put_operation, change, change_all,
  register_operation, drop_request, abort_request, is_empty,
}

-- An operation that is registered, stands under its id, and has the given subscription.
abbrev pub Member : (ℕ → Operation) → ℕ → List ℕ → String → ℕ → Type 0
Member operations n sub_id id r =
    (r < n) × ((operations r).id ≡ id) × ((operations r).sub_id ≡ sub_id)

abbrev pub HasMembers : (ℕ → Operation) → ℕ → List ℕ → Subscription → Type 0
HasMembers operations n sub_id sub =
    (sub_id ≢ [])
    × (is_empty sub.ops ≡ false)
    × IsMap sub.ops
    × Entries (Member operations n sub_id) sub.ops

-- The requests are operations with no subscription; a subscription has operations, each of them its
-- own, and no two operations of a subscription have one id.
abbrev pub IsRegistry : Registry → Type 0
IsRegistry g =
    Entries (Member g.operations g.registered []) g.requests
    × Entries (HasMembers g.operations g.registered) g.subs
    × IsMap g.subs

-- What the operations were is what they are, as far as the maps go.
abbrev pub Carries : (ℕ → Operation) → ℕ → (ℕ → Operation) → ℕ → List ℕ → Type 0
Carries ops n ops' n' s = (k : String) (q : ℕ) → Member ops n s k q → Member ops' n' s k q

pub Carries-HasMembers :
    (ops ops' : ℕ → Operation) (n n' : ℕ) (s : List ℕ) (sub : Subscription)
    → (s ≢ [] → Carries ops n ops' n' s)
    → HasMembers ops n s sub
    → HasMembers ops' n' s sub
Carries-HasMembers ops ops' n n' s sub f (h, e, m, all) =
    (h, e, m, map-Entries (Member ops n s) (Member ops' n' s) sub.ops (f h) all)

-- What a member is asked of its operation.
abbrev Fits : ℕ → List ℕ → String → ℕ → Operation → Type 0
Fits n s k q op = (q < n) × (op.id ≡ k) × (op.sub_id ≡ s)

pub put_operation_other :
    (r q : ℕ) (op : Operation) (ops : ℕ → Operation) → q ≢ r → put_operation r op ops q ≡ ops q
put_operation_other r q op ops d = if_neg (ℕ_discrete q r) d op (ops q)

pub put_operation_same :
    (r q : ℕ) (op : Operation) (ops : ℕ → Operation) → q ≡ r → put_operation r op ops q ≡ op
put_operation_same r q op ops e = if_pos (ℕ_discrete q r) e op (ops q)

pub put_other-Member :
    (ops : ℕ → Operation) (n : ℕ) (s : List ℕ) (k : String) (q r : ℕ) (op : Operation)
    → q ≢ r
    → Member ops n s k q
    → Member (put_operation r op ops) n s k q
put_other-Member ops n s k q r op d h =
    subst (Fits n s k q) (sym (put_operation_other r q op ops d)) h

abbrev pub Keeps : (Operation → Operation) → Type 0
Keeps f = (op : Operation) → ((f op).id ≡ op.id) × ((f op).sub_id ≡ op.sub_id)

change-Member :
    (ops : ℕ → Operation) (n : ℕ) (s : List ℕ) (r : ℕ) (f : Operation → Operation)
    → Keeps f
    → Carries ops n (put_operation r (f (ops r)) ops) n s
change-Member ops n s r f keeps k q (lt, id, sub) = elim (ℕ_discrete q r) [
  | yes e ↦ subst (Fits n s k q) (sym (put_operation_same r q (f (ops r)) ops e)) (
    lt,
    (keeps (ops r)).0 ∙ ap (λ p. (ops p).id) (sym e) ∙ id,
    (keeps (ops r)).1 ∙ ap (λ p. (ops p).sub_id) (sym e) ∙ sub,
  )
  | no e ↦ put_other-Member ops n s k q r (f (ops r)) e (lt, id, sub)
]

pub change-IsRegistry :
    (r : ℕ) (f : Operation → Operation) (g : Registry)
    → Keeps f
    → IsRegistry g
    → IsRegistry (change r f g)
change-IsRegistry r f g keeps (pending, subs, once) =
    let ops = g.operations in
    let n = g.registered in
    let after = put_operation r (f (ops r)) ops in
    (
      map-Entries (Member ops n []) (Member after n []) g.requests
          (change-Member ops n [] r f keeps) pending,
      map-Entries (HasMembers ops n) (HasMembers after n) g.subs
          (λ s sub. Carries-HasMembers ops after n n s sub (λ _. change-Member ops n s r f keeps))
          subs,
      once,
    )

pub change_all-IsRegistry :
    (rs : List ℕ) (f : Operation → Operation) (g : Registry)
    → Keeps f
    → IsRegistry g
    → IsRegistry (change_all rs f g)
change_all-IsRegistry [] f g keeps h = h
change_all-IsRegistry (r ∷ rs) f g keeps h =
    change_all-IsRegistry rs f (change r f g) keeps (change-IsRegistry r f g keeps h)

pub drop_request-IsRegistry :
    (id : String) (g : Registry) → IsRegistry g → IsRegistry (drop_request id g)
drop_request-IsRegistry id g (pending, subs, once) = (
  delete-Entries (Member g.operations g.registered []) string_dec id g.requests pending,
  subs,
  once,
)

registers-Member :
    (ops : ℕ → Operation) (n : ℕ) (s : List ℕ) (op : Operation)
    → Carries ops n (put_operation n op ops) (suc n) s
registers-Member ops n s op k q (lt, id, sub) =
    let d : q ≢ n = omega arith in
    let more : q < suc n = omega arith in put_other-Member ops (suc n) s k q n op d (more, id, sub)

pub register_operation-IsRegistry :
    (id method sub_type : String) (g : Registry)
    → IsRegistry g
    → IsRegistry (register_operation id method sub_type g)
register_operation-IsRegistry id method sub_type g (pending, subs, once) =
    let ops = g.operations in
    let n = g.registered in
    let op = new_operation id method sub_type in
    let after = put_operation n op ops in
    let here : Member after (suc n) [] id n =
      let lt : n < suc n = omega arith in
      subst (Fits (suc n) [] id n) (sym (put_operation_same n n op ops refl)) (lt, refl, refl) in
    (
      store-Entries (Member after (suc n) []) string_dec id n g.requests here (
          map-Entries (Member ops n []) (Member after (suc n) []) g.requests
            (registers-Member ops n [] op) pending),
      map-Entries (HasMembers ops n) (HasMembers after (suc n)) g.subs
          (λ s sub. Carries-HasMembers ops after n (suc n) s sub (λ _. registers-Member ops n s op))
          subs,
      once,
    )

pub abort_request-IsRegistry :
    (id : String) (g : Registry) → IsRegistry g → IsRegistry (abort_request id g)
unfolding abort_request
abort_request-IsRegistry id g h = elim (Option-cases (load string_dec id g.requests)) [
  | inl e ↦ rw (abort_request, e) h
  | inr (r, e) ↦
      rw (abort_request, e)
        (change-IsRegistry r give_up (drop_request id g) (λ _. (refl, refl))
          (drop_request-IsRegistry id g h))
]
