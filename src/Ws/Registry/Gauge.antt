-- ===== src/Ws/Registry/Gauge.antt =====
-- internal/upstreams/ws/registry_commands.go: the gauge of subscriptions.
use nodecore.Base.{
  ℕ, ◌+◌, not, ◌&&◌, String, List, [], ◌∷◌, ◌++◌, some, ◌≡◌, refl, inl, inr, arith, ite, string_dec,
  bytes_dec, Option-cases, Bool-cases,
}
use nodecore.Keyed.{load, store, delete, total, total-store_new, total-store_old, total-delete}
use nodecore.Ws.Registry.{
  Operation, WsResponse, Subscription, Registry, Effect, written, connected, disconnected,
  should_close, change, change_all, abort_request, join, is_empty, join_if_open, writes,
  subscription_message, leave, leave_if_held,
}
use nodecore.Ws.Registry.Held.{IsRegistry}

-- The subscriptions of a type, and how often the gauge of the type moves up and down.
abbrev weight : String → Subscription → ℕ
weight t sub = ite (string_dec sub.sub_type t) 1 0

abbrev pub open_subs : String → Registry → ℕ
open_subs t g = total (weight t) g.subs

abbrev pub ups : String → List Effect → ℕ
ups t [] = 0
ups t (connected s ∷ es) = ite (string_dec s t) 1 0 + ups t es
ups t (_ ∷ es) = ups t es

abbrev pub downs : String → List Effect → ℕ
downs t [] = 0
downs t (disconnected s ∷ es) = ite (string_dec s t) 1 0 + downs t es
downs t (_ ∷ es) = downs t es

pub ups-append : (t : String) (es fs : List Effect) → ups t (es ++ fs) ≡ ups t es + ups t fs
ups-append t [] fs = omega arith
ups-append t (written r response ∷ es) fs = ups-append t es fs
ups-append t (connected s ∷ es) fs = omega (arith, ups-append t es fs)
ups-append t (disconnected s ∷ es) fs = ups-append t es fs
ups-append t (should_close r b ∷ es) fs = ups-append t es fs

pub downs-append : (t : String) (es fs : List Effect) → downs t (es ++ fs) ≡ downs t es + downs t fs
downs-append t [] fs = omega arith
downs-append t (written r response ∷ es) fs = downs-append t es fs
downs-append t (connected s ∷ es) fs = downs-append t es fs
downs-append t (disconnected s ∷ es) fs = omega (arith, downs-append t es fs)
downs-append t (should_close r b ∷ es) fs = downs-append t es fs

abbrev pub IsBalanced : String → Registry → Registry × List Effect → Type 0
IsBalanced t g o = ups t o.1 + open_subs t g ≡ downs t o.1 + open_subs t o.0

pub change_all-open_subs :
    (t : String) (rs : List ℕ) (f : Operation → Operation) (g : Registry)
    → open_subs t (change_all rs f g) ≡ open_subs t g
change_all-open_subs t [] f g = refl
change_all-open_subs t (r ∷ rs) f g = change_all-open_subs t rs f (change r f g)

pub abort_request-open_subs :
    (t : String) (id : String) (g : Registry) → open_subs t (abort_request id g) ≡ open_subs t g
unfolding abort_request
abort_request-open_subs t id g = elim (Option-cases (load string_dec id g.requests)) [
  | inl e ↦ rw (abort_request, e) refl
  | inr (r, e) ↦ rw (abort_request, e) refl
]

join-IsBalanced : (t : String) (r : ℕ) (g : Registry) → IsBalanced t g (join r g)
unfolding join
join-IsBalanced t r g =
    let op = g.operations r in
    elim (Option-cases (load bytes_dec op.sub_id g.subs)) [
      | inl e ↦
          let sub : Subscription = record { sub_type = op.sub_type; ops = (op.id, r) ∷ [] } in
          rw (join, e) (omega (arith, total-store_new bytes_dec (weight t) op.sub_id sub g.subs e))
      | inr (sub, e) ↦
          let more : Subscription = record sub { ops = store string_dec op.id r sub.ops } in
          rw (join, e)
            (omega (arith, total-store_old bytes_dec (weight t) op.sub_id more sub g.subs e))
    ]

pub join_if_open-IsBalanced :
    (t : String) (r : ℕ) (g : Registry) → IsBalanced t g (join_if_open r g)
unfolding join_if_open
join_if_open-IsBalanced t r g =
    let op = g.operations r in
    elim (Bool-cases (not (is_empty op.sub_id) && not op.completed)) [
      | inl e ↦ rw (join_if_open, e) (join-IsBalanced t r g)
      | inr e ↦ rw (join_if_open, e) refl
    ]

writes_up : (t : String) (ops : List (String × ℕ)) (m : WsResponse) → ups t (writes ops m) ≡ 0
writes_up t [] m = refl
writes_up t ((id, r) ∷ ops) m = writes_up t ops m

writes_down : (t : String) (ops : List (String × ℕ)) (m : WsResponse) → downs t (writes ops m) ≡ 0
writes_down t [] m = refl
writes_down t ((id, r) ∷ ops) m = writes_down t ops m

pub subscription_message-IsBalanced :
    (t : String) (m : WsResponse) (g : Registry) → IsBalanced t g (g, subscription_message m g)
unfolding subscription_message
subscription_message-IsBalanced t m g = elim (Option-cases (load bytes_dec m.sub_id g.subs)) [
  | inl e ↦ rw (subscription_message, e) refl
  | inr (sub, e) ↦
      rw (subscription_message, e) (omega (arith, writes_up t sub.ops m, writes_down t sub.ops m))
]

leave-IsBalanced :
    (t : String) (r : ℕ) (sub : Subscription) (g : Registry)
    → load bytes_dec (g.operations r).sub_id g.subs ≡ some sub
    → IsRegistry g
    → IsBalanced t g (leave r sub g)
unfolding leave
leave-IsBalanced t r sub g e h =
    let op = g.operations r in
    let ops = delete string_dec op.id sub.ops in
    let less : Subscription = record sub { ops = ops } in
    elim (Bool-cases (is_empty ops)) [
      | inl q ↦
          rw (leave, q)
            (omega (arith, total-delete bytes_dec (weight t) op.sub_id sub g.subs h.2 e))
      | inr q ↦
          rw (leave, q)
            (omega (arith, total-store_old bytes_dec (weight t) op.sub_id less sub g.subs e))
    ]

pub leave_if_held-IsBalanced :
    (t : String) (r : ℕ) (g : Registry) → IsRegistry g → IsBalanced t g (leave_if_held r g)
unfolding leave_if_held
leave_if_held-IsBalanced t r g h =
    let op = g.operations r in
    elim (Bool-cases (is_empty op.sub_id)) [
      | inl e ↦ rw (leave_if_held, e) refl
      | inr e ↦ elim (Option-cases (load bytes_dec op.sub_id g.subs)) [
        | inl q ↦ rw (leave_if_held, e, q) refl
        | inr (sub, q) ↦ rw (leave_if_held, e, q) (leave-IsBalanced t r sub g q h)
      ]
    ]
