-- ===== src/Ws/Registry.antt =====
-- internal/upstreams/ws/registry_commands.go, with request_registry.go, the operations of data.go and
-- ResultAsString of internal/protocol/response.go. One goroutine takes the commands in turn. The
-- operations are shared by pointer: here by their number in `operations`, in the order in which they
-- were registered.
pub mod Held
pub mod Kept
pub mod Reached
pub mod Gauge
pub mod Balance
pub mod Silent
pub mod Finished
pub mod Quiet
mod Tests
use nodecore.Base.{
  ℕ, zero, suc, ◌+◌, Bool, true, false, not, ◌&&◌, ◌==◌, String, List, [], ◌∷◌, ◌++◌, Option, none,
  some, if◌then◌else◌, ite, string_dec, bytes_dec, ℕ_discrete, map,
}
use nodecore.Keyed.{load, store, delete}

-- GenericRequestOp, without its channels and callbacks. Strings that come from messages are bytes.
pub record Operation : Type 0 where
  pub id : String
  pub method : String
  pub sub_type : String
  pub sub_id : List ℕ
  pub sub_id_as_bytes : List ℕ
  pub completed : Bool
  pub skip_do_on_close : Bool

abbrev pub new_operation : String → String → String → Operation
new_operation id method sub_type = record {
  id = id;
  method = method;
  sub_type = sub_type;
  sub_id = [];
  sub_id_as_bytes = [];
  completed = false;
  skip_do_on_close = false;
}

-- What the registry reads of a message.
pub record WsResponse : Type 0 where
  pub id : String
  pub sub_id : List ℕ
  pub message : List ℕ
  pub has_error : Bool

pub record Subscription : Type 0 where
  pub sub_type : String
  pub ops : List (String × ℕ)

pub record Registry : Type 0 where
  pub requests : List (String × ℕ)
  pub subs : List (List ℕ × Subscription)
  pub operations : ℕ → Operation
  pub registered : ℕ

-- Numbers that are not registered yet stand for nothing.
abbrev pub new_registry : Registry
new_registry = record {
  requests = [];
  subs = [];
  operations = λ _. new_operation "" "" "";
  registered = 0;
}

-- A message that is written to an operation, the gauge of subscriptions of a type moved up or down,
-- and the answer of a finish command, on which the caller closes the subscription at the upstream.
pub data Effect : Type 0 where
  written : ℕ → WsResponse → Effect
  connected disconnected : String → Effect
  should_close : ℕ → Bool → Effect

-- ResultAsString: a text without its quotes. (The source panics on a lone quote, which is no JSON.)
abbrev last_is_quote : List ℕ → Bool
last_is_quote [] = false
last_is_quote (c ∷ []) = c == b'"'
last_is_quote (c ∷ d ∷ cs) = last_is_quote (d ∷ cs)

abbrev without_last : List ℕ → List ℕ
without_last [] = []
without_last (c ∷ []) = []
without_last (c ∷ d ∷ cs) = c ∷ without_last (d ∷ cs)

abbrev pub result_as_string : List ℕ → List ℕ
result_as_string [] = []
result_as_string (c ∷ cs) = if c == b'"' && last_is_quote (c ∷ cs) then without_last cs else c ∷ cs

abbrev pub set_sub_id : List ℕ → Operation → Operation
set_sub_id message op = record op { sub_id = result_as_string message; sub_id_as_bytes = message }

abbrev pub set_skip_do_on_close : Operation → Operation
set_skip_do_on_close op = record op { skip_do_on_close = true }

abbrev pub cancel : Operation → Operation
cancel op = record op { completed = true }

abbrev pub give_up : Operation → Operation
give_up op = cancel (set_skip_do_on_close op)

abbrev pub put_operation : ℕ → Operation → (ℕ → Operation) → ℕ → Operation
put_operation r op operations q = ite (ℕ_discrete q r) op (operations q)

abbrev pub change : ℕ → (Operation → Operation) → Registry → Registry
change r f g = record g { operations = put_operation r (f (g.operations r)) g.operations }

abbrev pub change_all : List ℕ → (Operation → Operation) → Registry → Registry
change_all [] f g = g
change_all (r ∷ rs) f g = change_all rs f (change r f g)

abbrev pub register_operation : String → String → String → Registry → Registry
register_operation id method sub_type g = record {
  requests = store string_dec id g.registered g.requests;
  subs = g.subs;
  operations = put_operation g.registered (new_operation id method sub_type) g.operations;
  registered = suc g.registered;
}

abbrev pub drop_request : String → Registry → Registry
drop_request id g = record g { requests = delete string_dec id g.requests }

unfoldable pub abort_request : String → Registry → Registry
abort_request id g = elim (load string_dec id g.requests) [
  | none ↦ g
  | some r ↦ change r give_up (drop_request id g)
]

abbrev pub store_sub : List ℕ → Subscription → Registry → Registry
store_sub sub_id sub g = record g { subs = store bytes_dec sub_id sub g.subs }

-- The operation joins its subscription, which is made if there is none.
unfoldable pub join : ℕ → Registry → Registry × List Effect
join r g =
    let op = g.operations r in
    elim (load bytes_dec op.sub_id g.subs) [
      | none ↦ (
        store_sub op.sub_id (record { sub_type = op.sub_type; ops = (op.id, r) ∷ [] }) g,
        connected op.sub_type ∷ [],
      )
      | some sub ↦
          (store_sub op.sub_id (record sub { ops = store string_dec op.id r sub.ops }) g, [])
    ]

abbrev pub is_empty : {A : Type 0} → List A → Bool
is_empty [] = true
is_empty (x ∷ xs) = false

unfoldable pub join_if_open : ℕ → Registry → Registry × List Effect
unfolding join
join_if_open r g =
    let op = g.operations r in
    if not (is_empty op.sub_id) && not op.completed then join r g else (g, [])

abbrev pub writes : List (String × ℕ) → WsResponse → List Effect
writes [] response = []
writes ((id, r) ∷ ops) response = written r response ∷ writes ops response

unfoldable pub subscription_message : WsResponse → Registry → List Effect
subscription_message response g = elim (load bytes_dec response.sub_id g.subs) [
  | none ↦ []
  | some sub ↦ writes sub.ops response
]

-- The subscription without the operation, and the answer; the last operation takes it away.
unfoldable pub leave : ℕ → Subscription → Registry → Registry × List Effect
leave r sub g =
    let op = g.operations r in
    let ops = delete string_dec op.id sub.ops in
    if is_empty ops
    then (
      record g { subs = delete bytes_dec op.sub_id g.subs },
      disconnected sub.sub_type ∷ should_close r (not op.skip_do_on_close) ∷ [],
    )
    else (store_sub op.sub_id (record sub { ops = ops }) g, should_close r false ∷ [])

unfoldable pub leave_if_held : ℕ → Registry → Registry × List Effect
unfolding leave
leave_if_held r g =
    let op = g.operations r in
    if is_empty op.sub_id
    then (g, should_close r false ∷ [])
    else elim (load bytes_dec op.sub_id g.subs) [
      | none ↦ (g, should_close r false ∷ [])
      | some sub ↦ leave r sub g
    ]

abbrev pub finish_request : ℕ → Registry → Registry × List Effect
finish_request r g = leave_if_held r (change r cancel g)

abbrev pub refs : List (String × ℕ) → List ℕ
refs [] = []
refs ((id, r) ∷ ops) = r ∷ refs ops

abbrev pub sub_refs : List (List ℕ × Subscription) → List ℕ
sub_refs [] = []
sub_refs ((sub_id, sub) ∷ subs) = refs sub.ops ++ sub_refs subs

abbrev pub disconnections : List (List ℕ × Subscription) → List Effect
disconnections [] = []
disconnections ((sub_id, sub) ∷ subs) = disconnected sub.sub_type ∷ disconnections subs

abbrev pub cancel_all : Registry → Registry × List Effect
cancel_all g = (
  change_all (refs g.requests ++ sub_refs g.subs) give_up (record g { requests = []; subs = [] }),
  disconnections g.subs,
)

-- The commands, and an operation that is cancelled outside them, on an error or at its close.
pub data Event : Type 0 where
  register_command : String → String → String → Event
  abort_command : String → Event
  rpc_command subscription_command : WsResponse → Event
  finish_command cancelled : ℕ → Event
  cancel_all_command : Event

-- `is_subscribe` is IsSubscribeMethod with the method specs.
module _ (is_subscribe : String → Bool) where
  unfoldable pub rpc_answered : WsResponse → ℕ → Registry → Registry × List Effect
  unfolding join_if_open
  rpc_answered response r g =
      if not response.has_error && is_subscribe (g.operations r).method
      then join_if_open r (change r (set_sub_id response.message) g)
      else (g, [])

  unfoldable pub rpc_taken : WsResponse → ℕ → Registry → Registry × List Effect
  unfolding rpc_answered
  rpc_taken response r g =
      let o = rpc_answered response r g in
      if (g.operations r).completed then (g, []) else (o.0, o.1 ++ written r response ∷ [])

  unfoldable pub rpc_message : WsResponse → Registry → Registry × List Effect
  unfolding rpc_taken
  rpc_message response g = elim (load string_dec response.id g.requests) [
    | none ↦ (g, [])
    | some r ↦ rpc_taken response r (drop_request response.id g)
  ]

  unfoldable pub handle_event : Event → Registry → Registry × List Effect
  unfolding abort_request rpc_message subscription_message leave_if_held
  handle_event (register_command id method sub_type) g =
      (register_operation id method sub_type g, [])
  handle_event (abort_command id) g = (abort_request id g, [])
  handle_event (rpc_command response) g = rpc_message response g
  handle_event (subscription_command response) g = (g, subscription_message response g)
  handle_event (finish_command r) g = finish_request r g
  handle_event (cancelled r) g = (change r cancel g, [])
  handle_event cancel_all_command g = cancel_all g

  unfoldable pub run_events : List Event → Registry → Registry × List Effect
  unfolding handle_event
  run_events [] g = (g, [])
  run_events (e ∷ es) g =
      let o = handle_event e g in let rest = run_events es o.0 in (rest.0, o.1 ++ rest.1)
