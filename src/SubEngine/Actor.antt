-- ===== src/SubEngine/Actor.antt =====
-- internal/upstreams/flow/subengine/engine.go: the goroutine that owns the subscribers of one key, and
-- the clients that read from their channels. An input is one case of the `select`, or one read of a
-- client; the order of the inputs stands for the interleaving.
pub mod Carried
pub mod Kept
pub mod Reached
pub mod Loads
pub mod Served
pub mod Gapless
pub mod Idle
mod Tests
use nodecore.Base.{
  ℕ, zero, suc, ◌+◌, ◌-◌, Bool, true, false, not, ◌&&◌, ◌==◌, ltb, List, [], ◌∷◌, ◌++◌, Option,
  none, some, if◌then◌else◌, length, ℕ_discrete, String,
}
use nodecore.Int.{ℤ, pos}
use nodecore.Keyed.{load, delete}

-- The code and the text of a ResponseError; its data are left out.
pub record ResponseError : Type 0 where
  pub code : ℤ
  pub message : String

abbrev pub ws_total_failure : ℤ
ws_total_failure = pos 4

abbrev pub ws_total_failure_error : ResponseError
ws_total_failure_error = record { code = ws_total_failure; message = "websocket total failure" }

abbrev pub ws_subscriber_too_slow_error : ResponseError
ws_subscriber_too_slow_error = record {
  code = ws_total_failure;
  message = "subscription dropped: subscriber too slow to keep up";
}

abbrev pub subscriber_buffer_size : ℕ
subscriber_buffer_size = 100

-- A subscriber, with what its client has read from its channel.
pub record Subscriber : Type 0 where
  pub read : List (List ℕ)
  pub ch : List (List ℕ)
  pub closed : Bool
  pub err : Option ResponseError

abbrev pub new_subscriber : Subscriber
new_subscriber = record { read = []; ch = []; closed = false; err = none }

-- The state of `run`: the subscribers of the map, those that it has let go, and its variables.
-- `buf_size` is `cmp.Or(src.Buffer, subscriberBufferSize)`; `armed` is `teardownC != nil`; `draining`
-- is `srcEvents != nil`; `done` is a closed `done`.
pub record Actor : Type 0 where
  pub buf_size : ℕ
  pub subs : List (ℕ × Subscriber)
  pub gone : List (ℕ × Subscriber)
  pub seq : ℕ
  pub refs : ℕ
  pub armed : Bool
  pub draining : Bool
  pub done : Bool

-- The actor whose source has been built with an own buffer size, or 0.
abbrev pub start_actor : ℕ → Actor
start_actor buffer = record {
  buf_size = if buffer == 0 then subscriber_buffer_size else buffer;
  subs = [];
  gone = [];
  seq = 0;
  refs = 0;
  armed = false;
  draining = false;
  done = false;
}

-- A message of the source with `Error` set is a `failure`; `ended` is its closed channel.
pub data ActorInput : Type 0 where
  ctx_done ended subscribe timer : ActorInput
  message : List ℕ → ActorInput
  failure : ResponseError → ActorInput
  unsubscribe : ℕ → ActorInput
  client_read : ℕ → ActorInput

abbrev pub close_with : ResponseError → Subscriber → Subscriber
close_with cause s = record s { closed = true; err = some cause }

abbrev pub close_all : ResponseError → List (ℕ × Subscriber) → List (ℕ × Subscriber)
close_all cause [] = []
close_all cause ((id, s) ∷ subs) = (id, close_with cause s) ∷ close_all cause subs

abbrev pub terminate : Option ResponseError → Actor → Actor
terminate none g = record g { subs = close_all ws_total_failure_error g.subs; done = true }
terminate (some cause) g = record g { subs = close_all cause g.subs; done = true }

abbrev pub send : List ℕ → Subscriber → Subscriber
send event s = record s { ch = s.ch ++ event ∷ [] }

-- The subscribers that are sent the event, and those that are disconnected since their buffer is full.
unfoldable pub send_all :
    ℕ → List ℕ → List (ℕ × Subscriber) → List (ℕ × Subscriber) × List (ℕ × Subscriber)
send_all buf_size event [] = ([], [])
send_all buf_size event ((id, s) ∷ subs) =
    let rest = send_all buf_size event subs in
    if ltb (length s.ch) buf_size
    then ((id, send event s) ∷ rest.0, rest.1)
    else (rest.0, (id, close_with ws_subscriber_too_slow_error s) ∷ rest.1)

-- The grace timer is armed when nobody is left, unless it runs already.
abbrev pub arm_if_idle : Actor → Actor
arm_if_idle g = record g { armed = if g.refs == 0 && not g.armed then true else g.armed }

unfoldable pub take_message : List ℕ → Actor → Actor
unfolding send_all
take_message event g =
    let sent = send_all g.buf_size event g.subs in
    arm_if_idle (record g { subs = sent.0; gone = sent.1 ++ g.gone; refs = g.refs - length sent.1 })

abbrev pub attach : Actor → Actor
attach g = record g {
  subs = (g.seq + 1, new_subscriber) ∷ g.subs;
  seq = g.seq + 1;
  refs = g.refs + 1;
  armed = false;
  draining = true;
}

-- A subscriber that is unknown, or was let go before, is not detached again.
unfoldable pub detach : ℕ → Actor → Actor
detach id g = elim (load ℕ_discrete id g.subs) [
  | none ↦ g
  | some s ↦
      arm_if_idle (record g {
        subs = delete ℕ_discrete id g.subs;
        gone = (id, s) ∷ g.gone;
        refs = g.refs - 1;
      })
]

-- One `select` of the loop. A case whose channel is nil, or a loop that has returned, does nothing.
unfoldable pub select_case : ActorInput → Actor → Actor
unfolding take_message detach
select_case ctx_done g = terminate (some ws_total_failure_error) g
select_case ended g = if g.draining then terminate none g else g
select_case (failure e) g = if g.draining then terminate (some e) g else g
select_case (message event) g = if g.draining then take_message event g else g
select_case subscribe g = attach g
select_case (unsubscribe id) g = detach id g
select_case timer g = if g.armed && g.refs == 0 then terminate none g else g
select_case (client_read id) g = g

-- A client takes the first event of its channel.
abbrev pub take_event : Subscriber → Subscriber
take_event s = elim s.ch [ [] ↦ s | e ∷ es ↦ record s { read = s.read ++ e ∷ []; ch = es } ]

abbrev pub read_from : ℕ → List (ℕ × Subscriber) → List (ℕ × Subscriber)
read_from id [] = []
read_from id ((j, s) ∷ subs) = (j, if j == id then take_event s else s) ∷ read_from id subs

abbrev pub read_one : ℕ → Actor → Actor
read_one id g = record g { subs = read_from id g.subs; gone = read_from id g.gone }

unfoldable pub take_turn : ActorInput → Actor → Actor
unfolding select_case
take_turn (client_read id) g = read_one id g
take_turn input g = if g.done then g else select_case input g

unfoldable pub run : List ActorInput → Actor → Actor
unfolding take_turn
run [] g = g
run (i ∷ is) g = run is (take_turn i g)
