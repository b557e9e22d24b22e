-- ===== src/SubEngine/Actor/Reached.antt =====
-- internal/upstreams/flow/subengine/engine.go: the states that `run` reaches.
use nodecore.Base.{
  ℕ, Bool, true, false, ◌&&◌, ◌==◌, List, [], ◌∷◌, ◌≡◌, refl, inl, inr, arith, if_true, if_false,
  if◌then◌else◌, Bool-cases,
}
use nodecore.SubEngine.Actor.{
  ws_total_failure_error, Actor, start_actor, ActorInput, ctx_done, ended, subscribe, timer,
  message, failure, unsubscribe, client_read, select_case, take_turn, run,
}
use nodecore.SubEngine.Actor.Kept.{
  IsActor, close_all-IsActor, take_message-IsActor, attach-IsActor, detach-IsActor,
  read_one-IsActor,
}

guarded :
    (b : Bool) (f g : Actor) → (b ≡ true → IsActor f) → IsActor g → IsActor (if b then f else g)
guarded true f g h i = h refl
guarded false f g h i = i

select_case-IsActor :
    (i : ActorInput) (g : Actor) → g.done ≡ false → IsActor g → IsActor (select_case i g)
unfolding select_case
select_case-IsActor ctx_done g d h = close_all-IsActor ws_total_failure_error g h
select_case-IsActor ended g d h =
    guarded g.draining _ g (λ e. close_all-IsActor ws_total_failure_error g h) h
select_case-IsActor (failure cause) g d h =
    guarded g.draining _ g (λ e. close_all-IsActor cause g h) h
select_case-IsActor (message event) g d h =
    guarded g.draining _ g (λ e. take_message-IsActor event g e d h) h
select_case-IsActor subscribe g d h = attach-IsActor g d h
select_case-IsActor (unsubscribe id) g d h = detach-IsActor id g d h
select_case-IsActor timer g d h =
    guarded (g.armed && g.refs == 0) _ g (λ e. close_all-IsActor ws_total_failure_error g h) h
select_case-IsActor (client_read id) g d h = h

unless_done :
    (i : ActorInput) (g : Actor) → IsActor g → IsActor (if g.done then g else select_case i g)
unless_done i g h = elim (Bool-cases g.done) [
  | inl e ↦ rw (if_true _ _ e) h
  | inr e ↦ rw (if_false _ _ e) (select_case-IsActor i g e h)
]

pub take_turn-IsActor : (i : ActorInput) (g : Actor) → IsActor g → IsActor (take_turn i g)
unfolding take_turn
take_turn-IsActor (client_read id) g h = read_one-IsActor id g h
take_turn-IsActor ctx_done g h = unless_done ctx_done g h
take_turn-IsActor ended g h = unless_done ended g h
take_turn-IsActor subscribe g h = unless_done subscribe g h
take_turn-IsActor timer g h = unless_done timer g h
take_turn-IsActor (message event) g h = unless_done (message event) g h
take_turn-IsActor (failure cause) g h = unless_done (failure cause) g h
take_turn-IsActor (unsubscribe id) g h = unless_done (unsubscribe id) g h

pub run-IsActor : (is : List ActorInput) (g : Actor) → IsActor g → IsActor (run is g)
unfolding run
run-IsActor [] g h = h
run-IsActor (i ∷ is) g h = run-IsActor is (take_turn i g) (take_turn-IsActor i g h)

pub start_actor-IsActor : (buffer : ℕ) → IsActor (start_actor buffer)
start_actor-IsActor buffer = record {
  is_map = tt;
  subs = (tt, tt);
  counts = (refl, omega arith, refl, refl);
}

-- Whatever the order of its inputs, an actor that starts counts its subscribers, has the grace timer armed exactly
-- when there were subscribers and none is left, and closes a channel exactly when it sets the cause,
-- within its capacity, and only once it has ended or has let the subscriber go.
pub run-start_actor-IsActor :
    (buffer : ℕ) (is : List ActorInput) → IsActor (run is (start_actor buffer))
run-start_actor-IsActor buffer is = run-IsActor is (start_actor buffer) (start_actor-IsActor buffer)
